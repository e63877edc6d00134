-- ===== src/Hsm/Tests.antt =====
-- The machine over the three level states, run.
use general_purpose_library.Prelude.{
  ℕ, ◌-◌, ◌==◌, ◌≡◌, refl, arith, true, false, some, inl, if◌then◌else◌, List, [], ◌∷◌, replicate,
}
use general_purpose_library.Hsm.{
  State, root, Chart, status, up, tran, Action, entered, exited, Machine, Run, done, fault, load,
  store, reply_of, entry_of, exit_of, run_exit, call_handler, get_super_state, run_entry,
  enter_path,
}
use general_purpose_library.Hsm.Init.{climb, glb_hsm_init, hsm_init}
use general_purpose_library.Hsm.Levels.{levels, level1, level2, level3}
use general_purpose_library.Hsm.Dispatch.{process, settle, glb_hsm_dispatch}
use general_purpose_library.Hsm.Transition.{
  find_in_path, search_source, exit_up, exit_source, far_transition, hsm_tran,
}
use general_purpose_library.Hsm.Meeting.{IsRegular}
use general_purpose_library.Hsm.Far.{three, IsOff-pair, IsOff-more, Transits}
use general_purpose_library.Hsm.Deep.{hsm_tran_deep}
use general_purpose_library.Hsm.Tree.{hsm_tran-Transits}
use general_purpose_library.Hsm.Chains.{Ancestors, top, above, CanEnter, mark_all, machine}
use general_purpose_library.Hsm.Entering.{hsm_init-enters}
use general_purpose_library.Hsm.Events.{
  IsTree, NeverReturns, glb_hsm_dispatch_loses_state, glb_hsm_dispatch_tran,
}

abbrev blank : Machine
blank = record { cur_state = root; next_state = root; attached = λ _. false; log = [] }

abbrev stack : List State
stack = replicate 4 9

-- What a run leaves to be seen: the current state, the next one and the actions.
abbrev seen : {A : Type 0} → Run A → List ℕ × List Action
seen (done a m) = (m.cur_state ∷ m.next_state ∷ [], m.log)
seen fault = ([], [])
seen Run.halted = ([], [])
seen Run.no_fuel = ([], [])

init_level3 :
    seen (hsm_init levels 9 stack level3 blank)
    ≡ (level3 ∷ level3 ∷ [], entered level1 ∷ entered level2 ∷ entered level3 ∷ [])
unfolding hsm_init glb_hsm_init climb load store call_handler enter_path run_entry reply_of entry_of
    levels
init_level3 = refl

-- Starting at level 3 and handling LEVEL_START_SIG there ends in the root, with no exit action.
dispatch_start :
    seen (glb_hsm_dispatch levels 9 stack 1 (machine level3 level3 (λ _. true) []))
    ≡ (root ∷ root ∷ [], [])
unfolding glb_hsm_dispatch settle process call_handler get_super_state reply_of levels
dispatch_start = refl

levels_chain : Ancestors levels level3 (level3 ∷ level2 ∷ level1 ∷ [])
unfolding levels
levels_chain = above (omega arith) refl (above (omega arith) refl (top (omega arith) refl))

levels-CanEnter : CanEnter levels (level3 ∷ level2 ∷ level1 ∷ [])
unfolding levels
levels-CanEnter =
    ((omega arith, (0, refl)), ((omega arith, (0, refl)), ((omega arith, (0, refl)), tt)))

hsm_init-enters_example :
    hsm_init levels 9 stack level3 blank
    ≡ done tt (
        machine level3 level3
          (mark_all (level3 ∷ level2 ∷ level1 ∷ []) (λ _. false))
          (entered level1 ∷ entered level2 ∷ entered level3 ∷ []))
hsm_init-enters_example =
    hsm_init-enters levels 9 stack blank levels_chain levels-CanEnter (omega arith) (omega arith)

-- A tree in which the superstate of `s` is `s - 1`: signal 7 asks state 2 for a transition to 1.
abbrev ladder : Chart
ladder = record {
  handler = λ s sig. if sig == 0 then up (s - 1) else if sig == 7 then tran 1 else status 1;
  on_entry = λ _. some 0;
  on_exit = λ _. some 0;
}

ladder_chain : Ancestors ladder 5 (5 ∷ 4 ∷ 3 ∷ 2 ∷ 1 ∷ [])
ladder_chain = above (omega arith) refl (
    above (omega arith) refl
      (above (omega arith) refl (above (omega arith) refl (top (omega arith) refl))))

glb_hsm_dispatch_loses_state_example :
    glb_hsm_dispatch levels 9 stack 2 (machine level3 level3 (λ _. true) [])
    ≡ done tt (machine root root (λ _. true) [])
unfolding levels
glb_hsm_dispatch_loses_state_example =
    glb_hsm_dispatch_loses_state levels 2 9 stack level3 (λ _. true) [] levels_chain
      (inl refl, (inl refl, (inl refl, tt))) (refl, (refl, (refl, tt))) (omega arith)

ladder-IsTree : IsTree ladder
ladder-IsTree = record { rank = λ s. s; superstate = λ s ne. (s - 1, refl, omega arith) }

glb_hsm_dispatch_tran_example :
    NeverReturns (glb_hsm_dispatch ladder 9 stack 7 (machine 2 2 (λ _. true) []))
unfolding process call_handler reply_of
glb_hsm_dispatch_tran_example =
    glb_hsm_dispatch_tran ladder ladder-IsTree 9 stack 7 (machine 2 2 (λ _. true) [])
      (machine 2 1 (λ _. true) []) 2 4 refl (omega arith)

-- Two branches below state 1: 3 below 2, and 5 below 4
abbrev superstate : State → State
superstate s = if s == 4 then 1 else s - 1

abbrev fork : Chart
fork = record {
  handler = λ s sig. up (superstate s);
  on_entry = λ _. some 1;
  on_exit = λ _. some 1;
}

fork-IsRegular : IsRegular fork superstate (λ s. s) (λ _. true)
fork-IsRegular = record {
  supers = λ s ne. refl;
  lower = λ s ne. ground arith;
  exits = λ s ne. refl;
  attached = λ s ne. refl;
}

from_branch_to_branch :
    hsm_tran fork 9 (3 ∷ 9 ∷ 5 ∷ 9 ∷ []) (machine 5 3 (λ _. true) [])
    ≡ done (2, 3 ∷ 2 ∷ 1 ∷ 0 ∷ []) (machine 5 1 (λ _. true) (exited 5 ∷ exited 4 ∷ []))
unfolding hsm_tran far_transition search_source exit_source exit_up find_in_path load store
    get_super_state call_handler reply_of run_exit exit_of
from_branch_to_branch = refl

hsm_tran-Transits_example :
    Transits fork superstate
      (λ s. s)
      (λ _. true)
      fork-IsRegular
      (3 ∷ 2 ∷ 1 ∷ 0 ∷ [])
      5
      5
      []
      (hsm_tran fork 9 (3 ∷ 9 ∷ 5 ∷ 9 ∷ []) (machine 5 3 (λ _. true) []))
hsm_tran-Transits_example =
    hsm_tran-Transits fork superstate (λ s. s) (λ _. true) fork-IsRegular 6 3 9 5 9 5 3 []
      (3 ∷ 2 ∷ 1 ∷ 0 ∷ []) (three (omega arith) (omega arith) refl) (omega arith) (omega arith)
      (omega arith) (omega arith)

-- State 8 has the superstates 7, 6, 5, 4 and 1.
hsm_tran_deep_example : hsm_tran fork 9 (8 ∷ 9 ∷ 3 ∷ 9 ∷ []) (machine 3 8 (λ _. true) []) ≡ fault
hsm_tran_deep_example =
    hsm_tran_deep fork superstate (λ s. s) (λ _. true) fork-IsRegular 6 8 9 3 9 3 8 [] (omega arith)
      (omega arith) (omega arith) (omega arith) (omega arith)
      (IsOff-more (7 ∷ 6 ∷ 5 ∷ []) (omega arith)
        (IsOff-more (6 ∷ 5 ∷ []) (omega arith) (IsOff-pair (omega arith) (omega arith))))
      (IsOff-pair (omega arith) (omega arith))
