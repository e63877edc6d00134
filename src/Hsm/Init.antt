-- ===== src/Hsm/Init.antt =====
-- glb_hsm_init, glb_hsm_ctor and hsm_init.
use general_purpose_library.Prelude.{ℕ, zero, suc, ◌+◌, List, ◌==◌, if◌then◌else◌}
use general_purpose_library.Hsm.{
  State, root, empty_sig, Chart, Machine, Run, no_fuel, M, pure, ◌>>=◌, ◌>>◌, get_next, set_next,
  set_cur, attach, load, store, call_handler, enter_path,
}

-- The constructor makes the root the current state; the rest of the static machine stays.
abbrev pub glb_hsm_ctor : State → Machine → Machine
glb_hsm_ctor initial m = record m { cur_state = root; next_state = initial }

module _ (c : Chart) where
  -- `while (hsm->next_state != cur_state)`: record the path up to the state `stop`.
  unfoldable pub climb : ℕ → State → ℕ → List State → M (ℕ × List State)
  unfolding store
  climb zero stop ip path = λ _. no_fuel
  climb (suc fuel) stop ip path = do
    n ← get_next
    if n == stop then pure (ip, path) else do
      path' ← store path (ip + 1) n
      attach n
      call_handler c n empty_sig
      climb fuel stop (ip + 1) path'

  -- The part after the loop: the recorded path is entered in reverse, and its first state becomes
  -- the current state.
  abbrev pub retrace : ℕ × List State → M (Unit {0})
  retrace (ip, path) = do
    first ← load path 0
    set_next first
    enter_path c path (ip + 1)
    target ← load path 0
    set_cur target
    set_next target

  -- `stack` is what the local array `path` holds on entry.
  unfoldable pub glb_hsm_init : ℕ → List State → M (Unit {0})
  unfolding load store
  glb_hsm_init fuel stack m = run m
    where
      run : M (Unit {0})
      run = do
        n ← get_next
        path ← store stack 0 n
        attach n
        call_handler c n empty_sig
        recorded ← climb fuel m.cur_state 0 path
        retrace recorded

  -- the constructor, and the call through the table of `init`
  unfoldable pub hsm_init : ℕ → List State → State → Machine → Run (Unit {0})
  hsm_init fuel stack initial m = glb_hsm_init fuel stack (glb_hsm_ctor initial m)
