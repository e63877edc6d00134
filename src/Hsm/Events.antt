-- ===== src/Hsm/Events.antt =====
-- What glb_hsm_dispatch does with an event: one that states only handle or pass up, and one that
-- makes a state ask for a transition.
use general_purpose_library.Prelude.{
  ℕ, zero, suc, ◌+◌, ◌≤◌, ◌<◌, ◌≡◌, ◌≢◌, ◌⊎◌, inl, inr, refl, sym, ap, ◌∙◌, arith, Bool, true, List,
  ◌==◌, length, length-set, get_or, get_or-set_self, set, ne→==-false, All, Bool-cases, le→leb,
}
use native.Mathlib.Decide.{dec_lt, ℕ_discrete}
use general_purpose_library.Hsm.{
  State, root, empty_sig, evt_super, evt_handled, evt_ignored, evt_tran, Chart, status, up, Action,
  Machine, Run, done, fault, halted, no_fuel, M, and_then, ◌>>=◌, ◌>>◌, set_next, load, store,
  reply_of, entry_of, call_handler, get_super_state, enter_path, run_entry,
}
use general_purpose_library.Hsm.Dispatch.{
  process, drill, take_transition, exit_to, arrive, settle, glb_hsm_dispatch,
}
use general_purpose_library.Hsm.Transition.{hsm_tran}
use general_purpose_library.Hsm.Chains.{
  Ancestors, top, above, machine, load-at, store-at, store-outside,
}

-- Every state of the chain either handles the signal or does with it what it does with the empty
-- signal, which is to name its superstate.
abbrev pub TakesNoTransition : Chart → ℕ → List State → Type 0
TakesNoTransition c sig xs =
    All (λ s. (c.handler s sig ≡ status evt_handled) ⊎ (c.handler s sig ≡ c.handler s empty_sig)) xs

abbrev pub AllAttached : (State → Bool) → List State → Type 0
AllAttached marks xs = All (λ s. marks s ≡ true) xs

module _ (c : Chart) (sig : ℕ) where
  process_step :
      (fuel : ℕ) (s p cur : State) (marks : State → Bool) (log : List Action)
      → s ≢ root
      → c.handler s empty_sig ≡ up p
      → (c.handler s sig ≡ status evt_handled) ⊎ (c.handler s sig ≡ c.handler s empty_sig)
      → marks s ≡ true
      → process c (suc fuel) sig (machine cur s marks log)
        ≡ process c fuel sig (machine cur p marks log)
  unfolding process call_handler get_super_state reply_of
  process_step fuel s p cur marks log ne h (inl handles) a =
      rw (ne→==-false s root ne, handles, h, a) refl
  process_step fuel s p cur marks log ne h (inr passes) a =
      rw (ne→==-false s root ne, passes, h, a) refl

  process-root :
      (fuel : ℕ) (cur : State) (marks : State → Bool) (log : List Action)
      → process c (suc fuel) sig (machine cur root marks log)
        ≡ done (root, evt_ignored) (machine cur root marks log)
  unfolding process call_handler reply_of
  process-root fuel cur marks log = refl

  process_chain :
      (fuel : ℕ) {s : State} {xs : List State} (cur : State) (marks : State → Bool)
      (log : List Action)
      → Ancestors c s xs
      → TakesNoTransition c sig xs
      → AllAttached marks xs
      → length xs < fuel
      → process c fuel sig (machine cur s marks log)
        ≡ done (root, evt_ignored) (machine cur root marks log)
  process_chain zero cur marks log chain takes att enough = absurd (omega arith)
  process_chain (suc zero) cur marks log (top ne h) takes att enough = absurd (omega arith)
  process_chain (suc (suc fuel)) cur marks log (top {s} ne h) takes att enough =
      process_step (suc fuel) s root cur marks log ne h takes.0 att.0
      ∙ process-root fuel cur marks log
  process_chain (suc fuel) cur marks log (above {s} {p} ne h chain) takes att enough =
      process_step fuel s p cur marks log ne h takes.0 att.0
      ∙ process_chain fuel cur marks log chain takes.1 att.1 (omega arith)

  -- An event that the states of the chain handle or pass up, with no transition, leaves the
  -- machine in the root state with no action run, whichever state was current and whichever states
  -- handled it.
  pub glb_hsm_dispatch_loses_state :
      (fuel : ℕ) (stack : List State) {s : State} {xs : List State} (cur : State)
      (marks : State → Bool) (log : List Action)
      → Ancestors c s xs
      → TakesNoTransition c sig xs
      → AllAttached marks xs
      → length xs < fuel
      → glb_hsm_dispatch c fuel stack sig (machine cur s marks log)
        ≡ done tt (machine root root marks log)
  unfolding glb_hsm_dispatch settle
  glb_hsm_dispatch_loses_state fuel stack cur marks log chain takes att enough =
      ap (λ r. and_then r (settle c fuel stack cur))
        (process_chain fuel cur marks log chain takes att enough)

-- The run does not return.
abbrev pub NeverReturns : {A : Type 0} → Run A → Type 0
NeverReturns (done a m) = ⊥
NeverReturns fault = Unit
NeverReturns halted = Unit
NeverReturns no_fuel = Unit

bind_never :
    {A B : Type 0} (r : Run A) (k : A → M B)
    → ((a : A) (m : Machine) → NeverReturns (k a m))
    → NeverReturns (and_then r k)
bind_never (done a m) k h = h a m
bind_never fault k h = tt
bind_never halted k h = tt
bind_never no_fuel k h = tt

bind_returned :
    {A B : Type 0} (r : Run A) (k : A → M B) → NeverReturns r → NeverReturns (and_then r k)
bind_returned (done a m) k h = absurd h
bind_returned fault k h = tt
bind_returned halted k h = tt
bind_returned no_fuel k h = tt

-- The superstates form a tree: every state but the root names one that is nearer to the root.
pub record IsTree (c : Chart) : Type 0 where
  pub rank : State → ℕ
  pub superstate :
      (s : State) → s ≢ root → (p : State) × (c.handler s empty_sig ≡ up p) × (rank p < rank s)

module _ (c : Chart) (tree : IsTree c) where
  -- Asking for the superstate does not return, or moves nearer to the root, or stays at it.
  super_nearer :
      (s : State) (m : Machine) {B : Type 0} (k : ℕ → M B)
      → s ≢ root
      → ((p : State)
          → tree.rank p < tree.rank s
          → NeverReturns (k evt_super (record m { next_state = p })))
      → NeverReturns (and_then (get_super_state c s m) k)
  unfolding get_super_state call_handler reply_of
  super_nearer s m k ne h =
      let (p, e, lower) = tree.superstate s ne in
      rw (ne→==-false s root ne, e)
        (elim (Bool-cases (m.attached s)) [ inl att ↦ rw att (h p lower) | inr bare ↦ rw bare tt ])

  -- Once the loop is at a state nearer to the root than the target, or at the root, it is never at
  -- the target.
  drill_never :
      (fuel : ℕ) (target : State) (ip : ℕ) (path : List State) (m : Machine)
      → target ≢ root
      → (m.next_state ≡ root) ⊎ (tree.rank m.next_state < tree.rank target)
      → NeverReturns (drill c fuel target ip path m)
  unfolding drill
  drill_never zero target ip path m ne where_at = tt
  drill_never (suc fuel) target ip path m ne where_at =
      rw (ne→==-false m.next_state target (apart where_at)) (elim (dec_lt (ip + 1) (length path)) [
        | no outside ↦ rw (store-outside path (ip + 1) m.next_state m (omega arith)) tt
        | yes inside ↦
            rw (store-at path (ip + 1) m.next_state m inside) (elim (ℕ_discrete m.next_state root) [
              | yes r ↦ at_root r (drill_never fuel target (ip + 1) path' m ne (inl r))
              | no nr ↦
                  super_nearer m.next_state m (λ _. drill c fuel target (ip + 1) path') nr
                    (λ p lower.
                      drill_never fuel target (ip + 1) path' (record m { next_state = p }) ne
                        (inr (nearer nr p lower where_at)))
            ])
      ])
    where
      path' : List State
      path' = set path (ip + 1) m.next_state

      apart :
          (m.next_state ≡ root) ⊎ (tree.rank m.next_state < tree.rank target)
          → m.next_state ≢ target
      apart (inl r) e = ne (sym e ∙ r)
      apart (inr lt) e = absurd (omega (arith, ap tree.rank e))

      at_root :
          m.next_state ≡ root
          → NeverReturns (drill c fuel target (ip + 1) path' m)
          → NeverReturns (
              and_then (get_super_state c m.next_state m) (λ _. drill c fuel target (ip + 1) path'))
      at_root r h = unfold get_super_state call_handler reply_of in rw (ap (λ t. t == root) r) h

      nearer :
          m.next_state ≢ root
          → (p : State) → tree.rank p < tree.rank m.next_state
          → (m.next_state ≡ root) ⊎ (tree.rank m.next_state < tree.rank target)
          → tree.rank p < tree.rank target
      nearer nr p lower (inl r) = absurd (nr r)
      nearer nr p lower (inr lt) = omega arith

  -- The root has no entry action.
  enter_root :
      (path : List State) (m : Machine)
      → 0 < length path
      → get_or path 0 0 ≡ root
      → {B : Type 0} (k : Unit {0} → M B) → NeverReturns (and_then (enter_path c path 1 m) k)
  unfolding enter_path run_entry entry_of
  enter_root path m room e k = rw (load-at path 0 m room, e) tt

  arrive_root :
      (fuel : ℕ) (path : List State) (cur : State) (marks : State → Bool) (log : List Action)
      → 0 < length path
      → get_or path 0 0 ≡ root
      → NeverReturns (
          and_then (get_super_state c root (machine cur root marks log)) (λ _.
            drill c fuel root 0 path >>= λ x.
            load x.1 0 >>= λ first. set_next first >> (enter_path c x.1 (x.0 + 1) >> load x.1 0)))
  unfolding get_super_state call_handler reply_of drill
  arrive_root zero path cur marks log room e = tt
  arrive_root (suc fuel) path cur marks log room e =
      rw (load-at path 0 (machine cur root marks log) room)
        (enter_root path (machine cur (get_or path 0 0) marks log) room e (λ _. load path 0))

  arrive_never :
      (fuel : ℕ) (path : List State) (new : State) (m : Machine)
      → NeverReturns (arrive c fuel path new m)
  unfolding arrive
  arrive_never fuel path new m = elim (dec_lt 0 (length path)) [
    | no empty ↦ rw (store-outside path 0 new (record m { next_state = new }) (omega arith)) tt
    | yes room ↦
        rw (store-at path 0 new (record m { next_state = new }) room) (elim (ℕ_discrete new root) [
          | no nr ↦
              super_nearer new (record m { next_state = new }) _ nr
                (λ p lower.
                  bind_returned (drill c fuel new 0 (set path 0 new) (record m { next_state = p }))
                    _
                    (drill_never fuel new 0 (set path 0 new) (record m { next_state = p }) nr
                      (inr lower)))
          | yes r ↦ rw r (
              arrive_root fuel (set path 0 root) m.cur_state m.attached m.log
                (omega (arith, length-set path 0 root)) (get_or-set_self path 0 root 0 room))
        ])
  ]

  take_transition_never :
      (fuel : ℕ) (stack : List State) (source cur : State) (m : Machine)
      → NeverReturns (take_transition c fuel stack source cur m)
  unfolding take_transition
  take_transition_never fuel stack source cur m =
      bind_never (store stack 0 m.next_state m) _ λ path₀ m₀.
        bind_never (store path₀ 1 source m₀) _ λ path₁ m₁.
          bind_never (store path₁ 2 cur m₁) _ λ path₂ m₂.
            bind_never (exit_to c fuel source cur m₂) _ λ _ m₃.
              bind_never (hsm_tran c fuel path₂ m₃) _ λ (entries, path) m₄.
                bind_never (enter_path c path entries m₄) _
                  λ _ m₅. bind_never (load path 0 m₅) _ λ new m₆. arrive_never fuel path new m₆

  -- Where the superstates form a tree, glb_hsm_dispatch never returns from an event at which the
  -- loop ends with a status of EVT_STATUS_TRAN or more, however many rounds its loops are given.
  pub glb_hsm_dispatch_tran :
      (fuel : ℕ) (stack : List State) (sig : ℕ) (m m' : Machine) (s : State) (result : ℕ)
      → process c fuel sig m ≡ done (s, result) m'
      → evt_tran ≤ result
      → NeverReturns (glb_hsm_dispatch c fuel stack sig m)
  unfolding glb_hsm_dispatch settle
  glb_hsm_dispatch_tran fuel stack sig m m' s result e high =
      rw (e, le→leb evt_tran result high)
        (bind_returned (take_transition c fuel stack s m.cur_state m') _
          (take_transition_never fuel stack s m.cur_state m'))
