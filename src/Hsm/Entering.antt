-- ===== src/Hsm/Entering.antt =====
-- hsm_init enters the initial state: what it does for a chain that fits the path, and for one that
-- does not.
use general_purpose_library.Prelude.{
  ℕ, zero, suc, ◌+◌, ◌≤◌, ◌<◌, ◌≡◌, ◌≢◌, refl, ap, ◌∙◌, arith, Bool, List, [], ◌∷◌, ◌++◌, length,
  get_or, set, length-set, ==_refl, ne→==-false, All-get_or, some,
}
use mathlib.Core.List.{map, reverse}
use native.Mathlib.Decide.{dec_lt}
use native.Mathlib.Nat.{zero-add}
use general_purpose_library.Hsm.{
  State, root, empty_sig, Chart, up, Action, entered, Machine, done, fault, M, and_then, ◌>>=◌,
  ◌>>◌, call_handler, set_next, set_cur, attach, load, store, enter_path,
}
use general_purpose_library.Hsm.Init.{climb, retrace, glb_hsm_init, hsm_init}
use general_purpose_library.Hsm.Chains.{
  Ancestors, top, above, CanEnter, mark, mark_all, fill, length-fill, fill-at, machine, downto,
  downto-agree, downto-length, ask_super, store-at, store-outside, load-at, enter_path-log,
}

module _ (c : Chart) where
  -- What the body of the climbing loop does at a state that has a superstate.
  visit_lem :
      (s p : State) (path : List State) (i : ℕ) (cur : State) (marks : State → Bool)
      (log : List Action) {B : Type 0} (k : List State → M B)
      → s ≢ root
      → c.handler s empty_sig ≡ up p
      → i < length path
      → (store path i s >>= λ path'. attach s >> (call_handler c s empty_sig >> k path'))
          (machine cur s marks log)
        ≡ k (set path i s) (machine cur p (mark s marks) log)
  visit_lem s p path i cur marks log k ne h fits =
      ap (λ r. and_then r (λ path'. attach s >> (call_handler c s empty_sig >> k path')))
        (store-at path i s (machine cur s marks log) fits)
      ∙ ap (λ r. and_then r (λ _. k (set path i s)))
          (ask_super c s p cur s (mark s marks) log ne h (rw (==_refl s) refl))

  climb_step :
      (fuel : ℕ) (s p : State) (path : List State) (ip : ℕ) (cur : State) (marks : State → Bool)
      (log : List Action)
      → s ≢ root
      → c.handler s empty_sig ≡ up p
      → ip + 1 < length path
      → climb c (suc fuel) root ip path (machine cur s marks log)
        ≡ climb c fuel root (ip + 1) (set path (ip + 1) s) (machine cur p (mark s marks) log)
  unfolding climb
  climb_step fuel s p path ip cur marks log ne h fits =
      rw (ne→==-false s root ne)
        (visit_lem s p path (ip + 1) cur marks log (climb c fuel root (ip + 1)) ne h fits)

  climb_outside :
      (fuel : ℕ) (s : State) (path : List State) (ip : ℕ) (cur : State) (marks : State → Bool)
      (log : List Action)
      → s ≢ root
      → length path ≤ ip + 1
      → climb c (suc fuel) root ip path (machine cur s marks log) ≡ fault
  unfolding climb
  climb_outside fuel s path ip cur marks log ne outside = rw (ne→==-false s root ne) (
      ap
        (λ r.
          and_then r
            (λ path'. attach s >> (call_handler c s empty_sig >> climb c fuel root (ip + 1) path')))
        (store-outside path (ip + 1) s (machine cur s marks log) outside))

  climb_end :
      (fuel : ℕ) (path : List State) (ip : ℕ) (cur : State) (marks : State → Bool)
      (log : List Action)
      → climb c (suc fuel) root ip path (machine cur root marks log)
        ≡ done (ip, path) (machine cur root marks log)
  unfolding climb
  climb_end fuel path ip cur marks log = refl

  -- The loop records a chain that fits, attaches its states and ends at the root.
  climb-fill :
      (fuel : ℕ) {s : State} {xs : List State} (path : List State) (ip : ℕ) (cur : State)
      (marks : State → Bool) (log : List Action)
      → Ancestors c s xs
      → ip + length xs < length path
      → length xs < fuel
      → climb c fuel root ip path (machine cur s marks log)
        ≡ done (ip + length xs, fill path (ip + 1) xs) (machine cur root (mark_all xs marks) log)
  climb-fill zero path ip cur marks log chain fits enough = absurd (omega arith)
  climb-fill (suc zero) path ip cur marks log (top ne h) fits enough = absurd (omega arith)
  climb-fill (suc (suc fuel)) path ip cur marks log (top {s} ne h) fits enough =
      climb_step (suc fuel) s root path ip cur marks log ne h (omega arith)
      ∙ climb_end fuel (set path (ip + 1) s) (ip + 1) cur (mark s marks) log
  climb-fill (suc fuel) path ip cur marks log (above {s} {p} {xs} ne h chain) fits enough =
      let index : ip + 1 + length xs ≡ ip + suc (length xs) = omega arith in
      climb_step fuel s p path ip cur marks log ne h (omega arith)
      ∙ climb-fill fuel (set path (ip + 1) s) (ip + 1) cur (mark s marks) log chain
          (omega (arith, length-set path (ip + 1) s)) (omega arith)
      ∙ rw index refl

  -- The loop writes outside the path when the chain is longer than the rest of it.
  climb_overflow :
      (fuel : ℕ) {s : State} {xs : List State} (path : List State) (ip : ℕ) (cur : State)
      (marks : State → Bool) (log : List Action)
      → Ancestors c s xs
      → ip < length path
      → length path ≤ ip + length xs
      → length xs < fuel
      → climb c fuel root ip path (machine cur s marks log) ≡ fault
  climb_overflow zero path ip cur marks log chain lo hi enough = absurd (omega arith)
  climb_overflow (suc fuel) path ip cur marks log (top {s} ne h) lo hi enough =
      climb_outside fuel s path ip cur marks log ne (omega arith)
  climb_overflow (suc fuel) path ip cur marks log (above {s} {p} ne h chain) lo hi enough =
      elim (dec_lt (ip + 1) (length path)) [
        | yes inside ↦
            climb_step fuel s p path ip cur marks log ne h inside
            ∙ climb_overflow fuel (set path (ip + 1) s) (ip + 1) cur (mark s marks) log chain
                (omega (arith, length-set path (ip + 1) s))
                (omega (arith, length-set path (ip + 1) s)) (omega arith)
        | no outside ↦ climb_outside fuel s path ip cur marks log ne (omega arith)
      ]

  -- What glb_hsm_init does with the recorded path.
  finish :
      (path : List State) (ip : ℕ) (s : State) (marks : State → Bool) (log : List Action)
      → ip + 1 ≤ length path
      → get_or path 0 0 ≡ s
      → CanEnter c (downto path (ip + 1))
      → retrace c (ip, path) (machine root root marks log)
        ≡ done tt (machine s s marks (log ++ map entered (downto path (ip + 1))))
  finish path ip s marks log fits head can =
      let after = machine root s marks (log ++ map entered (downto path (ip + 1))) in
      let first : load path 0 (machine root root marks log) ≡ done s (machine root root marks log) =
        load-at path 0 (machine root root marks log) (omega arith)
        ∙ ap (λ t. done t (machine root root marks log)) head in
      let last : load path 0 after ≡ done s after =
        load-at path 0 after (omega arith) ∙ ap (λ t. done t after) head in
      let rest : M (Unit {0}) = load path 0 >>= λ target. set_cur target >> set_next target in
      ap (λ r. and_then r (λ t. set_next t >> (enter_path c path (ip + 1) >> rest))) first
      ∙ ap (λ r. and_then r (λ _. rest))
          (enter_path-log c path (ip + 1) (machine root s marks log) fits can)
      ∙ ap (λ r. and_then r (λ target. set_cur target >> set_next target)) last

  CanEnter-downto :
      (xs : List State) (n : ℕ) → n ≤ length xs → CanEnter c xs → CanEnter c (downto xs n)
  CanEnter-downto xs zero h can = tt
  CanEnter-downto xs (suc n) h can = (
    All-get_or (λ s. (s ≢ root) × ((n : ℕ) × (c.on_entry s ≡ some n))) xs n 0 can (omega arith),
    CanEnter-downto xs n (omega arith) can,
  )

  finish-fill :
      (stack : List State) (s : State) (ys : List State) (marks : State → Bool) (log : List Action)
      → suc (length ys) ≤ length stack
      → CanEnter c (s ∷ ys)
      → retrace c (length ys, fill stack 0 (s ∷ ys)) (machine root root marks log)
        ≡ done tt (machine s s marks (log ++ map entered (reverse (s ∷ ys))))
  finish-fill stack s ys marks log fits can =
      let path = fill stack 0 (s ∷ ys) in
      let count : length ys + 1 ≡ suc (length ys) = omega arith in
      let agree : (j : ℕ) → j < suc (length ys) → get_or path j 0 ≡ get_or (s ∷ ys) j 0 = λ j h.
        ap (λ (t : ℕ). get_or path t 0) (omega arith)
        ∙ fill-at stack 0 j (s ∷ ys) h (omega arith) in
      let order : downto path (length ys + 1) ≡ reverse (s ∷ ys) =
        ap (downto path) count
        ∙ downto-agree path (s ∷ ys) (suc (length ys)) agree
        ∙ downto-length (s ∷ ys) in
      let can' : CanEnter c (downto path (length ys + 1)) =
        rw (order, ← downto-length (s ∷ ys))
          (CanEnter-downto (s ∷ ys) (suc (length ys)) (omega arith) can) in
      finish path (length ys) s marks log (omega (arith, length-fill stack 0 (s ∷ ys)))
        (agree 0 (omega arith)) can'
      ∙ rw order refl

  climb_then : ℕ → List State → M (Unit {0})
  climb_then fuel path = climb c fuel root 0 path >>= retrace c

  -- For a chain of superstates that fits the path and whose states have entry actions, hsm_init
  -- ends within a number of rounds above the length of the chain: it runs the entry actions from
  -- the outermost state to the initial one, attaches every state of the chain, and leaves the
  -- initial state as current and next state.
  pub hsm_init-enters :
      (fuel : ℕ) (stack : List State) {s : State} {xs : List State} (m : Machine)
      → Ancestors c s xs
      → CanEnter c xs
      → length xs ≤ length stack
      → length xs < fuel
      → hsm_init c fuel stack s m
        ≡ done tt (machine s s (mark_all xs m.attached) (m.log ++ map entered (reverse xs)))
  unfolding hsm_init glb_hsm_init climb_then
  hsm_init-enters zero stack m chain can fits enough = absurd (omega arith)
  hsm_init-enters (suc zero) stack m (top {s} ne h) can fits enough = absurd (omega arith)
  hsm_init-enters (suc (suc fuel)) stack m (top {s} ne h) can fits enough =
      visit_lem s root stack 0 root m.attached m.log (climb_then (suc (suc fuel))) ne h
        (omega arith)
      ∙ ap (λ r. and_then r (retrace c))
          (climb_end (suc fuel) (set stack 0 s) 0 root (mark s m.attached) m.log)
      ∙ finish-fill stack s [] (mark s m.attached) m.log fits can
  hsm_init-enters (suc fuel) stack m (above {s} {p} {xs} ne h chain) can fits enough =
      visit_lem s p stack 0 root m.attached m.log (climb_then (suc fuel)) ne h (omega arith)
      ∙ ap (λ r. and_then r (retrace c))
          (climb-fill (suc fuel) (set stack 0 s) 0 root (mark s m.attached) m.log chain
            (omega (arith, length-set stack 0 s)) (omega arith))
      ∙ (rw (zero-add (length xs))
          (finish-fill stack s xs (mark_all (s ∷ xs) m.attached) m.log fits can))

  -- A chain of superstates that is longer than the path makes hsm_init write outside it.
  pub hsm_init_overflow :
      (fuel : ℕ) (stack : List State) {s : State} {xs : List State} (m : Machine)
      → Ancestors c s xs
      → 0 < length stack
      → length stack < length xs
      → length xs < fuel
      → hsm_init c fuel stack s m ≡ fault
  unfolding hsm_init glb_hsm_init climb_then
  hsm_init_overflow fuel stack m (top ne h) some_room long enough = absurd (omega arith)
  hsm_init_overflow fuel stack m (above {s} {p} {xs} ne h chain) some_room long enough =
      visit_lem s p stack 0 root m.attached m.log (climb_then fuel) ne h some_room
      ∙ ap (λ r. and_then r (retrace c))
          (climb_overflow fuel (set stack 0 s) 0 root (mark s m.attached) m.log chain
            (omega (arith, length-set stack 0 s)) (omega (arith, length-set stack 0 s))
            (omega arith))
