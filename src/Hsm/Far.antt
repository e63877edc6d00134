-- ===== src/Hsm/Far.antt =====
-- The cases (e), (f) and (g) of hsm_tran, with a target at most three levels below the root.
use general_purpose_library.Prelude.{
  ℕ, zero, suc, ◌<◌, ◌≡◌, ◌≢◌, refl, sym, ap, ◌∙◌, arith, Bool, true, List, [], ◌∷◌, ◌++◌, ◌==◌,
  length, take, ne→==-false, ==-false→ne, Bool-cases, inl, inr,
}
use mathlib.Core.List.{append-nil}
use general_purpose_library.Hsm.{
  State, root, evt_ignored, Chart, Action, Run, done, and_then, pure, load, store, reply_of,
  call_handler, get_super_state,
}
use general_purpose_library.Hsm.Transition.{search_source, exit_source, far_transition}
use general_purpose_library.Hsm.Chains.{machine}
use general_purpose_library.Hsm.Meeting.{
  IsRegular, IsOff, Meets, here, climb, Arrives, ask, exit_source_lem,
}

-- A state below the root with its superstates up to the root, which fit the path
pub data Line (sup : State → State) (t : State) : List State → Type 0 where
  one : sup t ≡ root → Line sup t (t ∷ sup t ∷ [])
  two : sup t ≢ root → sup (sup t) ≡ root → Line sup t (t ∷ sup t ∷ sup (sup t) ∷ [])
  three :
      sup t ≢ root
      → sup (sup t) ≢ root
      → sup (sup (sup t)) ≡ root
      → Line sup t (t ∷ sup t ∷ sup (sup t) ∷ sup (sup (sup t)) ∷ [])

pub IsOff-pair : {t a s : State} → s ≢ t → s ≢ a → IsOff (t ∷ a ∷ []) s
IsOff-pair st sa zero h e = st (sym e)
IsOff-pair st sa (suc zero) h e = sa (sym e)
IsOff-pair st sa (suc (suc j)) h e = absurd (omega arith)

pub IsOff-more : {t s : State} (line : List State) → s ≢ t → IsOff line s → IsOff (t ∷ line) s
IsOff-more line st off zero h e = st (sym e)
IsOff-more line st off (suc j) h e = off j (omega arith) e

module _ (c : Chart) (sup : State → State) (rank : State → ℕ) (marks : State → Bool)
    (regular : IsRegular c sup rank marks) where
  -- What a transition from `s` leaves: the exits up to the meeting, and in the path the states below
  -- it that are to be entered
  abbrev pub Transits : List State → State → State → List Action → Run (ℕ × List State) → Type 0
  Transits line s cur log r =
      (more : List Action) × (n : ℕ) × (next : State) × (path : List State) × Meets sup line s more
        n
      × (take n path ≡ take n line)
      × (r ≡ done (n, path) (machine cur next marks (log ++ more)))

  ask_last :
      (s cur next : State) (log : List Action)
      → s ≡ root
      → get_super_state c s (machine cur next marks log)
        ≡ done evt_ignored (machine cur next marks log)
  unfolding get_super_state call_handler reply_of
  ask_last s cur next log e = rw e refl

module _ (c : Chart) (sup : State → State) (rank : State → ℕ) (marks : State → Bool)
    (regular : IsRegular c sup rank marks) (fuel : ℕ) (t q s r cur : State)
    (log : List Action) where
  abbrev rounds : ℕ
  rounds = suc (suc (suc fuel))

  -- The rest of a far transition once (e) has filled the path with the line
  abbrev after_search : List State → List State → State → Run (ℕ × List State)
  after_search line rest last =
      and_then
        (exit_source c rounds s (sup s) (line ++ rest) (length line) (machine cur last marks log))
        (λ above. pure (above, line ++ rest))

  search_one :
      sup t ≡ root
      → far_transition c rounds s (sup t) (t ∷ q ∷ s ∷ r ∷ []) (machine cur (sup s) marks log)
        ≡ after_search (t ∷ sup t ∷ []) (s ∷ r ∷ []) (sup s)
  unfolding far_transition load store search_source
  search_one last = rw (ask_last c sup rank marks regular (sup t) cur (sup s) log last) refl

  search_two :
      sup t ≢ root
      → sup (sup t) ≡ root
      → s ≢ sup (sup t)
      → far_transition c rounds s (sup t) (t ∷ q ∷ s ∷ r ∷ []) (machine cur (sup s) marks log)
        ≡ after_search (t ∷ sup t ∷ sup (sup t) ∷ []) (r ∷ []) (sup (sup t))
  unfolding far_transition load store search_source
  search_two first last off =
      rw
        (
          ask c sup rank marks regular (sup t) cur (sup s) log first,
          ne→==-false (sup (sup t)) s (λ e. off (sym e)),
          ask_last c sup rank marks regular (sup (sup t)) cur (sup (sup t)) log last,
        )
        refl

  search_three :
      sup t ≢ root
      → sup (sup t) ≢ root
      → sup (sup (sup t)) ≡ root
      → s ≢ sup (sup t)
      → s ≢ root
      → far_transition c rounds s (sup t) (t ∷ q ∷ s ∷ r ∷ []) (machine cur (sup s) marks log)
        ≡ after_search (t ∷ sup t ∷ sup (sup t) ∷ sup (sup (sup t)) ∷ []) [] (sup (sup (sup t)))
  unfolding far_transition load store search_source
  search_three first second last off sr =
      rw
        (
          ask c sup rank marks regular (sup t) cur (sup s) log first,
          ne→==-false (sup (sup t)) s (λ e. off (sym e)),
          ask c sup rank marks regular (sup (sup t)) cur (sup (sup t)) log second,
          ne→==-false (sup (sup (sup t))) s (λ e. sr (sym e ∙ last)),
          ask_last c sup rank marks regular (sup (sup (sup t))) cur (sup (sup (sup t))) log last,
        )
        refl

  found_three :
      sup t ≢ root
      → s ≡ sup (sup t)
      → far_transition c rounds s (sup t) (t ∷ q ∷ s ∷ r ∷ []) (machine cur (sup s) marks log)
        ≡ done (2, t ∷ sup t ∷ sup (sup t) ∷ r ∷ []) (machine cur (sup (sup t)) marks log)
  unfolding far_transition load store search_source
  found_three first same =
      let test : (sup (sup t) == s) ≡ true = ground arith in
      rw (ask c sup rank marks regular (sup t) cur (sup s) log first, test) refl

  Meets-below :
      {line : List State} {a : State} {more : List Action} {n : ℕ}
      → Meets sup line a more n
      → n < length line
  Meets-below (here h e) = h
  Meets-below (climb off m) = Meets-below m

  take_line :
      (n : ℕ) (line rest : List State) → n < length line → take n (line ++ rest) ≡ take n line
  take_line n [] rest h = absurd (omega arith)
  take_line zero (a ∷ line) rest h = refl
  take_line (suc n) (a ∷ line) rest h =
      ap (λ (l : List State). a ∷ l) (take_line n line rest (omega arith))

  arrive :
      (line rest : List State) (last : State) (run : Run (ℕ × List State))
      → run ≡ after_search line rest last
      → Arrives c sup rank marks regular line s cur log
          (exit_source c rounds s (sup s) (line ++ rest) (length line) (machine cur last marks log))
      → Transits c sup rank marks regular line s cur log run
  arrive line rest last run e (more, n, next, meets, found) = (
    more,
    n,
    next,
    line ++ rest,
    meets,
    take_line n line rest (Meets-below meets),
    e ∙ rw found refl,
  )

  pub far_lem :
      (line : List State)
      → Line sup t line
      → s ≢ t
      → s ≢ sup t
      → s ≢ root
      → rank s < rounds
      → Transits c sup rank marks regular line s cur log
          (far_transition c rounds s (sup t) (t ∷ q ∷ s ∷ r ∷ []) (machine cur (sup s) marks log))
  far_lem line (one last) st sa sr h = arrive line (s ∷ r ∷ []) (sup s) _ (search_one last) (
      exit_source_lem c sup rank marks regular line (s ∷ r ∷ []) (1, omega arith, last) rounds s cur
        (sup s) log h (omega arith) (IsOff-pair st sa))
  far_lem line (two first last) st sa sr h =
      let sb : s ≢ sup (sup t) = λ e. sr (e ∙ last) in
      arrive line (r ∷ []) (sup (sup t)) _ (search_two first last sb) (
        exit_source_lem c sup rank marks regular line (r ∷ []) (2, omega arith, last) rounds s cur
          (sup (sup t)) log h (omega arith)
          (IsOff-more (sup t ∷ sup (sup t) ∷ []) st (IsOff-pair sa sb)))
  far_lem line (three first second last) st sa sr h = elim (Bool-cases (s == sup (sup t))) [
    | inl e ↦
        let same : s ≡ sup (sup t) = ground arith in
        (
          [],
          2,
          sup (sup t),
          t ∷ sup t ∷ sup (sup t) ∷ r ∷ [],
          here (omega arith) (sym same),
          refl,
          found_three first same ∙ rw (append-nil log) refl,
        )
    | inr e ↦
        let sb : s ≢ sup (sup t) = ==-false→ne _ _ e in
        let sc : s ≢ sup (sup (sup t)) = λ e. sr (e ∙ last) in
        arrive line [] (sup (sup (sup t))) _ (search_three first second last sb sr) (
          exit_source_lem c sup rank marks regular line [] (3, omega arith, last) rounds s cur
            (sup (sup (sup t))) log h (omega arith)
            (IsOff-more (sup t ∷ sup (sup t) ∷ sup (sup (sup t)) ∷ []) st
              (IsOff-more (sup (sup t) ∷ sup (sup (sup t)) ∷ []) sa (IsOff-pair sb sc))))
  ]
