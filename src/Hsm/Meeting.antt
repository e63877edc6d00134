-- ===== src/Hsm/Meeting.antt =====
-- Where two states of a tree of superstates meet, and how the loops (f) and (g) of hsm_tran find it.
use general_purpose_library.Prelude.{
  ℕ, zero, suc, ◌+◌, ◌≤◌, ◌<◌, ◌≡◌, ◌≢◌, refl, sym, ap, ◌∙◌, arith, Bool, true, false, Option, none,
  some, List, [], ◌∷◌, ◌++◌, ◌==◌, ltb, if◌then◌else◌, length, get_elem?, get_or, ◌⊎◌, ne→==-false,
  Bool-cases, inl, inr,
}
use mathlib.Core.List.{append_assoc}
use general_purpose_library.Hsm.{
  State, root, max_nest_depth, empty_sig, evt_super, evt_handled, evt_ignored, Chart, up, Action,
  exited, Machine, Run, done, load, reply_of, exit_of, call_handler, get_super_state, run_exit,
}
use general_purpose_library.Hsm.Transition.{find_in_path, exit_up, exit_source}
use general_purpose_library.Hsm.Chains.{machine, ask_super}

-- Every state but the root is attached, has a superstate that is lower in rank, and an exit action
-- that answers EVT_STATUS_HANDLED.
pub record IsRegular (c : Chart) (sup : State → State) (rank : State → ℕ) (marks : State → Bool)
    : Type 0 where
  pub supers : (s : State) → s ≢ root → c.handler s empty_sig ≡ up (sup s)
  pub lower : (s : State) → s ≢ root → rank (sup s) < rank s
  pub exits : (s : State) → s ≢ root → c.on_exit s ≡ some evt_handled
  pub attached : (s : State) → s ≢ root → marks s ≡ true

-- No state of `line` is `s`.
abbrev pub IsOff : List State → State → Type 0
IsOff line s = (j : ℕ) → j < length line → get_or line j root ≢ s

-- The way up from `s` to its first superstate in `line`: the exits of the states that it leaves, and
-- the place in `line` where it arrives.
pub data Meets (sup : State → State) (line : List State) : State → List Action → ℕ → Type 0 where
  here : {s : State} {n : ℕ} → n < length line → get_or line n root ≡ s → Meets sup line s [] n
  climb :
      {s : State} {more : List Action} {n : ℕ}
      → IsOff line s
      → Meets sup line (sup s) more n
      → Meets sup line s (exited s ∷ more) n

-- The place of a state among the first `n` of a line, the last one first
abbrev pub place_of : State → List State → ℕ → Option ℕ
place_of t line zero = none
place_of t line (suc n) = if t == get_or line n root then some n else place_of t line n

get_elem?-append :
    (line rest : List State) (i : ℕ)
    → i < length line
    → get_elem? (line ++ rest) i ≡ some (get_or line i root)
get_elem?-append [] rest i h = absurd (omega arith)
get_elem?-append (a ∷ line) rest zero h = refl
get_elem?-append (a ∷ line) rest (suc i) h = get_elem?-append line rest i (omega arith)

pub find_in_path_lem :
    (t : State) (line rest : List State) (n : ℕ) (m : Machine)
    → n ≤ length line
    → find_in_path t (line ++ rest) n m ≡ done (place_of t line n) m
unfolding find_in_path load
find_in_path_lem t line rest zero m h = refl
find_in_path_lem t line rest (suc n) m h =
    let same = get_elem?-append line rest n (omega arith) in
    elim (Bool-cases (t == get_or line n root)) [
      | inl found ↦ rw (find_in_path, load, same, found) refl
      | inr other ↦
          rw (find_in_path, load, same, other) (find_in_path_lem t line rest n m (omega arith))
    ]

off_more :
    (t : State) (line : List State) (n : ℕ)
    → ((j : ℕ) → j < n → get_or line j root ≢ t)
    → (t == get_or line n root) ≡ false
    → (j : ℕ) → j < suc n
    → get_or line j root ≢ t
off_more t line n off other j h = elim (Bool-cases (j == n)) [
  | inl e ↦
      let same : j ≡ n = ground arith in
      let ne : get_or line n root ≢ t = ground arith in rw same ne
  | inr e ↦ off j (ground arith)
]

pub place_of-cases :
    (t : State) (line : List State) (n : ℕ)
    → (((j : ℕ) → j < n → get_or line j root ≢ t) × (place_of t line n ≡ none))
      ⊎ ((k : ℕ) × (k < n) × (get_or line k root ≡ t) × (place_of t line n ≡ some k))
place_of-cases t line zero = inl (λ j h e. absurd (omega arith), refl)
place_of-cases t line (suc n) = elim (Bool-cases (t == get_or line n root)) [
  | inl found ↦ inr (n, omega arith, ground arith, rw found refl)
  | inr other ↦ elim (place_of-cases t line n) [
    | inl (off, missing) ↦ inl (off_more t line n off other, rw other missing)
    | inr (k, below, same, found) ↦ inr (k, omega arith, same, rw other found)
  ]
]

module _ (c : Chart) (sup : State → State) (rank : State → ℕ) (marks : State → Bool)
    (regular : IsRegular c sup rank marks) where
  open regular use {supers, lower, exits, attached}

  pub ask :
      (s cur next : State) (log : List Action)
      → s ≢ root
      → get_super_state c s (machine cur next marks log)
        ≡ done evt_super (machine cur (sup s) marks log)
  unfolding get_super_state
  ask s cur next log ne = ask_super c s (sup s) cur next marks log ne (supers s ne) (attached s ne)

  pub ask_root :
      (cur next : State) (log : List Action)
      → get_super_state c root (machine cur next marks log)
        ≡ done evt_ignored (machine cur next marks log)
  unfolding get_super_state call_handler reply_of
  ask_root cur next log = refl

  pub leave :
      (s cur next : State) (log : List Action)
      → s ≢ root
      → run_exit c s (machine cur next marks log)
        ≡ done evt_handled (machine cur next marks (log ++ (exited s ∷ [])))
  unfolding run_exit exit_of
  leave s cur next log ne = rw (ne→==-false s root ne, exits s ne) refl

  -- What the search for the meeting from `s` leaves of a run that gives the number of entries
  abbrev pub Arrives : List State → State → State → List Action → Run ℕ → Type 0
  Arrives line s cur log r =
      (more : List Action) × (n : ℕ) × (next : State) × Meets sup line s more n
      × (r ≡ done n (machine cur next marks (log ++ more)))

  module _ (line rest : List State)
      (ends : (j : ℕ) × (j < length line) × (get_or line j root ≡ root)) where
    -- A state that is not in the line is not the root, which is.
    below_root : (t : State) → IsOff line t → t ≢ root
    below_root t off e = off ends.0 ends.1 (ends.2 ∙ sym e)

    longer :
        (cur next : State) (log : List Action) (t : State) (more : List Action) (n : ℕ)
        → done n (machine cur next marks (log ++ (exited t ∷ []) ++ more))
          ≡ done n (machine cur next marks (log ++ (exited t ∷ more)))
    longer cur next log t more n =
        ap (λ (l : List Action). done n (machine cur next marks l))
          (append_assoc log (exited t ∷ []) more)

    -- The loop of (g) from a state that is not in the line
    pub exit_up_lem :
        (fuel : ℕ) (t cur next : State) (log : List Action)
        → rank t < fuel
        → t ≢ root
        → IsOff line t
        → Arrives line t cur log
            (exit_up c fuel t (line ++ rest) (length line) (machine cur next marks log))
    unfolding exit_up
    exit_up_lem zero t cur next log h ne off = absurd (omega arith)
    exit_up_lem (suc fuel) t cur next log h ne off =
        let log1 = log ++ (exited t ∷ []) in
        let m1 = machine cur (sup t) marks log1 in
        let find = find_in_path_lem (sup t) line rest (length line) m1 (omega arith) in
        elim (place_of-cases (sup t) line (length line)) [
          | inl (off', missing) ↦
              let low = lower t ne in
              let (more, n, next', meets, e) =
                exit_up_lem fuel (sup t) cur (sup t) log1 (omega arith) (below_root (sup t) off')
                  off' in
              (
                exited t ∷ more,
                n,
                next',
                climb off meets,
                rw (exit_up, leave t cur next log ne, ask t cur next log1 ne, find, missing)
                    (e ∙ longer cur next' log t more n),
              )
          | inr (k, below, same, found) ↦ (
            exited t ∷ [],
            k,
            sup t,
            climb off (here below same),
            rw (exit_up, leave t cur next log ne, ask t cur next log1 ne, find, found) refl,
          )
        ]

    -- (f) and (g) from a source that is not in the line
    pub exit_source_lem :
        (fuel : ℕ) (s cur next : State) (log : List Action)
        → rank s < fuel
        → length line ≤ 5
        → IsOff line s
        → Arrives line s cur log
            (exit_source c fuel s (sup s) (line ++ rest) (length line) (machine cur next marks log))
    unfolding exit_source
    exit_source_lem fuel s cur next log h short off =
        let ne = below_root s off in
        let low = lower s ne in
        let log1 = log ++ (exited s ∷ []) in
        let fits : ltb (max_nest_depth + 1) (length line) ≡ false = ground arith in
        let m1 = machine cur next marks log1 in
        let find = find_in_path_lem (sup s) line rest (length line) m1 (omega arith) in
        elim (place_of-cases (sup s) line (length line)) [
          | inl (off', missing) ↦
              let (more, n, next', meets, e) =
                exit_up_lem fuel (sup s) cur next log1 (omega arith) (below_root (sup s) off')
                  off' in
              (
                exited s ∷ more,
                n,
                next',
                climb off meets,
                rw (exit_source, fits, leave s cur next log ne, find, missing)
                    (e ∙ longer cur next' log s more n),
              )
          | inr (k, below, same, found) ↦ (
            exited s ∷ [],
            k,
            next,
            climb off (here below same),
            rw (exit_source, fits, leave s cur next log ne, find, found) refl,
          )
        ]
