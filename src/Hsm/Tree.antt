-- ===== src/Hsm/Tree.antt =====
-- hsm_tran between any two states of a tree, with a target at most three levels below the root.
use general_purpose_library.Prelude.{
  ℕ, suc, ◌<◌, ◌≡◌, ◌≢◌, refl, sym, ap, ◌∙◌, arith, Bool, true, List, [], ◌∷◌, ◌++◌, ◌⊎◌, ◌==◌,
  length, get_or, take, ne→==-false, ==-false→ne, Bool-cases, inl, inr,
}
use mathlib.Core.List.{append-nil}
use general_purpose_library.Hsm.{State, root, Chart, Action, exited, done, load}
use general_purpose_library.Hsm.Transition.{far_transition, hsm_tran}
use general_purpose_library.Hsm.Chains.{machine}
use general_purpose_library.Hsm.Meeting.{IsRegular, IsOff, here, climb, ask, leave}
use general_purpose_library.Hsm.Far.{
  Line, one, two, three, IsOff-pair, IsOff-more, Transits, far_lem,
}

IsOff-near :
    {sup : State → State} {t s : State} (line : List State)
    → Line sup t line
    → s ≢ t
    → s ≢ sup t
    → s ≢ root
    → t ≢ root
    → (sup s ≡ sup t) ⊎ (sup s ≡ t)
    → IsOff line s
IsOff-near line (one last) st sa sr tr close = IsOff-pair st sa
IsOff-near {sup} {t} line (two first last) st sa sr tr close =
    IsOff-more (sup t ∷ sup (sup t) ∷ []) st (IsOff-pair sa (λ e. sr (e ∙ last)))
IsOff-near {sup} {t} {s} line (three first second last) st sa sr tr close =
    let sc : s ≢ sup (sup (sup t)) = λ e. sr (e ∙ last) in
    IsOff-more (sup t ∷ sup (sup t) ∷ sup (sup (sup t)) ∷ []) st
      (IsOff-more (sup (sup t) ∷ sup (sup (sup t)) ∷ []) sa (IsOff-pair (apart close) sc))
  where
    -- The superstate of sup (sup t) is the root.
    apart : (sup s ≡ sup t) ⊎ (sup s ≡ t) → s ≢ sup (sup t)
    apart (inl e) same = first (sym e ∙ ap sup same ∙ last)
    apart (inr e) same = tr (sym e ∙ ap sup same ∙ last)

first_two :
    {sup : State → State} {t : State} (line : List State)
    → Line sup t line
    → (1 < length line)
      × (get_or line 0 root ≡ t)
      × (get_or line 1 root ≡ sup t)
      × (take 1 line ≡ t ∷ [])
first_two line (one last) = (omega arith, refl, refl, refl)
first_two line (two first last) = (omega arith, refl, refl, refl)
first_two line (three first second last) = (omega arith, refl, refl, refl)

module _ (c : Chart) (sup : State → State) (rank : State → ℕ) (marks : State → Bool)
    (regular : IsRegular c sup rank marks) where
  module _ (fuel : ℕ) (t q s r cur next : State) (log : List Action) (st : s ≢ t) (sr : s ≢ root)
      (below : t ≢ root) where
    abbrev start : List State
    start = t ∷ q ∷ s ∷ r ∷ []

    child_lem :
        s ≡ sup t
        → hsm_tran c fuel start (machine cur next marks log)
          ≡ done (1, start) (machine cur (sup t) marks log)
    unfolding hsm_tran load
    child_lem same =
        let test : (s == sup t) ≡ true = ground arith in
        rw (ne→==-false s t st, ask c sup rank marks regular t cur next log below, test) refl

    sibling_lem :
        s ≢ sup t
        → sup s ≡ sup t
        → hsm_tran c fuel start (machine cur next marks log)
          ≡ done (1, start) (machine cur (sup s) marks (log ++ (exited s ∷ [])))
    unfolding hsm_tran load
    sibling_lem other same =
        let test : (sup s == sup t) ≡ true = ground arith in
        rw
          (
            ne→==-false s t st,
            ask c sup rank marks regular t cur next log below,
            ne→==-false s (sup t) other,
            ask c sup rank marks regular s cur (sup t) log sr,
            test,
            leave c sup rank marks regular s cur (sup s) log sr,
          )
          refl

    parent_lem :
        s ≢ sup t
        → sup s ≢ sup t
        → sup s ≡ t
        → hsm_tran c fuel start (machine cur next marks log)
          ≡ done (0, start) (machine cur (sup s) marks (log ++ (exited s ∷ [])))
    unfolding hsm_tran load
    parent_lem other apart same =
        let test : (sup s == t) ≡ true = ground arith in
        rw
          (
            ne→==-false s t st,
            ask c sup rank marks regular t cur next log below,
            ne→==-false s (sup t) other,
            ask c sup rank marks regular s cur (sup t) log sr,
            ne→==-false (sup s) (sup t) apart,
            test,
            leave c sup rank marks regular s cur (sup s) log sr,
          )
          refl

    pub far_enters :
        s ≢ sup t
        → sup s ≢ sup t
        → sup s ≢ t
        → hsm_tran c fuel start (machine cur next marks log)
          ≡ far_transition c fuel s (sup t) start (machine cur (sup s) marks log)
    unfolding hsm_tran load
    far_enters other apart up =
        rw
          (
            ne→==-false s t st,
            ask c sup rank marks regular t cur next log below,
            ne→==-false s (sup t) other,
            ask c sup rank marks regular s cur (sup t) log sr,
            ne→==-false (sup s) (sup t) apart,
            ne→==-false (sup s) t up,
          )
          refl

  module _ (fuel : ℕ) (t q s r cur next : State) (log : List Action) (line : List State)
      (up : Line sup t line) (st : s ≢ t) (sr : s ≢ root) (below : t ≢ root) where
    abbrev rounds : ℕ
    rounds = suc (suc (suc fuel))

    abbrev Moves : Type 0
    Moves =
        Transits c sup rank marks regular line s cur log
          (hsm_tran c rounds (t ∷ q ∷ s ∷ r ∷ []) (machine cur next marks log))

    to_child : s ≡ sup t → Moves
    to_child same =
        let (long, at0, at1, first) = first_two line up in
        (
          [],
          1,
          sup t,
          t ∷ q ∷ s ∷ r ∷ [],
          here long (at1 ∙ sym same),
          sym first,
          child_lem rounds t q s r cur next log st sr below same ∙ rw (append-nil log) refl,
        )

    to_sibling : s ≢ sup t → sup s ≡ sup t → Moves
    to_sibling other same =
        let (long, at0, at1, first) = first_two line up in
        (
          exited s ∷ [],
          1,
          sup s,
          t ∷ q ∷ s ∷ r ∷ [],
          climb (IsOff-near line up st other sr below (inl same)) (here long (at1 ∙ sym same)),
          sym first,
          sibling_lem rounds t q s r cur next log st sr below other same,
        )

    to_parent : s ≢ sup t → sup s ≢ sup t → sup s ≡ t → Moves
    to_parent other apart same =
        let (long, at0, at1, first) = first_two line up in
        (
          exited s ∷ [],
          0,
          sup s,
          t ∷ q ∷ s ∷ r ∷ [],
          climb (IsOff-near line up st other sr below (inr same))
              (here (omega arith) (at0 ∙ sym same)),
          refl,
          parent_lem rounds t q s r cur next log st sr below other apart same,
        )

    to_far : rank s < rounds → s ≢ sup t → sup s ≢ sup t → sup s ≢ t → Moves
    to_far h other apart away =
        rw (far_enters rounds t q s r cur next log st sr below other apart away)
          (far_lem c sup rank marks regular fuel t q s r cur log line up st other sr h)

    -- In a tree whose states are attached and answer EVT_STATUS_HANDLED from their exit actions,
    -- between two different states below the root, of which the target is at most three levels
    -- below it, hsm_tran ends with three rounds or more that are more than the rank of the source:
    -- it runs the exit actions from the source up to the first state that is the target or above
    -- it, innermost first and without that one, returns how many states lead from below that one
    -- to the target, and leaves these in the path.
    pub hsm_tran-Transits : rank s < rounds → Moves
    hsm_tran-Transits h = elim (Bool-cases (s == sup t)) [
      | inl child ↦ to_child (ground arith)
      | inr e ↦
          let other : s ≢ sup t = ==-false→ne _ _ e in
          elim (Bool-cases (sup s == sup t)) [
            | inl sibling ↦ to_sibling other (ground arith)
            | inr e1 ↦
                let apart : sup s ≢ sup t = ==-false→ne _ _ e1 in
                elim (Bool-cases (sup s == t)) [
                  | inl parent ↦ to_parent other apart (ground arith)
                  | inr e2 ↦ to_far h other apart (==-false→ne _ _ e2)
                ]
          ]
    ]
