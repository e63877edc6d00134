-- ===== src/Hsm/Deep.antt =====
-- hsm_tran with a target that is too deep for the path.
use general_purpose_library.Prelude.{
  ℕ, suc, ◌≡◌, ◌≢◌, refl, sym, arith, Bool, List, [], ◌∷◌, ne→==-false,
}
use general_purpose_library.Hsm.{State, root, Chart, Action, fault, load, store}
use general_purpose_library.Hsm.Transition.{search_source, far_transition, hsm_tran}
use general_purpose_library.Hsm.Chains.{machine}
use general_purpose_library.Hsm.Meeting.{IsRegular, IsOff, ask}
use general_purpose_library.Hsm.Tree.{far_enters}

module _ (c : Chart) (sup : State → State) (rank : State → ℕ) (marks : State → Bool)
    (regular : IsRegular c sup rank marks) where
  -- In a tree whose states are attached, a transition to a state that is four levels or more below
  -- the root, from a source below the root that is not the target or one of its next three
  -- superstates, and whose superstate is neither the target nor the superstate of the target,
  -- writes outside the path.
  pub hsm_tran_deep :
      (fuel : ℕ) (t q s r cur next : State) (log : List Action)
      → t ≢ root
      → sup t ≢ root
      → sup (sup t) ≢ root
      → sup (sup (sup t)) ≢ root
      → s ≢ root
      → IsOff (t ∷ sup t ∷ sup (sup t) ∷ sup (sup (sup t)) ∷ []) s
      → IsOff (t ∷ sup t ∷ []) (sup s)
      → hsm_tran c (suc (suc (suc fuel))) (t ∷ q ∷ s ∷ r ∷ []) (machine cur next marks log) ≡ fault
  unfolding hsm_tran far_transition load store search_source
  hsm_tran_deep fuel t q s r cur next log below first second third sr off away =
      rw
        (far_enters c sup rank marks regular (suc (suc (suc fuel))) t q s r cur next log
          (λ e. off 0 (omega arith) (sym e)) sr below (λ e. off 1 (omega arith) (sym e))
          (λ e. away 1 (omega arith) (sym e)) (λ e. away 0 (omega arith) (sym e)))
        (rw
          (
            ask c sup rank marks regular (sup t) cur (sup s) log first,
            ne→==-false (sup (sup t)) s (off 2 (omega arith)),
            ask c sup rank marks regular (sup (sup t)) cur (sup (sup t)) log second,
            ne→==-false (sup (sup (sup t))) s (off 3 (omega arith)),
            ask c sup rank marks regular (sup (sup (sup t))) cur (sup (sup (sup t))) log third,
          )
          refl)
