-- ===== src/Hsm/Near.antt =====
-- hsm_tran between states that are close: the cases (a) to (d) of the source.
use general_purpose_library.Prelude.{
  ℕ, ◌≡◌, ◌≢◌, refl, Bool, true, false, List, [], ◌∷◌, ◌++◌, some, ne→==-false, ==_refl, sym, ◌==◌,
}
use mathlib.Core.List.{append-nil}
use general_purpose_library.Hsm.{
  State, root, empty_sig, Chart, up, Action, exited, done, load, note, reply_of, exit_of,
  call_handler, get_super_state, run_exit,
}
use general_purpose_library.Hsm.Transition.{hsm_tran}
use general_purpose_library.Hsm.Chains.{machine}

-- What a transition from `s` to `t` has to do, read off the tree: the states that it exits, and
-- how many of the target's chain it enters.
pub data Near (c : Chart) (s t : State) : List Action → ℕ → Type 0 where
  self : s ≡ t → Near c s t (exited s ∷ []) 1
  child : s ≢ t → c.handler t empty_sig ≡ up s → Near c s t [] 1
  sibling :
      (p : State)
      → s ≢ t
      → p ≢ s
      → c.handler t empty_sig ≡ up p
      → c.handler s empty_sig ≡ up p
      → Near c s t (exited s ∷ []) 1
  parent :
      (p : State)
      → s ≢ t
      → p ≢ s
      → p ≢ t
      → c.handler t empty_sig ≡ up p
      → c.handler s empty_sig ≡ up t
      → Near c s t (exited s ∷ []) 0

-- Between two different or equal states below the root that are attached and at most one level
-- away from their least common ancestor, hsm_tran runs exactly the exit actions that the tree asks
-- for, returns the number of states to enter, and leaves the path alone.
pub hsm_tran-Near :
    (c : Chart) (fuel : ℕ) (s t q r n : ℕ) (cur next : State) (marks : State → Bool)
    (log exits : List Action) (result : ℕ)
    → Near c s t exits n
    → s ≢ root
    → t ≢ root
    → c.on_exit s ≡ some result
    → marks s ≡ true
    → marks t ≡ true
    → (m : State) × (hsm_tran c fuel (t ∷ q ∷ s ∷ r ∷ []) (machine cur next marks log)
        ≡ done (n, t ∷ q ∷ s ∷ r ∷ []) (machine cur m marks (log ++ exits)))
unfolding hsm_tran load get_super_state call_handler reply_of run_exit exit_of
hsm_tran-Near c fuel s t q r n cur next marks log exits result (self e) sr tr ex ms mt =
    let ex' : c.on_exit t ≡ some result = rw e at ex in
    (next, rw (e, ==_refl t) (rw (ne→==-false t root tr, ex', note) refl))
hsm_tran-Near c fuel s t q r n cur next marks log exits result (child ne h) sr tr ex ms mt =
    (s, rw (ne→==-false s t ne, ne→==-false t root tr, h, mt, ==_refl s, append-nil log) refl)
hsm_tran-Near c fuel s t q r n cur next marks log exits result (sibling p ne ps ht hs) sr tr ex ms
      mt =
    (
      p,
      rw (ne→==-false s t ne, ne→==-false t root tr, ht, mt)
          (rw (ne→==-false s p (λ e. ps (sym e)), ne→==-false s root sr, hs, ms, ==_refl p, ex)
            refl),
    )
hsm_tran-Near c fuel s t q r n cur next marks log exits result (parent p ne ps pt ht hs) sr tr ex ms
      mt =
    let far : (t == p) ≡ false = ne→==-false t p (λ e. pt (sym e)) in
    let off : (s == p) ≡ false = ne→==-false s p (λ e. ps (sym e)) in
    (
      t,
      rw (ne→==-false s t ne, ne→==-false t root tr, ht, mt)
          (rw (off, ne→==-false s root sr, hs, ms, far) (rw (==_refl t, ex, note) refl)),
    )
