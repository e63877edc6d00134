-- ===== src/Sniffer/Framework/Filters.antt =====
-- Which filters of socket/sniffer_framework.c see a frame, and in which order.
use mathlib.Core.Path.{subst}
use general_purpose_library.Prelude.{
  ℕ, ◌≡◌, refl, ap, ◌∙◌, arith, Bool, true, false, List, [], ◌∷◌, if◌then◌else◌, ℤ, pos, negsuc,
  ltb_ℤ, sym, Bool-cases, inl, inr,
}
use general_purpose_library.KernelList.{ListOps, IsList, NotIn}
use general_purpose_library.Sniffer.Framework.{
  Sniffer, Sockets, with_buffer, with_socket, sniffer_init, register_sniffer, ask_filters,
  sniffer_model,
}

-- No filter is registered twice.
abbrev pub IsDistinct : List ℕ → List ℕ → Type 0
IsDistinct registered [] = Unit {0}
IsDistinct registered (filter ∷ filters) =
    NotIn filter registered × IsDistinct (filter ∷ registered) filters

abbrev pub newest_first : List ℕ → List ℕ → List ℕ
newest_first registered [] = registered
newest_first registered (filter ∷ filters) = newest_first (filter ∷ registered) filters

-- The filters that accept a frame
abbrev pub accepting : (ℕ → Bool) → List ℕ → List ℕ
accepting accepts [] = []
accepting accepts (filter ∷ filters) =
    if accepts filter then filter ∷ accepting accepts filters else accepting accepts filters

no_success : negsuc 0 ≡ pos 0 → ⊥
no_success h = ground arith

not_negative : (n : ℕ) → ltb_ℤ (pos n) (pos 0) ≡ false
not_negative n = ground arith

module _ {ℓ κ} {S : Type ℓ} {W : Type κ} (ops : ListOps S) (net : Sockets W) where
  -- Filters that are registered one after the other
  abbrev pub register_all : Sniffer S → List ℕ → Sniffer S
  register_all snf [] = snf
  register_all snf (filter ∷ filters) = register_all (register_sniffer ops net snf filter).1 filters

  abbrev pub run_actions : List ℕ → List ℕ → W → W
  run_actions [] frame w = w
  run_actions (filter ∷ filters) frame w = run_actions filters frame (net.action filter frame w)

  ask_filters_lem :
      (filters frame : List ℕ) (w : W)
      → ask_filters ops net filters frame w
        ≡ run_actions (accepting (λ f. net.accepts f frame) filters) frame w
  ask_filters_lem [] frame w = refl
  ask_filters_lem (filter ∷ filters) frame w = elim (Bool-cases (net.accepts filter frame)) [
    | inl match_found ↦ rw match_found (ask_filters_lem filters frame (net.action filter frame w))
    | inr no_match ↦ rw no_match (ask_filters_lem filters frame w)
  ]

  init_lem :
      (snf : Sniffer S) (is_debug : Bool) (w : W)
      → (sniffer_init ops net snf is_debug w).0 ≡ pos 0
      → (sniffer_init ops net snf is_debug w).1.filter_head ≡ ops.init
  unfolding sniffer_init
  init_lem snf is_debug w = inside (net.malloc w)
    where
      opened :
          (r : ℤ × W)
          → (with_socket ops net snf is_debug r).0 ≡ pos 0
          → (with_socket ops net snf is_debug r).1.filter_head ≡ ops.init
      opened (fd, w1) h = elim (Bool-cases (ltb_ℤ fd (pos 0))) [
        | inl bad ↦
            let failed : (with_socket ops net snf is_debug (fd, w1)).0 ≡ negsuc 0 = rw bad refl in
            absurd (no_success (sym failed ∙ h))
        | inr good ↦ rw good refl
      ]

      inside :
          (r : Bool × W)
          → (with_buffer ops net snf is_debug r).0 ≡ pos 0
          → (with_buffer ops net snf is_debug r).1.filter_head ≡ ops.init
      inside (true, w1) h = opened (net.socket w1) h
      inside (false, w1) h = absurd (no_success h)

  module _ (laws : IsList ops) where
    registered_contents :
        (snf : Sniffer S) (registered filters : List ℕ)
        → laws.contents snf.filter_head ≡ registered
        → IsDistinct registered filters
        → (laws.contents (register_all snf filters).filter_head ≡ newest_first registered filters)
          × ((register_all snf filters).sockfd ≡ snf.sockfd)
    unfolding register_sniffer
    registered_contents snf registered [] h distinct = (h, refl)
    registered_contents snf registered (filter ∷ filters) h (fresh, rest) =
        registered_contents (record snf { filter_head = ops.add filter snf.filter_head })
          (filter ∷ registered) filters
          (laws.contents-add filter snf.filter_head (subst (NotIn filter) (sym h) fresh)
            ∙ ap (λ (t : List ℕ). filter ∷ t) h)
          rest

    -- After a sniffer_init that answers 0 and the registration of different filters, over any list
    -- that keeps the laws of KernelList, a call of sniffer_model that receives a frame runs the
    -- actions of exactly the filters that accept it, the one registered last first.
    pub sniffer_model_lem :
        (snf : Sniffer S) (is_debug : Bool) (filters frame : List ℕ) (size : ℕ) (w w1 w2 : W)
        → (sniffer_init ops net snf is_debug w).0 ≡ pos 0
        → IsDistinct [] filters
        → let started = (sniffer_init ops net snf is_debug w).1 in
          net.recvfrom started.sockfd w1 ≡ (pos size, frame, w2)
          → sniffer_model ops net (register_all started filters) w1
            ≡ run_actions (accepting (λ f. net.accepts f frame) (newest_first [] filters)) frame w2
    unfolding sniffer_model
    sniffer_model_lem snf is_debug filters frame size w w1 w2 ok distinct got =
        let started = (sniffer_init ops net snf is_debug w).1 in
        let empty = ap laws.contents (init_lem snf is_debug w ok) ∙ laws.contents-init in
        let (held, same) = registered_contents started [] filters empty distinct in
        rw (same, got, not_negative size)
          (ap (λ (fs : List ℕ). ask_filters ops net fs frame w2)
              (laws.entries_lem (register_all started filters).filter_head ∙ held)
            ∙ ask_filters_lem (newest_first [] filters) frame w2)
