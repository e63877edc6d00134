-- ===== src/Fifo/Refine.antt =====
-- A queue with a positive size is an unbounded queue.
use general_purpose_library.Prelude.{
  ℕ, ◌<◌, ◌≡◌, refl, sym, ap, ◌∙◌, arith, Bool, true, false, Option, none, some, List, [], ◌∷◌,
  ◌++◌, ℤ, pos, negsuc, ◌+ℤ◌, ◌-ℤ◌, ◌<ℤ◌, ◌≤ℤ◌, int_laws, -ℤ_parts, eqb_ℤ,
}
use mathlib.Core.Path.{subst}
use general_purpose_library.KernelList.{ListOps, IsList, NotIn, is_nil, remove}
use general_purpose_library.Fifo.{
  Fifo, is_full, make_room, append, succeeded, real_time_fifo_init, real_time_fifo_put,
  real_time_fifo_get,
}

-- What a client asks, and what it sees: a status and an entry
pub data Call : Type 0 where
  put : ℕ → Call
  get : Call

abbrev pub Reply : Type 0
Reply = ℤ × Option ℕ

-- The specification: a list, oldest first
abbrev pub run_queue : List ℕ → List Call → List Reply
run_queue q [] = []
run_queue q (put x ∷ calls) = (pos 0, none) ∷ run_queue (q ++ (x ∷ [])) calls
run_queue [] (get ∷ calls) = (negsuc 0, none) ∷ run_queue [] calls
run_queue (x ∷ q) (get ∷ calls) = (pos 0, some x) ∷ run_queue q calls

-- No entry is put while it is in the queue.
abbrev pub IsFresh : List ℕ → List Call → Type 0
IsFresh q [] = Unit {0}
IsFresh q (put x ∷ calls) = NotIn x q × IsFresh (q ++ (x ∷ [])) calls
IsFresh [] (get ∷ calls) = IsFresh [] calls
IsFresh (x ∷ q) (get ∷ calls) = IsFresh q calls

ne_size :
    (out taken_in size : ℤ) → pos 0 <ℤ size → out ≤ℤ taken_in → eqb_ℤ (out -ℤ taken_in) size ≡ false
ne_size out taken_in size h k = let parts = -ℤ_parts out taken_in in ground arith

both_up : (a b : ℤ) → a ≤ℤ b → a +ℤ pos 1 ≤ℤ b +ℤ pos 1
both_up a b h = omega int_laws

one_up : (a b : ℤ) → a ≤ℤ b → a ≤ℤ b +ℤ pos 1
one_up a b h = omega int_laws

module _ {ℓ κ} {S : Type ℓ} {W : Type κ} (ops : ListOps S) (release : ℕ → W → W) where
  pub run : Option (Fifo S) → W → List Call → List Reply
  run fifo w [] = []
  run fifo w (put x ∷ calls) =
      let (status, fifo', w') = real_time_fifo_put ops release (some x) fifo w in
      (status, none) ∷ run fifo' w' calls
  run fifo w (get ∷ calls) =
      let (status, entry, fifo') = real_time_fifo_get ops release fifo in
      (status, entry) ∷ run fifo' w calls

  -- Each put leaves out - in alone and each get lowers it.
  pub record IsOpen (fifo : Fifo S) : Type ℓ where
    pub initial : fifo.is_initial ≡ true
    pub positive : pos 0 <ℤ fifo.size
    pub counters : fifo.out ≤ℤ fifo.taken_in

  not_full : (fifo : Fifo S) → IsOpen fifo → is_full ops release fifo ≡ false
  not_full fifo o =
      let difference : eqb_ℤ (fifo.out -ℤ fifo.taken_in) fifo.size ≡ false =
        ne_size fifo.out fifo.taken_in fifo.size o.positive o.counters in
      rw difference refl

  put_appends :
      (fifo : Fifo S) (w : W) (x : ℕ)
      → IsOpen fifo
      → real_time_fifo_put ops release (some x) (some fifo) w
        ≡ succeeded ops release (append ops release x (fifo, w))
  unfolding real_time_fifo_put
  put_appends fifo w x o = rw (o.initial) (rw (make_room, not_full fifo o) refl)

  appended : Fifo S → ℕ → Fifo S
  appended fifo x = record fifo {
    taken_in = fifo.taken_in +ℤ pos 1;
    head = ops.add_tail x fifo.head;
    out = fifo.out +ℤ pos 1;
  }

  taken : Fifo S → ℕ → Fifo S
  taken fifo x = record fifo { head = ops.del x fifo.head; taken_in = fifo.taken_in +ℤ pos 1 }

  after_put :
      (fifo : Fifo S) (w : W) (x : ℕ) (calls : List Call)
      → IsOpen fifo
      → run (some fifo) w (put x ∷ calls) ≡ (pos 0, none) ∷ run (some (appended fifo x)) w calls
  unfolding run appended
  after_put fifo w x calls o =
      ap (λ (r : ℤ × Option (Fifo S) × W). (r.0, none) ∷ run r.1 r.2 calls) (put_appends fifo w x o)

  module _ (laws : IsList ops) where
    run_get_empty :
        (fifo : Fifo S) (w : W) (calls : List Call)
        → IsOpen fifo
        → laws.contents fifo.head ≡ []
        → run (some fifo) w (get ∷ calls) ≡ (negsuc 0, none) ∷ run (some fifo) w calls
    unfolding run real_time_fifo_get
    run_get_empty fifo w calls o nothing =
        let empty : ops.is_empty fifo.head ≡ true =
          laws.is_empty_lem fifo.head ∙ ap is_nil nothing in
        rw (o.initial, empty) refl

    run_get :
        (fifo : Fifo S) (w : W) (x : ℕ) (q : List ℕ) (calls : List Call)
        → IsOpen fifo
        → laws.contents fifo.head ≡ x ∷ q
        → run (some fifo) w (get ∷ calls) ≡ (pos 0, some x) ∷ run (some (taken fifo x)) w calls
    unfolding run real_time_fifo_get taken
    run_get fifo w x q calls o some_entry =
        let not_empty : ops.is_empty fifo.head ≡ false =
          laws.is_empty_lem fifo.head ∙ ap is_nil some_entry in
        rw (o.initial, not_empty, laws.first_lem fifo.head x q some_entry) refl

    removed_first : (x : ℕ) (q : List ℕ) → remove x (x ∷ q) ≡ q
    removed_first x q = ground arith

    appended-Open : (fifo : Fifo S) (x : ℕ) → IsOpen fifo → IsOpen (appended fifo x)
    unfolding appended
    appended-Open fifo x o = record {
      initial = o.initial;
      positive = o.positive;
      counters = both_up fifo.out fifo.taken_in o.counters;
    }

    taken-Open : (fifo : Fifo S) (x : ℕ) → IsOpen fifo → IsOpen (taken fifo x)
    unfolding taken
    taken-Open fifo x o = record {
      initial = o.initial;
      positive = o.positive;
      counters = one_up fifo.out fifo.taken_in o.counters;
    }

    contents-appended :
        (fifo : Fifo S) (x : ℕ) (q : List ℕ)
        → laws.contents fifo.head ≡ q
        → NotIn x q
        → laws.contents (appended fifo x).head ≡ q ++ (x ∷ [])
    unfolding appended
    contents-appended fifo x q holds apart =
        laws.contents-add_tail x fifo.head (subst (NotIn x) (sym holds) apart)
        ∙ ap (λ (l : List ℕ). l ++ (x ∷ [])) holds

    contents-taken :
        (fifo : Fifo S) (x : ℕ) (q : List ℕ)
        → laws.contents fifo.head ≡ x ∷ q
        → laws.contents (taken fifo x).head ≡ q
    unfolding taken
    contents-taken fifo x q holds =
        laws.contents-del x fifo.head ∙ ap (remove x) holds ∙ removed_first x q

    pub refines :
        (calls : List Call) (fifo : Fifo S) (w : W) (q : List ℕ)
        → IsOpen fifo
        → laws.contents fifo.head ≡ q
        → IsFresh q calls
        → run (some fifo) w calls ≡ run_queue q calls
    refines [] fifo w q o holds fresh = unfold run in refl
    refines (put x ∷ calls) fifo w q o holds (apart, fresh) =
        after_put fifo w x calls o
        ∙ ap (◌∷◌ (pos 0, none)) (
            refines calls (appended fifo x) w (q ++ (x ∷ [])) (appended-Open fifo x o)
              (contents-appended fifo x q holds apart) fresh)
    refines (get ∷ calls) fifo w [] o holds fresh =
        run_get_empty fifo w calls o holds
        ∙ ap (◌∷◌ (negsuc 0, none)) (refines calls fifo w [] o holds fresh)
    refines (get ∷ calls) fifo w (x ∷ q) o holds fresh =
        run_get fifo w x q calls o holds
        ∙ ap (◌∷◌ (pos 0, some x)) (
            refines calls (taken fifo x) w q (taken-Open fifo x o) (contents-taken fifo x q holds)
              fresh)

    -- After real_time_fifo_init with a positive size, the replies to any sequence of puts, of
    -- entries that are not queued at that time, and gets, over any list that keeps the laws of
    -- KernelList, are those of a queue without bound.
    pub run-real_time_fifo :
        (calls : List Call) (old : Fifo S) (size : ℕ) (has_release : Bool) (w : W)
        → 0 < size
        → IsFresh [] calls
        → run (real_time_fifo_init ops release (some old) (pos size) has_release).1 w calls
          ≡ run_queue [] calls
    unfolding real_time_fifo_init
    run-real_time_fifo calls old size has_release w h fresh =
        refines calls _ w []
          (record { initial = refl; positive = omega arith; counters = omega arith })
          laws.contents-init fresh
