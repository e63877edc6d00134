-- ===== src/Fifo.antt =====
-- linux/utils/src/real_time_fifo.c: a queue of list entries between threads. The list is that of
-- `KernelList`, the release function the argument `release`, and `W` what it changes. A call runs
-- alone: the mutex is left out. The counters are exact, since their overflow is undefined in C.
pub mod Refine
mod Tests
use general_purpose_library.Prelude.{
  ℕ, Bool, true, false, ◌&&◌, not, Option, none, some, if◌then◌else◌, ℤ, pos, negsuc, ◌+ℤ◌, ◌-ℤ◌,
  eqb_ℤ, zero, suc, List, [], ◌∷◌,
}
use general_purpose_library.KernelList.{ListOps}

-- real_time_fifo_t; `in` is spelled `taken_in`, and `release` is none where it is NULL
pub record Fifo {ℓ} (S : Type ℓ) : Type ℓ where
  pub taken_in : ℤ
  pub out : ℤ
  pub size : ℤ
  pub head : S
  pub has_release : Bool
  pub is_initial : Bool

module _ {ℓ κ} {S : Type ℓ} {W : Type κ} (ops : ListOps S) (release : ℕ → W → W) where
  pub real_time_fifo_init : Option (Fifo S) → ℤ → Bool → ℤ × Option (Fifo S)
  real_time_fifo_init none size has_release = (negsuc 0, none)
  real_time_fifo_init (some fifo) size has_release = (
    pos 0,
    some (record {
      taken_in = pos 0;
      out = pos 0;
      size = size;
      head = ops.init;
      has_release = has_release;
      is_initial = true;
    }),
  )

  abbrev pub release_entry : Fifo S → ℕ → W → W
  release_entry fifo entry w = if fifo.has_release then release entry w else w

  -- The test of line 40
  abbrev pub is_full : Fifo S → Bool
  is_full fifo = eqb_ℤ (fifo.out -ℤ fifo.taken_in) fifo.size && not (ops.is_empty fifo.head)

  abbrev pub evict : Fifo S → W → Fifo S × W
  evict fifo w =
      let ptr = ops.first fifo.head in
      (record fifo { head = ops.del ptr fifo.head }, release_entry fifo ptr w)

  abbrev pub make_room : Fifo S → W → Fifo S × W
  make_room fifo w = if is_full fifo then evict fifo w else (fifo, w)

  abbrev pub append : ℕ → Fifo S × W → Fifo S × W
  append entry (fifo, w) = (
    record fifo {
      taken_in = fifo.taken_in +ℤ pos 1;
      head = ops.add_tail entry fifo.head;
      out = fifo.out +ℤ pos 1;
    },
    w,
  )

  abbrev pub succeeded : Fifo S × W → ℤ × Option (Fifo S) × W
  succeeded (fifo, w) = (pos 0, some fifo, w)

  pub real_time_fifo_put : Option ℕ → Option (Fifo S) → W → ℤ × Option (Fifo S) × W
  real_time_fifo_put entry none w = (negsuc 0, none, w)
  real_time_fifo_put none (some fifo) w = (negsuc 0, some fifo, w)
  real_time_fifo_put (some entry) (some fifo) w =
      if fifo.is_initial
      then succeeded (append entry (make_room fifo w))
      else (negsuc 0, some fifo, w)

  abbrev pub take_first : Fifo S → ℤ × Option ℕ × Option (Fifo S)
  take_first fifo =
      let entry = ops.first fifo.head in
      (
        pos 0,
        some entry,
        some (record fifo { head = ops.del entry fifo.head; taken_in = fifo.taken_in +ℤ pos 1 }),
      )

  -- What is stored through the second argument, which is not NULL; `none` for nothing
  pub real_time_fifo_get : Option (Fifo S) → ℤ × Option ℕ × Option (Fifo S)
  real_time_fifo_get none = (negsuc 0, none, none)
  real_time_fifo_get (some fifo) =
      if fifo.is_initial
      then (if ops.is_empty fifo.head then (negsuc 0, none, some fifo) else take_first fifo)
      else (negsuc 0, none, some fifo)

  -- The loop over the entries, with rounds left
  unfoldable pub release_all : ℕ → Fifo S → W → Option (Fifo S × W)
  release_all zero fifo w = none
  release_all (suc rounds) fifo w = elim (ops.is_empty fifo.head) [
    | true ↦ some (fifo, w)
    | false ↦ let (rest, w1) = evict fifo w in release_all rounds rest w1
  ]

  abbrev pub closed : Option (Fifo S × W) → Option (ℤ × Option (Fifo S) × W)
  closed none = none
  closed (some (fifo, w)) =
      some (pos 0, some (record fifo { taken_in = pos 0; out = pos 0; is_initial = false }), w)

  unfoldable pub real_time_fifo_destroy : ℕ → Option (Fifo S) → W → Option (ℤ × Option (Fifo S) × W)
  real_time_fifo_destroy rounds none w = some (negsuc 0, none, w)
  real_time_fifo_destroy rounds (some fifo) w = closed (release_all rounds fifo w)
