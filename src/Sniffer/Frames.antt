-- ===== src/Sniffer/Frames.antt =====
-- Frames of socket/sniffer.c where `char` is signed.
use general_purpose_library.Prelude.{
  ◌>>=◌, ℕ, ◌<◌, ◌≤◌, ◌≡◌, refl, arith, Bool, true, false, Option, none, some, List, if◌then◌else◌,
  ◌==◌, get_or, get_elem?-eq-get_or, length, ℤ, pos, eqb_ℤ, Bool-cases, inl, inr,
}
use general_purpose_library.Sniffer.{
  char_value, eth_is, Checks, done, check, all_match, user_len_checks, heartbeat_checks,
  is_heartbeat, Net, handle_packet,
}

-- No signed char is 128 or more.
char_value_high : (b v : ℕ) → 128 ≤ v → eqb_ℤ (char_value true b) (pos v) ≡ false
char_value_high b v h = ground arith

-- Answers that are an answer, and that are no
abbrev Decides : Option Bool → Type 0
Decides none = ⊥
Decides (some ok) = Unit {0}

eth_is_lem :
    (signed : Bool) (buf : List ℕ) (i v : ℕ)
    → i < length buf
    → eth_is signed buf i v ≡ some (eqb_ℤ (char_value signed (get_or buf i 0)) (pos v))
eth_is_lem signed buf i v h = rw (get_elem?-eq-get_or buf i 0 h) refl

check_goes_on :
    (buf : List ℕ) (i v : ℕ) (rest : Checks)
    → i < length buf
    → Decides (all_match true buf rest)
    → Decides (all_match true buf (check i v rest))
check_goes_on buf i v rest h d =
    elim (Bool-cases (eqb_ℤ (char_value true (get_or buf i 0)) (pos v))) [
      | inl same ↦ rw (eth_is_lem true buf i v h, same) d
      | inr other ↦ rw (eth_is_lem true buf i v h, other) tt
    ]

fails_check :
    (buf : List ℕ) (i v : ℕ) (rest : Checks)
    → i < length buf
    → all_match true buf rest ≡ some false
    → all_match true buf (check i v rest) ≡ some false
fails_check buf i v rest h d =
    elim (Bool-cases (eqb_ℤ (char_value true (get_or buf i 0)) (pos v))) [
      | inl same ↦ rw (eth_is_lem true buf i v h, same) d
      | inr other ↦ rw (eth_is_lem true buf i v h, other) refl
    ]

fails_high :
    (buf : List ℕ) (i v : ℕ) (rest : Checks)
    → i < length buf
    → 128 ≤ v
    → all_match true buf (check i v rest) ≡ some false
fails_high buf i v rest h high =
    rw (eth_is_lem true buf i v h, char_value_high (get_or buf i 0) v high) refl

abbrev after_magic : Checks
after_magic =
    check 44 0x66
      (check 45 0x88 (check 47 0x18 (check 48 0x00 (check 49 0x08 (check 54 0x01 done)))))

heartbeat_checks_fail :
    (buf : List ℕ) → 55 ≤ length buf → all_match true buf heartbeat_checks ≡ some false
heartbeat_checks_fail buf h =
    fails_check buf 42 0x66 (check 43 0x88 after_magic) (omega arith)
      (fails_high buf 43 0x88 after_magic (omega arith) (omega arith))

user_len_goes_on : (buf : List ℕ) → 55 ≤ length buf → Decides (all_match true buf user_len_checks)
user_len_goes_on buf h =
    check_goes_on buf 38 0 (check 39 0x28 done) (omega arith)
      (check_goes_on buf 39 0x28 done (omega arith) tt)

is_heartbeat_signed : (buf : List ℕ) → 55 ≤ length buf → is_heartbeat true buf ≡ some false
unfolding is_heartbeat
is_heartbeat_signed buf h =
    rw (get_elem?-eq-get_or buf 23 0 (omega arith)) (elim (Bool-cases (get_or buf 23 0 == 17)) [
      | inl udp ↦ rw udp (inside (all_match true buf user_len_checks) (user_len_goes_on buf h))
      | inr other ↦ rw other refl
    ])
  where
    inside :
        (r : Option Bool)
        → Decides r
        → (r >>= λ ok. if ok then all_match true buf heartbeat_checks else some false) ≡ some false
    inside none d = absurd d
    inside (some true) d = heartbeat_checks_fail buf h
    inside (some false) d = refl

module _ {ℓ} {W : Type ℓ} (net : Net W) where
  -- Where char is signed, handle_packet sends nothing for any frame in a buffer of 55 bytes or
  -- more.
  pub handle_packet_signed :
      (buf : List ℕ) (size : ℤ) (w : W)
      → 55 ≤ length buf
      → handle_packet net true buf size w ≡ some w
  unfolding handle_packet
  handle_packet_signed buf size w h = rw (is_heartbeat_signed buf h) refl
