-- ===== src/Hmac/Digits.antt =====
-- The text that hmac_encode of algorithm/algo_hmac.c makes of a digest, and where it overruns its
-- buffer.
use mathlib.Core.List.{append-nil, append_assoc}
use general_purpose_library.Prelude.{
  ◌>>=◌, ℕ, ◌+◌, ◌*◌, ◌<◌, ◌≤◌, ◌≡◌, refl, sym, ap, ◌∙◌, arith, Bool, true, false, none, some, List,
  [], ◌∷◌, ◌++◌, ltb, ltb→lt, ◌/◌, ◌%◌, length, All, pos, length-append, Bool-cases, inl, inr,
  if◌then◌else◌,
}
use general_purpose_library.Hex.{IsByte, hex_digit, format_02x_byte, hex_pairs}
use general_purpose_library.Hmac.{
  Engine, sha512, sha256, sha1, md5, sha224, sha384, sha, engines, find_engine, add_digits,
  print_digest, answer_hmac, hmac_encode,
}

-- The bytes of a digest
abbrev pub size_of : Engine → ℕ
size_of sha512 = 64
size_of sha256 = 32
size_of sha1 = 20
size_of md5 = 16
size_of sha224 = 28
size_of sha384 = 48
size_of sha = 20

abbrev pub is_sha512 : Engine → Bool
is_sha512 sha512 = true
is_sha512 sha256 = false
is_sha512 sha1 = false
is_sha512 md5 = false
is_sha512 sha224 = false
is_sha512 sha384 = false
is_sha512 sha = false

abbrev two_digits : ℕ → List ℕ
two_digits b = hex_digit (b / 16) ∷ hex_digit (b % 16) ∷ []

length-two_digits : (text : List ℕ) (b : ℕ) → length (text ++ two_digits b) ≡ length text + 2
length-two_digits text b = length-append text (two_digits b)

print_fits :
    (b : ℕ) (bs text : List ℕ)
    → IsByte b
    → length text + 2 < 128
    → print_digest (b ∷ bs) text ≡ print_digest bs (text ++ two_digits b)
print_fits b bs text byte h =
    let n = length-two_digits text b in
    let e : ltb (length (text ++ two_digits b)) 128 ≡ true = ground arith in
    ap (λ (t : List ℕ). add_digits text t >>= print_digest bs) (format_02x_byte b byte) ∙ rw e refl

print_overruns :
    (b : ℕ) (bs text : List ℕ)
    → IsByte b
    → 128 ≤ length text + 2
    → print_digest (b ∷ bs) text ≡ none
print_overruns b bs text byte h =
    let n = length-two_digits text b in
    let e : ltb (length (text ++ two_digits b)) 128 ≡ false = ground arith in
    ap (λ (t : List ℕ). add_digits text t >>= print_digest bs) (format_02x_byte b byte) ∙ rw e refl

print_digest_lem :
    (bs text : List ℕ)
    → All IsByte bs
    → length text + 2 * length bs < 128
    → print_digest bs text ≡ some (text ++ hex_pairs bs)
print_digest_lem [] text bytes h = ap some (sym (append-nil text))
print_digest_lem (b ∷ bs) text (byte, bytes) h =
    let n = length-two_digits text b in
    print_fits b bs text byte (omega arith)
    ∙ print_digest_lem bs (text ++ two_digits b) bytes (omega arith)
    ∙ ap some (append_assoc text (two_digits b) (hex_pairs bs))

print_digest_overruns :
    (bs text : List ℕ)
    → All IsByte bs
    → length text < 128
    → 128 ≤ length text + 2 * length bs
    → print_digest bs text ≡ none
print_digest_overruns [] text bytes room h = absurd (omega arith)
print_digest_overruns (b ∷ bs) text (byte, bytes) room h =
    let n = length-two_digits text b in
    elim (Bool-cases (ltb (length text + 2) 128)) [
      | inl fits ↦
          print_fits b bs text byte (ltb→lt (length text + 2) 128 fits)
          ∙ print_digest_overruns bs (text ++ two_digits b) bytes (ground arith) (omega arith)
      | inr over ↦ print_overruns b bs text byte (ground arith)
    ]

printed :
    (engine : Engine) (bs : List ℕ)
    → All IsByte bs
    → length bs ≡ size_of engine
    → print_digest bs [] ≡ (if is_sha512 engine then none else some (hex_pairs bs))
printed sha512 bs bytes h = print_digest_overruns bs [] bytes (omega arith) (omega arith)
printed sha256 bs bytes h = print_digest_lem bs [] bytes (omega arith)
printed sha1 bs bytes h = print_digest_lem bs [] bytes (omega arith)
printed md5 bs bytes h = print_digest_lem bs [] bytes (omega arith)
printed sha224 bs bytes h = print_digest_lem bs [] bytes (omega arith)
printed sha384 bs bytes h = print_digest_lem bs [] bytes (omega arith)
printed sha bs bytes h = print_digest_lem bs [] bytes (omega arith)

module _ (digest : Engine → List ℕ → List ℕ → List ℕ) where
  -- For an algorithm whose name the chain of comparisons finds and a digest of its documented
  -- size, hmac_encode answers 0 and two hex digits for each byte of the digest, except for sha512,
  -- where it writes outside its buffer.
  pub hmac_encode_lem :
      (engine : Engine) (algo key input : List ℕ)
      → find_engine engines algo ≡ some engine
      → let bs = digest engine key input in
        All IsByte bs
        → length bs ≡ size_of engine
        → hmac_encode digest true
            (some (record { algo = some algo; key = some key; input = some input }))
            true
          ≡ (if is_sha512 engine then none else some (pos 0, some (hex_pairs bs)))
  unfolding hmac_encode
  hmac_encode_lem engine algo key input found bytes size =
      rw (found, printed engine (digest engine key input) bytes size) (inside engine)
    where
      inside :
          (e : Engine)
          → answer_hmac (if is_sha512 e then none else some (hex_pairs (digest engine key input)))
            ≡ (if is_sha512 e
                then none
                else some (pos 0, some (hex_pairs (digest engine key input))))
      inside sha512 = refl
      inside sha256 = refl
      inside sha1 = refl
      inside md5 = refl
      inside sha224 = refl
      inside sha384 = refl
      inside sha = refl
