-- ===== src/Hmac/Tests.antt =====
-- A digest that repeats one byte.
use general_purpose_library.Prelude.{
  ℕ, zero, suc, All, ◌≡◌, refl, arith, true, some, List, [], ◌∷◌, replicate, pos,
}
use general_purpose_library.Hex.{IsByte, hex_pairs}
use general_purpose_library.Hmac.{Engine, md5, hmac_encode}
use general_purpose_library.Hmac.Digits.{size_of, hmac_encode_lem}

abbrev fixed_digest : Engine → List ℕ → List ℕ → List ℕ
fixed_digest engine key input = replicate (size_of engine) 0xa7

-- "MD5"
abbrev md5_name : List ℕ
md5_name = 77 ∷ 68 ∷ 53 ∷ []

bytes_of_fixed : All IsByte (fixed_digest md5 (1 ∷ []) (2 ∷ []))
bytes_of_fixed = all_equal 16
  where
    all_equal : (n : ℕ) → All IsByte (replicate n 0xa7)
    all_equal zero = tt
    all_equal (suc n) = (omega arith, all_equal n)

hmac_encode_lem_example :
    hmac_encode fixed_digest true
      (some (record { algo = some md5_name; key = some (1 ∷ []); input = some (2 ∷ []) }))
      true
    ≡ some (pos 0, some (hex_pairs (replicate 16 0xa7)))
hmac_encode_lem_example =
    hmac_encode_lem fixed_digest md5 md5_name (1 ∷ []) (2 ∷ []) refl bytes_of_fixed refl
