-- ===== src/Hmac.antt =====
-- algorithm/algo_hmac.c: the digest of a message under a key, as hex digits. The digests of the crypto
-- library are the argument `digest`; a string is its bytes without the terminator. `none` is a write
-- outside a buffer, or a NULL that is followed where there is no memory.
pub mod Digits
mod Tests
use general_purpose_library.Hex.{format_02x}
use general_purpose_library.Prelude.{
  ◌>>=◌, ℕ, suc, ◌+◌, Bool, true, false, ◌&&◌, Option, none, some, List, [], ◌∷◌, ◌++◌, ◌==◌, ltb,
  leb, if◌then◌else◌, length, ℤ, pos, negsuc,
}

pub data Engine : Type 0 where
  sha512 sha256 sha1 md5 sha224 sha384 sha : Engine

-- algo_hmac_t
pub record Hmac : Type 0 where
  pub algo : Option (List ℕ)
  pub key : Option (List ℕ)
  pub input : Option (List ℕ)

abbrev pub lower : ℕ → ℕ
lower c = if leb 65 c && leb c 90 then c + 32 else c

-- `strcasecmp(a, b) == 0`
abbrev pub strcasecmp_eq : List ℕ → List ℕ → Bool
strcasecmp_eq [] [] = true
strcasecmp_eq [] (b ∷ bs) = false
strcasecmp_eq (a ∷ as') [] = false
strcasecmp_eq (a ∷ as') (b ∷ bs) = (lower a == lower b) && strcasecmp_eq as' bs

abbrev pub engine_name : Engine → List ℕ
engine_name sha512 = 115 ∷ 104 ∷ 97 ∷ 53 ∷ 49 ∷ 50 ∷ []
engine_name sha256 = 115 ∷ 104 ∷ 97 ∷ 50 ∷ 53 ∷ 54 ∷ []
engine_name sha1 = 115 ∷ 104 ∷ 97 ∷ 49 ∷ []
engine_name md5 = 109 ∷ 100 ∷ 53 ∷ []
engine_name sha224 = 115 ∷ 104 ∷ 97 ∷ 50 ∷ 50 ∷ 52 ∷ []
engine_name sha384 = 115 ∷ 104 ∷ 97 ∷ 51 ∷ 56 ∷ 52 ∷ []
engine_name sha = 115 ∷ 104 ∷ 97 ∷ []

abbrev pub engines : List Engine
engines = sha512 ∷ sha256 ∷ sha1 ∷ md5 ∷ sha224 ∷ sha384 ∷ sha ∷ []

-- The chain of comparisons
abbrev pub find_engine : List Engine → List ℕ → Option Engine
find_engine [] algo = none
find_engine (e ∷ es) algo =
    if strcasecmp_eq (engine_name e) algo then some e else find_engine es algo

-- One sprintf, which writes its digits and a terminator into the 128 bytes
abbrev pub add_digits : List ℕ → List ℕ → Option (List ℕ)
add_digits text more = if ltb (length (text ++ more)) 128 then some (text ++ more) else none

-- The loop over the digest
abbrev pub print_digest : List ℕ → List ℕ → Option (List ℕ)
print_digest [] text = some text
print_digest (b ∷ bs) text = do
  longer ← add_digits text (format_02x (pos b))
  print_digest bs longer

abbrev pub answer_hmac : Option (List ℕ) → Option (ℤ × Option (List ℕ))
answer_hmac none = none
answer_hmac (some text) = some (pos 0, some text)

module _ (digest : Engine → List ℕ → List ℕ → List ℕ) where
  abbrev pub encode_with : Bool → List ℕ → List ℕ → Option Engine → Option (ℤ × Option (List ℕ))
  encode_with has_memory key input none = some (negsuc 0, none)
  encode_with false key input (some engine) = none
  encode_with true key input (some engine) = answer_hmac (print_digest (digest engine key input) [])

  abbrev pub encode :
      Bool → Option (List ℕ) → Option (List ℕ) → Option (List ℕ) → Option (ℤ × Option (List ℕ))
  encode has_memory none key input = some (negsuc 0, none)
  encode has_memory (some algo) none input = some (negsuc 0, none)
  encode has_memory (some algo) (some key) none = some (negsuc 0, none)
  encode has_memory (some algo) (some key) (some input) =
      encode_with has_memory key input (find_engine engines algo)

  -- What is answered, and what `*result` is set to
  pub hmac_encode : Bool → Option Hmac → Bool → Option (ℤ × Option (List ℕ))
  hmac_encode has_memory none has_result = some (negsuc 0, none)
  hmac_encode has_memory (some hmac) false = some (negsuc 0, none)
  hmac_encode has_memory (some hmac) true = encode has_memory hmac.algo hmac.key hmac.input
