-- ===== src/KernelList.antt =====
-- The list of the Linux kernel, of which list/klist.h and linux/utils/include/list.h are copies: what
-- its clients call, and what its comments promise. An entry is a number, NULL is no entry, and `S` is
-- the state of one list. `entries` is what list_for_each_entry visits.
use general_purpose_library.Prelude.{
  ℕ, ◌==◌, if◌then◌else◌, ◌≡◌, ◌≢◌, refl, ap, Bool, true, false, List, [], ◌∷◌, ◌++◌, All,
}

pub record ListOps {ℓ} (S : Type ℓ) : Type ℓ where
  pub init : S
  pub is_empty : S → Bool
  pub first : S → ℕ
  pub add : ℕ → S → S
  pub add_tail : ℕ → S → S
  pub del : ℕ → S → S
  pub entries : S → List ℕ

abbrev pub is_nil {ℓ} : {A : Type ℓ} → List A → Bool
is_nil [] = true
is_nil (x ∷ xs) = false

abbrev pub NotIn : ℕ → List ℕ → Type 0
NotIn x xs = All (λ y. y ≢ x) xs

abbrev pub remove : ℕ → List ℕ → List ℕ
remove x [] = []
remove x (y ∷ ys) = if y == x then ys else y ∷ remove x ys

-- `contents` lists the entries in order. An entry is added only where it is not linked.
pub record IsList {ℓ} {S : Type ℓ} (ops : ListOps S) : Type ℓ where
  pub contents : S → List ℕ
  pub contents-init : contents ops.init ≡ []
  pub is_empty_lem : (s : S) → ops.is_empty s ≡ is_nil (contents s)
  pub first_lem : (s : S) (x : ℕ) (xs : List ℕ) → contents s ≡ x ∷ xs → ops.first s ≡ x
  pub contents-add :
      (x : ℕ) (s : S) → NotIn x (contents s) → contents (ops.add x s) ≡ x ∷ contents s
  pub contents-add_tail :
      (x : ℕ) (s : S) → NotIn x (contents s) → contents (ops.add_tail x s) ≡ contents s ++ (x ∷ [])
  pub entries_lem : (s : S) → ops.entries s ≡ contents s
  pub contents-del : (x : ℕ) (s : S) → contents (ops.del x s) ≡ remove x (contents s)

-- The list by its contents
abbrev pub head_or_zero : List ℕ → ℕ
head_or_zero [] = 0
head_or_zero (x ∷ xs) = x

abbrev pub plain : ListOps (List ℕ)
plain = record {
  init = [];
  is_empty = is_nil;
  first = head_or_zero;
  add = λ x xs. x ∷ xs;
  add_tail = λ x xs. xs ++ (x ∷ []);
  del = remove;
  entries = λ s. s;
}

pub first-plain : (s : List ℕ) (x : ℕ) (xs : List ℕ) → s ≡ x ∷ xs → head_or_zero s ≡ x
first-plain s x xs e = ap head_or_zero e

abbrev pub plain-List : IsList plain
plain-List = record {
  contents = λ s. s;
  contents-init = refl;
  is_empty_lem = λ s. refl;
  first_lem = first-plain;
  contents-add = λ x s h. refl;
  contents-add_tail = λ x s h. refl;
  entries_lem = λ s. refl;
  contents-del = λ x s. refl;
}
