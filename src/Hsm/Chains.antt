-- ===== src/Hsm/Chains.antt =====
-- Chains of superstates, and what the recording of a path along one does.
use general_purpose_library.Prelude.{
  ℕ, zero, suc, ◌+◌, ◌≤◌, ◌<◌, ◌≡◌, ◌≢◌, refl, sym, ap, ◌∙◌, arith, Bool, true, some, List, [], ◌∷◌,
  ◌++◌, ◌==◌, if◌then◌else◌, length, get_or, get_elem?-eq-get_or, set, length-set, get_or-set_self,
  get_or-set_ne, All, ne→==-false, lt→ltb,
}
use mathlib.Core.List.{map, reverse, reverse-append, append-nil, append_assoc}
use general_purpose_library.Hsm.{
  State, root, empty_sig, evt_super, Chart, up, Action, entered, Machine, done, fault, and_then,
  ◌>>◌, load, store, reply_of, entry_of, call_handler, run_entry, enter_path,
}

-- `xs` is `s`, its superstate, and so on, up to a state right below the root.
pub data Ancestors (c : Chart) : State → List State → Type 0 where
  top : {s : State} → s ≢ root → c.handler s empty_sig ≡ up root → Ancestors c s (s ∷ [])
  above :
      {s p : State} {xs : List State}
      → s ≢ root
      → c.handler s empty_sig ≡ up p
      → Ancestors c p xs
      → Ancestors c s (s ∷ xs)

-- Every state of the list has an entry action.
abbrev pub CanEnter : Chart → List State → Type 0
CanEnter c xs = All (λ s. (s ≢ root) × ((n : ℕ) × (c.on_entry s ≡ some n))) xs

abbrev pub mark : State → (State → Bool) → State → Bool
mark s a t = if t == s then true else a t

abbrev pub mark_all : List State → (State → Bool) → State → Bool
mark_all [] a = a
mark_all (s ∷ xs) a = mark_all xs (mark s a)

-- `xs` written to the path from index `i` on
abbrev pub fill : List State → ℕ → List State → List State
fill path i [] = path
fill path i (x ∷ xs) = fill (set path i x) (i + 1) xs

abbrev pub machine : State → State → (State → Bool) → List Action → Machine
machine cur next marks log = record {
  cur_state = cur;
  next_state = next;
  attached = marks;
  log = log;
}

pub length-fill :
    (path : List State) (i : ℕ) (xs : List State) → length (fill path i xs) ≡ length path
length-fill path i [] = refl
length-fill path i (x ∷ xs) = length-fill (set path i x) (i + 1) xs ∙ length-set path i x

fill-below :
    (path : List State) (i j : ℕ) (xs : List State)
    → j < i
    → get_or (fill path i xs) j 0 ≡ get_or path j 0
fill-below path i j [] h = refl
fill-below path i j (x ∷ xs) h =
    fill-below (set path i x) (i + 1) j xs (omega arith) ∙ get_or-set_ne path i j x 0 (omega arith)

pub fill-at :
    (path : List State) (i j : ℕ) (xs : List State)
    → j < length xs
    → i + length xs ≤ length path
    → get_or (fill path i xs) (i + j) 0 ≡ get_or xs j 0
fill-at path i j [] h fits = absurd (omega arith)
fill-at path i zero (x ∷ xs) h fits =
    let e : i + 0 ≡ i = omega arith in
    rw e (
      fill-below (set path i x) (i + 1) i xs (omega arith)
      ∙ get_or-set_self path i x 0 (omega arith))
fill-at path i (suc j) (x ∷ xs) h fits =
    let e : i + suc j ≡ i + 1 + j = omega arith in
    rw e (fill-at (set path i x) (i + 1) j xs (omega arith) (omega (arith, length-set path i x)))

-- The first `n` entries of a path, last first: the order in which `enter_path` enters them.
abbrev pub downto : List State → ℕ → List State
downto path zero = []
downto path (suc n) = get_or path n 0 ∷ downto path n

pub downto-agree :
    (p q : List State) (n : ℕ)
    → ((j : ℕ) → j < n → get_or p j 0 ≡ get_or q j 0)
    → downto p n ≡ downto q n
downto-agree p q zero h = refl
downto-agree p q (suc n) h =
    rw (h n (omega arith), downto-agree p q n (λ j b. h j (omega arith))) refl

downto-cons :
    (x : State) (xs : List State) (n : ℕ) → downto (x ∷ xs) (suc n) ≡ downto xs n ++ (x ∷ [])
downto-cons x xs zero = refl
downto-cons x xs (suc n) = ap (λ t. get_or xs n 0 ∷ t) (downto-cons x xs n)

pub downto-length : (xs : List State) → downto xs (length xs) ≡ reverse xs
downto-length [] = refl
downto-length (x ∷ xs) =
    downto-cons x xs (length xs)
    ∙ ap (λ t. t ++ (x ∷ [])) (downto-length xs)
    ∙ sym (reverse-append (x ∷ []) xs)

pub load-at :
    (path : List State) (n : ℕ) (m : Machine)
    → n < length path
    → load path n m ≡ done (get_or path n 0) m
unfolding load
load-at path n m h = rw (get_elem?-eq-get_or path n 0 h, load) refl

pub store-at :
    (path : List State) (n : ℕ) (s : State) (m : Machine)
    → n < length path
    → store path n s m ≡ done (set path n s) m
unfolding store
store-at path n s m h = rw (lt→ltb n (length path) h) refl

pub store-outside :
    (path : List State) (n : ℕ) (s : State) (m : Machine)
    → length path ≤ n
    → store path n s m ≡ fault
unfolding store
store-outside path n s m h = ground arith

module _ (c : Chart) where
  -- Asking an attached state for its superstate.
  pub ask_super :
      (s p cur next : State) (marks : State → Bool) (log : List Action)
      → s ≢ root
      → c.handler s empty_sig ≡ up p
      → marks s ≡ true
      → call_handler c s empty_sig (machine cur next marks log)
        ≡ done evt_super (machine cur p marks log)
  unfolding call_handler reply_of
  ask_super s p cur next marks log ne h a = rw (ne→==-false s root ne, h, a) refl

  pub enter_one :
      (s : State) (m : Machine)
      → (s ≢ root) × ((n : ℕ) × (c.on_entry s ≡ some n))
      → (n : ℕ) × (run_entry c s m ≡ done n (record m { log = m.log ++ (entered s ∷ []) }))
  unfolding run_entry entry_of
  enter_one s m (ne, (n, e)) = (n, rw (ne→==-false s root ne, e) refl)

  -- The entry actions of the first `n` states of the path run, last first.
  pub enter_path-log :
      (path : List State) (n : ℕ) (m : Machine)
      → n ≤ length path
      → CanEnter c (downto path n)
      → enter_path c path n m ≡ done tt (record m { log = m.log ++ map entered (downto path n) })
  unfolding enter_path
  enter_path-log path zero m h k = rw (append-nil m.log) refl
  enter_path-log path (suc n) m h k =
      let (r, e) = enter_one (get_or path n 0) m k.0 in
      ap (λ t. and_then t (λ s. run_entry c s >> enter_path c path n))
        (load-at path n m (omega arith))
      ∙ ap (λ t. and_then t (λ _. enter_path c path n)) e
      ∙ enter_path-log path n (record m { log = m.log ++ (entered (get_or path n 0) ∷ []) })
          (omega arith) k.1
      ∙ rw (append_assoc m.log (entered (get_or path n 0) ∷ []) (map entered (downto path n))) refl
