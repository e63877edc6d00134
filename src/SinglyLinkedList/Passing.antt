-- ===== src/SinglyLinkedList/Passing.antt =====
-- The loop of singly_linked_list_del past a node, at the one to remove, and to the end.
use general_purpose_library.Prelude.{
  ℕ, zero, suc, ◌<◌, ◌≡◌, ◌≢◌, refl, sym, ◌∙◌, arith, Option, none, some, List, [], ◌∷◌, ◌++◌, All,
  length,
}
use general_purpose_library.SinglyLinkedList.{
  Node, Heap, put, Slot, at_head, at_next, SinglyLinkedList, done, read_slot, del_loop,
}
use general_purpose_library.SinglyLinkedList.Ends.{
  Linked, end_of_list, node_at, at_live, same_address, passes,
}

abbrev pub Distinct : List ℕ → Type 0
Distinct [] = Unit
Distinct (x ∷ xs) = All (λ b. b ≢ x) xs × Distinct xs

-- Around one place of a list of distinct addresses
pub around :
    (us rest : List ℕ) (y : ℕ)
    → Distinct (us ++ y ∷ rest)
    → All (λ b. b ≢ y) us × All (λ b. b ≢ y) rest
around [] rest y d = (tt, d.0)
around (u ∷ us) rest y d =
    let (before, behind) = around us rest y d.1 in ((after_it us d.0, before), behind)
  where
    after_it : (us : List ℕ) → All (λ b. b ≢ u) (us ++ y ∷ rest) → u ≢ y
    after_it [] h = λ e. h.0 (sym e)
    after_it (v ∷ vs) h = after_it vs h.1

pub around_last :
    {a : ℕ} (us : List ℕ) (y : ℕ) → All (λ b. b ≢ a) (us ++ y ∷ []) → All (λ b. b ≢ a) us × (y ≢ a)
around_last [] y h = (tt, h.0)
around_last (u ∷ us) y h = let (front, last) = around_last us y h.1 in ((h.0, front), last)

-- The rounds that lead past the nodes `us` and one more
abbrev pub more_rounds : List ℕ → ℕ → ℕ
more_rounds [] rounds = suc rounds
more_rounds (u ∷ us) rounds = suc (more_rounds us rounds)

module _ (new : ℕ) where
  -- The loop past nodes that are not the one to remove
  pub reach :
      (us rest : List ℕ) (y rounds : ℕ) (slot : Slot) (p : Option ℕ) (list : SinglyLinkedList)
      (heap : Heap)
      → read_slot slot list heap ≡ done p
      → Linked heap p (us ++ y ∷ rest)
      → All (λ b. b ≢ new) us
      → y ≢ new
      → del_loop (more_rounds us rounds) slot new list heap
        ≡ del_loop rounds (at_next y) new list heap
  reach [] rest y rounds slot _ list heap at (node_at _ node _ live tail) apart other =
      passes rounds new y slot list heap node at live other
  reach (u ∷ us) rest y rounds slot _ list heap at (node_at _ node _ live tail) apart other =
      passes (more_rounds us rounds) new u slot list heap node at live apart.0
      ∙ reach us rest y rounds (at_next u) node.next list heap (rw (at_live heap u node live) refl)
          tail apart.1 other

  -- The loop over nodes of which none is to be removed
  pub walk :
      (us : List ℕ) (rounds : ℕ) (slot : Slot) (p : Option ℕ) (list : SinglyLinkedList)
      (heap : Heap)
      → read_slot slot list heap ≡ done p
      → Linked heap p us
      → All (λ b. b ≢ new) us
      → length us < rounds
      → del_loop rounds slot new list heap ≡ done (list, heap)
  unfolding del_loop
  walk us zero slot p list heap at linked apart h = absurd (omega arith)
  walk [] (suc rounds) slot _ list heap at end_of_list apart h = rw (del_loop, at) refl
  walk (u ∷ us) (suc rounds) slot _ list heap at (node_at _ node _ live tail) apart h =
      passes rounds new u slot list heap node at live apart.0
      ∙ walk us rounds (at_next u) node.next list heap (rw (at_live heap u node live) refl) tail
          apart.1 (omega arith)

  pub walk_behind :
      (zs : List ℕ) (z rounds : ℕ) (p : Option ℕ) (list : SinglyLinkedList) (heap : Heap)
      → Linked heap p (z ∷ zs)
      → All (λ b. b ≢ new) zs
      → length zs < rounds
      → del_loop rounds (at_next z) new list heap ≡ done (list, heap)
  walk_behind zs z rounds _ list heap (node_at _ node _ live tail) apart h =
      walk zs rounds (at_next z) node.next list heap (rw (at_live heap z node live) refl) tail apart
        h

  -- The first node of a list
  pub first_out :
      (zs : List ℕ) (z rounds : ℕ) (list : SinglyLinkedList) (heap : Heap) (node : Node)
      → list.head ≡ some new
      → heap new ≡ some node
      → node.next ≡ some z
      → del_loop (suc rounds) at_head new list heap
        ≡ del_loop rounds (at_next z) new (record list { head = some z }) (put new none heap)
  unfolding del_loop
  first_out zs z rounds list heap node at live next =
      rw (del_loop, at, at_live heap new node live, same_address new, next, next) refl

  -- A node behind `y`
  pub next_out :
      (y z rounds : ℕ) (list : SinglyLinkedList) (heap : Heap) (before node : Node)
      → heap y ≡ some before
      → before.next ≡ some new
      → heap new ≡ some node
      → node.next ≡ some z
      → del_loop (suc rounds) (at_next y) new list heap
        ≡ del_loop rounds
            (at_next z)
            new
            list
            (put new none (put y (some (record before { next = some z })) heap))
  unfolding del_loop
  next_out y z rounds list heap before node there leads live next =
      rw
        (
          del_loop,
          at_live heap y before there,
          leads,
          at_live heap new node live,
          same_address new,
          next,
          at_live heap y before there,
        )
        refl
