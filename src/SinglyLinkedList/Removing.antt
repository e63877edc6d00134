-- ===== src/SinglyLinkedList/Removing.antt =====
-- What singly_linked_list_del does to a node of a list, inner or last.
use mathlib.Core.List.{append_assoc}
use mathlib.Core.Path.{subst}
use general_purpose_library.Prelude.{
  ℕ, zero, suc, ◌+◌, ◌-◌, ◌<◌, ◌≡◌, ◌≢◌, refl, sym, ap, ◌∙◌, arith, Option, none, some, List, [],
  ◌∷◌, ◌++◌, All, length, length-append,
}
use general_purpose_library.SinglyLinkedList.{
  Node, Heap, put, at_head, SinglyLinkedList, Outcome, done, invalid, singly_linked_list_del,
}
use general_purpose_library.SinglyLinkedList.Ends.{
  Linked, node_at, put_away, put_here, put_other, del_last_node,
}
use general_purpose_library.SinglyLinkedList.Passing.{
  Distinct, around, around_last, more_rounds, reach, walk_behind, first_out, next_out,
}

starts_at : (heap : Heap) (p : Option ℕ) (a : ℕ) (xs : List ℕ) → Linked heap p (a ∷ xs) → p ≡ some a
starts_at heap _ a xs (node_at _ node _ live tail) = refl

module _ (heap : Heap) (new z : ℕ) (zs : List ℕ) where
  -- A node, the one behind it that is to be removed, and the rest
  abbrev Around : ℕ → Type 0
  Around y =
      (before : Node) × (node : Node) × (heap y ≡ some before)
      × (before.next ≡ some new)
      × (heap new ≡ some node)
      × (node.next ≡ some z)
      × Linked heap node.next (z ∷ zs)

  second_place :
      (p : Option ℕ)
      → Linked heap p (new ∷ z ∷ zs)
      → (node : Node) × (heap new ≡ some node)
        × (node.next ≡ some z)
        × Linked heap node.next (z ∷ zs)
  second_place _ (node_at _ node _ live tail) =
      (node, live, starts_at heap node.next z zs tail, tail)

  at_place :
      (us : List ℕ) (y : ℕ) (p : Option ℕ) → Linked heap p (us ++ y ∷ new ∷ z ∷ zs) → Around y
  at_place [] y _ (node_at _ before _ there tail) =
      let (node, live, next, rest) = second_place before.next tail in
      (before, node, there, starts_at heap before.next new (z ∷ zs) tail, live, next, rest)
  at_place (u ∷ us) y _ (node_at _ other _ there tail) = at_place us y other.next tail

  -- The heap with `new` freed
  abbrev without : Heap → Heap
  without = put new none

  stays :
      (value : Option Node) (y : ℕ) (p : Option ℕ) (xs : List ℕ)
      → Linked heap p xs
      → All (λ b. b ≢ y) xs
      → All (λ b. b ≢ new) xs
      → Linked (without (put y value heap)) p xs
  stays value y p xs linked apart fresh =
      put_other (put y value heap) new none p xs (put_other heap y value p xs linked apart) fresh

  relink :
      (us : List ℕ) (y : ℕ) (before : Node) (p : Option ℕ)
      → Linked heap p (us ++ y ∷ new ∷ z ∷ zs)
      → Linked heap (some z) (z ∷ zs)
      → All (λ b. b ≢ y) us × All (λ b. b ≢ y) (new ∷ z ∷ zs)
      → All (λ b. b ≢ new) us
      → y ≢ new
      → All (λ b. b ≢ new) (z ∷ zs)
      → Linked (without (put y (some (record before { next = some z })) heap)) p (us ++ y ∷ z ∷ zs)
  relink [] y before _ (node_at _ _ _ there _) rest (_, behind) fresh other later =
      let heap1 = put y (some (record before { next = some z })) heap in
      node_at y (record before { next = some z }) (z ∷ zs)
        (put_away heap1 new y none other ∙ put_here heap y _)
        (stays (some (record before { next = some z })) y (some z) (z ∷ zs) rest behind.1 later)
  relink (u ∷ us) y before _ (node_at _ node _ there tail) rest (front, behind) fresh other later =
      let heap1 = put y (some (record before { next = some z })) heap in
      node_at u node (us ++ y ∷ z ∷ zs)
        (put_away heap1 new u none fresh.0 ∙ put_away heap y u _ front.0 ∙ there)
        (relink us y before node.next tail rest (front.1, behind) fresh.1 other later)

more_rounds_lem : (us : List ℕ) (r : ℕ) → more_rounds us r ≡ suc (length us + r)
more_rounds_lem [] r = omega arith
more_rounds_lem (u ∷ us) r = ap suc (more_rounds_lem us r) ∙ omega arith

-- A run that has removed `new` and leaves the nodes of `xs`
abbrev pub Removes : ℕ → SinglyLinkedList → List ℕ → Outcome (SinglyLinkedList × Heap) → Type 0
Removes new list xs result =
    (list1 : SinglyLinkedList) × (heap1 : Heap) × (result ≡ done (list1, heap1))
    × (list1.type ≡ list.type)
    × (list1.tail ≡ list.tail)
    × (heap1 new ≡ none)
    × Linked heap1 list1.head xs

module _ (rounds new z : ℕ) (zs : List ℕ) (list : SinglyLinkedList) (heap : Heap) where
  del_first :
      Linked heap list.head (new ∷ z ∷ zs)
      → Distinct (new ∷ z ∷ zs)
      → length zs < rounds
      → Removes new list (z ∷ zs) (singly_linked_list_del (suc rounds) list new heap)
  del_first linked (fresh, _) h =
      let (node, live, next, rest) = second_place heap new z zs list.head linked in
      let heap1 = put new none heap in
      let list1 = record list { head = some z } in
      let linked1 : Linked heap1 (some z) (z ∷ zs) =
        subst (λ (p : Option ℕ). Linked heap1 p (z ∷ zs)) next
          (put_other heap new none node.next (z ∷ zs) rest fresh) in
      (
        list1,
        heap1,
        first_out new zs z rounds list heap node (starts_at heap list.head new (z ∷ zs) linked) live
              next
            ∙ walk_behind new zs z rounds (some z) list1 heap1 linked1 fresh.1 h,
        refl,
        refl,
        put_here heap new none,
        linked1,
      )

  del_behind :
      (us : List ℕ) (y : ℕ)
      → Linked heap list.head (us ++ y ∷ new ∷ z ∷ zs)
      → Distinct (us ++ y ∷ new ∷ z ∷ zs)
      → Distinct ((us ++ y ∷ []) ++ new ∷ z ∷ zs)
      → length zs < rounds
      → Removes new list
          (us ++ y ∷ z ∷ zs)
          (singly_linked_list_del (more_rounds us (suc rounds)) list new heap)
  del_behind us y linked distinct distinct_new h =
      let (before, node, there, leads, live, next, rest) =
        at_place heap new z zs us y list.head linked in
      let (front, later) = around (us ++ y ∷ []) (z ∷ zs) new distinct_new in
      let (us_apart, y_apart) = around_last us y front in
      let pair = around us (new ∷ z ∷ zs) y distinct in
      let value = some (record before { next = some z }) in
      let rest_z = subst (λ (p : Option ℕ). Linked heap p (z ∷ zs)) next rest in
      let rest1 = stays heap new z zs value y (some z) (z ∷ zs) rest_z pair.1.1 later in
      (
        list,
        put new none (put y value heap),
        reach new us (new ∷ z ∷ zs) y (suc rounds) at_head list.head list heap refl linked us_apart
              y_apart
            ∙ next_out new y z rounds list heap before node there leads live next
            ∙ walk_behind new zs z rounds (some z) list (put new none (put y value heap)) rest1
                later.1 h,
        refl,
        refl,
        put_here (put y value heap) new none,
        relink heap new z zs us y before list.head linked rest_z pair us_apart y_apart later,
      )

snoc : (x : ℕ) (xs : List ℕ) → (us : List ℕ) × (y : ℕ) × (x ∷ xs ≡ us ++ y ∷ [])
snoc x [] = ([], x, refl)
snoc x (x1 ∷ xs) = let (us, y, e) = snoc x1 xs in (x ∷ us, y, ap (λ (l : List ℕ). x ∷ l) e)

-- `new` between the nodes of `ys` and of `zs`
abbrev pub Deletes :
    ℕ → SinglyLinkedList → List ℕ → List ℕ → Outcome (SinglyLinkedList × Heap) → Type 0
Deletes new list ys [] result = result ≡ invalid
Deletes new list ys (z ∷ zs) result = Removes new list (ys ++ z ∷ zs) result

module _ (new : ℕ) (list : SinglyLinkedList) (heap : Heap) where
  del_behind_last :
      (rounds : ℕ) (us : List ℕ) (y z : ℕ) (zs : List ℕ)
      → Linked heap list.head ((us ++ y ∷ []) ++ new ∷ z ∷ zs)
      → Distinct ((us ++ y ∷ []) ++ new ∷ z ∷ zs)
      → length ((us ++ y ∷ []) ++ new ∷ z ∷ zs) < rounds
      → Removes new list ((us ++ y ∷ []) ++ z ∷ zs) (singly_linked_list_del rounds list new heap)
  del_behind_last rounds us y z zs linked distinct h =
      let flat = append_assoc us (y ∷ []) (new ∷ z ∷ zs) in
      let r = rounds - suc (suc (length us)) in
      let e : more_rounds us (suc r) ≡ rounds = omega (
        arith,
        more_rounds_lem us (suc r),
        h,
        length-append (us ++ y ∷ []) (new ∷ z ∷ zs),
        length-append us (y ∷ []),
      ) in
      let enough : length zs < r =
        omega (arith, h, length-append (us ++ y ∷ []) (new ∷ z ∷ zs), length-append us (y ∷ [])) in
      rw (append_assoc us (y ∷ []) (z ∷ zs)) (
        subst
          (λ (k : ℕ). Removes new list (us ++ y ∷ z ∷ zs) (singly_linked_list_del k list new heap))
          e
          (del_behind r new z zs list heap us y (subst (Linked heap list.head) flat linked)
            (subst Distinct flat distinct) distinct enough))

  -- On a list of distinct nodes that are linked in some order, with more rounds than it has nodes,
  -- singly_linked_list_del of a node that another one follows ends with that node freed, the
  -- others linked in their order, and the type and the tail as they were; of the last node it ends
  -- by following NULL. The type of the list does not matter.
  pub del-Deletes :
      (rounds : ℕ) (ys zs : List ℕ)
      → Linked heap list.head (ys ++ new ∷ zs)
      → Distinct (ys ++ new ∷ zs)
      → length (ys ++ new ∷ zs) < rounds
      → Deletes new list ys zs (singly_linked_list_del rounds list new heap)
  del-Deletes rounds ys [] linked distinct h =
      del_last_node rounds new ys list heap linked (around ys [] new distinct).0
        (omega (arith, h, length-append ys (new ∷ [])))
  del-Deletes zero [] (z ∷ zs) linked distinct h = absurd (omega arith)
  del-Deletes (suc rounds) [] (z ∷ zs) linked distinct h =
      del_first rounds new z zs list heap linked distinct (omega arith)
  del-Deletes rounds (y0 ∷ ys) (z ∷ zs) linked distinct h =
      let (us, y, e) = snoc y0 ys in
      subst
        (λ (l : List ℕ).
          Removes new list (l ++ z ∷ zs) (singly_linked_list_del rounds list new heap))
        (sym e)
        (del_behind_last rounds us y z zs
          (subst (λ (l : List ℕ). Linked heap list.head (l ++ new ∷ z ∷ zs)) e linked)
          (subst (λ (l : List ℕ). Distinct (l ++ new ∷ z ∷ zs)) e distinct)
          (subst (λ (l : List ℕ). length (l ++ new ∷ z ∷ zs) < rounds) e h))
