-- ===== src/SinglyLinkedList/Tests.antt =====
-- A list of three nodes, and the theorems on it.
use general_purpose_library.Prelude.{ℕ, ◌≡◌, refl, arith, Option, none, some, [], ◌∷◌}
use general_purpose_library.SinglyLinkedList.{
  insert_head, insert_tail, Node, Heap, put, at_head, at_next, SinglyLinkedList, Outcome, done,
  invalid, singly_linked_list_add, del_loop, singly_linked_list_del,
}
use general_purpose_library.SinglyLinkedList.Adding.{IsQueue, last_node, add-Holds}
use general_purpose_library.SinglyLinkedList.Removing.{Removes, del-Deletes}
use general_purpose_library.SinglyLinkedList.Ends.{Linked, end_of_list, node_at}

abbrev linked_to : Option ℕ → Node
linked_to p = record { next = p; payload = 0 }

abbrev heap : Heap
heap = put 30 (some (linked_to none)) (
    put 20 (some (linked_to (some 30)))
      (put 10 (some (linked_to (some 20))) (put 40 (some (linked_to none)) (λ _. none))))

abbrev list : SinglyLinkedList
list = record { head = some 10; tail = at_head; type = insert_head }

abbrev queue : SinglyLinkedList
queue = record { head = some 10; tail = at_next 30; type = insert_tail }

abbrev head_of : Outcome (SinglyLinkedList × Heap) → Option ℕ
head_of (done (c, h)) = c.head
head_of _ = none

-- The first node is removed, and adding at the tail leaves the head.
two_steps :
    (head_of (singly_linked_list_del 5 list 20 heap) ≡ some 10)
    × (head_of (singly_linked_list_add queue 40 heap) ≡ some 10)
unfolding del_loop singly_linked_list_add
two_steps = (refl, refl)

list-Linked : Linked heap (some 10) (10 ∷ 20 ∷ 30 ∷ [])
list-Linked = node_at 10 (linked_to (some 20)) (20 ∷ 30 ∷ []) refl (
    node_at 20 (linked_to (some 30)) (30 ∷ []) refl
      (node_at 30 (linked_to none) [] refl end_of_list))

add-Holds_example : IsQueue (singly_linked_list_add queue 40 heap) (10 ∷ 20 ∷ 30 ∷ 40 ∷ [])
add-Holds_example =
    add-Holds insert_tail queue heap (10 ∷ 20 ∷ 30 ∷ []) 40 (linked_to none)
      (last_node queue heap (10 ∷ 20 ∷ []) 30 refl refl (omega arith, (omega arith, tt))
        list-Linked)
      refl (omega arith, (omega arith, (omega arith, tt)))

last_node_out : singly_linked_list_del 5 list 30 heap ≡ invalid
unfolding del_loop
last_node_out = refl

del-Deletes_example : Removes 20 list (10 ∷ 30 ∷ []) (singly_linked_list_del 5 list 20 heap)
del-Deletes_example =
    del-Deletes 20 list heap 5 (10 ∷ []) (30 ∷ []) list-Linked
      ((omega arith, (omega arith, tt)), ((omega arith, tt), (tt, tt))) (omega arith)
