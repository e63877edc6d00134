-- ===== src/SinglyLinkedList/Adding.antt =====
-- What singly_linked_list_add does to a list of either type.
use general_purpose_library.Prelude.{
  ℕ, ◌≡◌, ◌≢◌, refl, sym, ◌∙◌, Option, none, some, List, [], ◌∷◌, ◌++◌, All,
}
use general_purpose_library.SinglyLinkedList.{
  InsertType, insert_head, insert_tail, Node, Heap, put, at_head, at_next, SinglyLinkedList,
  Outcome, done, singly_linked_list_add,
}
use general_purpose_library.SinglyLinkedList.Ends.{
  Linked, end_of_list, node_at, put_away, put_here, at_live, IsStack, add-IsStack,
}

pub data IsQueue : Outcome (SinglyLinkedList × Heap) → List ℕ → Type 0 where
  no_nodes :
      (list : SinglyLinkedList) (heap : Heap)
      → list.type ≡ insert_tail
      → list.tail ≡ at_head
      → list.head ≡ none
      → IsQueue (done (list, heap)) []
  last_node :
      (list : SinglyLinkedList) (heap : Heap) (ys : List ℕ) (z : ℕ)
      → list.type ≡ insert_tail
      → list.tail ≡ at_next z
      → All (λ b. b ≢ z) ys
      → Linked heap list.head (ys ++ z ∷ [])
      → IsQueue (done (list, heap)) (ys ++ z ∷ [])

last_live :
    (heap : Heap) (p : Option ℕ) (ys : List ℕ) (z : ℕ)
    → Linked heap p (ys ++ z ∷ [])
    → (node : Node) × (heap z ≡ some node)
last_live heap p [] z (node_at _ node _ live rest) = (node, live)
last_live heap p (y ∷ ys) z (node_at _ node _ live rest) = last_live heap node.next ys z rest

module _ (heap : Heap) (z new : ℕ) (stored node : Node) (live : heap z ≡ some stored) where
  abbrev last : Node
  last = record node { next = none }

  -- The heap after `new` was written, and then linked behind `z`
  abbrev new_heap : Heap
  new_heap = put new (some last) heap

  abbrev linked_heap : Heap
  linked_heap = put z (some (record stored { next = some new })) new_heap

  link_behind :
      (p : Option ℕ) (ys : List ℕ)
      → Linked heap p (ys ++ z ∷ [])
      → All (λ b. b ≢ z) ys
      → All (λ b. b ≢ new) (ys ++ z ∷ [])
      → Linked linked_heap p ((ys ++ z ∷ []) ++ new ∷ [])
  link_behind _ [] (node_at _ _ _ _ rest) apart fresh =
      node_at z (record stored { next = some new }) (new ∷ []) (put_here new_heap z _)
        (node_at new last []
          (put_away new_heap z new _ (λ e. fresh.0 (sym e)) ∙ put_here heap new _) end_of_list)
  link_behind _ (y ∷ ys) (node_at _ other _ there rest) apart fresh =
      node_at y other ((ys ++ z ∷ []) ++ new ∷ [])
        (put_away new_heap z y _ apart.0 ∙ put_away heap new y (some last) fresh.0 ∙ there)
        (link_behind other.next ys rest apart.1 fresh.1)

last_apart : (ys : List ℕ) (z new : ℕ) → All (λ b. b ≢ new) (ys ++ z ∷ []) → z ≢ new
last_apart [] z new fresh = fresh.0
last_apart (y ∷ ys) z new fresh = last_apart ys z new fresh.1

add-IsQueue :
    (list : SinglyLinkedList) (heap : Heap) (xs : List ℕ) (new : ℕ) (node : Node)
    → IsQueue (done (list, heap)) xs
    → heap new ≡ some node
    → All (λ b. b ≢ new) xs
    → IsQueue (singly_linked_list_add list new heap) (xs ++ new ∷ [])
unfolding singly_linked_list_add
add-IsQueue list heap _ new node (no_nodes _ _ type tail empty) live fresh =
    rw (type, tail, at_live heap new node live)
      (last_node _ _ [] new refl refl tt
        (node_at new (record node { next = none }) [] (put_here heap new _) end_of_list))
add-IsQueue list heap _ new node (last_node _ _ ys z type tail apart linked) live fresh =
    let (stored, there) = last_live heap list.head ys z linked in
    let z_apart : z ≢ new = last_apart ys z new fresh in
    let there1 = put_away heap new z (some (record node { next = none })) z_apart ∙ there in
    rw (type, tail, at_live heap new node live, at_live _ z stored there1)
      (last_node _ _ (ys ++ z ∷ []) new refl refl fresh
        (link_behind heap z new stored node there list.head ys linked apart fresh))

-- A list of nodes by its type: a stack or a queue
abbrev pub Holds : InsertType → Outcome (SinglyLinkedList × Heap) → List ℕ → Type 0
Holds insert_head = IsStack
Holds insert_tail = IsQueue

abbrev pub with_node : InsertType → ℕ → List ℕ → List ℕ
with_node insert_head new xs = new ∷ xs
with_node insert_tail new xs = xs ++ new ∷ []

-- On a list of either type whose nodes are linked in some order, and whose tail is the place of
-- the type, singly_linked_list_add of a live node that is not among them ends and gives such a
-- list again, with that node in front where the type is INSERT_TYPE_HEAD, and behind the others
-- where it is INSERT_TYPE_TAIL.
pub add-Holds :
    (type : InsertType) (list : SinglyLinkedList) (heap : Heap) (xs : List ℕ) (new : ℕ)
    (node : Node)
    → Holds type (done (list, heap)) xs
    → heap new ≡ some node
    → All (λ b. b ≢ new) xs
    → Holds type (singly_linked_list_add list new heap) (with_node type new xs)
add-Holds insert_head list heap xs new node = add-IsStack list heap xs new node
add-Holds insert_tail list heap xs new node = add-IsQueue list heap xs new node
