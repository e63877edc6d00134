-- ===== src/SinglyLinkedList/Ends.antt =====
-- What is at the two ends of a list.
use general_purpose_library.Prelude.{
  ℕ, zero, suc, ◌<◌, ◌≡◌, ◌≢◌, refl, ◌∙◌, arith, true, false, Option, none, some, List, [], ◌∷◌,
  ◌++◌, All, length, ◌==◌,
}
use general_purpose_library.SinglyLinkedList.{
  insert_head, Node, Heap, put, Slot, at_head, at_next, SinglyLinkedList, Outcome, done, invalid,
  at_address, read_slot, ◌>>=◌, unlink, singly_linked_list_add, del_loop, singly_linked_list_del,
}

-- The nodes at the addresses of a list, linked in its order
pub data Linked (heap : Heap) : Option ℕ → List ℕ → Type 0 where
  end_of_list : Linked heap none []
  node_at :
      (a : ℕ) (node : Node) (xs : List ℕ)
      → heap a ≡ some node
      → Linked heap node.next xs
      → Linked heap (some a) (a ∷ xs)

pub put_away : (heap : Heap) (a b : ℕ) (value : Option Node) → b ≢ a → put a value heap b ≡ heap b
put_away heap a b value h = ground arith

pub put_here : (heap : Heap) (a : ℕ) (value : Option Node) → put a value heap a ≡ value
put_here heap a value = ground arith

pub put_other :
    (heap : Heap) (a : ℕ) (value : Option Node) (p : Option ℕ) (xs : List ℕ)
    → Linked heap p xs
    → All (λ b. b ≢ a) xs
    → Linked (put a value heap) p xs
put_other heap a value _ _ end_of_list apart = end_of_list
put_other heap a value _ _ (node_at b stored bs e rest) (here, later) =
    node_at b stored bs (put_away heap a b value here ∙ e)
      (put_other heap a value stored.next bs rest later)

pub at_live :
    (heap : Heap) (a : ℕ) (node : Node) → heap a ≡ some node → at_address a heap ≡ done node
at_live heap a node live = rw (at_address, live) refl

at_dead : (heap : Heap) (a : ℕ) → heap a ≡ none → at_address a heap ≡ invalid
at_dead heap a dead = rw (at_address, dead) refl

pub same_address : (a : ℕ) → (a == a) ≡ true
same_address a = ground arith

pub other_address : (a b : ℕ) → a ≢ b → (a == b) ≡ false
other_address a b h = ground arith

pub data IsStack : Outcome (SinglyLinkedList × Heap) → List ℕ → Type 0 where
  stack :
      (list : SinglyLinkedList) (heap : Heap) (xs : List ℕ)
      → list.type ≡ insert_head
      → list.tail ≡ at_head
      → Linked heap list.head xs
      → IsStack (done (list, heap)) xs

-- On a list of type INSERT_TYPE_HEAD whose nodes are linked in some order, adding a live node that
-- is not among them gives the list with that node in front, still of that type and with tail at
-- the head.
pub add-IsStack :
    (list : SinglyLinkedList) (heap : Heap) (xs : List ℕ) (new : ℕ) (node : Node)
    → IsStack (done (list, heap)) xs
    → heap new ≡ some node
    → All (λ b. b ≢ new) xs
    → IsStack (singly_linked_list_add list new heap) (new ∷ xs)
unfolding singly_linked_list_add
add-IsStack list heap xs new node (stack _ _ _ head_type tail linked) live apart =
    rw (head_type, tail, at_live heap new node live)
      (stack _ _ (new ∷ xs) refl refl (
        node_at new (record node { next = list.head }) xs (put_here heap new _)
          (put_other heap new _ list.head xs linked apart)))

ends : (heap : Heap) (p : Option ℕ) → Linked heap p [] → p ≡ none
ends heap _ end_of_list = refl

abbrev stops : SinglyLinkedList × Heap → Outcome (SinglyLinkedList × Heap)
stops _ = invalid

unlink_last :
    (slot : Slot) (tmp : ℕ) (node : Node) (list : SinglyLinkedList) (heap : Heap)
    → (unlink slot tmp node list heap >>= stops) ≡ invalid
unlink_last at_head tmp node list heap = refl
unlink_last (at_next b) tmp node list heap = go (heap b) refl
  where
    go :
        (found : Option Node)
        → heap b ≡ found
        → (unlink (at_next b) tmp node list heap >>= stops) ≡ invalid
    go none e = rw (at_dead heap b e) refl
    go (some stored) e = rw (at_live heap b stored e) refl

found_last :
    (rounds new : ℕ) (slot : Slot) (list : SinglyLinkedList) (heap : Heap) (node : Node)
    → read_slot slot list heap ≡ done (some new)
    → heap new ≡ some node
    → node.next ≡ none
    → del_loop (suc rounds) slot new list heap ≡ invalid
unfolding del_loop
found_last rounds new slot list heap node found live last =
    rw (found, at_live heap new node live, same_address new, last)
      (unlink_last slot new (record node { next = none }) list heap)

pub passes :
    (rounds new b : ℕ) (slot : Slot) (list : SinglyLinkedList) (heap : Heap) (node : Node)
    → read_slot slot list heap ≡ done (some b)
    → heap b ≡ some node
    → b ≢ new
    → del_loop (suc rounds) slot new list heap ≡ del_loop rounds (at_next b) new list heap
unfolding del_loop
passes rounds new b slot list heap node found live apart =
    rw (found, at_live heap b node live, other_address b new apart) refl

del_reaches :
    (rounds new : ℕ) (ys : List ℕ) (slot : Slot) (p : Option ℕ) (list : SinglyLinkedList)
    (heap : Heap)
    → read_slot slot list heap ≡ done p
    → Linked heap p (ys ++ (new ∷ []))
    → All (λ b. b ≢ new) ys
    → length ys < rounds
    → del_loop rounds slot new list heap ≡ invalid
del_reaches zero new ys slot p list heap found linked apart h = absurd (omega arith)
del_reaches (suc rounds) new [] slot _ list heap found (node_at _ node _ live end) apart h =
    found_last rounds new slot list heap node found live (ends heap node.next end)
del_reaches (suc rounds) new (y ∷ ys) slot _ list heap found (node_at _ node _ live rest)
      (here, later) h =
    passes rounds new y slot list heap node found live here
    ∙ del_reaches rounds new ys (at_next y) node.next list heap (rw (at_live heap y node live) refl)
        rest later (omega arith)

-- Removing the last node of a list, with enough rounds for the loop to reach it, ends by following
-- NULL, whatever the type of the list is.
pub del_last_node :
    (rounds new : ℕ) (ys : List ℕ) (list : SinglyLinkedList) (heap : Heap)
    → Linked heap list.head (ys ++ (new ∷ []))
    → All (λ b. b ≢ new) ys
    → length ys < rounds
    → singly_linked_list_del rounds list new heap ≡ invalid
del_last_node rounds new ys list heap linked apart h =
    del_reaches rounds new ys at_head list.head list heap refl linked apart h
