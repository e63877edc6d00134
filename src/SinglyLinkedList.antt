-- ===== src/SinglyLinkedList.antt =====
-- list/singly_linked_list.h and list/singly_linked_list.c: a list of nodes that own their link, with
-- a pointer to the link where the next node goes. A heap gives the node at an address, `none` where
-- nothing is allocated; a pointer to a link is a `Slot`. Following an address with no node, NULL
-- included, is `invalid`.
pub mod Ends
pub mod Adding
pub mod Passing
pub mod Removing
mod Tests
use general_purpose_library.Prelude.{
  ℕ, zero, suc, Bool, true, false, Option, none, some, ◌==◌, if◌then◌else◌, ℤ, pos, negsuc,
}

-- insert_type_e
pub data InsertType : Type 0 where
  insert_head insert_tail : InsertType

-- template_t: the link, and the data behind it
pub record Node : Type 0 where
  pub next : Option ℕ
  pub payload : ℕ

abbrev pub Heap : Type 0
Heap = ℕ → Option Node

abbrev pub put : ℕ → Option Node → Heap → Heap
put a value heap b = if b == a then value else heap b

-- &list->head, or &node->next
pub data Slot : Type 0 where
  at_head : Slot
  at_next : ℕ → Slot

-- singly_linked_list_t
pub record SinglyLinkedList : Type 0 where
  pub head : Option ℕ
  pub tail : Slot
  pub type : InsertType

pub data Outcome {ℓ} (A : Type ℓ) : Type ℓ where
  done : A → Outcome A
  invalid : Outcome A
  no_rounds : Outcome A

infixl 5 ◌>>=◌
abbrev pub ◌>>=◌ {ℓ κ} : {A : Type ℓ} {B : Type κ} → Outcome A → (A → Outcome B) → Outcome B
done x >>= k = k x
invalid >>= k = invalid
no_rounds >>= k = no_rounds

abbrev pub at_address : ℕ → Heap → Outcome Node
at_address a heap = elim (heap a) [ none ↦ invalid | some node ↦ done node ]

abbrev pub read_slot : Slot → SinglyLinkedList → Heap → Outcome (Option ℕ)
read_slot at_head list heap = done list.head
read_slot (at_next a) list heap = do node ← at_address a heap; done node.next

abbrev pub write_slot :
    Slot → Option ℕ → SinglyLinkedList → Heap → Outcome (SinglyLinkedList × Heap)
write_slot at_head p list heap = done (record list { head = p }, heap)
write_slot (at_next a) p list heap = do
  node ← at_address a heap
  done (list, put a (some (record node { next = p })) heap)

-- INIT_SINGLY_LINKED_LIST
abbrev pub empty_list : InsertType → SinglyLinkedList
empty_list type = record { head = none; tail = at_head; type = type }

abbrev pub add_at_tail : SinglyLinkedList → ℕ → Heap → Outcome (SinglyLinkedList × Heap)
add_at_tail list new heap = do
  node ← at_address new heap
  (linked, heap1) ←
      write_slot list.tail (some new) list (put new (some (record node { next = none })) heap)
  done (record linked { tail = at_next new }, heap1)

abbrev pub add_at_head : SinglyLinkedList → ℕ → Heap → Outcome (SinglyLinkedList × Heap)
add_at_head list new heap = do
  first ← read_slot list.tail list heap
  node ← at_address new heap
  done (
    record list { head = some new; tail = at_head },
    put new (some (record node { next = first })) heap,
  )

pub singly_linked_list_add : SinglyLinkedList → ℕ → Heap → Outcome (SinglyLinkedList × Heap)
singly_linked_list_add list new heap = elim list.type [
  | insert_tail ↦ add_at_tail list new heap
  | insert_head ↦ add_at_head list new heap
]

abbrev pub tail_after : SinglyLinkedList → Slot → Option ℕ → Slot
tail_after list slot (some n) = list.tail
tail_after list slot none = elim list.type [ insert_head ↦ list.tail | insert_tail ↦ slot ]

-- Line 69 to 76, with the node found at `slot`
abbrev pub unlink : Slot → ℕ → Node → SinglyLinkedList → Heap → Outcome (SinglyLinkedList × Heap)
unlink slot tmp node list heap = do
  (linked, heap1) ← write_slot slot node.next list heap
  done (record linked { tail = tail_after linked slot node.next }, put tmp none heap1)

-- The loop, with rounds left. After a node was unlinked it goes on behind the one that follows.
pub del_loop : ℕ → Slot → ℕ → SinglyLinkedList → Heap → Outcome (SinglyLinkedList × Heap)
del_loop zero slot new list heap = no_rounds
del_loop (suc rounds) slot new list heap = do
  p ← read_slot slot list heap
  elim p [
    | none ↦ done (list, heap)
    | some tmp ↦ do
      node ← at_address tmp heap
      elim (tmp == new) [
        | false ↦ del_loop rounds (at_next tmp) new list heap
        | true ↦ do
          (list1, heap1) ← unlink slot tmp node list heap
          elim node.next [
            | none ↦ invalid
            | some following ↦ del_loop rounds (at_next following) new list1 heap1
          ]
      ]
  ]

abbrev pub singly_linked_list_del :
    ℕ → SinglyLinkedList → ℕ → Heap → Outcome (SinglyLinkedList × Heap)
singly_linked_list_del rounds list new heap = del_loop rounds at_head new list heap

-- `memory` is what malloc returns, and the node there is not initialised.
abbrev pub single_list_new : (memory : Bool) → InsertType → Option SinglyLinkedList
single_list_new memory type = if memory then some (empty_list type) else none

abbrev pub single_list_add :
    (memory : Option ℕ)
    → Option SinglyLinkedList
    → ℕ
    → Heap
    → Outcome (ℤ × Option SinglyLinkedList × Heap)
single_list_add memory none payload heap = done (negsuc 0, none, heap)
single_list_add none (some list) payload heap = invalid
single_list_add (some new) (some list) payload heap = do
  (list1, heap1) ←
      singly_linked_list_add list new
        (put new (some (record { next = none; payload = payload })) heap)
  done (pos 0, some list1, heap1)

abbrev pub single_list_del : ℕ → SinglyLinkedList → ℕ → Heap → Outcome (ℤ × SinglyLinkedList × Heap)
single_list_del rounds list template heap = do
  (list1, heap1) ← singly_linked_list_del rounds list template heap
  done (pos 0, list1, heap1)

-- The nodes that are freed, from the head, with rounds left; the list itself goes last.
unfoldable pub single_list_free : ℕ → Option ℕ → Heap → Outcome Heap
single_list_free zero head heap = no_rounds
single_list_free (suc rounds) none heap = done heap
single_list_free (suc rounds) (some a) heap = do
  node ← at_address a heap
  single_list_free rounds node.next (put a none heap)
