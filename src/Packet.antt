-- ===== src/Packet.antt =====
-- linux/utils/src/packet_buffer.c: a buffer that receives a header and then a body in pieces. A
-- pointer to the buffer is `none` where it is NULL; what `calloc` and `realloc` return is an
-- argument, and `Blocks` gives the size of each live allocation. An `int` is an integer; the sums
-- are exact, since a result outside the range of `int` is undefined in C.
pub mod Receive
pub mod Storage
mod Tests
use general_purpose_library.Prelude.{
  ℕ, Bool, true, false, Option, none, some, ◌==◌, if◌then◌else◌, ℤ, pos, negsuc, ◌+ℤ◌, ◌-ℤ◌, ltb_ℤ,
  to_u64,
}

-- buffer_state_e
pub data BufferState : Type 0 where
  header_state body_state butt_state : BufferState

-- recv_state_e, as the result of an `int` function
abbrev pub recv_in_progress : ℤ
recv_in_progress = pos 0

abbrev pub recv_header_complete : ℤ
recv_header_complete = pos 1

abbrev pub recv_body_complete : ℤ
recv_body_complete = pos 2

-- packet_buffer_t, less the reserved callbacks and their handle
pub record Packet : Type 0 where
  pub header_len : ℤ
  pub header_buffer : Option ℕ
  pub body_len : ℤ
  pub body : Option ℕ
  pub index : ℤ
  pub req_len : ℤ
  pub buf : Option ℕ
  pub state : BufferState

-- the size of the live allocation at an address
abbrev pub Blocks : Type 0
Blocks = ℕ → Option ℕ

abbrev pub allocate : ℕ → ℕ → Blocks → Blocks
allocate p size blocks q = if q == p then some size else blocks q

abbrev pub release : Option ℕ → Blocks → Blocks
release none blocks = blocks
release (some p) blocks = λ q. if q == p then none else blocks q

pub start_header : Packet → Packet
start_header p = record p {
  index = pos 0;
  req_len = p.header_len;
  buf = p.header_buffer;
  state = header_state;
}

pub packet_buffer_update_header : Option Packet → ℤ × Option Packet
unfolding start_header
packet_buffer_update_header none = (negsuc 0, none)
packet_buffer_update_header (some p) = (pos 0, some (start_header p))

-- The packet is written with no test for NULL.
pub packet_buffer_init : (header : Option ℕ) → Packet → ℤ → Blocks → ℤ × Packet × Blocks
unfolding start_header
packet_buffer_init none p header_len blocks = (negsuc 0, p, blocks)
packet_buffer_init (some header) p header_len blocks = (
  pos 0,
  start_header (record p {
    body = none;
    body_len = pos 0;
    header_len = header_len;
    header_buffer = some header;
  }),
  allocate header (to_u64 header_len) blocks,
)

pub packet_buffer_destroy : Option Packet → Blocks → ℤ × Option Packet × Blocks
packet_buffer_destroy none blocks = (pos 0, none, blocks)
packet_buffer_destroy (some p) blocks = (
  pos 0,
  some (record p {
    header_buffer = none;
    body = none;
    header_len = pos 0;
    body_len = pos 0;
    req_len = pos 0;
    buf = none;
  }),
  release p.body (release p.header_buffer blocks),
)

-- `req_len` after `index` is set: the state says which length counts.
pub remaining : Packet → ℤ → ℤ
remaining p index = elim p.state [
  | header_state ↦ p.header_len -ℤ index
  | body_state ↦ p.body_len -ℤ index
  | butt_state ↦ p.req_len
]

pub completed : BufferState → ℤ
completed header_state = recv_header_complete
completed body_state = recv_body_complete
completed butt_state = pos 0

pub packet_buffer_update_index : Option Packet → ℤ → ℤ × Option Packet
unfolding remaining completed ◌+ℤ◌ ◌-ℤ◌
packet_buffer_update_index none len = (negsuc 0, none)
packet_buffer_update_index (some p) len =
    let index = p.index +ℤ len in
    let req = remaining p index in
    if ltb_ℤ (pos 0) req
    then (recv_in_progress, some (record p { index = index; req_len = req }))
    else (
      completed p.state,
      some (record p { index = index; req_len = if ltb_ℤ req (pos 0) then pos 0 else req }),
    )

abbrev pub start_body : Packet → ℤ → Packet
start_body p body_len = record p {
  index = pos 0;
  req_len = body_len;
  body_len = body_len;
  state = body_state;
}

-- `moved` is what `realloc` returns: the block at `body` is gone, and the new one has the size.
pub packet_buffer_update_body :
    (moved : Option ℕ) → Option Packet → ℤ → Blocks → ℤ × Option Packet × Blocks
packet_buffer_update_body moved none body_len blocks = (negsuc 0, none, blocks)
packet_buffer_update_body moved (some p) body_len blocks =
    if ltb_ℤ p.body_len body_len
    then elim moved [
      | none ↦ (negsuc 0, some p, blocks)
      | some ptr ↦ (
        pos 0,
        some (start_body (record p { body = some ptr; buf = some ptr }) body_len),
        allocate ptr (to_u64 body_len) (release p.body blocks),
      )
    ]
    else (pos 0, some (start_body p body_len), blocks)

-- A `char *`: a place in a block, or the `-1` that is returned for NULL.
pub data Pointer : Type 0 where
  place : Option ℕ → ℤ → Pointer
  minus_one : Pointer

pub packet_buffer_get_buf : Option Packet → Pointer
packet_buffer_get_buf none = minus_one
packet_buffer_get_buf (some p) = place p.buf p.index

pub packet_buffer_get_len : Option Packet → ℤ
packet_buffer_get_len none = negsuc 0
packet_buffer_get_len (some p) = p.index
