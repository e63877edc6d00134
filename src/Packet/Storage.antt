-- ===== src/Packet/Storage.antt =====
-- Where a packet's bytes go: the blocks that `header_buffer`, `body` and `buf` point into.
use general_purpose_library.Prelude.{
  ℕ, ◌≤◌, ◌<◌, ◌≡◌, ◌≢◌, refl, ap, ◌∙◌, arith, Option, none, some, ℤ, pos, negsuc, true, false,
  ltb_ℤ, to_u64,
}
use mathlib.Core.Option
use native.Mathlib.Decide.{dec_lt}
use general_purpose_library.Packet.{
  body_state, Packet, Blocks, place, start_header, start_body, allocate, release,
  packet_buffer_update_header, packet_buffer_update_body, packet_buffer_get_buf,
}

-- The header has a live block of its length, and the body, if there is one, another block with
-- room for it.
pub data HasRoom (header : ℕ) (blocks : Blocks) : Option ℕ → ℕ → Type 0 where
  no_body : (len : ℕ) → len ≡ 0 → HasRoom header blocks none len
  in_block :
      (b size len : ℕ)
      → b ≢ header
      → blocks b ≡ some size
      → len ≤ size
      → HasRoom header blocks (some b) len

pub record IsStored (p : Packet) (blocks : Blocks) (header size len : ℕ) : Type 0 where
  pub header_buffer : p.header_buffer ≡ some header
  pub header_len : p.header_len ≡ pos size
  pub header_block : blocks header ≡ some size
  pub body_len : p.body_len ≡ pos len
  pub body_block : HasRoom header blocks p.body len

release_other :
    (header : ℕ) (blocks : Blocks) (body : Option ℕ) (len : ℕ)
    → HasRoom header blocks body len
    → release body blocks header ≡ blocks header
release_other header blocks body len (no_body _ e) = refl
release_other header blocks body len (in_block b size _ apart live room) = ground arith

allocate_here : (ptr size : ℕ) (blocks : Blocks) → allocate ptr size blocks ptr ≡ some size
allocate_here ptr size blocks = ground arith

allocate_other :
    (ptr q size : ℕ) (blocks : Blocks) → ptr ≢ q → allocate ptr size blocks q ≡ blocks q
allocate_other ptr q size blocks apart = ground arith

shrunk :
    (header : ℕ) (blocks : Blocks) (body : Option ℕ) (len n : ℕ)
    → n ≤ len
    → HasRoom header blocks body len
    → HasRoom header blocks body n
shrunk header blocks body len n h (no_body _ e) = no_body n (omega arith)
shrunk header blocks body len n h (in_block b size _ apart live room) =
    in_block b size n apart live (omega arith)

grows : (p : Packet) (len n : ℕ) → p.body_len ≡ pos len → len < n → ltb_ℤ p.body_len (pos n) ≡ true
grows p len n e h = ground arith

fits : (p : Packet) (len n : ℕ) → p.body_len ≡ pos len → n ≤ len → ltb_ℤ p.body_len (pos n) ≡ false
fits p len n e h = ground arith

reused :
    (p : Packet) (blocks : Blocks) (header size len n : ℕ)
    → IsStored p blocks header size len
    → n ≤ len
    → IsStored (start_body p (pos n)) blocks header size n
reused p blocks header size len n s h = record {
  header_buffer = s.header_buffer;
  header_len = s.header_len;
  header_block = s.header_block;
  body_len = refl;
  body_block = shrunk header blocks p.body len n h s.body_block;
}

moved :
    (p : Packet) (blocks : Blocks) (header size len n ptr : ℕ)
    → IsStored p blocks header size len
    → ptr ≢ header
    → IsStored
        (start_body (record p { body = some ptr; buf = some ptr }) (pos n))
        (allocate ptr n (release p.body blocks))
        header
        size
        n
moved p blocks header size len n ptr s apart = record {
  header_buffer = s.header_buffer;
  header_len = s.header_len;
  header_block =
      allocate_other ptr header n (release p.body blocks) apart
      ∙ release_other header blocks p.body len s.body_block
      ∙ s.header_block;
  body_len = refl;
  body_block = in_block ptr n n apart (allocate_here ptr n (release p.body blocks)) (omega arith);
}

-- The packet that an operation leaves is well stored.
pub data Stores (header size : ℕ) : ℤ × Option Packet × Blocks → Type 0 where
  stores :
      (status : ℤ) (p : Packet) (blocks : Blocks) (len : ℕ)
      → IsStored p blocks header size len
      → Stores header size (status, some p, blocks)

-- packet_buffer_update_body keeps a packet well stored: the header has its own live block of its
-- length and a body another one with room for the body, whatever the new length is and whether or
-- not realloc fails, provided that realloc does not return the block of the header.
pub update_body-Stores :
    (p : Packet) (blocks : Blocks) (header size len n : ℕ) (moved : Option ℕ)
    → IsStored p blocks header size len
    → moved ≢ some header
    → Stores header size (packet_buffer_update_body moved (some p) (pos n) blocks)
unfolding packet_buffer_update_body to_u64
update_body-Stores p blocks header size len n none s apart = elim (dec_lt len n) [
  | yes longer ↦ rw (grows p len n s.body_len longer) (stores (negsuc 0) p blocks len s)
  | no h ↦ rw (fits p len n s.body_len (omega arith)) (
      stores (pos 0) (start_body p (pos n)) blocks n
        (reused p blocks header size len n s (omega arith)))
]
update_body-Stores p blocks header size len n (some ptr) s apart = elim (dec_lt len n) [
  | yes longer ↦ rw (grows p len n s.body_len longer) (
      stores (pos 0) (start_body (record p { body = some ptr; buf = some ptr }) (pos n))
        (allocate ptr n (release p.body blocks)) n
        (moved p blocks header size len n ptr s (λ e. apart (ap some e))))
  | no h ↦ rw (fits p len n s.body_len (omega arith)) (
      stores (pos 0) (start_body p (pos n)) blocks n
        (reused p blocks header size len n s (omega arith)))
]

-- A body no longer than an earlier one, asked for after a header was received again: the packet
-- waits for the body, but packet_buffer_get_buf gives out the start of the block of the header.
pub update_body_into_header :
    (p : Packet) (blocks : Blocks) (header size len n : ℕ) (moved : Option ℕ)
    → IsStored p blocks header size len
    → n ≤ len
    → let waiting =
        (packet_buffer_update_body moved
          (packet_buffer_update_header (some p)).1
          (pos n)
          blocks).1 in
      (Option.map (λ q. q.state) waiting ≡ some body_state)
      × (Option.map (λ q. q.req_len) waiting ≡ some (pos n))
      × (packet_buffer_get_buf waiting ≡ place (some header) (pos 0))
unfolding packet_buffer_update_header packet_buffer_update_body packet_buffer_get_buf start_header
update_body_into_header p blocks header size len n moved s h =
    rw (fits p len n s.body_len h, s.header_buffer) (refl, refl, refl)
