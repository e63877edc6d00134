-- ===== src/Packet/Receive.antt =====
-- Receiving in pieces: what the calls of packet_buffer_update_index answer.
use general_purpose_library.Prelude.{
  ℕ, ◌+◌, ◌-◌, ◌≡◌, ◌⊎◌, refl, ap, ◌∙◌, arith, Option, none, some, List, [], ◌∷◌, ltb,
  if◌then◌else◌, ℤ, pos, negsuc,
}
use general_purpose_library.Packet.{
  BufferState, header_state, body_state, butt_state, Packet, completed, packet_buffer_update_index,
}

-- The packet waits for `target` bytes, of its header or of its body, and has `got` of them.
pub record IsReceiving (p : Packet) (got target : ℕ) : Type 0 where
  pub index : p.index ≡ pos got
  pub target_of :
      ((p.state ≡ header_state) × (p.header_len ≡ pos target))
      ⊎ ((p.state ≡ body_state) × (p.body_len ≡ pos target))

-- The numbers of HEADER_COMPLETE and BODY_COMPLETE, for a packet that waits for either part.
abbrev pub complete_number : BufferState → ℤ
complete_number header_state = pos 1
complete_number body_state = pos 2
complete_number butt_state = negsuc 0

-- The packet after `got` bytes in all.
abbrev pub received : Packet → ℕ → ℕ → Packet
received p got target = record p { index = pos got; req_len = pos (target - got) }

pub update_index_lem :
    (p : Packet) (got target len : ℕ)
    → IsReceiving p got target
    → packet_buffer_update_index (some p) (pos len) ≡ (
      if ltb (got + len) target then pos 0 else complete_number p.state,
      some (received p (got + len) target),
    )
unfolding packet_buffer_update_index completed
update_index_lem p got target len r = ground arith

abbrev pub go_on : Option Packet → (Packet → ℤ × Option Packet) → ℤ × Option Packet
go_on none next = (negsuc 0, none)
go_on (some p) next = next p

-- Several pieces in a row, with the last answer.
pub feed : Packet → ℕ → List ℕ → ℤ × Option Packet
feed p n [] = packet_buffer_update_index (some p) (pos n)
feed p n (m ∷ ms) = go_on (packet_buffer_update_index (some p) (pos n)).1 (λ q. feed q m ms)

abbrev pub total : ℕ → List ℕ → ℕ
total n [] = n
total n (m ∷ ms) = n + total m ms

received-Receiving :
    (p : Packet) (got target n : ℕ)
    → IsReceiving p got target
    → IsReceiving (received p (got + n) target) (got + n) target
received-Receiving p got target n r = record { index = refl; target_of = r.target_of }

feed_step :
    (p : Packet) (got target n m : ℕ) (ms : List ℕ)
    → IsReceiving p got target
    → feed p n (m ∷ ms) ≡ feed (received p (got + n) target) m ms
unfolding feed
feed_step p got target n m ms r =
    ap (λ (r : ℤ × Option Packet). go_on r.1 (λ q. feed q m ms)) (update_index_lem p got target n r)

-- The reply and the packet after `got` bytes in all.
abbrev pub received_reply : Packet → ℕ → ℕ → ℤ × Option Packet
received_reply p got target =
    (if ltb got target then pos 0 else complete_number p.state, some (received p got target))

closing :
    (p : Packet) (got target n rest : ℕ)
    → received_reply p (got + n + rest) target ≡ received_reply p (got + (n + rest)) target
closing p got target n rest =
    let same : got + n + rest ≡ got + (n + rest) = omega arith in
    ap (λ (k : ℕ). received_reply p k target) same

-- While a packet waits for its header or its body, pieces of any lengths leave in index the bytes
-- received so far and in req_len those still missing (0 once there are more than enough); the last
-- call answers 0 (in progress) as long as some are missing, and then 1 (header complete) where it
-- waits for the header and 2 (body complete) where it waits for the body.
pub feed_lem :
    (p : Packet) (got target n : ℕ) (ns : List ℕ)
    → IsReceiving p got target
    → feed p n ns ≡ received_reply p (got + total n ns) target
feed_lem p got target n [] r = unfold feed in update_index_lem p got target n r
feed_lem p got target n (m ∷ ms) r =
    feed_step p got target n m ms r
    ∙ feed_lem (received p (got + n) target) (got + n) target m ms
        (received-Receiving p got target n r)
    ∙ closing p got target n (total m ms)
