-- ===== src/Packet/Tests.antt =====
-- A packet with a header of 4 bytes, and the theorems on it.
use general_purpose_library.Prelude.{
  ℕ, ◌≡◌, ◌≢◌, refl, arith, inl, Option, none, some, [], ◌∷◌, pos, to_u64,
}
use general_purpose_library.Packet.{
  header_state, body_state, butt_state, Packet, Blocks, allocate, packet_buffer_init,
  packet_buffer_update_body, start_header,
}
use general_purpose_library.Packet.Receive.{feed, received_reply, feed_lem}
use general_purpose_library.Packet.Storage.{no_body, in_block, IsStored, Stores, update_body-Stores}

abbrev fresh : Packet
fresh = record {
  header_len = pos 4;
  header_buffer = some 100;
  body_len = pos 0;
  body = none;
  index = pos 0;
  req_len = pos 4;
  buf = some 100;
  state = header_state;
}

abbrev used : Packet
used = record {
  header_len = pos 4;
  header_buffer = some 100;
  body_len = pos 10;
  body = some 200;
  index = pos 10;
  req_len = pos 0;
  buf = some 200;
  state = body_state;
}

abbrev blocks : Blocks
blocks = allocate 200 10 (allocate 100 4 (λ _. none))

init_test :
    packet_buffer_init (some 100) (record used { state = butt_state }) (pos 4) (λ _. none)
    ≡ (pos 0, record fresh { body = none }, allocate 100 4 (λ _. none))
unfolding packet_buffer_init start_header to_u64
init_test = refl

feed_lem_example : feed fresh 1 (2 ∷ 1 ∷ []) ≡ received_reply fresh 4 4
feed_lem_example =
    feed_lem fresh 0 4 1 (2 ∷ 1 ∷ []) (record { index = refl; target_of = inl (refl, refl) })

fresh-Stored : IsStored fresh blocks 100 4 0
fresh-Stored = record {
  header_buffer = refl;
  header_len = refl;
  header_block = refl;
  body_len = refl;
  body_block = no_body 0 refl;
}

used-Stored : IsStored used blocks 100 4 10
used-Stored = record {
  header_buffer = refl;
  header_len = refl;
  header_block = refl;
  body_len = refl;
  body_block = in_block 200 10 10 (omega arith) refl (omega arith);
}

apart : ◌≢◌ {A = Option ℕ} (some 200) (some 100)
apart e = ground arith

update_body-Stores_example :
    Stores 100 4 (packet_buffer_update_body (some 200) (some fresh) (pos 10) blocks)
update_body-Stores_example =
    update_body-Stores fresh blocks 100 4 0 10 (some 200) fresh-Stored apart
