-- ===== src/Sniffer/Tests.antt =====
-- A heartbeat, a net that counts the commands, and filters that are asked for one frame.
use mathlib.Core.Option.{some-injective}
use general_purpose_library.Prelude.{
  ap, sym, ◌∙◌, Option, length, to_u32, length-replicate, none, Bool, ltb, ◌==◌, if◌then◌else◌, ℕ,
  suc, ◌≡◌, refl, arith, true, false, some, List, [], ◌∷◌, ◌++◌, replicate, pos,
}
use general_purpose_library.Sniffer.{
  Net, is_heartbeat, handle_packet, add_words, send_priv_cmd, build_keep_alive_command, keep_alive,
}
use general_purpose_library.Sniffer.Receive.{
  RawSocket, receive_frames, main, CountsCommands, main_signed,
}
use general_purpose_library.KernelList.{plain, plain-List}
use general_purpose_library.Sniffer.Framework.{Sniffer, Sockets, sniffer_init, sniffer_model}
use general_purpose_library.Sniffer.Framework.Filters.{register_all, sniffer_model_lem}
use general_purpose_library.Sniffer.Commands.{build_keep_alive_command_lem}

abbrev counting : Net ℕ
counting = record {
  socket = λ w. (pos 3, w);
  ioctl_private = λ fd cmd len w. (pos 0, suc w);
  close_socket = λ fd w. w;
}

-- A heartbeat in a frame of 74 bytes
abbrev heartbeat : List ℕ
heartbeat =
    replicate 23 0
    ++ (17
        ∷ (replicate 15 0
            ++ (40
                ∷ 0
                ∷ 0
                ∷ 0x66
                ∷ 0x88
                ∷ 0x66
                ∷ 0x88
                ∷ 1
                ∷ 0x18
                ∷ 0
                ∷ 8
                ∷ 0
                ∷ 0
                ∷ 0
                ∷ 0
                ∷ 1
                ∷ replicate 21 0)))

-- A frame over what the buffer holds
abbrev over : List ℕ → List ℕ → List ℕ
over [] buffer = buffer
over (c ∷ cs) [] = []
over (c ∷ cs) (b ∷ bs) = c ∷ over cs bs

length-over : (frame buffer : List ℕ) → length (over frame buffer) ≡ length buffer
length-over [] buffer = refl
length-over (c ∷ cs) [] = refl
length-over (c ∷ cs) (b ∷ bs) = ap suc (length-over cs bs)

abbrev heartbeats : RawSocket ℕ
heartbeats = record {
  malloc = λ n w. (some (replicate n 0), w);
  raw_socket = λ w. (pos 4, w);
  recvfrom = λ fd buffer w. (pos 74, over heartbeat buffer, w);
}

heartbeats-CountsCommands : CountsCommands counting heartbeats
heartbeats-CountsCommands = record {
  commands = λ w. w;
  allocated = λ n w. refl;
  sized = λ n w w1 buffer e.
      ap length (sym (some-injective _ _ (ap (λ (r : Option (List ℕ) × ℕ). r.0) e)))
      ∙ length-replicate n 0;
  opened = λ w. refl;
  listened = λ fd buffer w. refl;
  kept = λ fd buffer w. length-over heartbeat buffer;
}

-- A frame of no bytes after a heartbeat is taken for one.
short_frame : handle_packet counting false heartbeat (pos 0) 0 ≡ some 1
unfolding handle_packet is_heartbeat build_keep_alive_command add_words send_priv_cmd to_u32
short_frame = refl

unsigned_sends : main counting heartbeats 2 false 0 ≡ some 2
unfolding main receive_frames handle_packet is_heartbeat build_keep_alive_command add_words
    send_priv_cmd to_u32
unsigned_sends = refl

main_signed_example : (w : ℕ) × (main counting heartbeats 2 true 0 ≡ some w) × (w ≡ 0)
unfolding heartbeats-CountsCommands
main_signed_example = main_signed counting heartbeats heartbeats-CountsCommands 2 0

heartbeat_is_seen : is_heartbeat false heartbeat ≡ some true
unfolding is_heartbeat
heartbeat_is_seen = refl

build_keep_alive_command_lem_example :
    build_keep_alive_command false (0x0a ∷ 0xff ∷ 7 ∷ 0 ∷ 9 ∷ []) (pos 3) []
    ≡ some (keep_alive ++ (48 ∷ 97 ∷ 102 ∷ 102 ∷ 48 ∷ 55 ∷ 48 ∷ 48 ∷ []))
build_keep_alive_command_lem_example =
    build_keep_alive_command_lem (0x0a ∷ 0xff ∷ 7 ∷ 0 ∷ 9 ∷ []) 3
      (omega arith, (omega arith, (omega arith, (omega arith, (omega arith, tt))))) (omega arith)

abbrev begins_with : ℕ → List ℕ → Bool
begins_with a [] = false
begins_with a (c ∷ cs) = c == a

-- Sockets that give one frame; a filter accepts the frames that begin with its number, or any frame
-- where it is above 9, and the state lists the filters that acted.
abbrev one_frame : Sockets (List ℕ)
one_frame = record {
  malloc = λ w. (true, w);
  free = λ w. w;
  socket = λ w. (pos 3, w);
  close_socket = λ fd w. w;
  recvfrom = λ fd w. (pos 1, 7 ∷ [], w);
  accepts = λ filter frame. if ltb 9 filter then true else begins_with filter frame;
  action = λ filter frame w. w ++ (filter ∷ []);
}

abbrev blank : Sniffer (List ℕ)
blank = record {
  sockfd = pos 0;
  has_buffer = false;
  system = none;
  filter_head = [];
  is_debug = false;
}

sniffer_model_lem_example :
    sniffer_model plain one_frame
      (register_all plain one_frame
        (sniffer_init plain one_frame blank false []).1
        (7 ∷ 8 ∷ 12 ∷ []))
      []
    ≡ 12 ∷ 7 ∷ []
unfolding sniffer_init
sniffer_model_lem_example =
    sniffer_model_lem plain one_frame plain-List blank false (7 ∷ 8 ∷ 12 ∷ []) (7 ∷ []) 1 [] [] []
      refl (tt, (((λ e. omega arith), tt), (((λ e. omega arith), ((λ e. omega arith), tt)), tt)))
      refl
