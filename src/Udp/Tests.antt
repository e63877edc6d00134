-- ===== src/Udp/Tests.antt =====
-- Runs of socket/udp_client.c on a network that takes what it is sent, and the theorems at them.
use general_purpose_library.Prelude.{
  ℕ, suc, ◌-◌, ◌≡◌, refl, none, some, List, [], ◌∷◌, ltb, ℤ, pos, negsuc, length, take,
  if◌then◌else◌,
}
use general_purpose_library.Udp.{
  Address, SocketBase, Datagrams, send_loop, udp_client_init, udp_client_send,
}
use general_purpose_library.Udp.Sends.{TakesAll, udp_client_send_lem}

record Lan : Type 0 where
  sockets : ℕ
  blocks : ℕ
  sent : List (Address × List ℕ)

abbrev stranger : Address
stranger = record { s_addr = 99; port = 7 }

abbrev took : ℤ → Address → List ℕ → Lan → Lan
took size sin buf w = record w { sent = (sin, taken size) ∷ w.sent }
  where
    taken : ℤ → List ℕ
    taken (pos n) = take n buf
    taken (negsuc n) = []

-- EAGAIN is 11; there are two blocks and two sockets at most.
abbrev lan : Datagrams Lan
lan = record {
  eagain = pos 11;
  inet_addr = length;
  htons = λ port. 80;
  calloc = λ w. (ltb w.blocks 2, if ltb w.blocks 2 then record w { blocks = suc w.blocks } else w);
  free = λ w. record w { blocks = w.blocks - 1 };
  socket = λ type w.
      if ltb w.sockets 2 then (pos 3, record w { sockets = suc w.sockets }) else (negsuc 0, w);
  close_socket = λ fd w. record w { sockets = w.sockets - 1 };
  sendto = λ fd sin buf size w. (size, took size sin buf w);
  recvfrom =
      λ fd sin buf size w. record { ret = pos 2; sin = stranger; buf = 104 ∷ 105 ∷ []; world = w };
}

abbrev server : SocketBase
server = record { fd = pos 3; sin = record { s_addr = 42; port = 80 } }

abbrev hello : List ℕ
hello = 104 ∷ 101 ∷ 108 ∷ 108 ∷ 111 ∷ []

abbrev eleven : List ℕ
eleven = 1 ∷ 2 ∷ 3 ∷ 4 ∷ 5 ∷ 6 ∷ 7 ∷ 8 ∷ 9 ∷ 10 ∷ 11 ∷ []

abbrev quiet : Lan
quiet = record { sockets = 0; blocks = 0; sent = [] }

lan-TakesAll : TakesAll lan
lan-TakesAll = record {
  sent = λ w. w.sent;
  sendto_ret = λ fd sin buf n w. refl;
  sendto_sent = λ fd sin buf n w. refl;
}

-- Eleven bytes go out four times.
eleven_bytes : length (udp_client_send lan (some server) eleven (pos 11) quiet).1.sent ≡ 4
unfolding udp_client_send send_loop
eleven_bytes = refl

five_bytes : length (udp_client_send lan (some server) hello (pos 5) quiet).1.sent ≡ 1
unfolding udp_client_send send_loop
five_bytes = refl

no_socket : udp_client_send lan none hello (pos 5) quiet ≡ (negsuc 0, quiet)
unfolding udp_client_send
no_socket = refl

third_init :
    (udp_client_init lan (pos 2) (pos 80) hello (record { sockets = 2; blocks = 0; sent = [] })).0
    ≡ none
unfolding udp_client_init
third_init = refl

udp_client_send_lem_example :
    ((udp_client_send lan (some server) eleven (pos 11) quiet).0 ≡ pos 11)
    × ((udp_client_send lan (some server) eleven (pos 11) quiet).1.sent
        ≡ (server.sin, eleven)
          ∷ (server.sin, eleven)
          ∷ (server.sin, eleven)
          ∷ (server.sin, eleven)
          ∷ [])
unfolding lan-TakesAll
udp_client_send_lem_example = udp_client_send_lem lan lan-TakesAll server eleven 11 quiet
