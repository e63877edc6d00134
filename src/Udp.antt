-- ===== src/Udp.antt =====
-- socket/udp_client.c: a socket with the address of its peer, and sends and receptions that are tried
-- again. The calls of the system are the fields of `Datagrams`, over a state `W`; `calloc` says
-- whether it found a block. A pointer to a socket_base_t is `none` where it is NULL.
pub mod Sends
pub mod Sockets
mod Tests
use general_purpose_library.Prelude.{
  ℕ, zero, suc, Bool, Option, none, some, List, if◌then◌else◌, not, ℤ, pos, negsuc, ltb_ℤ, eqb_ℤ,
}

-- The fields of a sockaddr_in that the client sets
pub record Address : Type 0 where
  pub s_addr : ℕ
  pub port : ℕ

pub record SocketBase : Type 0 where
  pub fd : ℤ
  pub sin : Address

-- What `recvfrom` leaves in the address and the buffer it is given
pub record Reception {ℓ} (W : Type ℓ) : Type ℓ where
  pub ret : ℤ
  pub sin : Address
  pub buf : List ℕ
  pub world : W

pub record Datagrams {ℓ} (W : Type ℓ) : Type ℓ where
  pub eagain : ℤ
  pub inet_addr : List ℕ → ℕ
  pub htons : ℤ → ℕ
  pub calloc : W → Bool × W
  pub free : W → W
  pub socket : ℤ → W → ℤ × W
  pub close_socket : ℤ → W → W
  pub sendto : ℤ → Address → List ℕ → ℤ → W → ℤ × W
  pub recvfrom : ℤ → Address → List ℕ → ℤ → W → Reception W

module _ {ℓ} {W : Type ℓ} (net : Datagrams W) where
  abbrev pub address : ℤ → List ℕ → Address
  address port ip_addr = record { s_addr = net.inet_addr ip_addr; port = net.htons port }

  abbrev pub with_socket : ℤ → List ℕ → ℤ × W → Option SocketBase × W
  with_socket port ip_addr (fd, w) =
      if ltb_ℤ fd (pos 0)
      then (none, net.free w)
      else (some (record { fd = fd; sin = address port ip_addr }), w)

  abbrev pub with_block : ℤ → ℤ → List ℕ → Bool × W → Option SocketBase × W
  with_block type port ip_addr (found, w) =
      if found then with_socket port ip_addr (net.socket type w) else (none, w)

  unfoldable pub udp_client_init : ℤ → ℤ → List ℕ → W → Option SocketBase × W
  udp_client_init type port ip_addr w = with_block type port ip_addr (net.calloc w)

  -- The loop of udp_client_send: what is answered after a call, or one more round of those left
  unfoldable pub send_loop : ℕ → SocketBase → List ℕ → ℤ → W → ℤ × W
  send_loop zero skt_base buf size w = net.sendto skt_base.fd skt_base.sin buf size w
  send_loop (suc try_times) skt_base buf size w =
      let (ret, w1) = net.sendto skt_base.fd skt_base.sin buf size w in
      let again = send_loop try_times skt_base buf size w1 in
      if not (eqb_ℤ net.eagain ret) then (ret, w1) else again

  unfoldable pub udp_client_send : Option SocketBase → List ℕ → ℤ → W → ℤ × W
  udp_client_send none buf size w = (negsuc 0, w)
  udp_client_send (some skt_base) buf size w = send_loop 3 skt_base buf size w

  -- One round of udp_client_recv
  abbrev pub receive : SocketBase → List ℕ → ℤ → W → Reception W
  receive skt_base buf size w = net.recvfrom skt_base.fd skt_base.sin buf size w

  -- The socket after a reception, whose address the call has written
  abbrev pub peer : SocketBase → Reception W → SocketBase
  peer skt_base got = record skt_base { sin = got.sin }

  abbrev pub answered : SocketBase → Reception W → ℤ × Option SocketBase × List ℕ × W
  answered skt_base got = (got.ret, some (peer skt_base got), got.buf, got.world)

  unfoldable pub recv_loop : ℕ → SocketBase → List ℕ → ℤ → W → ℤ × Option SocketBase × List ℕ × W
  recv_loop zero skt_base buf size w = answered skt_base (receive skt_base buf size w)
  recv_loop (suc try_times) skt_base buf size w =
      let got = receive skt_base buf size w in
      let again = recv_loop try_times (peer skt_base got) got.buf size got.world in
      if not (eqb_ℤ net.eagain got.ret) then answered skt_base got else again

  unfoldable pub udp_client_recv :
      Option SocketBase → List ℕ → ℤ → W → ℤ × Option SocketBase × List ℕ × W
  udp_client_recv none buf size w = (negsuc 0, none, buf, w)
  udp_client_recv (some skt_base) buf size w = recv_loop 3 skt_base buf size w

  unfoldable pub udp_client_destroy : Option SocketBase → W → ℤ × W
  udp_client_destroy none w = (negsuc 0, w)
  udp_client_destroy (some skt_base) w = (pos 0, net.free (net.close_socket skt_base.fd w))
