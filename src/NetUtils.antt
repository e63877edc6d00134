-- ===== src/NetUtils.antt =====
-- linux/utils/src/net_utils.c: a socket that listens. The calls of the system are the fields of
-- `Listening`, over a state `W`; an address is its bytes and a port.
pub mod Sockets
use general_purpose_library.Prelude.{ℕ, Bool, if◌then◌else◌, List, ℤ, pos, negsuc, eqb_ℤ}

pub record Listening {ℓ} (W : Type ℓ) : Type ℓ where
  pub socket : W → ℤ × W
  pub setsockopt : ℤ → W → W
  pub bind : ℤ → List ℕ → ℤ → W → ℤ × W
  pub listen : ℤ → ℤ → W → ℤ × W
  pub close_socket : ℤ → W → W

module _ {ℓ} {W : Type ℓ} (net : Listening W) where
  abbrev pub has_failed : ℤ → Bool
  has_failed ret = eqb_ℤ (negsuc 0) ret

  -- err_bind: what is answered, and what `*fd` is set to
  abbrev pub give_up : ℤ → ℤ → W → ℤ × ℤ × W
  give_up fd ret w = (ret, negsuc 0, net.close_socket fd w)

  abbrev pub after_listen : ℤ → ℤ × W → ℤ × ℤ × W
  after_listen fd (ret, w) = if has_failed ret then give_up fd ret w else (pos 0, fd, w)

  abbrev pub after_bind : ℤ → ℤ → ℤ × W → ℤ × ℤ × W
  after_bind fd listen_num (ret, w) =
      if has_failed ret then give_up fd ret w else after_listen fd (net.listen fd listen_num w)

  abbrev pub after_socket : List ℕ → ℤ → ℤ → ℤ → ℤ × W → ℤ × ℤ × W
  after_socket ip_addr ip_port listen_num old (fd, w) =
      if has_failed fd
      then (negsuc 0, old, w)
      else after_bind fd listen_num (net.bind fd ip_addr ip_port (net.setsockopt fd w))

  pub tcp_socket_listen : List ℕ → ℤ → ℤ → ℤ → W → ℤ × ℤ × W
  tcp_socket_listen ip_addr ip_port listen_num old w =
      after_socket ip_addr ip_port listen_num old (net.socket w)
