-- ===== src/Udp/Sends.antt =====
-- The datagrams of udp_client_send of socket/udp_client.c, and where it sends after a reception.
use general_purpose_library.Prelude.{
  ℕ, zero, suc, ◌≡◌, refl, ap, ◌∙◌, arith, Bool, true, false, Option, some, List, ◌∷◌, ◌++◌,
  if◌then◌else◌, ℤ, pos, ltb_ℤ, eqb_ℤ, take, replicate, Bool-cases, inl, inr,
}
use general_purpose_library.Udp.{
  Address, SocketBase, Datagrams, receive, peer, answered, send_loop, udp_client_send, recv_loop,
  udp_client_recv,
}

module _ {ℓ} {W : Type ℓ} (net : Datagrams W) where
  -- A network that takes every datagram whole: sendto answers its size, and `sent` grows by it.
  pub record TakesAll : Type ℓ where
    pub sent : W → List (Address × List ℕ)
    pub sendto_ret :
        (fd : ℤ) (sin : Address) (buf : List ℕ) (n : ℕ) (w : W)
        → (net.sendto fd sin buf (pos n) w).0 ≡ pos n
    pub sendto_sent :
        (fd : ℤ) (sin : Address) (buf : List ℕ) (n : ℕ) (w : W)
        → sent (net.sendto fd sin buf (pos n) w).1 ≡ (sin, take n buf) ∷ sent w

  send_loop_step :
      (try_times : ℕ) (skt : SocketBase) (buf : List ℕ) (size : ℤ) (w : W)
      → eqb_ℤ net.eagain (net.sendto skt.fd skt.sin buf size w).0 ≡ true
      → send_loop net (suc try_times) skt buf size w
        ≡ send_loop net try_times skt buf size (net.sendto skt.fd skt.sin buf size w).1
  unfolding send_loop
  send_loop_step try_times skt buf size w again = rw (send_loop, again) refl

  send_loop_stop :
      (try_times : ℕ) (skt : SocketBase) (buf : List ℕ) (size : ℤ) (w : W)
      → eqb_ℤ net.eagain (net.sendto skt.fd skt.sin buf size w).0 ≡ false
      → send_loop net (suc try_times) skt buf size w ≡ net.sendto skt.fd skt.sin buf size w
  unfolding send_loop
  send_loop_stop try_times skt buf size w last = rw (send_loop, last) refl

  -- An error of sendto, EAGAIN in errno among them, is answered at once.
  pub udp_client_send-error :
      (skt : SocketBase) (buf : List ℕ) (size : ℤ) (w : W)
      → ltb_ℤ (pos 0) net.eagain ≡ true
      → ltb_ℤ (net.sendto skt.fd skt.sin buf size w).0 (pos 0) ≡ true
      → udp_client_send net (some skt) buf size w ≡ net.sendto skt.fd skt.sin buf size w
  unfolding udp_client_send
  udp_client_send-error skt buf size w positive bad = send_loop_stop 2 skt buf size w (ground arith)

  module _ (takes : TakesAll) where
    -- What has been sent and answered
    abbrev Sends : ℕ → SocketBase → List ℕ → ℕ → W → ℤ × W → Type 0
    Sends copies skt buf n w (ret, w') =
        (ret ≡ pos n) × (takes.sent w' ≡ replicate copies (skt.sin, take n buf) ++ takes.sent w)

    abbrev test_of : ℕ → Bool
    test_of n = eqb_ℤ net.eagain (pos n)

    same_test :
        (skt : SocketBase) (buf : List ℕ) (n : ℕ) (w : W) {b : Bool}
        → test_of n ≡ b
        → eqb_ℤ net.eagain (net.sendto skt.fd skt.sin buf (pos n) w).0 ≡ b
    same_test skt buf n w e = rw takes.sendto_ret e

    one_send :
        (skt : SocketBase) (buf : List ℕ) (n : ℕ) (w : W)
        → Sends 1 skt buf n w (net.sendto skt.fd skt.sin buf (pos n) w)
    one_send skt buf n w =
        (takes.sendto_ret skt.fd skt.sin buf n w, takes.sendto_sent skt.fd skt.sin buf n w)

    replicate_more {κ} :
        {A : Type κ} (k : ℕ) (a : A) (rest : List A)
        → replicate k a ++ (a ∷ rest) ≡ a ∷ replicate k a ++ rest
    replicate_more zero a rest = refl
    replicate_more (suc k) a rest = ap (λ (l : List _). a ∷ l) (replicate_more k a rest)

    send_loop_all :
        (k : ℕ) (skt : SocketBase) (buf : List ℕ) (n : ℕ) (w : W)
        → test_of n ≡ true
        → Sends (suc k) skt buf n w (send_loop net k skt buf (pos n) w)
    unfolding send_loop
    send_loop_all zero skt buf n w again = one_send skt buf n w
    send_loop_all (suc k) skt buf n w again =
        let w1 = (net.sendto skt.fd skt.sin buf (pos n) w).1 in
        let (ret, sent) = send_loop_all k skt buf n w1 again in
        rw (send_loop_step k skt buf (pos n) w (same_test skt buf n w again)) (
          ret,
          sent
              ∙ ap (λ (l : List (Address × List ℕ)). replicate (suc k) (skt.sin, take n buf) ++ l)
                  (takes.sendto_sent skt.fd skt.sin buf n w)
              ∙ replicate_more (suc k) (skt.sin, take n buf) (takes.sent w),
        )

    -- On a network that takes every datagram whole, udp_client_send answers the size it is given
    -- and sends the datagram once to the address of the socket, or four times where that size is
    -- the number EAGAIN.
    pub udp_client_send_lem :
        (skt : SocketBase) (buf : List ℕ) (n : ℕ) (w : W)
        → Sends
            (if test_of n then 4 else 1)
            skt
            buf
            n
            w
            (udp_client_send net (some skt) buf (pos n) w)
    unfolding udp_client_send
    udp_client_send_lem skt buf n w = elim (Bool-cases (test_of n)) [
      | inl again ↦ rw again (send_loop_all 3 skt buf n w again)
      | inr last ↦
          rw (last, send_loop_stop 2 skt buf (pos n) w (same_test skt buf n w last))
            (one_send skt buf n w)
    ]

    recv_once :
        (skt : SocketBase) (buf : List ℕ) (size : ℤ) (w : W)
        → eqb_ℤ net.eagain (receive net skt buf size w).ret ≡ false
        → udp_client_recv net (some skt) buf size w ≡ answered net skt (receive net skt buf size w)
    unfolding udp_client_recv recv_loop
    recv_once skt buf size w last = rw (udp_client_recv, recv_loop, last) refl

    -- What is sent with the socket that a reception has left
    abbrev SendsTo : Address → ℕ → List ℕ → W → ℤ × Option SocketBase × List ℕ × W → Type 0
    SendsTo sin n out w (ret, skt, buf, w') =
        takes.sent (udp_client_send net skt out (pos n) w').1
        ≡ replicate (if test_of n then 4 else 1) (sin, take n out) ++ takes.sent w

    -- On such a network, what is sent with a socket after a reception with it goes to the address that
    -- recvfrom has written, in place of that of udp_client_init, where the answer of recvfrom is not
    -- the number EAGAIN.
    pub udp_client_send-udp_client_recv :
        (skt : SocketBase) (buf out : List ℕ) (size : ℤ) (n : ℕ) (w : W)
        → eqb_ℤ net.eagain (receive net skt buf size w).ret ≡ false
        → let got = receive net skt buf size w in
          SendsTo got.sin n out got.world (udp_client_recv net (some skt) buf size w)
    udp_client_send-udp_client_recv skt buf out size n w last =
        let got = receive net skt buf size w in
        rw (recv_once skt buf size w last)
          (udp_client_send_lem (peer net skt got) out n got.world).1
