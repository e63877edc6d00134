-- ===== src/Udp/Sockets.antt =====
-- The sockets and blocks that udp_client_init and udp_client_destroy of socket/udp_client.c take and
-- give back.
use general_purpose_library.Prelude.{
  ℕ, suc, ◌-◌, ◌≡◌, refl, sym, ◌∙◌, arith, Bool, true, false, Option, none, some, List,
  if◌then◌else◌, ℤ, pos, ltb_ℤ, Bool-cases, inl, inr,
}
use general_purpose_library.Udp.{
  SocketBase, Datagrams, with_socket, with_block, udp_client_init, udp_client_destroy,
}

module _ {ℓ} {W : Type ℓ} (net : Datagrams W) where
  -- How many sockets are open and how many blocks are allocated: a call that succeeds adds one, and
  -- the call that undoes it takes one away.
  pub record Counts : Type ℓ where
    pub sockets : W → ℕ
    pub blocks : W → ℕ
    pub calloc_blocks :
        (w : W) → blocks (net.calloc w).1 ≡ (if (net.calloc w).0 then suc (blocks w) else blocks w)
    pub calloc_sockets : (w : W) → sockets (net.calloc w).1 ≡ sockets w
    pub free_blocks : (w : W) → blocks (net.free w) ≡ blocks w - 1
    pub free_sockets : (w : W) → sockets (net.free w) ≡ sockets w
    pub socket_sockets :
        (type : ℤ) (w : W)
        → sockets (net.socket type w).1
          ≡ (if ltb_ℤ (net.socket type w).0 (pos 0) then sockets w else suc (sockets w))
    pub socket_blocks : (type : ℤ) (w : W) → blocks (net.socket type w).1 ≡ blocks w
    pub close_sockets : (fd : ℤ) (w : W) → sockets (net.close_socket fd w) ≡ sockets w - 1
    pub close_blocks : (fd : ℤ) (w : W) → blocks (net.close_socket fd w) ≡ blocks w

  module _ (counts : Counts) where
    -- What udp_client_init leaves, and what udp_client_destroy then leaves, from `m` sockets and `n`
    -- blocks
    abbrev Owns : ℕ → ℕ → Option SocketBase × W → Type 0
    Owns m n (none, w) = (counts.sockets w ≡ m) × (counts.blocks w ≡ n)
    Owns m n (some skt, w) =
        (counts.sockets w ≡ suc m)
        × (counts.blocks w ≡ suc n)
        × (counts.sockets (udp_client_destroy net (some skt) w).1 ≡ m)
        × (counts.blocks (udp_client_destroy net (some skt) w).1 ≡ n)

    destroy_lem :
        (m n : ℕ) (skt : SocketBase) (w : W)
        → counts.sockets w ≡ suc m
        → counts.blocks w ≡ suc n
        → Owns m n (some skt, w)
    unfolding udp_client_destroy
    destroy_lem m n skt w open_ones held =
        let w1 = net.close_socket skt.fd w in
        (
          open_ones,
          held,
          omega (arith, counts.free_sockets w1, counts.close_sockets skt.fd w),
          omega (arith, counts.free_blocks w1, counts.close_blocks skt.fd w),
        )

    with_socket_lem :
        (m n : ℕ) (port : ℤ) (ip_addr : List ℕ) (r : ℤ × W)
        → counts.sockets r.1 ≡ (if ltb_ℤ r.0 (pos 0) then m else suc m)
        → counts.blocks r.1 ≡ suc n
        → Owns m n (with_socket net port ip_addr r)
    with_socket_lem m n port ip_addr (fd, w) open_ones held = elim (Bool-cases (ltb_ℤ fd (pos 0))) [
      | inl bad ↦
          rw bad
            (counts.free_sockets w ∙ open_ones ∙ rw bad refl, omega (arith, counts.free_blocks w))
      | inr good ↦ rw good (destroy_lem m n _ w (open_ones ∙ rw good refl) held)
    ]

    with_block_lem :
        (m n : ℕ) (type port : ℤ) (ip_addr : List ℕ) (r : Bool × W)
        → counts.sockets r.1 ≡ m
        → counts.blocks r.1 ≡ (if r.0 then suc n else n)
        → Owns m n (with_block net type port ip_addr r)
    with_block_lem m n type port ip_addr (false, w) open_ones held = (open_ones, held)
    with_block_lem m n type port ip_addr (true, w) open_ones held =
        with_socket_lem m n port ip_addr (net.socket type w)
          (same_count (ltb_ℤ (net.socket type w).0 (pos 0)) (counts.socket_sockets type w)
            open_ones)
          (counts.socket_blocks type w ∙ held)
      where
        same_count :
            (b : Bool) {a k : ℕ}
            → a ≡ (if b then k else suc k)
            → k ≡ m
            → a ≡ (if b then m else suc m)
        same_count b e f = rw (sym f) e

    -- udp_client_init leaves one more socket and one more block where it answers a socket, and
    -- udp_client_destroy of it leaves as many of both as there were; where it answers NULL there are as
    -- many as before.
    pub udp_client_destroy-udp_client_init :
        (type port : ℤ) (ip_addr : List ℕ) (w : W)
        → Owns (counts.sockets w) (counts.blocks w) (udp_client_init net type port ip_addr w)
    unfolding udp_client_init
    udp_client_destroy-udp_client_init type port ip_addr w =
        with_block_lem (counts.sockets w) (counts.blocks w) type port ip_addr (net.calloc w)
          (counts.calloc_sockets w) (counts.calloc_blocks w)
