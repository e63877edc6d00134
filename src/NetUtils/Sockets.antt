-- ===== src/NetUtils/Sockets.antt =====
-- How many sockets are open after tcp_socket_listen of linux/utils/src/net_utils.c.
use general_purpose_library.Prelude.{
  ℕ, suc, ◌-◌, ◌≡◌, refl, ap, ◌∙◌, arith, true, false, if◌then◌else◌, List, ℤ, pos, eqb_ℤ,
  Bool-cases, inl, inr,
}
use general_purpose_library.NetUtils.{
  Listening, has_failed, give_up, after_listen, after_bind, after_socket, tcp_socket_listen,
}

module _ {ℓ} {W : Type ℓ} (net : Listening W) where
  pub record CountsSockets : Type ℓ where
    pub sockets : W → ℕ
    pub socket :
        (w : W)
        → sockets (net.socket w).1
          ≡ (if has_failed net (net.socket w).0 then sockets w else suc (sockets w))
    pub setsockopt : (fd : ℤ) (w : W) → sockets (net.setsockopt fd w) ≡ sockets w
    pub bind :
        (fd : ℤ) (ip_addr : List ℕ) (ip_port : ℤ) (w : W)
        → sockets (net.bind fd ip_addr ip_port w).1 ≡ sockets w
    pub listen : (fd n : ℤ) (w : W) → sockets (net.listen fd n w).1 ≡ sockets w
    pub close_socket : (fd : ℤ) (w : W) → sockets (net.close_socket fd w) ≡ sockets w - 1

module _ {ℓ} {W : Type ℓ} (net : Listening W) (counts : CountsSockets net) where
  -- An answer that is 0 with `n` sockets, or -1 with one fewer
  abbrev Leaves : ℕ → ℤ × ℤ × W → Type 0
  Leaves n (ret, fd, w) = counts.sockets w ≡ (if eqb_ℤ ret (pos 0) then n else n - 1)

  give_up_lem :
      (n : ℕ) (fd ret : ℤ) (w : W)
      → has_failed net ret ≡ true
      → counts.sockets w ≡ n
      → Leaves n (give_up net fd ret w)
  give_up_lem n fd ret w bad same =
      let e : eqb_ℤ ret (pos 0) ≡ false = ground arith in
      rw e (counts.close_socket fd w ∙ ap (λ (k : ℕ). k - 1) same)

  listen_lem :
      (n : ℕ) (fd : ℤ) (r : ℤ × W) → counts.sockets r.1 ≡ n → Leaves n (after_listen net fd r)
  listen_lem n fd (ret, w) same = elim (Bool-cases (has_failed net ret)) [
    | inl bad ↦ rw bad (give_up_lem n fd ret w bad same)
    | inr good ↦ rw good same
  ]

  bind_lem :
      (n : ℕ) (fd listen_num : ℤ) (r : ℤ × W)
      → counts.sockets r.1 ≡ n
      → Leaves n (after_bind net fd listen_num r)
  bind_lem n fd listen_num (ret, w) same = elim (Bool-cases (has_failed net ret)) [
    | inl bad ↦ rw bad (give_up_lem n fd ret w bad same)
    | inr good ↦
        rw good
          (listen_lem n fd (net.listen fd listen_num w) (counts.listen fd listen_num w ∙ same))
  ]

  -- tcp_socket_listen leaves one more socket open where it answers 0, and as many as before where it
  -- fails, where each call that opens a socket adds one and close takes one away.
  tcp_socket_listen_lem :
      (ip_addr : List ℕ) (ip_port listen_num old : ℤ) (w : W)
      → Leaves (suc (counts.sockets w)) (tcp_socket_listen net ip_addr ip_port listen_num old w)
  unfolding tcp_socket_listen
  tcp_socket_listen_lem ip_addr ip_port listen_num old w = inside (net.socket w) (counts.socket w)
    where
      inside :
          (r : ℤ × W)
          → counts.sockets r.1
            ≡ (if has_failed net r.0 then counts.sockets w else suc (counts.sockets w))
          → Leaves (suc (counts.sockets w)) (after_socket net ip_addr ip_port listen_num old r)
      inside (fd, w1) same = elim (Bool-cases (has_failed net fd)) [
        | inl bad ↦ rw bad (same ∙ rw bad (omega arith))
        | inr good ↦
            let bound = counts.bind fd ip_addr ip_port (net.setsockopt fd w1) in
            rw good (
              bind_lem (suc (counts.sockets w)) fd listen_num _
                (bound ∙ counts.setsockopt fd w1 ∙ same ∙ rw good refl))
      ]
