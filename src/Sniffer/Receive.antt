-- ===== src/Sniffer/Receive.antt =====
-- main of socket/sniffer.c: the buffer, the raw socket and the loop that receives frames, which has no
-- end and is run here for a number of rounds. The buffer keeps what a reception does not write.
use general_purpose_library.Prelude.{
  ◌>>=◌, ℕ, zero, suc, ◌≤◌, ◌≡◌, refl, ◌∙◌, arith, Bool, true, Option, none, some, List,
  if◌then◌else◌, length, ℤ, pos, ltb_ℤ, Bool-cases, inl, inr,
}
use general_purpose_library.Sniffer.{Net, handle_packet}
use general_purpose_library.Sniffer.Frames.{handle_packet_signed}

-- malloc answers the bytes of the block, or nothing. recvfrom answers the size of the frame and what
-- the buffer then holds.
pub record RawSocket {ℓ} (W : Type ℓ) : Type ℓ where
  pub malloc : ℕ → W → Option (List ℕ) × W
  pub raw_socket : W → ℤ × W
  pub recvfrom : ℤ → List ℕ → W → ℤ × List ℕ × W

module _ {ℓ} {W : Type ℓ} (net : Net W) (raw : RawSocket W) where
  -- What a round makes of a reception
  abbrev pub received : Bool → ℤ × List ℕ × W → Option W
  received signed (data_size, buffer, w) =
      if ltb_ℤ data_size (pos 0) then some w else handle_packet net signed buffer data_size w

  unfoldable pub receive_frames : ℕ → Bool → ℤ → List ℕ → W → Option W
  receive_frames zero signed raw_sock buffer w = some w
  receive_frames (suc rounds) signed raw_sock buffer w = do
    w1 ← received signed (raw.recvfrom raw_sock buffer w)
    receive_frames rounds signed raw_sock (raw.recvfrom raw_sock buffer w).1 w1

  abbrev pub with_raw_socket : ℕ → Bool → List ℕ → ℤ × W → Option W
  with_raw_socket rounds signed buffer (raw_sock, w) =
      if ltb_ℤ raw_sock (pos 0) then some w else receive_frames rounds signed raw_sock buffer w

  abbrev pub with_memory : ℕ → Bool → Option (List ℕ) × W → Option W
  with_memory rounds signed (none, w) = some w
  with_memory rounds signed (some buffer, w) =
      with_raw_socket rounds signed buffer (raw.raw_socket w)

  unfoldable pub main : ℕ → Bool → W → Option W
  main rounds signed w = with_memory rounds signed (raw.malloc 1536 w)

  -- How many commands the driver has been given, which no call changes but those of the socket that
  -- gives them; the buffer keeps the size it is asked for.
  pub record CountsCommands : Type ℓ where
    pub commands : W → ℕ
    pub allocated : (n : ℕ) (w : W) → commands (raw.malloc n w).1 ≡ commands w
    pub sized :
        (n : ℕ) (w w1 : W) (buffer : List ℕ)
        → raw.malloc n w ≡ (some buffer, w1)
        → length buffer ≡ n
    pub opened : (w : W) → commands (raw.raw_socket w).1 ≡ commands w
    pub listened :
        (fd : ℤ) (buffer : List ℕ) (w : W) → commands (raw.recvfrom fd buffer w).2 ≡ commands w
    pub kept :
        (fd : ℤ) (buffer : List ℕ) (w : W) → length (raw.recvfrom fd buffer w).1 ≡ length buffer

  module _ (counts : CountsCommands) where
    open counts use {commands}

    -- A run that ends in a state with `n` commands
    abbrev Leaves : ℕ → Option W → Type 0
    Leaves n none = ⊥
    Leaves n (some w) = commands w ≡ n

    round_lem : (r : ℤ × List ℕ × W) → 55 ≤ length r.1 → received true r ≡ some r.2
    round_lem (size, buffer, w) h = elim (Bool-cases (ltb_ℤ size (pos 0))) [
      | inl bad ↦ rw bad refl
      | inr good ↦ rw good (handle_packet_signed net buffer size w h)
    ]

    receive_frames_lem :
        (rounds n : ℕ) (fd : ℤ) (buffer : List ℕ) (w : W)
        → 55 ≤ length buffer
        → commands w ≡ n
        → Leaves n (receive_frames rounds true fd buffer w)
    unfolding receive_frames
    receive_frames_lem zero n fd buffer w h same = same
    receive_frames_lem (suc rounds) n fd buffer w h same =
        let long : 55 ≤ length (raw.recvfrom fd buffer w).1 =
          omega (arith, h, counts.kept fd buffer w) in
        rw (round_lem (raw.recvfrom fd buffer w) long) (
          receive_frames_lem rounds n fd (raw.recvfrom fd buffer w).1 (raw.recvfrom fd buffer w).2
            long (counts.listened fd buffer w ∙ same))

    with_raw_socket_lem :
        (rounds n : ℕ) (buffer : List ℕ) (r : ℤ × W)
        → 55 ≤ length buffer
        → commands r.1 ≡ n
        → Leaves n (with_raw_socket rounds true buffer r)
    with_raw_socket_lem rounds n buffer (fd, w) h same = elim (Bool-cases (ltb_ℤ fd (pos 0))) [
      | inl bad ↦ rw bad same
      | inr good ↦ rw good (receive_frames_lem rounds n fd buffer w h same)
    ]

    with_memory_lem :
        (rounds n : ℕ) (r : Option (List ℕ) × W)
        → ((buffer : List ℕ) (w1 : W) → r ≡ (some buffer, w1) → length buffer ≡ 1536)
        → commands r.1 ≡ n
        → Leaves n (with_memory rounds true r)
    with_memory_lem rounds n (none, w) sized same = same
    with_memory_lem rounds n (some buffer, w) sized same =
        with_raw_socket_lem rounds n buffer (raw.raw_socket w) (omega (arith, sized buffer w refl))
          (counts.opened w ∙ same)

    ends : (n : ℕ) (r : Option W) → Leaves n r → (w : W) × (r ≡ some w) × (commands w ≡ n)
    ends n none h = absurd h
    ends n (some w) h = (w, refl, h)

    -- Where char is signed, main gives the driver no command, whatever frames it receives and for
    -- however many rounds, and reads nothing outside its buffer.
    pub main_signed :
        (rounds : ℕ) (w : W)
        → (w1 : W) × (main rounds true w ≡ some w1) × (commands w1 ≡ commands w)
    unfolding main
    main_signed rounds w = ends (commands w) (main rounds true w) (
        with_memory_lem rounds (commands w) (raw.malloc 1536 w)
          (λ buffer w1. counts.sized 1536 w w1 buffer) (counts.allocated 1536 w))
