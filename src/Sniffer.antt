-- ===== src/Sniffer.antt =====
-- socket/sniffer.c: frames that are recognised as heartbeats, and the command that is built of one. A
-- frame is the bytes of the buffer that it was received in. Whether `char` is signed is an argument,
-- since the compiler chooses it. `none` is a read or a write outside a buffer.
pub mod Frames
pub mod Commands
pub mod Framework
pub mod Receive
mod Tests
use general_purpose_library.Hex.{format_02x}
use general_purpose_library.Prelude.{
  ◌>>=◌, ℕ, zero, suc, ◌+◌, ◌-◌, ◌/◌, ◌%◌, Bool, true, false, Option, none, some, List, [], ◌∷◌,
  ◌++◌, ◌==◌, ltb, leb, if◌then◌else◌, get_elem?, length, ℤ, pos, negsuc, ltb_ℤ, eqb_ℤ, to_u32,
}

abbrev pub char_value : Bool → ℕ → ℤ
char_value false b = pos b
char_value true b = if leb 128 b then negsuc (255 - b) else pos b

-- `eth_data[i] == v`
abbrev pub eth_is : Bool → List ℕ → ℕ → ℕ → Option Bool
eth_is signed buf i v = do b ← get_elem? buf i; some (eqb_ℤ (char_value signed b) (pos v))

-- Bytes that are compared one after the other
pub data Checks : Type 0 where
  done : Checks
  check : ℕ → ℕ → Checks → Checks

abbrev pub all_match : Bool → List ℕ → Checks → Option Bool
all_match signed buf done = some true
all_match signed buf (check i v rest) = do
  ok ← eth_is signed buf i v
  elim ok [ true ↦ all_match signed buf rest | false ↦ some false ]

abbrev pub user_len_checks : Checks
user_len_checks = check 38 0x00 (check 39 0x28 done)

abbrev pub heartbeat_checks : Checks
heartbeat_checks = check 42 0x66 (
    check 43 0x88 (
      check 44 0x66
        (check 45 0x88 (check 47 0x18 (check 48 0x00 (check 49 0x08 (check 54 0x01 done)))))))

-- The protocol is an unsigned byte of the header that begins at 14.
pub is_heartbeat : Bool → List ℕ → Option Bool
is_heartbeat signed buf = do
  protocol ← get_elem? buf 23
  if protocol == 17
      then (do
        ok ← all_match signed buf user_len_checks
        if ok then all_match signed buf heartbeat_checks else some false)
      else some false

-- "keep_alive 0 10000 0x"
abbrev pub keep_alive : List ℕ
keep_alive =
    107 ∷ 101 ∷ 101 ∷ 112 ∷ 95 ∷ 97 ∷ 108 ∷ 105 ∷ 118 ∷ 101 ∷ 32 ∷ 48 ∷ 32 ∷ 49 ∷ 48 ∷ 48 ∷ 48 ∷ 48
    ∷ 32 ∷ 48 ∷ 120 ∷ []

-- A text that is added to the one in a buffer of 256 bytes
abbrev pub add_text : List ℕ → List ℕ → Option (List ℕ)
add_text cmd text = if ltb (length (cmd ++ text)) 256 then some (cmd ++ text) else none

abbrev pub format_word : Bool → List ℕ → ℕ → Option (List ℕ)
format_word signed buf i = do
  a ← get_elem? buf i
  b ← get_elem? buf (i + 1)
  c ← get_elem? buf (i + 2)
  d ← get_elem? buf (i + 3)
  some (
      format_02x (char_value signed a)
      ++ (format_02x (char_value signed b)
          ++ (format_02x (char_value signed c) ++ format_02x (char_value signed d))))

-- The loop over the words, with rounds left
pub add_words : ℕ → Bool → List ℕ → ℕ → ℤ → List ℕ → Option (List ℕ)
add_words zero signed buf i copy_len cmd = none
add_words (suc rounds) signed buf i copy_len cmd = elim (ltb_ℤ (pos i) copy_len) [
  | true ↦ do
    text ← format_word signed buf i
    longer ← add_text cmd text
    add_words rounds signed buf (i + 4) copy_len longer
  | false ↦ some cmd
]

-- `len < 116 ? len : 116`, of which 30 rounds are enough
abbrev pub at_most_116 : ℤ → ℤ
at_most_116 len = if ltb_ℤ len (pos 116) then len else pos 116

pub build_keep_alive_command : Bool → List ℕ → ℤ → List ℕ → Option (List ℕ)
build_keep_alive_command signed buf len cmd = do
  start ← add_text cmd keep_alive
  add_words 30 signed buf 0 (at_most_116 len) start

-- socket, the private ioctl with the command and its length, and close
pub record Net {ℓ} (W : Type ℓ) : Type ℓ where
  pub socket : W → ℤ × W
  pub ioctl_private : ℤ → List ℕ → ℕ → W → ℤ × W
  pub close_socket : ℤ → W → W

module _ {ℓ} {W : Type ℓ} (net : Net W) where
  abbrev pub closing : ℤ → ℤ × W → ℤ × W
  closing fd (ret, w) = (ret, net.close_socket fd w)

  abbrev pub send_on : List ℕ → ℕ → ℤ × W → ℤ × W
  send_on cmd len (fd, w) =
      if ltb_ℤ fd (pos 0) then (negsuc 0, w) else closing fd (net.ioctl_private fd cmd len w)

  unfoldable pub send_priv_cmd : List ℕ → ℕ → W → ℤ × W
  send_priv_cmd cmd len w = send_on cmd len (net.socket w)

  pub handle_packet : Bool → List ℕ → ℤ → W → Option W
  handle_packet signed buffer size w = do
    heartbeat ← is_heartbeat signed buffer
    if heartbeat
        then (do
          cmd ← build_keep_alive_command signed buffer size []
          some (send_priv_cmd cmd 256 w).1)
        else some w
