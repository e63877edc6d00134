-- ===== src/Sniffer/Framework.antt =====
-- socket/sniffer_framework.c: filters that are asked for each frame. The list of filters is that of
-- KernelList, a filter is a number, and the thread is that of PthreadModel. The calls of the system
-- and of the filters are the fields of `Sockets`, over a state `W`; `none` is a NULL that is followed.
pub mod Filters
use general_purpose_library.Prelude.{
  ◌>>=◌, ℕ, Bool, true, false, Option, none, some, List, [], ◌∷◌, if◌then◌else◌, ℤ, pos, negsuc,
  ltb_ℤ, eqb_ℤ,
}
use general_purpose_library.KernelList.{ListOps}
use general_purpose_library.PthreadModel.{
  Model, System, absent, pthread_model_create, pthread_model_start, pthread_model_destory,
}

-- sinffer_t; the buffer is there or not, and the thread's state stands for the model.
pub record Sniffer {ℓ} (S : Type ℓ) : Type ℓ where
  pub sockfd : ℤ
  pub has_buffer : Bool
  pub system : Option System
  pub filter_head : S
  pub is_debug : Bool

pub record Sockets {ℓ} (W : Type ℓ) : Type ℓ where
  pub malloc : W → Bool × W
  pub free : W → W
  pub socket : W → ℤ × W
  pub close_socket : ℤ → W → W
  pub recvfrom : ℤ → W → ℤ × List ℕ × W
  pub accepts : ℕ → List ℕ → Bool
  pub action : ℕ → List ℕ → W → W

module _ {ℓ κ} {S : Type ℓ} {W : Type κ} (ops : ListOps S) (net : Sockets W) where
  -- The fields that are not set before an error keep what they held.
  abbrev pub with_socket : Sniffer S → Bool → ℤ × W → ℤ × Sniffer S × W
  with_socket snf is_debug (fd, w) =
      if ltb_ℤ fd (pos 0)
      then (negsuc 0, record snf { sockfd = fd; has_buffer = false }, net.free w)
      else (
        pos 0,
        record {
          sockfd = fd;
          has_buffer = true;
          system = none;
          filter_head = ops.init;
          is_debug = is_debug;
        },
        w,
      )

  abbrev pub with_buffer : Sniffer S → Bool → Bool × W → ℤ × Sniffer S × W
  with_buffer snf is_debug (false, w) = (negsuc 0, record snf { has_buffer = false }, w)
  with_buffer snf is_debug (true, w) = with_socket snf is_debug (net.socket w)

  unfoldable pub sniffer_init : Sniffer S → Bool → W → ℤ × Sniffer S × W
  sniffer_init snf is_debug w = with_buffer snf is_debug (net.malloc w)

  pub register_sniffer : Sniffer S → ℕ → ℤ × Sniffer S
  register_sniffer snf filter = (pos 0, record snf { filter_head = ops.add filter snf.filter_head })

  abbrev pub new_system : Model → System
  new_system model = record {
    model = some model;
    thread = absent;
    is_cancelled = false;
    calls = 0;
    faulted = false;
  }

  -- Whether there is memory, and what pthread_attr_init and pthread_create answer
  unfoldable pub sniffer_start : Bool → ℤ → ℤ → Sniffer S → Option (ℤ × Sniffer S)
  sniffer_start has_memory attr_ret create_ret snf = do
    model ← pthread_model_create has_memory attr_ret true
    some (pos 0, record snf { system = some (pthread_model_start create_ret (new_system model)).1 })

  unfoldable pub sniffer_destroy : Sniffer S → W → Option (ℤ × Sniffer S × W)
  sniffer_destroy snf w = do
    system ← snf.system
    some (
      pos 0,
      record snf { system = some (pthread_model_destory system).1 },
      net.close_socket snf.sockfd (if snf.has_buffer then net.free w else w),
    )

  -- The loop over the filters
  abbrev pub ask_filters : List ℕ → List ℕ → W → W
  ask_filters [] frame w = w
  ask_filters (filter ∷ filters) frame w =
      ask_filters filters frame (if net.accepts filter frame then net.action filter frame w else w)

  abbrev pub received : Sniffer S → ℤ × List ℕ × W → W
  received snf (size, frame, w) =
      if ltb_ℤ size (pos 0) then w else ask_filters (ops.entries snf.filter_head) frame w

  pub sniffer_model : Sniffer S → W → W
  sniffer_model snf w = received snf (net.recvfrom snf.sockfd w)
