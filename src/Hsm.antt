-- ===== src/Hsm.antt =====
-- linux/glb_hsm: the hierarchical state machine of glb_hsm.c and glb_hsm.h. This file has the
-- machine's data and the calls that its functions make; the functions are in Hsm/Init,
-- Hsm/Dispatch and Hsm/Transition, and the states of level_state.c in Hsm/Levels.
pub mod Init
pub mod Transition
pub mod Dispatch
pub mod Levels
pub mod Chains
pub mod Entering
pub mod Near
pub mod Meeting
pub mod Far
pub mod Tree
pub mod Deep
pub mod Events
mod Tests
use general_purpose_library.Prelude.{
  ℕ, zero, suc, ◌+◌, ◌≡◌, ◌≢◌, refl, Bool, true, false, Option, none, some, List, [], ◌∷◌, ◌++◌,
  ◌==◌, ltb, if◌then◌else◌, length, get_elem?, set,
}

-- `super_state_t *`: states are told apart by their addresses.
abbrev pub State : Type 0
State = ℕ

-- `get_root_state()`
abbrev pub root : State
root = 0

-- HSM_MAX_NEST_DEPTH_
abbrev pub max_nest_depth : ℕ
max_nest_depth = 4

-- HSM_EMPTY_SIG
abbrev pub empty_sig : ℕ
empty_sig = 0

-- `event_status_e`. Handlers and actions return an `int`, so a status is a number.
abbrev pub evt_super : ℕ
evt_super = 0

abbrev pub evt_handled : ℕ
evt_handled = 1

abbrev pub evt_ignored : ℕ
evt_ignored = 2

abbrev pub evt_unhandle : ℕ
evt_unhandle = 3

abbrev pub evt_tran : ℕ
evt_tran = 4

-- What a handler does: return a status, or set `super->hsm->next_state` first. `up p` is
-- `EVT_SUPER(super->hsm, p)`; the header has no macro for a transition, which sets the target and
-- returns EVT_STATUS_TRAN.
pub data Reply : Type 0 where
  status : ℕ → Reply
  up : State → Reply
  tran : State → Reply

-- The application's states: what the function pointers of each `super_state_t` do. The actions
-- return an `int`; `none` is a NULL pointer.
pub record Chart : Type 0 where
  pub handler : State → ℕ → Reply
  pub on_entry : State → Option ℕ
  pub on_exit : State → Option ℕ

pub data Action : Type 0 where
  entered : State → Action
  exited : State → Action

-- `glb_hsm_t`, with the states whose `hsm` field points to it and the actions run so far.
pub record Machine : Type 0 where
  pub cur_state : State
  pub next_state : State
  pub attached : State → Bool
  pub log : List Action

-- `fault` is what C leaves undefined (a NULL call, a NULL `hsm`, an index outside `path`), `exited`
-- is the call of `exit`, and `no_fuel` says that a loop is not over after the rounds given to it.
pub data Run (A : Type 0) : Type 0 where
  done : A → Machine → Run A
  fault halted no_fuel : Run A

abbrev pub M : Type 0 → Type 0
M A = Machine → Run A

abbrev pub pure : {A : Type 0} → A → M A
pure a m = done a m

abbrev pub and_then : {A B : Type 0} → Run A → (A → M B) → Run B
and_then (done a m) k = k a m
and_then fault k = fault
and_then halted k = halted
and_then no_fuel k = no_fuel

infixl 5 ◌>>=◌ ◌>>◌
abbrev pub ◌>>=◌ : {A B : Type 0} → M A → (A → M B) → M B
◌>>=◌ f k m = and_then (f m) k

abbrev pub ◌>>◌ : {A B : Type 0} → M A → M B → M B
◌>>◌ f k m = and_then (f m) (λ _. k)

abbrev pub crash : {A : Type 0} → M A
crash m = fault

abbrev pub get_next : M State
get_next m = done m.next_state m

abbrev pub set_next : State → M (Unit {0})
set_next s m = done tt (record m { next_state = s })

abbrev pub set_cur : State → M (Unit {0})
set_cur s m = done tt (record m { cur_state = s })

-- SET_STATE_HSM
abbrev pub attach : State → M (Unit {0})
attach s m = done tt (record m { attached = λ t. if t == s then true else m.attached t })

-- Only a state whose `hsm` field is set can write `super->hsm->next_state`.
abbrev pub redirect : State → State → ℕ → M ℕ
redirect s target result m =
    if m.attached s then done result (record m { next_state = target }) else fault

abbrev pub answer : State → Reply → M ℕ
answer s (status n) = pure n
answer s (up p) = redirect s p evt_super
answer s (tran p) = redirect s p evt_tran

abbrev pub note : Action → Option ℕ → M ℕ
note a none = crash
note a (some result) = λ m. done result (record m { log = m.log ++ (a ∷ []) })

-- `path[i]` and `path[i] = s`
pub load : List State → ℕ → M State
load path i = elim (get_elem? path i) [ none ↦ crash | some s ↦ pure s ]

pub store : List State → ℕ → State → M (List State)
store path i s = if ltb i (length path) then pure (set path i s) else crash

-- hsm_root_handler: the root ignores every event.
pub reply_of : Chart → State → ℕ → Reply
reply_of c s sig = if s == root then status evt_ignored else c.handler s sig

-- `m_root_state` has NULL actions.
pub entry_of : Chart → State → Option ℕ
entry_of c s = if s == root then none else c.on_entry s

pub exit_of : Chart → State → Option ℕ
exit_of c s = if s == root then none else c.on_exit s

module _ (c : Chart) where
  -- `(s->handler)(s, &event)`
  pub call_handler : State → ℕ → M ℕ
  call_handler s sig = answer s (reply_of c s sig)

  pub get_super_state : State → M ℕ
  get_super_state s = call_handler s empty_sig

  pub run_entry : State → M ℕ
  run_entry s = note (entered s) (entry_of c s)

  pub run_exit : State → M ℕ
  run_exit s = note (exited s) (exit_of c s)

  -- `do { path[ip]->on_entry(path[ip]); --ip; } while (ip >= 0);` with `ip + 1` entries left
  pub enter_path : List State → ℕ → M (Unit {0})
  enter_path path zero = pure tt
  enter_path path (suc ip) = do s ← load path ip; run_entry s; enter_path path ip
