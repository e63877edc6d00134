-- ===== src/Hsm/Levels.antt =====
-- The states of level_state.c, level2_state.c and level3_state.c, and the actions of
-- common_level.c, which print and return 0.
use general_purpose_library.Prelude.{ℕ, ◌+◌, Option, some, ◌==◌, ◌||◌, if◌then◌else◌}
use general_purpose_library.Hsm.{
  State, root, evt_unhandle, evt_handled, empty_sig, Reply, status, up, Chart,
}

abbrev pub level1 : State
level1 = 1

abbrev pub level2 : State
level2 = 2

abbrev pub level3 : State
level3 = 3

abbrev pub level_start_sig : ℕ
level_start_sig = empty_sig + 1

abbrev pub level_stop_sig : ℕ
level_stop_sig = level_start_sig + 1

-- the three message handlers, which differ in the superstate
pub msg_handler : State → ℕ → Reply
msg_handler super sig =
    if sig == level_start_sig || sig == level_stop_sig then status evt_handled else up super

pub level_msg_handler : ℕ → Reply
unfolding msg_handler
level_msg_handler sig = msg_handler root sig

pub level2_msg_handler : ℕ → Reply
unfolding msg_handler
level2_msg_handler sig = msg_handler level1 sig

pub level3_msg_handler : ℕ → Reply
unfolding msg_handler
level3_msg_handler sig = msg_handler level2 sig

pub level_entry : State → Option ℕ
level_entry s = some 0

pub level_exit : State → Option ℕ
level_exit s = some 0

-- `m_level1_state`, `m_level2_state` and `m_level3_state`; other addresses hold no state.
unfoldable pub levels : Chart
unfolding msg_handler level_msg_handler level2_msg_handler level3_msg_handler level_entry level_exit
levels = record {
  handler = λ s sig.
      if s == level1
      then level_msg_handler sig
      else if s == level2
      then level2_msg_handler sig
      else if s == level3
      then level3_msg_handler sig
      else status evt_unhandle;
  on_entry = level_entry;
  on_exit = level_exit;
}
