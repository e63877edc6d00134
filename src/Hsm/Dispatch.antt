-- ===== src/Hsm/Dispatch.antt =====
-- glb_hsm_dispatch.
use general_purpose_library.Prelude.{ℕ, zero, suc, ◌+◌, List, ◌==◌, leb, if◌then◌else◌}
use general_purpose_library.Hsm.{
  State, evt_super, evt_handled, evt_tran, Chart, no_fuel, M, pure, and_then, ◌>>=◌, ◌>>◌, get_next,
  set_next, set_cur, load, store, call_handler, get_super_state, run_exit, enter_path,
}
use general_purpose_library.Hsm.Transition.{hsm_tran}

module _ (c : Chart) where
  -- `do { … } while (status == EVT_STATUS_SUPER);`: the last state asked, and the status.
  unfoldable pub process : ℕ → ℕ → M (State × ℕ)
  process zero sig = λ _. no_fuel
  process (suc fuel) sig = do
    s ← get_next
    first ← call_handler c s sig
    result ← (if first == evt_handled then get_super_state c s else pure first)
    if result == evt_super then process fuel sig else pure (s, result)

  -- `for (; next_state != cur_state; next_state = hsm->next_state)`
  unfoldable pub exit_to : ℕ → State → State → M (Unit {0})
  exit_to zero s stop = λ _. no_fuel
  exit_to (suc fuel) s stop = if s == stop then pure tt else (do
    result ← run_exit c s
    if result == evt_handled then get_super_state c s else pure 0
    n ← get_next
    exit_to fuel n stop)

  -- `while (hsm->next_state != next_state)`
  unfoldable pub drill : ℕ → State → ℕ → List State → M (ℕ × List State)
  unfolding store
  drill zero target ip path = λ _. no_fuel
  drill (suc fuel) target ip path = do
    n ← get_next
    if n == target then pure (ip, path) else (do
      path' ← store path (ip + 1) n
      get_super_state c n
      drill fuel target (ip + 1) path')

  -- the last part of a transition, once `new` is the next state: record a path, and enter it
  unfoldable pub arrive : ℕ → List State → State → M State
  unfolding store load
  arrive fuel path new = do
    set_next new
    path' ← store path 0 new
    get_super_state c new
    (ip, path'') ← drill fuel new 0 path'
    first ← load path'' 0
    set_next first
    enter_path c path'' (ip + 1)
    load path'' 0

  -- the part under `status >= EVT_STATUS_TRAN`; the result is the new `next_state`
  unfoldable pub take_transition : ℕ → List State → State → State → M State
  unfolding store load
  take_transition fuel stack source cur = do
    target ← get_next
    path₀ ← store stack 0 target
    path₁ ← store path₀ 1 source
    path₂ ← store path₁ 2 cur
    exit_to fuel source cur
    (entries, path) ← hsm_tran c fuel path₂
    enter_path c path entries
    new ← load path 0
    arrive fuel path new

  -- after the loop: `cur` is the state that was current when the event came
  unfoldable pub settle : ℕ → List State → State → State × ℕ → M (Unit {0})
  settle fuel stack cur (s, result) = do
    new ← (if leb evt_tran result then take_transition fuel stack s cur else pure s)
    set_cur new
    set_next new

  unfoldable pub glb_hsm_dispatch : ℕ → List State → ℕ → M (Unit {0})
  glb_hsm_dispatch fuel stack sig m = and_then (process fuel sig m) (settle fuel stack m.cur_state)
