-- ===== src/Hsm/Transition.antt =====
-- hsm_tran: from the source `path[2]` to the target `path[0]`. An index `ip` of the C code, which
-- starts at -1, is kept as the number `ip + 1` of entries of `path` that are still to be entered.
use general_purpose_library.Prelude.{
  ℕ, zero, suc, ◌+◌, Bool, true, false, Option, none, some, List, ◌==◌, ltb, if◌then◌else◌,
}
use general_purpose_library.Hsm.{
  State, max_nest_depth, evt_super, evt_handled, Chart, halted, no_fuel, M, pure, ◌>>=◌, ◌>>◌,
  get_next, load, store, get_super_state, run_exit,
}

-- `do { if (t == path[iq]) { ip = iq - 1; iq = -1; } else --iq; } while (iq >= 0);` with `iq + 1`
-- entries left: the number of entries above the least common ancestor, if `t` is in the path.
unfoldable pub find_in_path : State → List State → ℕ → M (Option ℕ)
unfolding load
find_in_path t path zero = pure none
find_in_path t path (suc iq) = do
  s ← load path iq
  if t == s then pure (some iq) else find_in_path t path iq

-- What the loop of (e) leaves: whether the source was found, `ip + 1` and the path.
abbrev pub Search : Type 0
Search = Bool × ℕ × List State

module _ (c : Chart) where
  -- (e) `while (status == EVT_STATUS_SUPER)`: the superstates of the target, until the source.
  unfoldable pub search_source : ℕ → State → ℕ → ℕ → List State → M Search
  unfolding store
  search_source zero s result ip path = λ _. no_fuel
  search_source (suc fuel) s result ip path =
      if result == evt_super
      then (do
        n ← get_next
        path' ← store path (ip + 1) n
        if n == s
            then (if ltb max_nest_depth (ip + 1) then (λ _. halted) else pure (true, ip + 1, path'))
            else (do result' ← get_super_state c n; search_source fuel s result' (ip + 1) path'))
      else pure (false, ip + 1, path)

  -- (g) the superstates of the source, exited one by one until one is in the path
  unfoldable pub exit_up : ℕ → State → List State → ℕ → M ℕ
  exit_up zero t path entries = λ _. no_fuel
  exit_up (suc fuel) t path entries = do
    result ← run_exit c t
    if result == evt_handled then get_super_state c t else pure 0
    t' ← get_next
    found ← find_in_path t' path entries
    elim found [ some above ↦ pure above | none ↦ exit_up fuel t' path entries ]

  -- (f) and (g), once the source `s` is not above the target; `t` is the superstate of `s`.
  unfoldable pub exit_source : ℕ → State → State → List State → ℕ → M ℕ
  exit_source fuel s t path entries =
      if ltb (max_nest_depth + 1) entries then (λ _. halted) else (do
        run_exit c s
        found ← find_in_path t path entries
        elim found [ some above ↦ pure above | none ↦ exit_up fuel t path entries ])

  -- (e), (f) and (g): `t` is the superstate of the target, and that of the source is known.
  unfoldable pub far_transition : ℕ → State → State → List State → M (ℕ × List State)
  unfolding load store
  far_transition fuel s t path = do
    path' ← store path 1 t
    t' ← get_next
    first ← load path' 1
    result ← get_super_state c first
    (found, entries, path'') ← search_source fuel s result 1 path'
    if found
        then pure (entries, path'')
        else (do above ← exit_source fuel s t' path'' entries; pure (above, path''))

  -- The number of entries of the path that are to be entered, and the path.
  unfoldable pub hsm_tran : ℕ → List State → M (ℕ × List State)
  unfolding load
  hsm_tran fuel path = do
    t ← load path 0
    s ← load path 2
    if s == t then (do run_exit c s; pure (1, path)) else (do
      get_super_state c t
      t' ← get_next
      if s == t' then pure (1, path) else (do
        get_super_state c s
        u ← get_next
        if u == t' then (do run_exit c s; pure (1, path)) else (do
          if u == t then (do run_exit c s; pure (0, path)) else far_transition fuel s t' path)))
