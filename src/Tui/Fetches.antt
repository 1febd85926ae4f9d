-- ===== src/Tui/Fetches.antt =====
-- How often the terminal interface fetches the daemon's state.
use raag.Prelude.{
  ℕ, ◌+◌, ◌*◌, ◌≤◌, ◌≡◌, Str, Bool, true, false, none, some, List, [], ◌∷◌, ◌++◌, arith,
  if◌then◌else◌,
}
use raag.Player.{Float}
use raag.Tui.{Bubbles}
use raag.Tui.Update.{
  Action, Client, Cmd, Model, Msg, key, tick, other, state_update, new_model, init, handle_key,
  update, run, switch_key, player_key, play_selected, execute_action, next_view, fetches_state,
  fetches_player_state,
}

abbrev pub is_fetch : Cmd → Bool
is_fetch fetches_state = true
is_fetch fetches_player_state = true
is_fetch _ = false

-- How many of the commands fetch.
abbrev pub fetches : List Cmd → ℕ
fetches [] = 0
fetches (cmd ∷ cmds) = (if is_fetch cmd then 1 else 0) + fetches cmds

abbrev pub keys : {x : Float} → List (Msg x) → ℕ
keys [] = 0
keys (key k ∷ msgs) = 1 + keys msgs
keys (tick ∷ msgs) = keys msgs
keys (other ∷ msgs) = keys msgs
keys (state_update s ∷ msgs) = keys msgs

-- A fetch that is due at the next tick.
abbrev due : Bool → ℕ
due true = 1
due false = 0

fetches-append : (xs ys : List Cmd) → fetches (xs ++ ys) ≡ fetches xs + fetches ys
fetches-append [] ys = omega arith
fetches-append (cmd ∷ xs) ys = ground (arith, fetches-append xs ys)

keys_cons :
    {x : Float} (msg : Msg x) (msgs : List (Msg x))
    → keys (msg ∷ msgs) ≡ keys (msg ∷ []) + keys msgs
keys_cons (key k) msgs = omega arith
keys_cons tick msgs = omega arith
keys_cons other msgs = omega arith
keys_cons (state_update s) msgs = omega arith

module _ {b : Bubbles} {x : Float} (c : Client) where
  open c use {Daemon}

  execute_action-fetches :
      (a : Action) (m : Model b x) (d : Daemon)
      → let (m', _, cmds) = execute_action c a m d in
        (m'.needs_refresh ≡ m.needs_refresh) × (fetches cmds ≤ 1)
  unfolding execute_action
  execute_action-fetches a m d = ground arith

  play_selected-fetches :
      (m : Model b x) (d : Daemon)
      → let (m', _, cmds) = play_selected c m d in
        (m'.needs_refresh ≡ m.needs_refresh) × (fetches cmds ≤ 1)
  unfolding play_selected execute_action
  play_selected-fetches m d = ground arith

  player_key-fetches :
      (k : Str) (m : Model b x) (d : Daemon)
      → let (m', _, cmds) = player_key c k m d in
        (m'.needs_refresh ≡ m.needs_refresh) × (fetches cmds ≤ 1)
  unfolding player_key execute_action
  player_key-fetches k m d = ground arith

  switch_key-fetches :
      (k : Str) (m : Model b x) (d : Daemon)
      → let (m', _, cmds) = switch_key c k m d in
        (m'.needs_refresh ≡ m.needs_refresh) × (fetches cmds ≤ 1)
  unfolding switch_key next_view
  switch_key-fetches k m d = ground (arith, play_selected-fetches m d, player_key-fetches k m d)

  update-fetches :
      (msg : Msg x) (m : Model b x) (d : Daemon)
      → let (m', _, cmds) = update c msg m d in
        fetches cmds + due m'.needs_refresh ≤ due m.needs_refresh + 2 * keys (msg ∷ [])
  unfolding update handle_key
  update-fetches (key k) m d =
      ground (arith, switch_key-fetches k (record m { needs_refresh = true }) d)
  update-fetches tick m d = ground arith
  update-fetches other m d = ground arith
  update-fetches (state_update none) m d = ground arith
  update-fetches (state_update (some s)) m d = ground arith

  run-fetches :
      (msgs : List (Msg x)) (m : Model b x) (d : Daemon)
      → let (m', _, cmds) = run c msgs m d in
        fetches cmds + due m'.needs_refresh ≤ due m.needs_refresh + 2 * keys msgs
  unfolding run
  run-fetches [] m d = ground arith
  run-fetches (msg ∷ msgs) m d =
      let (m', d', cmds) = update c msg m d in
      omega (
        arith,
        update-fetches msg m d,
        run-fetches msgs m' d',
        keys_cons msg msgs,
        fetches-append cmds (run c msgs m' d').2,
      )

module _ (b : Bubbles) (x : Float) (c : Client) where
  -- From the start, whatever messages come in, the state is fetched at most twice for each key that
  -- was pressed, beside the first fetch.
  pub fetches_bounded :
      (msgs : List (Msg x)) (d : c.Daemon)
      → fetches (init ++ (run c msgs (new_model b x) d).2) ≤ 1 + 2 * keys msgs
  unfolding new_model
  fetches_bounded msgs d = omega (
    arith,
    run-fetches c msgs (new_model b x) d,
    fetches-append init (run c msgs (new_model b x) d).2,
  )
