-- ===== src/Tui/Keys.antt =====
-- The keys of the terminal interface stay the default ones.
use raag.Prelude.{◌≡◌, refl, ap, ◌∙◌, Str, true, none, some, List, [], ◌∷◌, arith}
use raag.Prelude.Sort.{elem}
use raag.Player.{Float}
use raag.Tui.{Binding, Bubbles, IsBubbles, KeyMap, default_key_map}
use raag.Tui.Update
use raag.Tui.Update.{
  Cmd, quits, blurred, in_view, is_player, Client, Model, Msg, key, tick, other, state_update,
  new_model, is_typed, handle_key, update, run, execute_action, switch_key, player_key,
  play_selected, next_view,
}

module _ (b : Bubbles) (x : Float) where
  new_model-keys : (new_model b x).keys ≡ default_key_map
  unfolding new_model
  new_model-keys = refl

module _ {b : Bubbles} (i : IsBubbles b) {x : Float} where
  -- Which keys a binding matches.
  pub key_is :
      (binding : KeyMap → Binding) (k : Str) (m : Model b x)
      → m.keys ≡ default_key_map
      → b.key_matches k (binding m.keys) ≡ elem k (binding default_key_map)
  key_is binding k m e =
      ap (λ ks. b.key_matches k (binding ks)) e ∙ i.matches_iff k (binding default_key_map)

module _ {b : Bubbles} {x : Float} (c : Client) where
  open c use {Daemon}

  execute_action-keys :
      (a : Update.Action) (m : Model b x) (d : Daemon) → (execute_action c a m d).0.keys ≡ m.keys
  unfolding execute_action
  execute_action-keys a m d = ground arith

  play_selected-keys : (m : Model b x) (d : Daemon) → (play_selected c m d).0.keys ≡ m.keys
  unfolding play_selected execute_action
  play_selected-keys m d = ground arith

  player_key-keys : (k : Str) (m : Model b x) (d : Daemon) → (player_key c k m d).0.keys ≡ m.keys
  unfolding player_key execute_action
  player_key-keys k m d = ground arith

  switch_key-keys : (k : Str) (m : Model b x) (d : Daemon) → (switch_key c k m d).0.keys ≡ m.keys
  unfolding switch_key next_view
  switch_key-keys k m d = ground (arith, play_selected-keys m d, player_key-keys k m d)

  update-keys : (msg : Msg x) (m : Model b x) (d : Daemon) → (update c msg m d).0.keys ≡ m.keys
  unfolding update handle_key
  update-keys (key k) m d = ground (arith, switch_key-keys k (record m { needs_refresh = true }) d)
  update-keys tick m d = ground arith
  update-keys other m d = refl
  update-keys (state_update none) m d = refl
  update-keys (state_update (some s)) m d = refl

  pub run-keys :
      (msgs : List (Msg x)) (m : Model b x) (d : Daemon) → (run c msgs m d).0.keys ≡ m.keys
  unfolding run
  run-keys [] m d = refl
  run-keys (msg ∷ msgs) m d =
      run-keys msgs (update c msg m d).0 (update c msg m d).1 ∙ update-keys msg m d

module _ (b : Bubbles) (x : Float) (c : Client) where
  -- After any messages since the start.
  pub after-keys :
      (msgs : List (Msg x)) (d : c.Daemon) → (run c msgs (new_model b x) d).0.keys ≡ default_key_map
  after-keys msgs d = run-keys c msgs (new_model b x) d ∙ new_model-keys b x
