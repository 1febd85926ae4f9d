-- ===== src/Tui/Update.antt =====
-- internal/tui/tui.go: how the terminal interface answers messages. The state of the daemon, behind
-- its client, is passed on. `state` is never nil: it starts as a value and only values replace it.
use raag.Prelude.{
  ℕ, suc, ◌-◌, Str, codes, Bool, true, false, ◌&&◌, not, List, [], ◌∷◌, ◌++◌, Option, none, some,
  ltb, get_elem?, is_some, if◌then◌else◌,
}
use raag.Prelude.Int.{ℤ, pos, negsuc}
use raag.Discovery.Status.{NetworkState}
use raag.Player.{Float}
use raag.Rpc.{LibrarySong}
use raag.Rpc.Overview.{FullStateResult}
use raag.Rpc.Peers.{StatusResult}
use raag.Rpc.Playback.{NowPlayingResult}
use raag.Tui.{Binding, Bubbles, KeyMap, View, match_any, default_key_map}

-- The calls of the daemon that keys make.
pub data Action : Type 0 where
  plays : Str → Action
  pauses resumes nexts previouses : Action
  sets_volume : ℤ → Action

-- The daemon as the client sees it: what a call makes of it, and whether the call returned without
-- an error in time.
pub record Client : Type 1 where
  pub Daemon : Type 0
  pub call : Action → Daemon → Daemon × Bool

-- A command for the event loop; nil is the empty list and a batch is the list of its parts.
pub data Cmd : Type 0 where
  quits types fetches_state fetches_player_state ticks : Cmd

pub record DaemonState (x : Float) : Type 0 where
  pub now_playing : Option (NowPlayingResult x)
  pub library : Option (List LibrarySong)
  pub network : Option NetworkState
  pub status : Option StatusResult

pub data Msg (x : Float) : Type 0 where
  key : Str → Msg x
  tick other : Msg x
  state_update : Option (DaemonState x) → Msg x

pub record Model (b : Bubbles) (x : Float) : Type 0 where
  pub keys : KeyMap
  pub search_input : b.Input
  pub state : DaemonState x
  pub current_view : View
  pub selected_idx : ℕ
  pub needs_refresh : Bool

abbrev pub no_state : {x : Float} → DaemonState x
no_state = record { now_playing = none; library = none; network = none; status = none }

abbrev pub is_player : View → Bool
is_player View.player = true
is_player _ = false

abbrev pub is_library : View → Bool
is_library View.library = true
is_library _ = false

abbrev is_sounding : {x : Float} → Option (NowPlayingResult x) → Bool
is_sounding none = false
is_sounding (some np) = np.playing

unfoldable pub view_after : View → View
view_after View.player = View.library
view_after View.library = View.playlist
view_after View.playlist = View.peers
view_after View.peers = View.player
view_after View.help = View.player

unfoldable pub new_model : (b : Bubbles) (x : Float) → Model b x
new_model b x = record {
  keys = default_key_map;
  search_input = b.with_prompt (codes "Search library...") (codes "/ ") b.new_input;
  state = no_state;
  current_view = View.player;
  selected_idx = 0;
  needs_refresh = false;
}

abbrev pub init : List Cmd
init = fetches_state ∷ (ticks ∷ [])

-- What a fetch sends to the loop: nil, or the state, with the library or without.
unfoldable pub fetch_state : {x : Float} → Option (FullStateResult x) → Msg x
fetch_state none = other
fetch_state (some fs) = state_update (
    some (record {
      now_playing = fs.now_playing;
      library = fs.library;
      network = fs.network;
      status = fs.status;
    }))

unfoldable pub fetch_player_state : {x : Float} → Option (FullStateResult x) → Msg x
fetch_player_state none = other
fetch_player_state (some fs) = state_update (
    some (record {
      now_playing = fs.now_playing;
      library = none;
      network = fs.network;
      status = fs.status;
    }))

module _ {b : Bubbles} {x : Float} where
  abbrev pub in_view : View → Model b x → Model b x
  in_view v m = record m { current_view = v }

  abbrev pub at_top : View → Model b x → Model b x
  at_top v m = record m { current_view = v; selected_idx = 0 }

  unfoldable pub next_view : Model b x → Model b x
  unfolding view_after
  next_view m = at_top (view_after m.current_view) m

  abbrev pub blurred : Model b x → Model b x
  blurred m = record m { search_input = b.blur m.search_input }

  abbrev pub unanswered : Model b x → Model b x
  unanswered m = record m { state = record m.state { status = none } }

  -- Whether a key goes to the text field.
  unfoldable pub is_typed : Str → Model b x → Bool
  is_typed k m =
      is_library m.current_view
      && b.focused m.search_input
      && not (
          is_some (
            match_any b k
              (m.keys.enter ∷ (m.keys.up ∷ (m.keys.down ∷ (m.keys.tab ∷ (m.keys.quit ∷ [])))))))

module _ {b : Bubbles} {x : Float} (c : Client) where
  open c use {Daemon, call}

  answered : Model b x → Daemon × Bool → Model b x × Daemon × List Cmd
  answered m (d, done) = (if done then m else unanswered m, d, fetches_player_state ∷ [])

  unfoldable pub execute_action : Action → Model b x → Daemon → Model b x × Daemon × List Cmd
  unfolding answered
  execute_action a m d = answered m (call a d)

  -- Enter in the library: the song at the index in the whole list.
  unfoldable pub play_selected : Model b x → Daemon → Model b x × Daemon × List Cmd
  play_selected m d = elim m.state.library [
    | none ↦ (m, d, [])
    | some songs ↦ elim (get_elem? songs m.selected_idx) [
      | none ↦ (m, d, [])
      | some song ↦ execute_action (plays song.title) m d
    ]
  ]

  -- The keys of the player's view.
  unfoldable pub player_key : Str → Model b x → Daemon → Model b x × Daemon × List Cmd
  player_key k m d =
      let is = λ (ks : Binding). b.key_matches k ks in
      if is m.keys.play_pause
      then execute_action (if is_sounding m.state.now_playing then pauses else resumes) m d
      else if is m.keys.next
      then execute_action nexts m d
      else if is m.keys.prev
      then execute_action previouses m d
      else if is m.keys.vol_up
      then execute_action (sets_volume (pos 5)) m d
      else if is m.keys.vol_down
      then execute_action (sets_volume (negsuc 4)) m d
      else (m, d, [])

  -- The switch over the keys of every view.
  unfoldable pub switch_key : Str → Model b x → Daemon → Model b x × Daemon × List Cmd
  switch_key k m d =
      let is = λ (ks : Binding). b.key_matches k ks in
      if is m.keys.quit
      then (if is_player m.current_view
          then (m, d, quits ∷ [])
          else (blurred (in_view View.player m), d, []))
      else if is m.keys.tab
      then (next_view m, d, [])
      else if is m.keys.view_player
      then (at_top View.player m, d, [])
      else if is m.keys.view_library
      then (at_top View.library m, d, [])
      else if is m.keys.view_playlist
      then (at_top View.playlist m, d, [])
      else if is m.keys.view_peers
      then (at_top View.peers m, d, [])
      else if is m.keys.help
      then (blurred (in_view View.help m), d, [])
      else if is m.keys.search_key && is_library m.current_view
      then (record m { search_input = b.set_value [] (b.focus m.search_input) }, d, [])
      else if is m.keys.up && ltb 0 m.selected_idx
      then (record m { selected_idx = m.selected_idx - 1 }, d, [])
      else if is m.keys.down
      then (record m { selected_idx = suc m.selected_idx }, d, [])
      else if is m.keys.enter && is_library m.current_view
      then play_selected m d
      else if is_player m.current_view
      then player_key k m d
      else (m, d, [])

  unfoldable pub handle_key : Str → Model b x → Daemon → Model b x × Daemon × List Cmd
  handle_key k m d =
      if is_typed k m
      then (record m { search_input = b.type_key k m.search_input }, d, types ∷ [])
      else switch_key k m d

  unfoldable pub update : Msg x → Model b x → Daemon → Model b x × Daemon × List Cmd
  update (key k) m d = handle_key k (record m { needs_refresh = true }) d
  update tick m d =
      if m.needs_refresh
      then (
        record m { needs_refresh = false },
        d,
        (if is_library m.current_view then fetches_state else fetches_player_state) ∷ (ticks ∷ []),
      )
      else (m, d, ticks ∷ [])
  update (state_update none) m d = (m, d, [])
  update (state_update (some s)) m d = (record m { state = s }, d, [])
  update other m d = (m, d, [])

  -- The messages one after the other, with the commands that they lead to.
  unfoldable pub run : List (Msg x) → Model b x → Daemon → Model b x × Daemon × List Cmd
  run [] m d = (m, d, [])
  run (msg ∷ msgs) m d =
      let (m', d', cmds) = update msg m d in
      let (m'', d'', rest) = run msgs m' d' in (m'', d'', cmds ++ rest)
