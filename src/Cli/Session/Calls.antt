-- ===== src/Cli/Session/Calls.antt =====
-- Which calls of the daemon a user's commands amount to.
pub mod Refined
use raag.Prelude.{
  not, ◌&&◌, ◌≡◌, refl, sym, ap, ◌∙◌, ℕ, Str, Bool, true, false, List, [], ◌∷◌, ◌++◌, Option, none,
  some, Result, ok, err, All, Bool-cases, Option-cases, inl, inr, arith, if◌then◌else◌,
}
use raag.App.{App}
use raag.Auth.{Crypto}
use raag.Cli
use raag.Cli.{
  Cli, replied, then_do, Fields, Line, Machine, invoke, IsGob, require_daemon, say, always, reads,
  tries,
}
use raag.Cli.Session.{
  Command, Event, types, arrives, cli, session, play, seek, pause, resume, stop, next, previous,
  queue, nowplaying, volume, playlist_create, playlist_delete, playlist_songs, playlist_play,
  playlist_add, playlist_remove, playlist_list, library_list, library_rescan, library_search,
  library_add, library_remove, peers_list, peers_info, status, network_status, network_auth_key,
  peers_connect, peers_disconnect, peers_tracker, peers_bootstrap, share, config_set, config_show,
  config_reset,
}
use raag.Cli.Network.{
  shown_config, said, peers_connect_command, peers_info_command, peers_disconnect_command,
  peers_bootstrap_command, share_command, peers_list_command, peers_tracker_command, status_command,
  network_status_command, network_auth_key_command, config_show_command, config_set_command,
  config_reset_command,
}
use raag.Cli.Playlists.Refused.{playlist_commands_refused}
use raag.Cli.Playback.{
  play_command, pause_command, resume_command, stop_command, next_command, previous_command,
  queue_command, volume_command, seek_command, nowplaying_command,
}
use raag.Cli.Playlists.{
  playlist_create_command, playlist_delete_command, playlist_list_command, playlist_add_command,
  playlist_remove_command,
}
use raag.Cli.Songs.{
  library_rescan_command, library_add_command, library_list_command, library_search_command,
  library_remove_command,
}
use raag.Config.{Value}
use raag.Discovery.{Multiaddrs}
use raag.Discovery.World.{World, Urls}
use raag.Player.{Float}
use raag.Rpc.{Error}
use raag.Rpc.History.{
  Call, plays, pauses, resumes, stops, nexts, previouses, sets_volume, seeks, adds, removes,
  rescans, creates, deletes, adds_to, removes_from, connects, disconnects, updates_tracker,
  adds_bootstrap, shares, step, run,
}
use raag.Song.{Reader}

-- A call, if the daemon can be reached and gets to it before the command gives up.
abbrev pub one : {x : Float} → Machine x → ℕ → Call x → List (Call x)
one m i c = if m.reachable i && not (m.abandoned i) then c ∷ [] else []

abbrev pub one_of : {x : Float} {A : Type 0} → Machine x → Option A → (A → Call x) → List (Call x)
one_of m none c = []
one_of m (some v) c = one m 0 (c v)

-- What each command should ask of the daemon: one call that changes something, for a number that
-- can be read, or nothing. The songs of a playlist are never got.
abbrev pub calls_of : {x : Float} → Command → Machine x → List (Call x)
calls_of (play song) m = one m 0 (plays (m.opening 0) song)
calls_of (seek text) m = one_of m (m.atoi text) (λ n. seeks m.samples m.refused n)
calls_of pause m = one m 0 pauses
calls_of resume m = one m 0 resumes
calls_of stop m = one m 0 stops
calls_of next m = one m 0 (nexts (m.opening 0))
calls_of previous m = one m 0 (previouses (m.opening 0))
calls_of (volume none) m = []
calls_of (volume (some text)) m = one_of m (m.parse_float text) sets_volume
calls_of (playlist_create name) m = one m 0 (creates name)
calls_of (playlist_delete name) m = one m 0 (deletes name)
calls_of (playlist_add name song) m = one m 0 (adds_to name song)
calls_of (playlist_remove name index) m = one_of m (m.atoi index) (removes_from name)
calls_of library_rescan m = one m 0 (rescans m.stat m.walked)
calls_of (library_add path) m = one m 0 (adds path)
calls_of (library_remove title) m = one m 0 (removes title)
calls_of (peers_connect text) m = one m 0 (connects text)
calls_of (peers_disconnect id) m = one m 0 (disconnects id)
calls_of (peers_tracker url) m = one m 0 (updates_tracker url)
calls_of (peers_bootstrap text) m = one m 0 (adds_bootstrap text)
calls_of (share id song) m =
    if m.reachable 0 then one m 1 (shares m.sending m.codec id song) else []
calls_of _ m = []

abbrev pub all_calls : {x : Float} → List (Event x) → List (Call x)
all_calls [] = []
all_calls (types c m ∷ rest) = calls_of c m ++ all_calls rest
all_calls (arrives call ∷ rest) = call ∷ all_calls rest
