-- ===== src/Rpc/History.antt =====
-- Whatever clients ask of the daemon.
pub mod Healthy
use mathlib.Core.Path.{subst}
use raag.Prelude.{
  ℕ, ◌≡◌, sym, Str, Bool, List, [], ◌∷◌, ok, arith, Option-cases, Result-cases, inl, inr, to_lower,
  is_ok,
}
use raag.Prelude.Int.{ℤ}
use raag.Prelude.Dict.{has}
use raag.Auth.{Crypto}
use raag.App.{App, Startup, new_app}
use raag.App.Started.{started-InQueue, started-IsGood}
use raag.Config.{Config}
use raag.Discovery.{Multiaddrs}
use raag.Discovery.World.{World, Urls}
use raag.Song.{Song, Reader}
use raag.Library.{Stat, Walked, find_song, scan_music_library}
use raag.Library.Index.{
  TitlesByHash, IsGood, index_of, scan-IsGood, add-IsGood, remove-IsGood, find_song-IsGood,
}
use raag.Network.Share.{Sending}
use raag.Network.Transfer.{Codec}
use raag.Player.{Float, Opening, get_current_song, add_to_queue}
use raag.Player.Queue
use raag.Player.Queue.{InQueue, IsSafe, step-IsSafe}
use raag.Player.Volume.{set_volume}
use raag.Player.Seek.{seek}
use raag.Rpc.Playback.{
  play_song, pause_playback, resume_playback, stop_playback, next_song, previous_song, set_level,
  seek_to,
}
use raag.Rpc.Songs.{
  library_add, library_remove, library_rescan, playlist_create, playlist_delete, playlist_add,
  playlist_remove,
}
use raag.Rpc.Peers.{connect_peer, disconnect_peer, update_tracker_to, add_bootstrap_addr, share}

-- The calls that change something, with what the machine answers.
pub data Call (x : Float) : Type 0 where
  plays : Opening → Str → Call x
  pauses resumes stops : Call x
  nexts previouses : Opening → Call x
  sets_volume : x.F → Call x
  seeks : (ℕ → ℤ → ℤ) → Bool → ℤ → Call x
  adds removes : Str → Call x
  rescans : Stat → List Walked → Call x
  creates deletes : Str → Call x
  adds_to : Str → Str → Call x
  removes_from : Str → ℤ → Call x
  connects disconnects updates_tracker adds_bootstrap : Str → Call x
  shares : Sending → Codec → Str → Str → Call x

module _ {x : Float} {w : World} {k : Crypto} (r : Reader) (u : Urls) (m : Multiaddrs) where
  unfoldable pub step : Call x → App x w k → App x w k
  step (plays o title) a = (play_song o title a).0
  step pauses a = pause_playback a
  step resumes a = resume_playback a
  step stops a = stop_playback a
  step (nexts o) a = (next_song o a).0
  step (previouses o) a = (previous_song o a).0
  step (sets_volume level) a = (set_level level a).0
  step (seeks samples refused seconds) a = (seek_to samples refused seconds a).0
  step (adds path) a = (library_add r path a).0
  step (removes title) a = (library_remove title a).0
  step (rescans stat ws) a = (library_rescan r stat ws a).0
  step (creates name) a = (playlist_create name a).0
  step (deletes name) a = (playlist_delete name a).0
  step (adds_to name title) a = (playlist_add name title a).0
  step (removes_from name index) a = (playlist_remove name index a).0
  step (connects text) a = (connect_peer u m text a).0
  step (disconnects text) a = (disconnect_peer m text a).0
  step (updates_tracker url) a = update_tracker_to url a
  step (adds_bootstrap text) a = (add_bootstrap_addr m text a).0
  step (shares s c id title) a = (share m s c id title a).0

  unfoldable pub run : List (Call x) → App x w k → App x w k
  unfolding step
  run [] a = a
  run (c ∷ cs) a = run cs (step c a)
