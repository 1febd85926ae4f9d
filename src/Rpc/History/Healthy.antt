-- ===== src/Rpc/History/Healthy.antt =====
-- What holds of the daemon whatever clients ask of it, one call after the other.
use mathlib.Core.Path.{subst}
use raag.Prelude.{
  ℕ, ◌≡◌, sym, Str, Bool, List, [], ◌∷◌, ok, arith, Option-cases, Result-cases, inl, inr, to_lower,
  is_ok,
}
use raag.Prelude.Int.{ℤ}
use raag.Prelude.Dict.{has}
use raag.Auth.{Crypto}
use raag.App.{App, Startup, new_app}
use raag.App.Started.{started-InQueue, started-IsGood}
use raag.Config.{Config}
use raag.Discovery.{Multiaddrs}
use raag.Discovery.World.{World, Urls}
use raag.Song.{Song, Reader}
use raag.Library.{Stat, Walked, find_song, scan_music_library}
use raag.Library.Index.{
  TitlesByHash, IsGood, index_of, scan-IsGood, add-IsGood, remove-IsGood, find_song-IsGood,
}
use raag.Network.Share.{Sending}
use raag.Network.Transfer.{Codec}
use raag.Player.{Float, Opening, get_current_song, add_to_queue}
use raag.Player.Queue
use raag.Player.Queue.{InQueue, IsSafe, step-IsSafe}
use raag.Player.Volume.{set_volume}
use raag.Player.Seek.{seek}
use raag.Rpc.Playback.{
  play_song, pause_playback, resume_playback, stop_playback, next_song, previous_song, set_level,
  seek_to,
}
use raag.Rpc.Songs.{
  library_add, library_remove, library_rescan, playlist_create, playlist_delete, playlist_add,
  playlist_remove,
}
use raag.Rpc.Peers.{connect_peer, disconnect_peer, update_tracker_to, add_bootstrap_addr, share}
use raag.Rpc.History.{
  Call, plays, pauses, resumes, stops, nexts, previouses, sets_volume, seeks, adds, removes,
  rescans, creates, deletes, adds_to, removes_from, connects, disconnects, updates_tracker,
  adds_bootstrap, shares, step, run,
}

module _ {x : Float} {w : World} {k : Crypto} (r : Reader) (u : Urls) (m : Multiaddrs) where
  module _ (title_of : Str → Str) (faithful : TitlesByHash r title_of) where
    pub record IsHealthy (a : App x w k) : Type 0 where
      pub in_queue : InQueue a.player
      pub library_good : IsGood title_of r faithful a.lib

    plays-InQueue :
        (o : Opening) (title : Str) (a : App x w k)
        → InQueue a.player
        → InQueue (play_song o title a).0.player
    unfolding play_song Queue.step
    plays-InQueue o title a h = elim (Result-cases (find_song title a.lib)) [
      | inr (e, f) ↦ rw (f, play_song) h
      | inl (song, f) ↦
          let p = add_to_queue song a.player in
          let added = (step-IsSafe (Queue.adds song) a.player h).in_queue in
          elim (Option-cases (get_current_song p)) [
            | inl g ↦ rw (f, g, play_song) (step-IsSafe (Queue.plays_queue o) p added).in_queue
            | inr (current, g) ↦ rw (f, g, play_song) added
          ]
    ]

    set_volume-InQueue :
        (level : x.F) (a : App x w k) → InQueue a.player → InQueue (set_level level a).0.player
    unfolding set_level set_volume
    set_volume-InQueue level a h = ground (arith, h)

    seek-InQueue :
        (samples : ℕ → ℤ → ℤ) (refused : Bool) (seconds : ℤ) (a : App x w k)
        → InQueue a.player
        → InQueue (seek_to samples refused seconds a).0.player
    unfolding seek_to seek
    seek-InQueue samples refused seconds a h = ground (arith, h)

    step-InQueue : (c : Call x) (a : App x w k) → InQueue a.player → InQueue (step r u m c a).player
    unfolding step Queue.step pause_playback resume_playback stop_playback next_song previous_song
        library_add library_remove library_rescan playlist_create playlist_delete playlist_add
        playlist_remove connect_peer disconnect_peer update_tracker_to add_bootstrap_addr share
    step-InQueue (plays o title) a h = plays-InQueue o title a h
    step-InQueue pauses a h = (step-IsSafe Queue.pauses a.player h).in_queue
    step-InQueue resumes a h = (step-IsSafe Queue.resumes a.player h).in_queue
    step-InQueue stops a h = (step-IsSafe Queue.stops a.player h).in_queue
    step-InQueue (nexts o) a h = (step-IsSafe (Queue.nexts o) a.player h).in_queue
    step-InQueue (previouses o) a h = (step-IsSafe (Queue.previouses o) a.player h).in_queue
    step-InQueue (sets_volume level) a h = set_volume-InQueue level a h
    step-InQueue (seeks samples refused seconds) a h = seek-InQueue samples refused seconds a h
    step-InQueue (adds path) a h = h
    step-InQueue (removes title) a h = h
    step-InQueue (rescans stat ws) a h = ground (arith, h)
    step-InQueue (creates name) a h = h
    step-InQueue (deletes name) a h = h
    step-InQueue (adds_to name title) a h = ground (arith, h)
    step-InQueue (removes_from name index) a h = h
    step-InQueue (connects text) a h = ground (arith, h)
    step-InQueue (disconnects text) a h = ground (arith, h)
    step-InQueue (updates_tracker url) a h = h
    step-InQueue (adds_bootstrap text) a h = h
    step-InQueue (shares s c id title) a h = ground (arith, h)

    -- The calls that leave the library as it is.
    plays-lib : (o : Opening) (title : Str) (a : App x w k) → (play_song o title a).0.lib ≡ a.lib
    unfolding play_song
    plays-lib o title a = ground arith

    adds_to-lib : (name title : Str) (a : App x w k) → (playlist_add name title a).0.lib ≡ a.lib
    unfolding playlist_add
    adds_to-lib name title a = ground arith

    connects-lib : (text : Str) (a : App x w k) → (connect_peer u m text a).0.lib ≡ a.lib
    unfolding connect_peer
    connects-lib text a = ground arith

    disconnects-lib : (text : Str) (a : App x w k) → (disconnect_peer m text a).0.lib ≡ a.lib
    unfolding disconnect_peer
    disconnects-lib text a = ground arith

    shares-lib :
        (s : Sending) (c : Codec) (id title : Str) (a : App x w k)
        → (share m s c id title a).0.lib ≡ a.lib
    unfolding share
    shares-lib s c id title a = ground arith

    rescans-lib :
        (stat : Stat) (ws : List Walked) (a : App x w k)
        → (library_rescan r stat ws a).0.lib ≡ (scan_music_library r stat ws a.lib).0
    unfolding library_rescan
    rescans-lib stat ws a = ground arith

    step-IsGood :
        (c : Call x) (a : App x w k)
        → IsGood title_of r faithful a.lib
        → IsGood title_of r faithful (step r u m c a).lib
    unfolding step play_song pause_playback resume_playback stop_playback next_song previous_song
        set_level seek_to library_add library_remove library_rescan playlist_create playlist_delete
        playlist_add playlist_remove connect_peer disconnect_peer update_tracker_to
        add_bootstrap_addr share
    step-IsGood (plays o title) a v =
        subst (IsGood title_of r faithful) (sym (plays-lib o title a)) v
    step-IsGood pauses a v = v
    step-IsGood resumes a v = v
    step-IsGood stops a v = v
    step-IsGood (nexts o) a v = v
    step-IsGood (previouses o) a v = v
    step-IsGood (sets_volume level) a v = v
    step-IsGood (seeks samples refused seconds) a v = v
    step-IsGood (adds path) a v = add-IsGood title_of r faithful path a.lib v
    step-IsGood (removes title) a v = remove-IsGood title_of r faithful title a.lib v
    step-IsGood (rescans stat ws) a v =
        subst (IsGood title_of r faithful) (sym (rescans-lib stat ws a))
          (scan-IsGood title_of r faithful stat ws a.lib v)
    step-IsGood (creates name) a v = v
    step-IsGood (deletes name) a v = v
    step-IsGood (adds_to name title) a v =
        subst (IsGood title_of r faithful) (sym (adds_to-lib name title a)) v
    step-IsGood (removes_from name index) a v = v
    step-IsGood (connects text) a v =
        subst (IsGood title_of r faithful) (sym (connects-lib text a)) v
    step-IsGood (disconnects text) a v =
        subst (IsGood title_of r faithful) (sym (disconnects-lib text a)) v
    step-IsGood (updates_tracker url) a v = v
    step-IsGood (adds_bootstrap text) a v = v
    step-IsGood (shares s c id title) a v =
        subst (IsGood title_of r faithful) (sym (shares-lib s c id title a)) v

    step-IsHealthy : (c : Call x) (a : App x w k) → IsHealthy a → IsHealthy (step r u m c a)
    step-IsHealthy c a v = record {
      in_queue = step-InQueue c a v.in_queue;
      library_good = step-IsGood c a v.library_good;
    }

    run-IsHealthy : (cs : List (Call x)) (a : App x w k) → IsHealthy a → IsHealthy (run r u m cs a)
    unfolding run
    run-IsHealthy [] a v = v
    run-IsHealthy (c ∷ cs) a v = run-IsHealthy cs (step r u m c a) (step-IsHealthy c a v)

    healthy_after :
        (cs : List (Call x)) (a : App x w k) (title : Str)
        → IsHealthy a
        → let l = (run r u m cs a).lib in
          InQueue (run r u m cs a).player
          × ((song : Song) → find_song title l ≡ ok song → to_lower song.title ≡ to_lower title)
          × (is_ok (find_song title l) ≡ has (to_lower title) (index_of l))
    healthy_after cs a title v =
        let after = run-IsHealthy cs a v in
        let found =
          find_song-IsGood title_of r faithful title (run r u m cs a).lib after.library_good in
        (after.in_queue, found.0, found.1)

    -- Whatever clients ask of a daemon that has started, one call after the other, with the file
    -- system answering every call alike: the player's index is -1 or the position of a song of the queue, and a song is found by a title
    -- exactly if the title is indexed, and then has that title, case aside; the tags of a file must
    -- depend on its hash alone.
    pub daemon_healthy :
        (s : Startup x w k) (cfg : Config) (a : App x w k) (cs : List (Call x)) (title : Str)
        → new_app x w k r s cfg ≡ ok a
        → let l = (run r u m cs a).lib in
          InQueue (run r u m cs a).player
          × ((song : Song) → find_song title l ≡ ok song → to_lower song.title ≡ to_lower title)
          × (is_ok (find_song title l) ≡ has (to_lower title) (index_of l))
    daemon_healthy s cfg a cs title started = healthy_after cs a title (record {
      in_queue = started-InQueue r s cfg a started;
      library_good = started-IsGood r s cfg a started title_of faithful;
    })
