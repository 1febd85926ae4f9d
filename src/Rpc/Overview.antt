-- ===== src/Rpc/Overview.antt =====
-- rpc/service.go: what a client is shown at once, and the configuration.
use raag.Prelude.{ℕ, Str, codes, false, List, [], ◌∷◌, Option, none, some, Result, ok, err}
use raag.Prelude.Int.{pos}
use raag.Auth.{Crypto}
use raag.App.{App}
use raag.Config.{Value, text, number, flag}
use raag.Discovery.World.{World}
use raag.Discovery.Status.{NetworkState}
use raag.Player.{Float}
use raag.Rpc.{Error, LibrarySong}
use raag.Rpc.Peers.{StatusResult, network_status, status}
use raag.Rpc.Playback.{NowPlayingResult, QueueResult, now_playing, show_queue}
use raag.Rpc.Songs.{library_list}

-- A nil pointer is none.
pub record FullStateResult (x : Float) : Type 0 where
  pub now_playing : Option (NowPlayingResult x)
  pub queue : Option QueueResult
  pub network : Option NetworkState
  pub status : Option StatusResult
  pub library : Option (List LibrarySong)

-- The zero of the type, in which the result of a call starts.
unfoldable pub nothing_playing : (x : Float) → NowPlayingResult x
nothing_playing x = record {
  title = [];
  artist = [];
  album = [];
  position = pos 0;
  duration = 0;
  volume = x.of_ℤ (pos 0);
  playing = false;
  paused = false;
}

abbrev if_no_error : {A : Type 0} → Result Error A → Option A
if_no_error (ok a) = some a
if_no_error (err e) = none

module _ {x : Float} {w : World} {k : Crypto} where
  -- Of the methods that are called, only NetworkStatus returns an error, which is not passed on.
  unfoldable pub get_full_state : ℕ → App x w k → FullStateResult x
  get_full_state at a = record {
    now_playing = some (now_playing at a (nothing_playing x));
    queue = some (show_queue a);
    network = if_no_error (network_status a);
    status = some (status a);
    library = some (library_list a);
  }

  -- The entries of the map.
  unfoldable pub config_get : App x w k → List (Str × Value)
  config_get a =
      let cfg = a.cfg in
      (codes "music_dir", text cfg.music_dir)
      ∷ (codes "volume", number cfg.volume)
      ∷ (codes "tui", flag cfg.tui)
      ∷ (codes "network", flag cfg.network)
      ∷ (codes "rendezvous", text cfg.rendezvous)
      ∷ (codes "host", text cfg.host)
      ∷ (codes "port", number cfg.port)
      ∷ (codes "log_level", text cfg.log_level)
      ∷ (codes "tracker", text cfg.tracker_url)
      ∷ []
