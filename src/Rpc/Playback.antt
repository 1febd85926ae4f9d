-- ===== src/Rpc/Playback.antt =====
-- rpc/service.go: playback.
use raag.Prelude.{ℕ, Str, Bool, List, Option, none, some, Result, ok, err, map}
use raag.Prelude.Int.{ℤ, pos}
use raag.Song.{Song}
use raag.Auth.{Crypto}
use raag.Discovery.World.{World}
use raag.App.{App}
use raag.Library.{find_song}
use raag.Player
use raag.Player.{
  Float, Player, Opening, add_to_queue, get_current_song, play_queue, pause, resume, stop, next,
  previous, get_queue, is_playing, is_paused,
}
use raag.Player.Volume.{set_volume, get_volume}
use raag.Player.Seek.{seek, get_position, get_duration}
use raag.Rpc.{Error, LibrarySong, song_to_info, lift, library_error, player_error}

pub record QueueResult : Type 0 where
  pub songs : List LibrarySong
  pub current : ℤ

-- The result starts with every field zero.
pub record NowPlayingResult (x : Float) : Type 0 where
  pub title : Str
  pub artist : Str
  pub album : Str
  pub position : ℤ
  pub duration : ℕ
  pub volume : x.F
  pub playing : Bool
  pub paused : Bool

module _ {x : Float} {w : World} {k : Crypto} where
  abbrev pub with_player : Player x → App x w k → App x w k
  with_player p a = record a { player = p }

  abbrev pub on_player :
      App x w k → Player x × Result Player.Error Unit → App x w k × Result Error Unit
  on_player a (p, r) = (with_player p a, lift player_error r)

  play_added : Opening → App x w k → Option Song → App x w k × Result Error Unit
  play_added o a none = on_player a (play_queue o a.player)
  play_added o a (some _) = (a, ok tt)

  queued : Song → App x w k → App x w k
  queued song a = with_player (add_to_queue song a.player) a

  unfoldable pub play_song : Opening → Str → App x w k → App x w k × Result Error Unit
  unfolding play_added queued
  play_song o title a = elim (find_song title a.lib) [
    | err e ↦ (a, err (library_error e))
    | ok song ↦ let a' = queued song a in play_added o a' (get_current_song a'.player)
  ]

  unfoldable pub pause_playback : App x w k → App x w k
  pause_playback a = with_player (pause a.player) a

  unfoldable pub resume_playback : App x w k → App x w k
  resume_playback a = with_player (resume a.player) a

  unfoldable pub stop_playback : App x w k → App x w k
  stop_playback a = with_player (stop a.player) a

  unfoldable pub next_song : Opening → App x w k → App x w k × Result Error Unit
  next_song o a = on_player a (next o a.player)

  unfoldable pub previous_song : Opening → App x w k → App x w k × Result Error Unit
  previous_song o a = on_player a (previous o a.player)

  unfoldable pub set_level : x.F → App x w k → App x w k × Result Error Unit
  set_level level a = on_player a (set_volume level a.player)

  unfoldable pub seek_to : (ℕ → ℤ → ℤ) → Bool → ℤ → App x w k → App x w k × Result Error Unit
  seek_to samples refused seconds a = on_player a (seek samples refused seconds a.player)

  -- The current index is not set.
  unfoldable pub show_queue : App x w k → QueueResult
  show_queue a = record { songs = map song_to_info (get_queue a.player); current = pos 0 }

  -- `at` is where the stream stands; with no current song the result stays as it is.
  unfoldable pub now_playing : ℕ → App x w k → NowPlayingResult x → NowPlayingResult x
  now_playing at a result = elim (get_current_song a.player) [
    | none ↦ result
    | some song ↦ record {
      title = song.title;
      artist = song.artist;
      album = song.album;
      position = get_position at a.player;
      duration = get_duration a.player;
      volume = get_volume a.player;
      playing = is_playing a.player;
      paused = is_paused a.player;
    }
  ]
