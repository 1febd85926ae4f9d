-- ===== src/Cli/Playback.antt =====
-- cmd/raag/playback.go: the commands about the player.
use raag.Prelude.{
  ℕ, suc, Str, codes, Bool, false, not, List, [], ◌∷◌, ◌++◌, Option, none, some, is_empty,
  get_elem?, length, eqb, if◌then◌else◌,
}
use raag.Prelude.Int.{ℤ, pos, negsuc}
use raag.Auth.{Crypto}
use raag.Cli.{Cli, Line, Machine, info, error, ◌>>=◌, ◌>>◌, say, invoke, always, reads}
use raag.Discovery.World.{World}
use raag.Player.{Float}
use raag.Rpc.{LibrarySong}
use raag.Rpc.Overview.{nothing_playing}
use raag.Rpc.Playback.{
  QueueResult, NowPlayingResult, play_song, pause_playback, resume_playback, stop_playback,
  next_song, previous_song, set_level, seek_to, show_queue, now_playing,
}
use raag.Tui.Style.{Format}

abbrev pub by_artist : LibrarySong → Str
by_artist song = song.title ++ (codes " - " ++ song.artist)

abbrev is_at : ℕ → ℤ → Bool
is_at i (pos n) = eqb i n
is_at i (negsuc n) = false

module _ {x : Float} (f : Format x) where
  -- The songs from the i-th on.
  queue_lines : ℤ → ℕ → List LibrarySong → List Line
  queue_lines current i [] = []
  queue_lines current i (song ∷ songs) =
      info (
        (if is_at i current then codes "> " else codes "  ")
        ++ (f.d (pos (suc i)) ++ (codes ". " ++ by_artist song)))
      ∷ queue_lines current (suc i) songs

  now_lines : List LibrarySong → ℤ → List Line
  now_lines songs (pos n) = elim (get_elem? songs n) [
    | none ↦ []
    | some song ↦ info (codes "Now Playing: " ++ by_artist song) ∷ (info [] ∷ [])
  ]
  now_lines songs (negsuc n) = []

  shown_queue : QueueResult → List Line
  unfolding queue_lines now_lines
  shown_queue result = elim result.songs [
    | [] ↦ info (codes "Queue is empty") ∷ []
    | song ∷ songs ↦
        info (codes "=== Queue (" ++ (f.d (pos (length result.songs)) ++ codes " songs) ==="))
          ∷ now_lines result.songs result.current
        ++ queue_lines result.current 0 result.songs
  ]

  song_lines : NowPlayingResult x → List Line
  song_lines result =
      let status =
        if result.paused
        then codes "Paused"
        else if not result.playing
        then codes "Stopped"
        else codes "Playing" in
      info (codes "now playing status=" ++ status)
      ∷ (info (codes "title title=" ++ result.title)
          ∷ (info (codes "artist artist=" ++ result.artist)
              ∷ (info (codes "album album=" ++ result.album)
                  ∷ (info (
                        codes "position position="
                        ++ (f.d result.position
                            ++ (codes " duration=" ++ f.d (pos result.duration))))
                      ∷ (info (codes "volume volume=" ++ f.f0 result.volume) ∷ [])))))

module _ {x : Float} {w : World} {k : Crypto} (m : Machine x) where
  unfoldable pub play_command : Str → Cli x w k Unit
  play_command song = do
    invoke m 0 (codes "DaemonService.Play") (play_song (m.opening 0) song)
    say (info (codes "playing song=" ++ song) ∷ [])

  unfoldable pub pause_command : Cli x w k Unit
  pause_command = do
    invoke m 0 (codes "DaemonService.Pause") (always pause_playback)
    say (info (codes "playback paused") ∷ [])

  unfoldable pub resume_command : Cli x w k Unit
  resume_command = do
    invoke m 0 (codes "DaemonService.Resume") (always resume_playback)
    say (info (codes "playback resumed") ∷ [])

  unfoldable pub stop_command : Cli x w k Unit
  stop_command = do
    invoke m 0 (codes "DaemonService.StopPlayback") (always stop_playback)
    say (info (codes "playback stopped") ∷ [])

  unfoldable pub next_command : Cli x w k Unit
  next_command = do
    invoke m 0 (codes "DaemonService.Next") (next_song (m.opening 0))
    say (info (codes "skipped to next song") ∷ [])

  unfoldable pub previous_command : Cli x w k Unit
  previous_command = do
    invoke m 0 (codes "DaemonService.Previous") (previous_song (m.opening 0))
    say (info (codes "went to previous song") ∷ [])

  unfoldable pub queue_command : Cli x w k Unit
  unfolding shown_queue
  queue_command = do
    result ← invoke m 0 (codes "DaemonService.GetQueue") (reads show_queue)
    say (shown_queue m.format result)

  show_volume : Cli x w k Unit
  show_volume = do
    result ←
        invoke m 0 (codes "DaemonService.NowPlaying")
          (reads (λ a. now_playing m.at a (nothing_playing x)))
    say (info (codes "current volume volume=" ++ m.format.f0 result.volume) ∷ [])

  set_volume : Option x.F → Cli x w k Unit
  set_volume none = say (error (codes "invalid volume level error=") ∷ [])
  set_volume (some level) = do
    invoke m 0 (codes "DaemonService.SetVolume") (set_level level)
    say (info (codes "volume set to level=" ++ m.format.f0 level) ∷ [])

  -- With an argument, or without. The text of a parse error is left out.
  unfoldable pub volume_command : Option Str → Cli x w k Unit
  unfolding show_volume set_volume
  volume_command none = show_volume
  volume_command (some text) = set_volume (m.parse_float text)

  seek_seconds : Option ℤ → Cli x w k Unit
  seek_seconds none = say (error (codes "invalid position error=") ∷ [])
  seek_seconds (some secs) = do
    invoke m 0 (codes "DaemonService.Seek") (seek_to m.samples m.refused secs)
    say (info (codes "seeked to seconds=" ++ m.format.d secs) ∷ [])

  unfoldable pub seek_command : Str → Cli x w k Unit
  unfolding seek_seconds
  seek_command text = seek_seconds (m.atoi text)

  unfoldable pub nowplaying_command : Cli x w k Unit
  unfolding song_lines
  nowplaying_command = do
    result ←
        invoke m 0 (codes "DaemonService.NowPlaying")
          (reads (λ a. now_playing m.at a (nothing_playing x)))
    say (
        if is_empty result.title
        then info (codes "no song playing") ∷ []
        else song_lines m.format result)
