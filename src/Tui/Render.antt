-- ===== src/Tui/Render.antt =====
-- internal/tui/tui.go: what the terminal interface shows.
pub mod Shown
pub mod Parts
use raag.Prelude.{
  ℕ, suc, ◌+◌, ◌-◌, ◌%◌, Str, codes, ◌==◌, Bool, true, false, not, ◌&&◌, ◌||◌, List, [], ◌∷◌, ◌++◌,
  Option, none, some, Result, ok, err, ◌>>=◌, ltb, leb, eqb, length, is_empty, to_lower, contains,
  if◌then◌else◌,
}
use raag.Prelude.Int.{ℤ, pos, negsuc, sub_ℕ}
use raag.Discovery.Status.{NetworkState}
use raag.Player.{Float}
use raag.Player.Seek.{div_ℤ}
use raag.Rpc.{LibrarySong}
use raag.Rpc.Playback.{NowPlayingResult}
use raag.Tui.{Bubbles, View}
use raag.Tui.Style.{
  Style, Screen, Panic, Format, repeat, less, rem_ℤ, line, field, bool_text, plain, title_style,
  subtitle_style, label_style, value_style, progress_bar_style, progress_empty_style,
  list_item_style, list_selected_style, status_online_style, help_style, error_style,
  highlight_style,
}
use raag.Tui.Update.{Model, DaemonState}

abbrev header : Str
header = codes "══════════════ RAAG ══════════════"

abbrev help_footer : Str
help_footer = codes "\n[q]uit [tab]view [space]play/pause [n]ext [p]rev [+/-]vol"

abbrev help_footer_lib : Str
help_footer_lib = help_footer ++ codes " [/]search"

abbrev max_library_items : ℕ
max_library_items = 20

render_playlist_view : Screen
render_playlist_view =
    (title_style, codes "Playlists:\n")
    ∷ ((subtitle_style, codes "(manage via CLI commands: raag playlist list/add/remove)\n") ∷ [])

abbrev help_line : Str → Str → Screen
help_line name text = (label_style, name) ∷ ((value_style, text) ∷ [])

render_help_view : Screen
render_help_view =
    (title_style, codes "Keyboard Shortcuts:\n\n") ∷ []
    ++ (help_line (codes "  q / Ctrl+C: ") (codes "quit\n")
        ++ (help_line (codes "  Tab:        ") (codes "next view\n")
            ++ (help_line (codes "  Space:      ") (codes "play/pause\n")
                ++ (help_line (codes "  n:          ") (codes "next song\n")
                    ++ (help_line (codes "  p:          ") (codes "previous song\n")
                        ++ (help_line (codes "  +/-:        ") (codes "volume up/down\n")
                            ++ (help_line (codes "  /:          ") (codes "search library\n")
                                ++ help_line (codes "  1-4:        ")
                                    (codes "switch views\n"))))))))

module _ {x : Float} (f : Format x) where
  open f use {d, d02, f0, to_int}

  format_time : ℤ → Str
  format_time seconds = d (div_ℤ seconds 60) ++ (codes ":" ++ d02 (rem_ℤ seconds 60))

  status_text : NowPlayingResult x → Str
  status_text np =
      if np.paused
      then codes "Paused"
      else if not np.playing
      then codes "Stopped"
      else codes "Playing"

  unfoldable pub filled : NowPlayingResult x → ℤ
  filled np =
      to_int (x.mul (x.div (x.of_ℤ np.position) (x.of_ℤ (pos np.duration))) (x.of_ℤ (pos 30)))

  unfoldable pub vol_level : NowPlayingResult x → ℤ
  vol_level np = div_ℤ (to_int np.volume) 10

  bar : NowPlayingResult x → Result Panic Screen
  unfolding format_time
  bar np = do
    let n = filled np
    done ← repeat (codes "█") n
    rest ← repeat (codes "─") (less 30 n)
    ok (
        (plain, codes "\n")
        ∷ ((progress_bar_style, done)
            ∷ ((progress_empty_style, rest)
                ∷ ((
                  plain,
                  codes " "
                      ++ (format_time np.position ++ (codes "/" ++ format_time (pos np.duration))),
                )
                    ∷ ((plain, codes "\n") ∷ [])))))

  progress : NowPlayingResult x → Result Panic Screen
  unfolding bar
  progress np = if ltb 0 np.duration then bar np else ok []

  render_song : NowPlayingResult x → Result Panic Screen
  unfolding status_text progress
  render_song np = do
    shown ← progress np
    let level = vol_level np
    loud ← repeat (codes "█") level
    quiet ← repeat (codes "░") (less 10 level)
    ok (
        (label_style, codes "Now Playing: ") ∷ line status_online_style (status_text np)
        ++ (field (codes "Title:  ") np.title
            ++ (field (codes "Artist: ") np.artist
                ++ (field (codes "Album:  ") np.album
                    ++ (shown
                        ++ ((label_style, codes "Volume: ")
                            ∷ ((highlight_style, loud)
                                ∷ ((subtitle_style, quiet)
                                    ∷ ((plain, codes " " ++ (f0 np.volume ++ codes "%\n"))
                                        ∷ [])))))))))

  -- The song that the player's view shows.
  abbrev pub shown_song : Option (NowPlayingResult x) → Option (NowPlayingResult x)
  shown_song none = none
  shown_song (some np) = if is_empty np.title then none else some np

  unfoldable pub render_player_view : DaemonState x → Result Panic Screen
  unfolding render_song
  render_player_view s = elim (shown_song s.now_playing) [
    | none ↦ ok ((subtitle_style, codes "No song playing") ∷ [])
    | some np ↦ render_song np
  ]

  unfoldable pub is_hidden : Str → LibrarySong → Bool
  is_hidden filter song =
      not (is_empty filter)
      && not (contains (to_lower song.title) (to_lower filter))
      && not (contains (to_lower song.artist) (to_lower filter))

  row : Bool → LibrarySong → Screen
  row selected song =
      line (if selected then list_selected_style else list_item_style)
        (codes "  " ++ (song.title ++ (codes " - " ++ song.artist)))

  -- The songs from the i-th on, of `total`.
  rows : ℕ → ℕ → ℕ → Str → List LibrarySong → Screen
  unfolding is_hidden row
  rows total selected i filter [] = []
  rows total selected i filter (song ∷ songs) =
      let rest = rows total selected (suc i) filter songs in
      if leb max_library_items i
      then (
        subtitle_style,
        codes "... and " ++ (d (pos (total - max_library_items)) ++ codes " more\n"),
      )
        ∷ []
      else if is_hidden filter song
      then rest
      else row (eqb i selected) song ++ rest

  render_songs : ℕ → Str → List LibrarySong → Screen
  unfolding rows
  render_songs selected filter [] = (subtitle_style, codes "Library is empty\n") ∷ []
  render_songs selected filter (song ∷ songs) =
      let total = length (song ∷ songs) in
      (label_style, codes "Library: " ++ (d (pos total) ++ codes " songs\n\n"))
      ∷ rows total selected 0 filter (song ∷ songs)

  unfoldable pub render_library_view : {b : Bubbles} → Model b x → Screen
  unfolding render_songs
  render_library_view {b} m =
      (label_style, codes "Search: ")
      ∷ ((plain, b.view m.search_input)
          ∷ ((plain, codes "\n\n") ∷ (elim m.state.library [
            | none ↦ (subtitle_style, codes "Loading library...\n") ∷ []
            | some songs ↦ render_songs m.selected_idx (b.value m.search_input) songs
          ])))

  render_network : NetworkState → Screen
  render_network ns =
      field (codes "Self: ") ns.self_id
      ++ (field (codes "Tracker: ") ns.tracker_url
          ++ (field (codes "DHT: ") (
                bool_text ns.dht_enabled
                ++ (codes " (peers: " ++ (d (pos ns.dht_peers) ++ codes ")")))
              ++ (field (codes "Connected Peers: ") (d (pos (length ns.connected_peers)))
                  ++ field (codes "Known Peers: ") (d (pos (length ns.known_peers))))))

  unfoldable pub render_peers_view : DaemonState x → Screen
  unfolding render_network
  render_peers_view s = elim s.network [
    | none ↦ (subtitle_style, codes "Network status loading...\n") ∷ []
    | some ns ↦ render_network ns
  ]

  unfoldable pub render : {b : Bubbles} → View → Model b x → Result Panic Screen
  unfolding render_playlist_view render_help_view
  render View.player m = render_player_view m.state
  render View.library m = ok (render_library_view m)
  render View.playlist m = ok render_playlist_view
  render View.peers m = ok (render_peers_view m.state)
  render View.help m = ok render_help_view

  abbrev footer : View → Str
  footer View.library = help_footer_lib
  footer _ = help_footer

  unfoldable pub view : {b : Bubbles} → Model b x → Result Panic Screen
  view m = elim m.state.status [
    | none ↦ ok ((error_style, codes "Daemon not responding. Start it with: raag daemon") ∷ [])
    | some _ ↦ do
      body ← render m.current_view m
      ok (
          (title_style, header)
          ∷ ((plain, codes "\n\n") ∷ body ++ (help_style, footer m.current_view) ∷ []))
  ]
