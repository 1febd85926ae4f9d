-- ===== src/Tui/Fetched.antt =====
-- That the terminal interface can show what the daemon tells it.
use raag.Song.{Song}
use raag.Prelude.{ap}
use raag.Player.{is_playing, is_paused}
use raag.Rpc.{LibrarySong}
use raag.Rpc.Songs.{library_list}
use raag.Tui.{View}
use raag.Tui.Style.{Screen}
use raag.Prelude.{is_some, eqb, get_elem?, ok}
use raag.Tui.Render.{render, is_hidden}
use raag.Tui.Render.Parts.{
  IsPart, Gives, song_fields, library_row, shown-Gives, view-Gives, render_player_view-Gives,
  render_library_view-IsPart,
}
use raag.Prelude.{
  ℕ, ◌/◌, ◌≤◌, ◌<◌, ◌≡◌, ◌∙◌, refl, Bool, true, false, some, is_ok, is_empty, ltb, arith,
  Option-cases, inl, inr, if◌then◌else◌, Bool-cases,
}
use raag.Prelude.Int.{ℤ, pos, negsuc, ◌≤ℤ◌}
use raag.Auth.{Crypto}
use raag.App.{App}
use raag.Discovery.World.{World}
use raag.Player.{Float, Stream, get_current_song}
use raag.Player.Volume.{get_volume}
use raag.Player.Seek.{IsLoaded, get_position, get_duration, div_mono, div_ℤ}
use raag.Rpc.Overview.{get_full_state, nothing_playing}
use raag.Rpc.Playback.{NowPlayingResult, now_playing}
use raag.Tui.{Bubbles}
use raag.Tui.Render.{filled, vol_level, shown_song, view}
use raag.Tui.Render.Shown.{in_range, fits, fits_if_shown, view-fits}
use raag.Tui.Style.{Format}
use raag.Tui.Update.{Client, Model, update, fetch_state, fetch_player_state}

-- A fraction of at most one, times 30, is a whole number up to 30, as float64 rounds.
pub record IsRounding {x : Float} (f : Format x) : Type 0 where
  pub bar_within :
      (p n : ℕ)
      → 0 < n
      → p ≤ n
      → in_range 30 (f.to_int (x.mul (x.div (x.of_ℤ (pos p)) (x.of_ℤ (pos n))) (x.of_ℤ (pos 30))))
        ≡ true

level_within : (v : ℤ) → pos 0 ≤ℤ v → v ≤ℤ pos 100 → in_range 10 (div_ℤ v 10) ≡ true
level_within (pos n) h k = ground arith
level_within (negsuc n) h k = absurd (omega arith)

if_same : (v t : Bool) → t ≡ true → (if v then t else true) ≡ true
if_same true t h = h
if_same false t h = refl

position_of :
    {x : Float} {w : World} {k : Crypto} (at : ℕ) (a : App x w k) (s : Stream)
    → IsLoaded a.player s
    → 0 < s.rate
    → get_position at a.player ≡ pos (at / s.rate)
unfolding get_position
position_of at a s l rated = ground (arith, l.loaded, l.rated)

module _ {x : Float} (f : Format x) (r : IsRounding f) where
  -- A song whose position is within its duration fits.
  within-fits :
      (p : ℕ) (np : NowPlayingResult x)
      → np.position ≡ pos p
      → p ≤ np.duration
      → pos 0 ≤ℤ f.to_int np.volume
      → f.to_int np.volume ≤ℤ pos 100
      → fits f np ≡ true
  unfolding filled vol_level
  within-fits p np e within low high = elim (Bool-cases (ltb 0 np.duration)) [
    | inl timed ↦
        rw (timed, e, r.bar_within p np.duration (ground arith) within)
          (level_within (f.to_int np.volume) low high)
    | inr untimed ↦ rw untimed (level_within (f.to_int np.volume) low high)
  ]

  if_shown-fits :
      (np : NowPlayingResult x) → fits f np ≡ true → fits_if_shown f (shown_song f (some np)) ≡ true
  if_shown-fits np h = elim (Bool-cases (is_empty np.title)) [ inl e ↦ rw e refl | inr e ↦ rw e h ]

module _ {x : Float} {w : World} {k : Crypto} (f : Format x) (r : IsRounding f) where
  -- What the daemon answers while a song is loaded fits.
  now_playing-fits :
      (at : ℕ) (a : App x w k) (s : Stream)
      → IsLoaded a.player s
      → 0 < s.rate
      → at ≤ s.len
      → pos 0 ≤ℤ f.to_int (get_volume a.player)
      → f.to_int (get_volume a.player) ≤ℤ pos 100
      → fits_if_shown f (shown_song f (some (now_playing at a (nothing_playing x)))) ≡ true
  unfolding now_playing nothing_playing get_duration
  now_playing-fits at a s l rated within low high =
      let before : at / s.rate ≤ a.player.duration =
        omega (arith, l.timed, div_mono at s.len s.rate within) in
      elim (Option-cases (get_current_song a.player)) [
        | inl e ↦ rw (e, now_playing) refl
        | inr (song, e) ↦
            rw (e, now_playing)
              (if_shown-fits f r _
                (within-fits f r (at / s.rate) _ (position_of at a s l rated) before low high))
      ]

  -- With a song loaded, its position within its length and the volume between 0 and 100, the
  -- interface can show what the daemon tells it in every view: no bar has a negative length.
  fetched-fits :
      {b : Bubbles} (c : Client) (m : Model b x) (d : c.Daemon) (at : ℕ) (a : App x w k)
      (s : Stream)
      → IsLoaded a.player s
      → 0 < s.rate
      → at ≤ s.len
      → pos 0 ≤ℤ f.to_int (get_volume a.player)
      → f.to_int (get_volume a.player) ≤ℤ pos 100
      → let fs = some (get_full_state at a) in
        (is_ok (view f (update c (fetch_state fs) m d).0) ≡ true)
        × (is_ok (view f (update c (fetch_player_state fs) m d).0) ≡ true)
  unfolding update fetch_state fetch_player_state get_full_state
  fetched-fits c m d at a s l rated within low high =
      let fs = some (get_full_state at a) in
      let fit = now_playing-fits at a s l rated within low high in
      let both = λ (v : Bool). if_same v _ fit in
      (
        view-fits f (update c (fetch_state fs) m d).0 ∙ both _,
        view-fits f (update c (fetch_player_state fs) m d).0 ∙ both _,
      )

  now_playing-song :
      (at : ℕ) (a : App x w k) (song : Song)
      → get_current_song a.player ≡ some song
      → now_playing at a (nothing_playing x) ≡ record {
        title = song.title;
        artist = song.artist;
        album = song.album;
        position = get_position at a.player;
        duration = get_duration a.player;
        volume = get_volume a.player;
        playing = is_playing a.player;
        paused = is_paused a.player;
      }
  unfolding now_playing
  now_playing-song at a song e = rw (e, now_playing) refl

  player_view-shows :
      {b : Bubbles} (m : Model b x) (at : ℕ) (a : App x w k) (song : Song)
      → m.current_view ≡ View.player
      → get_current_song a.player ≡ some song
      → is_empty song.title ≡ false
      → m.state.now_playing ≡ some (now_playing at a (nothing_playing x))
      → is_some m.state.status ≡ true
      → Gives (IsPart (song_fields song.title song.artist song.album)) (view f m)
  unfolding render
  player_view-shows m at a song in_player current titled np on =
      view-Gives f (song_fields song.title song.artist song.album) m
        (rw in_player (
          render_player_view-Gives f m.state _ (np ∙ ap some (now_playing-song at a song current))
            titled))
        on

  -- With a song loaded and current, its title not empty, its position within its length and the
  -- volume between 0 and 100, the player's view shows that song once the daemon's state was fetched,
  -- with the library or without: its title, artist and album stand on the screen in one piece, each
  -- after its name.
  pub fetched_shown :
      {b : Bubbles} (c : Client) (m : Model b x) (d : c.Daemon) (at : ℕ) (a : App x w k)
      (s : Stream) (song : Song)
      → m.current_view ≡ View.player
      → get_current_song a.player ≡ some song
      → is_empty song.title ≡ false
      → IsLoaded a.player s
      → 0 < s.rate
      → at ≤ s.len
      → pos 0 ≤ℤ f.to_int (get_volume a.player)
      → f.to_int (get_volume a.player) ≤ℤ pos 100
      → let fs = some (get_full_state at a) in
        let part = song_fields song.title song.artist song.album in
        ((screen : Screen) × ((view f (update c (fetch_state fs) m d).0 ≡ ok screen)
            × IsPart part screen))
        × ((screen : Screen) × ((view f (update c (fetch_player_state fs) m d).0 ≡ ok screen)
              × IsPart part screen))
  unfolding update fetch_state fetch_player_state get_full_state
  fetched_shown c m d at a s song in_player current titled l rated within low high =
      let fs = some (get_full_state at a) in
      let (fit, fit') = fetched-fits c m d at a s l rated within low high in
      let part = song_fields song.title song.artist song.album in
      let full = (update c (fetch_state fs) m d).0 in
      let partial = (update c (fetch_player_state fs) m d).0 in
      (
        shown-Gives (IsPart part) (view f full) fit
            (player_view-shows full at a song in_player current titled refl refl),
        shown-Gives (IsPart part) (view f partial) fit'
            (player_view-shows partial at a song in_player current titled refl refl),
      )

module _ {x : Float} {w : World} {k : Crypto} (f : Format x) where
  -- Once the daemon's state was fetched with the library, the library's view shows each of the
  -- daemon's first twenty songs that the search does not hide, in a row of its own with its title
  -- and artist, and the selected one in the style of the selection.
  pub fetched_library_shown :
      {b : Bubbles} (c : Client) (m : Model b x) (d : c.Daemon) (at i : ℕ) (a : App x w k)
      (song : LibrarySong)
      → m.current_view ≡ View.library
      → get_elem? (library_list a) i ≡ some song
      → i < 20
      → is_hidden f (b.value m.search_input) song ≡ false
      → ((screen : Screen) × ((view f (update c (fetch_state (some (get_full_state at a))) m d).0
              ≡ ok screen)
            × IsPart (library_row (eqb i m.selected_idx) song) screen))
  unfolding update fetch_state get_full_state render
  fetched_library_shown {b = b} c m d at i a song in_library place low shown =
      let m' : Model b x = (update c (fetch_state (some (get_full_state at a))) m d).0 in
      let part = library_row (eqb i m.selected_idx) song in
      shown-Gives (IsPart part) (view f m') (view-fits f m' ∙ rw in_library refl) (
        view-Gives f part m'
          (rw in_library (
            render_library_view-IsPart f (record m' { current_view = View.library })
              (library_list a) i song refl place low shown))
          refl)
