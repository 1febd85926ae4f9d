-- ===== src/Tui/Render/Parts.antt =====
-- What stands on the screen: the song that plays, and the songs of the library.
use raag.Prelude.{
  ℕ, zero, suc, ◌+◌, ◌<◌, ◌≡◌, ◌∙◌, sym, ap, refl, Str, codes, Bool, true, false, List, [], ◌∷◌,
  ◌++◌, some, Result, ok, err, ◌>>=◌, eqb, leb, length, is_empty, get_elem?, is_ok, is_some,
  Option-cases, arith, Bool-cases, inl, inr, if◌then◌else◌,
}
use mathlib.Core.List.{append_assoc}
use mathlib.Core.Path.{subst}
use raag.Player.{Float}
use raag.Rpc.{LibrarySong}
use raag.Rpc.Playback.{NowPlayingResult}
use raag.Tui.{Bubbles}
use raag.Tui.Style.{
  Format, Panic, repeat, less, Screen, line, field, list_item_style, list_selected_style,
}
use raag.Tui.Update.{Model, DaemonState}
use raag.Tui.Render.{
  is_hidden, row, rows, render_songs, progress, vol_level, render_song, render_player_view,
  render_library_view, render, view,
}

-- The part stands on the screen, in one piece.
abbrev pub IsPart : Screen → Screen → Type 0
IsPart part s = (before : Screen) × ((after : Screen) × (s ≡ before ++ (part ++ after)))

-- The title, the artist and the album, each after its name.
abbrev pub song_fields : Str → Str → Str → Screen
song_fields title artist album =
    field (codes "Title:  ") title
    ++ (field (codes "Artist: ") artist ++ field (codes "Album:  ") album)

-- A song of the library, with the style of the selected one or not.
abbrev pub library_row : Bool → LibrarySong → Screen
library_row selected song =
    line (if selected then list_selected_style else list_item_style)
      (codes "  " ++ (song.title ++ (codes " - " ++ song.artist)))

abbrev pub Gives : {A : Type 0} → (A → Type 0) → Result Panic A → Type 0
Gives P (ok a) = P a
Gives P (err e) = Unit

bind-Gives :
    {A B : Type 0} (P : A → Type 0) (Q : B → Type 0) (r : Result Panic A) (k : A → Result Panic B)
    → Gives P r
    → ((a : A) → P a → Gives Q (k a))
    → Gives Q (r >>= k)
bind-Gives P Q (ok a) k p h = h a p
bind-Gives P Q (err e) k p h = tt

each-Gives :
    {A B : Type 0} (Q : B → Type 0) (r : Result Panic A) (k : A → Result Panic B)
    → ((a : A) → Gives Q (k a))
    → Gives Q (r >>= k)
each-Gives Q (ok a) k h = h a
each-Gives Q (err e) k h = tt

-- What shows at all shows what it gives.
pub shown-Gives :
    {A : Type 0} (P : A → Type 0) (r : Result Panic A)
    → is_ok r ≡ true
    → Gives P r
    → (a : A) × ((r ≡ ok a) × P a)
shown-Gives P (ok a) e p = (a, (refl, p))
shown-Gives P (err _) e p = absurd (cc e)

after-IsPart : (part s t : Screen) → IsPart part t → IsPart part (s ++ t)
after-IsPart part s t (before, (after, e)) =
    (s ++ before, (after, rw e (sym (append_assoc s before (part ++ after)))))

before-IsPart : (part s t : Screen) → IsPart part s → IsPart part (s ++ t)
before-IsPart part s t (before, (after, e)) = (
  before,
  (
    after ++ t,
    rw e
        (append_assoc before (part ++ after) t ∙ ap (λ l. before ++ l) (append_assoc part after t)),
  ),
)

-- The songs from the i-th on: each one before the 20th that the search does not hide has its row.
rows-IsPart :
    {x : Float} (f : Format x) (total selected i j : ℕ) (filter : Str) (songs : List LibrarySong)
    (song : LibrarySong)
    → get_elem? songs j ≡ some song
    → i + j < 20
    → is_hidden f filter song ≡ false
    → IsPart (library_row (eqb (i + j) selected) song) (rows f total selected i filter songs)
unfolding rows row
rows-IsPart f total selected i j filter [] song e low shown = absurd (ground (arith, e))
rows-IsPart f total selected i zero filter (song' ∷ songs) song e low shown =
    let rest = rows f total selected (suc i) filter songs in ([], (rest, ground (arith, e, shown)))
rows-IsPart f total selected i (suc j) filter (song' ∷ songs) song e low shown =
    let shift : i + suc j ≡ suc i + j = omega arith in
    let early : leb 20 i ≡ false = ground arith in
    let rest =
      rows-IsPart f total selected (suc i) j filter songs song e (omega (arith, low)) shown in
    elim (Bool-cases (is_hidden f filter song')) [
      | inl hidden ↦ rw (shift, early, hidden) rest
      | inr listed ↦
          rw (shift, early, listed)
            (after-IsPart (library_row (eqb (suc i + j) selected) song)
              (library_row (eqb i selected) song') _ rest)
    ]

render_songs-IsPart :
    {x : Float} (f : Format x) (selected i : ℕ) (filter : Str) (songs : List LibrarySong)
    (song : LibrarySong)
    → get_elem? songs i ≡ some song
    → i < 20
    → is_hidden f filter song ≡ false
    → IsPart (library_row (eqb i selected) song) (render_songs f selected filter songs)
unfolding render_songs
render_songs-IsPart f selected i filter [] song at low shown = absurd (ground (arith, at))
render_songs-IsPart f selected i filter (s ∷ ss) song at low shown =
    let first : 0 + i ≡ i = omega arith in
    after-IsPart (library_row (eqb i selected) song) (_ ∷ []) _ (
      subst
        (λ n.
          IsPart (library_row (eqb n selected) song)
            (rows f (length (s ∷ ss)) selected 0 filter (s ∷ ss)))
        first
        (rows-IsPart f (length (s ∷ ss)) selected 0 i filter (s ∷ ss) song at (omega (arith, low))
          shown))

module _ {x : Float} (f : Format x) where
  render_song-Gives :
      (np : NowPlayingResult x)
      → Gives (IsPart (song_fields np.title np.artist np.album)) (render_song f np)
  unfolding render_song
  render_song-Gives np =
      let Q : Screen → Type 0 = IsPart (song_fields np.title np.artist np.album) in
      let level = vol_level f np in
      each-Gives Q (progress f np) _ (λ shown. each-Gives Q (repeat (codes "█") level) _ (λ loud.
        each-Gives Q (repeat (codes "░") (less 10 level)) _
          (λ quiet. (_ ∷ (_ ∷ (_ ∷ [])), (_, refl)))))

  pub render_player_view-Gives :
      (s : DaemonState x) (np : NowPlayingResult x)
      → s.now_playing ≡ some np
      → is_empty np.title ≡ false
      → Gives (IsPart (song_fields np.title np.artist np.album)) (render_player_view f s)
  unfolding render_player_view
  render_player_view-Gives s np e titled = rw (e, render_player_view, titled) (render_song-Gives np)

  pub render_library_view-IsPart :
      {b : Bubbles} (m : Model b x) (songs : List LibrarySong) (i : ℕ) (song : LibrarySong)
      → m.state.library ≡ some songs
      → get_elem? songs i ≡ some song
      → i < 20
      → is_hidden f (b.value m.search_input) song ≡ false
      → IsPart (library_row (eqb i m.selected_idx) song) (render_library_view f m)
  unfolding render_library_view render_songs
  render_library_view-IsPart {b = b} m songs i song e at low shown = rw e (
      after-IsPart (library_row (eqb i m.selected_idx) song) (_ ∷ (_ ∷ (_ ∷ []))) _
        (render_songs-IsPart f m.selected_idx i (b.value m.search_input) songs song at low shown))

  -- The view's part is part of the screen.
  pub view-Gives :
      {b : Bubbles} (part : Screen) (m : Model b x)
      → Gives (IsPart part) (render f m.current_view m)
      → is_some m.state.status ≡ true
      → Gives (IsPart part) (view f m)
  unfolding view
  view-Gives part m h on = elim (Option-cases m.state.status) [
    | inl e ↦ absurd (ground (arith, e, on))
    | inr (status, e) ↦
        rw (e, view)
          (bind-Gives _ _ (render f m.current_view m) _ h
            (λ body shown. after-IsPart part (_ ∷ (_ ∷ [])) _ (before-IsPart part body _ shown)))
  ]
