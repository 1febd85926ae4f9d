-- ===== src/Tui/Render/Shown.antt =====
-- That the terminal interface can show what it is sent.
use raag.Prelude.{
  ℕ, ◌≡◌, refl, Str, Bool, true, false, ◌&&◌, ◌||◌, not, Option, none, some, Result, ok, err, ◌>>=◌,
  ltb, Option-cases, ap, ◌∙◌, inl, inr, is_ok, is_some, arith, if◌then◌else◌,
}
use raag.Prelude.Int.{ℤ, pos, negsuc, leb_ℤ}
use raag.Player.{Float}
use raag.Rpc.Playback.{NowPlayingResult}
use raag.Tui.{Bubbles, View}
use raag.Tui.Style.{Format, Panic, repeat, less}
use raag.Tui.Update.{Model, DaemonState, is_player}
use raag.Tui.Render.{
  bar, progress, render_song, filled, vol_level, shown_song, render_player_view, render, view,
}

abbrev pub in_range : ℕ → ℤ → Bool
in_range n k = leb_ℤ (pos 0) k && leb_ℤ k (pos n)

-- Two bars beside each other: one of length n and the rest up to the size.
two_bars :
    {A : Type 0} (s t : Str) (g : Str → Str → A) (size : ℕ) (n : ℤ)
    → is_ok (repeat s n >>= λ a. repeat t (less size n) >>= λ b. ok (g a b)) ≡ in_range size n
unfolding repeat
two_bars s t g size (pos n) = ground arith
two_bars s t g size (negsuc n) = ground arith

and-true : (t : Bool) → (t && true) ≡ t
and-true true = refl
and-true false = refl

is_ok-bind :
    {A B : Type 0} (r : Result Panic A) (k : A → Result Panic B) (t : Bool)
    → ((a : A) → is_ok (k a) ≡ t)
    → is_ok (r >>= k) ≡ (is_ok r && t)
is_ok-bind (ok a) k t h = h a
is_ok-bind (err e) k t h = refl

module _ {x : Float} (f : Format x) where
  -- The bars of a song have no part of negative length.
  abbrev pub fits : NowPlayingResult x → Bool
  fits np = (not (ltb 0 np.duration) || in_range 30 (filled f np)) && in_range 10 (vol_level f np)

  abbrev pub fits_if_shown : Option (NowPlayingResult x) → Bool
  fits_if_shown none = true
  fits_if_shown (some np) = fits np

  bar-fits : (np : NowPlayingResult x) → is_ok (bar f np) ≡ in_range 30 (filled f np)
  unfolding bar
  bar-fits np = two_bars _ _ _ 30 (filled f np)

  progress-fits :
      (np : NowPlayingResult x)
      → is_ok (progress f np) ≡ (not (ltb 0 np.duration) || in_range 30 (filled f np))
  unfolding progress
  progress-fits np = ground (arith, bar-fits np)

  render_song-fits : (np : NowPlayingResult x) → is_ok (render_song f np) ≡ fits np
  unfolding render_song
  render_song-fits np =
      is_ok-bind (progress f np) _ _ (λ shown. two_bars _ _ _ 10 (vol_level f np))
      ∙ ap (λ t. t && in_range 10 (vol_level f np)) (progress-fits np)

  render_player_view-fits :
      (s : DaemonState x)
      → is_ok (render_player_view f s) ≡ fits_if_shown (shown_song f s.now_playing)
  unfolding render_player_view
  render_player_view-fits s = elim (Option-cases (shown_song f s.now_playing)) [
    | inl e ↦ rw (e, render_player_view) refl
    | inr (np, e) ↦ rw (e, render_player_view) (render_song-fits np)
  ]

  render-fits :
      {b : Bubbles} (v : View) (m : Model b x)
      → is_ok (render f v m)
        ≡ (if is_player v then fits_if_shown (shown_song f m.state.now_playing) else true)
  unfolding render
  render-fits View.player m = render_player_view-fits m.state
  render-fits View.library m = refl
  render-fits View.playlist m = refl
  render-fits View.peers m = refl
  render-fits View.help m = refl

  -- Showing never panics, but for a song whose bars do not fit in the player's view, where it does.
  pub view-fits :
      {b : Bubbles} (m : Model b x)
      → is_ok (view f m) ≡ (
          if is_some m.state.status && is_player m.current_view
          then fits_if_shown (shown_song f m.state.now_playing)
          else true)
  unfolding view
  view-fits m = elim (Option-cases m.state.status) [
    | inl e ↦ rw (e, view) refl
    | inr (status, e) ↦
        rw (e, view)
          (is_ok-bind (render f m.current_view m) _ true (λ body. refl)
            ∙ (and-true _ ∙ render-fits m.current_view m))
  ]
