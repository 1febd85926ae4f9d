-- ===== src/Tui/Daemon.antt =====
-- The terminal interface and the daemon together: what its keys do to the parts of an App.
use raag.Prelude.{◌≡◌, refl, Str, codes, ◌==◌, Bool, true, false, [], ◌∷◌, ok, is_ok, arith}
use raag.Prelude.Int.{pos, negsuc}
use raag.Prelude.Sort.{elem}
use raag.Auth.{Crypto}
use raag.App.{App}
use raag.Discovery.World.{World}
use raag.Player.{Float, Opening}
use raag.Player.Volume.{set_volume}
use raag.Rpc.Playback.{
  play_song, pause_playback, resume_playback, next_song, previous_song, set_level,
}
use raag.Tui.{Binding, Bubbles, IsBubbles, KeyMap, View, default_key_map}
use raag.Tui.Keys.{key_is}
use raag.Tui.Render.{view}
use raag.Tui.Style.{Format, error_style}
use raag.Tui.Update.{
  Action, plays, pauses, resumes, nexts, previouses, sets_volume, Client, Model, key, update,
  handle_key, switch_key, player_key, execute_action, is_typed,
}

module _ {x : Float} {w : World} {k : Crypto} where
  -- `o` is what the machine answers when a song is opened.
  unfoldable pub serve : Opening → Action → App x w k → App x w k × Bool
  serve o (plays title) a = let (a', r) = play_song o title a in (a', is_ok r)
  serve o pauses a = (pause_playback a, true)
  serve o resumes a = (resume_playback a, true)
  serve o nexts a = let (a', r) = next_song o a in (a', is_ok r)
  serve o previouses a = let (a', r) = previous_song o a in (a', is_ok r)
  serve o (sets_volume level) a = let (a', r) = set_level (x.of_ℤ level) a in (a', is_ok r)

module _ (x : Float) (w : World) (k : Crypto) where
  abbrev pub daemon : Opening → Client
  daemon o = record { Daemon = App x w k; call = serve o }

-- The player's view with its keys.
pub record IsPlaying {b : Bubbles} {x : Float} (m : Model b x) : Type 0 where
  pub defaults : m.keys ≡ default_key_map
  pub shown : m.current_view ≡ View.player

module _ {b : Bubbles} (i : IsBubbles b) {x : Float} {w : World} {k : Crypto} (o : Opening) where
  -- A key of the player's view that is no key of every view.
  own_key :
      (t : Str) (m : Model b x) (a : App x w k)
      → IsPlaying m
      → elem t (
          codes "ctrl+c"
          ∷ (codes "q"
              ∷ (codes "tab"
                  ∷ (codes "1"
                      ∷ (codes "2"
                          ∷ (codes "3"
                              ∷ (codes "4"
                                  ∷ (codes "?"
                                      ∷ (codes "up"
                                          ∷ (codes "k" ∷ (codes "down" ∷ (codes "j" ∷ []))))))))))))
        ≡ false
      → handle_key (daemon x w k o) t m a ≡ player_key (daemon x w k o) t m a
  unfolding handle_key switch_key is_typed elem
  own_key t m a s h =
      let is = λ (binding : KeyMap → Binding). key_is i binding t m s.defaults in
      ground (
        arith,
        s.shown,
        is (λ (ks : KeyMap). ks.quit),
        is (λ (ks : KeyMap). ks.tab),
        is (λ (ks : KeyMap). ks.view_player),
        is (λ (ks : KeyMap). ks.view_library),
        is (λ (ks : KeyMap). ks.view_playlist),
        is (λ (ks : KeyMap). ks.view_peers),
        is (λ (ks : KeyMap). ks.help),
        is (λ (ks : KeyMap). ks.up),
        is (λ (ks : KeyMap). ks.down),
      )

  plus_is :
      (m : Model b x) (a : App x w k)
      → IsPlaying m
      → player_key (daemon x w k o) (codes "+") m a
        ≡ execute_action (daemon x w k o) (sets_volume (pos 5)) m a
  unfolding player_key elem ◌==◌
  plus_is m a s =
      let is = λ (binding : KeyMap → Binding). key_is i binding (codes "+") m s.defaults in
      rw
        (
          is (λ (ks : KeyMap). ks.play_pause),
          is (λ (ks : KeyMap). ks.next),
          is (λ (ks : KeyMap). ks.prev),
          is (λ (ks : KeyMap). ks.vol_up),
        )
        refl

  minus_is :
      (m : Model b x) (a : App x w k)
      → IsPlaying m
      → player_key (daemon x w k o) (codes "-") m a
        ≡ execute_action (daemon x w k o) (sets_volume (negsuc 4)) m a
  unfolding player_key elem ◌==◌
  minus_is m a s =
      let is = λ (binding : KeyMap → Binding). key_is i binding (codes "-") m s.defaults in
      rw
        (
          is (λ (ks : KeyMap). ks.play_pause),
          is (λ (ks : KeyMap). ks.next),
          is (λ (ks : KeyMap). ks.prev),
          is (λ (ks : KeyMap). ks.vol_up),
          is (λ (ks : KeyMap). ks.vol_down),
        )
        refl

  -- In the player's view, - changes nothing of the daemon, whatever the volume is, and makes the
  -- terminal interface say that the daemon does not respond; + sets the volume to that of level 5,
  -- whatever it was. The numbers 0, 5, -5 and 100 must compare as they should.
  pub volume_keys :
      (f : Format x) (m : Model b x) (a : App x w k)
      → IsPlaying m
      → x.ltb_F (x.of_ℤ (negsuc 4)) (x.of_ℤ (pos 0)) ≡ true
      → x.ltb_F (x.of_ℤ (pos 5)) (x.of_ℤ (pos 0)) ≡ false
      → x.ltb_F (x.of_ℤ (pos 100)) (x.of_ℤ (pos 5)) ≡ false
      → let (m', quieter, _) = update (daemon x w k o) (key (codes "-")) m a in
        let (_, louder, _) = update (daemon x w k o) (key (codes "+")) m a in
        (quieter ≡ a)
        × (view f m'
            ≡ ok ((error_style, codes "Daemon not responding. Start it with: raag daemon") ∷ []))
        × (louder.player.volume
            ≡ x.mul
                (x.minus (x.div (x.of_ℤ (pos 5)) (x.of_ℤ (pos 100))) (x.of_ℤ (pos 1)))
                (x.of_ℤ (pos 10)))
  unfolding update execute_action serve set_level set_volume view elem ◌==◌
  volume_keys f m a s below above within =
      let m1 = record m { needs_refresh = true } in
      let s1 : IsPlaying m1 = record { defaults = s.defaults; shown = s.shown } in
      rw (own_key (codes "-") m1 a s1 refl) (
        rw (minus_is m1 a s1) (
          rw (own_key (codes "+") m1 a s1 refl)
            (rw (plus_is m1 a s1) (ground arith, ground arith, ground arith))))
