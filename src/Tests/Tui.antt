-- ===== src/Tests/Tui.antt =====
-- The terminal interface at concrete keys.
use raag.Prelude.{
  ℕ, suc, ◌+◌, ◌*◌, ◌/◌, ◌≤◌, ◌<◌, ◌≡◌, ◌⊎◌, refl, Str, codes, Bool, true, false, ◌||◌, List, [],
  ◌∷◌, ◌++◌, some, ok, eqb, arith, if◌then◌else◌,
}
use raag.Prelude.Int.{pos, ◌+ℤ◌}
use raag.Prelude.Sort.{elem}
use raag.App.{App}
use raag.Player.{play, new_player}
use raag.Player.Volume.{get_volume}
use raag.Rpc.Overview.{get_full_state}
use raag.Tests.App.{app, opening}
use raag.Tests.Player.{whole, song}
use raag.Player.{get_current_song}
use raag.Tui.Style.{Screen}
use raag.Tui.Render.{is_hidden}
use raag.Tui.Render.Parts.{IsPart, song_fields, library_row}
use raag.Rpc.{LibrarySong, song_to_info}
use raag.Rpc.Songs.{library_list}
use raag.Library.{all_songs}
use raag.Tests.World.{world}
use raag.Tests.Samples.{crypto}
use raag.Tui.{Bubbles, IsBubbles, View}
use raag.Tui.Daemon.{IsPlaying, daemon, volume_keys}
use raag.Tui.Fetched.{IsRounding, fetched_shown, fetched_library_shown}
use raag.Tui.Fetches.{fetches, keys, fetches_bounded}
use raag.Tui.Quit.{quits_in_two}
use raag.Tui.Render.{view}
use raag.Tui.Search.{IsSearching, search_key_effect}
use raag.Tui.Style.{Format, error_style}
use raag.Tui.Update.{
  Client, Msg, Model, key, tick, quits, init, new_model, update, run, fetch_state,
  fetch_player_state,
}

-- A field with whether it has the focus.
abbrev bubbles : Bubbles
bubbles = record {
  Input = Bool × Str;
  new_input = (false, []);
  with_prompt = λ placeholder prompt i. i;
  focus = λ i. (true, i.1);
  blur = λ i. (false, i.1);
  focused = λ i. i.0;
  set_value = λ s i. (i.0, s);
  value = λ i. i.1;
  type_key = λ s i. (i.0, i.1 ++ s);
  view = λ i. i.1;
  key_matches = elem;
}

bubbles-IsBubbles : IsBubbles bubbles
bubbles-IsBubbles = record { matches_iff = λ k ks. refl }

-- A daemon that counts the calls.
abbrev counting : Client
counting = record { Daemon = ℕ; call = λ a d. (suc d, true) }

abbrev presses : List (Msg whole)
presses = key (codes "2") ∷ (key (codes "/") ∷ [])

abbrev searching : Model bubbles whole
searching = record (new_model bubbles whole) {
  current_view = View.library;
  search_input = (true, []);
}

quits_in_two_example :
    let (m, d', _) = run counting presses (new_model bubbles whole) 0 in
    let (m', d'', cmds) = update counting (key (codes "q")) m d' in
    ((cmds ≡ quits ∷ [])
      ⊎ ((m'.current_view ≡ View.player)
          × ((update counting (key (codes "q")) m' d'').2 ≡ quits ∷ [])))
    × (d'' ≡ d')
quits_in_two_example = quits_in_two counting bubbles-IsBubbles presses 0

searching-IsSearching : IsSearching searching
unfolding new_model
searching-IsSearching = record { defaults = refl; shown = refl; focused = refl }

search_key_effect_example :
    let (m', d', _) = update counting (key (b'1' ∷ [])) searching 0 in
    (m'.search_input ≡ (
      if eqb b'1' b'j' || eqb b'1' b'k'
      then searching.search_input
      else if eqb b'1' b'q'
      then bubbles.blur searching.search_input
      else bubbles.type_key (b'1' ∷ []) searching.search_input))
    × (m'.current_view ≡ (if eqb b'1' b'q' then View.player else View.library))
    × (d' ≡ 0)
search_key_effect_example =
    search_key_effect bubbles-IsBubbles counting b'1' searching 0 searching-IsSearching

fetches_bounded_example :
    fetches (init ++ (run counting (tick ∷ presses) (new_model bubbles whole) 0).2)
    ≤ 1 + 2 * keys (tick ∷ presses)
fetches_bounded_example = fetches_bounded bubbles whole counting (tick ∷ presses) 0

abbrev pub format : Format whole
format = record { d = λ n. []; d02 = λ n. []; f0 = λ n. []; to_int = λ n. n }

started-IsPlaying : IsPlaying (new_model bubbles whole)
unfolding new_model
started-IsPlaying = record { defaults = refl; shown = refl }

volume_keys_example :
    let (m', quieter, _) =
      update (daemon whole world crypto opening) (key (codes "-")) (new_model bubbles whole) app in
    let (_, louder, _) =
      update (daemon whole world crypto opening) (key (codes "+")) (new_model bubbles whole) app in
    (quieter ≡ app)
    × (view format m'
        ≡ ok ((error_style, codes "Daemon not responding. Start it with: raag daemon") ∷ []))
    × (louder.player.volume
        ≡ whole.mul
            (whole.minus
              (whole.div (whole.of_ℤ (pos 5)) (whole.of_ℤ (pos 100)))
              (whole.of_ℤ (pos 1)))
            (whole.of_ℤ (pos 10)))
volume_keys_example =
    volume_keys bubbles-IsBubbles opening format (new_model bubbles whole) app started-IsPlaying
      refl refl refl

div_le_one : (p n : ℕ) → 0 < n → p ≤ n → p / n ≤ 1
div_le_one p n h k = grind arith

format-IsRounding : IsRounding format
format-IsRounding = record { bar_within = λ p n h k. ground (arith, div_le_one p n) }

-- The program while a song plays.
abbrev sounding : App whole world crypto
sounding = record app {
  player = record (play opening (new_player whole)).0 { queue = song ∷ []; current_index = pos 0 };
}

fetched_shown_example :
    let fs = some (get_full_state 50 sounding) in
    let part = song_fields (codes "a") [] [] in
    let m : Model bubbles whole = new_model bubbles whole in
    ((screen : Screen) × ((view format (update counting (fetch_state fs) m 0).0 ≡ ok screen)
        × IsPart part screen))
    × ((screen : Screen) × ((view format (update counting (fetch_player_state fs) m 0).0
            ≡ ok screen)
          × IsPart part screen))
unfolding play new_player get_volume ◌+ℤ◌ get_current_song new_model
fetched_shown_example =
    fetched_shown format format-IsRounding counting (new_model bubbles whole) 0 50 sounding
      (record { handle = 1; len = 100; rate = 10 }) song refl refl refl
      (record { loaded = refl; rated = refl; timed = refl; long = omega arith }) (omega arith)
      (omega arith) (omega arith) (omega arith)

abbrev stocked : App whole world crypto
stocked = record sounding {
  lib = record {
    songs = some ((codes "h", song) ∷ []);
    title_index = some [];
    music_dir = codes "/music";
  };
}

abbrev listed : LibrarySong
listed = record { title = codes "a"; artist = []; album = []; path = codes "/music/a.mp3" }

fetched_library_shown_example :
    let m : Model bubbles whole = record (new_model bubbles whole) {
      current_view = View.library;
      search_input = (true, []);
    } in
    (screen : Screen) × ((view format
          (update counting (fetch_state (some (get_full_state 50 stocked))) m 0).0
        ≡ ok screen)
      × IsPart (library_row true listed) screen)
unfolding new_model library_list is_hidden song_to_info all_songs
fetched_library_shown_example =
    fetched_library_shown format counting
      (record (new_model bubbles whole) { current_view = View.library; search_input = (true, []) })
      0 50 0 stocked listed refl refl (omega arith) refl
