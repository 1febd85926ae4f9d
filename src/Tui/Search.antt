-- ===== src/Tui/Search.antt =====
-- Keys that are typed while the library is searched.
use raag.Prelude.{
  ◌≡◌, refl, ℕ, codes, ◌==◌, true, false, ◌||◌, [], ◌∷◌, arith, eqb, eqb_iff, Bool-cases, inl, inr,
  if◌then◌else◌,
}
use raag.Prelude.Sort.{elem}
use raag.Player.{Float}
use raag.Tui.{Binding, Bubbles, IsBubbles, KeyMap, View, match_any, default_key_map}
use raag.Tui.Keys.{key_is}
use raag.Tui.Update.{Client, Model, key, is_typed, handle_key, update, switch_key, blurred, in_view}

-- The library is shown and the search field has the focus.
pub record IsSearching {b : Bubbles} {x : Float} (m : Model b x) : Type 0 where
  pub defaults : m.keys ≡ default_key_map
  pub shown : m.current_view ≡ View.library
  pub focused : b.focused m.search_input ≡ true

module _ {b : Bubbles} (i : IsBubbles b) {x : Float} (c : Client) where
  open c use {Daemon}

  is_typed_iff :
      (n : ℕ) (m : Model b x)
      → IsSearching m
      → is_typed (n ∷ []) m ≡ (if eqb n b'j' || eqb n b'k' || eqb n b'q' then false else true)
  unfolding is_typed match_any elem ◌==◌
  is_typed_iff n m s = ground (
    arith,
    s.defaults,
    s.shown,
    s.focused,
    key_is i (λ (ks : KeyMap). ks.enter) (n ∷ []) m s.defaults,
    key_is i (λ (ks : KeyMap). ks.up) (n ∷ []) m s.defaults,
    key_is i (λ (ks : KeyMap). ks.down) (n ∷ []) m s.defaults,
    key_is i (λ (ks : KeyMap). ks.tab) (n ∷ []) m s.defaults,
    key_is i (λ (ks : KeyMap). ks.quit) (n ∷ []) m s.defaults,
  )

  moves-j :
      (m : Model b x) (d : Daemon)
      → IsSearching m
      → let (m', d', _) = switch_key c (codes "j") m d in
        (m'.search_input ≡ m.search_input) × (m'.current_view ≡ View.library) × (d' ≡ d)
  unfolding switch_key elem ◌==◌
  moves-j m d s =
      let is = λ (binding : KeyMap → Binding). key_is i binding (codes "j") m s.defaults in
      ground (
        arith,
        s.shown,
        is (λ (ks : KeyMap). ks.quit),
        is (λ (ks : KeyMap). ks.tab),
        is (λ (ks : KeyMap). ks.view_player),
        is (λ (ks : KeyMap). ks.view_library),
        is (λ (ks : KeyMap). ks.view_playlist),
        is (λ (ks : KeyMap). ks.view_peers),
        is (λ (ks : KeyMap). ks.help),
        is (λ (ks : KeyMap). ks.search_key),
        is (λ (ks : KeyMap). ks.up),
        is (λ (ks : KeyMap). ks.down),
        is (λ (ks : KeyMap). ks.enter),
      )

  moves-k :
      (m : Model b x) (d : Daemon)
      → IsSearching m
      → let (m', d', _) = switch_key c (codes "k") m d in
        (m'.search_input ≡ m.search_input) × (m'.current_view ≡ View.library) × (d' ≡ d)
  unfolding switch_key elem ◌==◌
  moves-k m d s =
      let is = λ (binding : KeyMap → Binding). key_is i binding (codes "k") m s.defaults in
      ground (
        arith,
        s.shown,
        is (λ (ks : KeyMap). ks.quit),
        is (λ (ks : KeyMap). ks.tab),
        is (λ (ks : KeyMap). ks.view_player),
        is (λ (ks : KeyMap). ks.view_library),
        is (λ (ks : KeyMap). ks.view_playlist),
        is (λ (ks : KeyMap). ks.view_peers),
        is (λ (ks : KeyMap). ks.help),
        is (λ (ks : KeyMap). ks.search_key),
        is (λ (ks : KeyMap). ks.up),
        is (λ (ks : KeyMap). ks.down),
        is (λ (ks : KeyMap). ks.enter),
      )

  leaves :
      (m : Model b x) (d : Daemon)
      → IsSearching m
      → switch_key c (codes "q") m d ≡ (blurred (in_view View.player m), d, [])
  unfolding switch_key elem ◌==◌
  leaves m d s = rw (key_is i (λ (ks : KeyMap). ks.quit) (codes "q") m s.defaults, s.shown) refl

  -- While the library is searched, a key of one letter never reaches the daemon. The letters j and
  -- k are not typed, q takes the focus away and shows the player, and every other letter, a digit
  -- or the space too, is typed and the library stays in view.
  pub search_key_effect :
      (n : ℕ) (m : Model b x) (d : Daemon)
      → IsSearching m
      → let (m', d', _) = update c (key (n ∷ [])) m d in
        (m'.search_input ≡ (
          if eqb n b'j' || eqb n b'k'
          then m.search_input
          else if eqb n b'q'
          then b.blur m.search_input
          else b.type_key (n ∷ []) m.search_input))
        × (m'.current_view ≡ (if eqb n b'q' then View.player else View.library))
        × (d' ≡ d)
  unfolding update handle_key
  search_key_effect n m d s =
      let m' = record m { needs_refresh = true } in
      let s' : IsSearching m' = record {
        defaults = s.defaults;
        shown = s.shown;
        focused = s.focused;
      } in
      elim (Bool-cases (eqb n b'j')) [
        | inl j ↦ rw ((eqb_iff n b'j').0 j) (rw (is_typed_iff b'j' m' s') (moves-j m' d s'))
        | inr not_j ↦ elim (Bool-cases (eqb n b'k')) [
          | inl k ↦ rw ((eqb_iff n b'k').0 k) (rw (is_typed_iff b'k' m' s') (moves-k m' d s'))
          | inr not_k ↦ elim (Bool-cases (eqb n b'q')) [
            | inl q ↦
                rw ((eqb_iff n b'q').0 q)
                  (rw (is_typed_iff b'q' m' s') (rw (leaves m' d s') (refl, refl, refl)))
            | inr not_q ↦ rw (is_typed_iff n m' s') (rw (not_j, not_k, not_q) (refl, s.shown, refl))
          ]
        ]
      ]
