-- ===== src/Tui/Quit.antt =====
-- How the terminal interface is left.
use raag.Prelude.{
  Bool-cases, inl, inr, ◌≡◌, refl, ap, ◌⊎◌, codes, ◌==◌, true, false, if◌then◌else◌, List, [], ◌∷◌,
  arith,
}
use raag.Prelude.Sort.{elem}
use raag.Player.{Float}
use raag.Tui.{Bubbles, IsBubbles, View, match_any, default_key_map}
use raag.Tui.Update.{
  quits, blurred, in_view, is_player, Client, Model, Msg, key, new_model, is_typed, handle_key,
  update, run, switch_key,
}
use raag.Tui.Keys.{key_is, after-keys}

module _ {b : Bubbles} {x : Float} (c : Client) where
  open c use {Daemon}

  module _ (i : IsBubbles b) where
    q_quits :
        (m : Model b x) → m.keys ≡ default_key_map → b.key_matches (codes "q") m.keys.quit ≡ true
    unfolding elem ◌==◌
    q_quits m e = key_is i (λ ks. ks.quit) (codes "q") m e

    is_typed-q : (m : Model b x) → m.keys ≡ default_key_map → is_typed (codes "q") m ≡ false
    unfolding is_typed match_any
    is_typed-q m e = ground (arith, q_quits m e)

    quit_key :
        (m : Model b x) (d : Daemon)
        → m.keys ≡ default_key_map
        → update c (key (codes "q")) m d ≡ (
            if is_player m.current_view
            then (record m { needs_refresh = true }, d, quits ∷ [])
            else (blurred (in_view View.player (record m { needs_refresh = true })), d, []))
    unfolding update handle_key switch_key
    quit_key m d e = rw (is_typed-q (record m { needs_refresh = true }) e, q_quits m e) refl

    -- What q does with a model: it quits, or shows the player so that q quits then.
    quits_from :
        (m : Model b x) (d : Daemon)
        → m.keys ≡ default_key_map
        → let (m', d', cmds) = update c (key (codes "q")) m d in
          ((cmds ≡ quits ∷ [])
            ⊎ ((m'.current_view ≡ View.player)
                × ((update c (key (codes "q")) m' d').2 ≡ quits ∷ [])))
          × (d' ≡ d)
    quits_from m d e =
        let shown = blurred (in_view View.player (record m { needs_refresh = true })) in
        elim (Bool-cases (is_player m.current_view)) [
          | inl p ↦ rw (quit_key m d e, p) (inl refl, refl)
          | inr p ↦ rw (quit_key m d e, p) (inr (refl, ap (λ r. r.2) (quit_key shown d e)), refl)
        ]

    -- Whatever happened since the start: pressing q leaves the terminal interface at once, or, from
    -- another view than the player's, also while a search is typed, shows the player, and then
    -- pressing q again leaves it; the daemon is not called.
    pub quits_in_two :
        (msgs : List (Msg x)) (d : Daemon)
        → let (m, d', _) = run c msgs (new_model b x) d in
          let (m', d'', cmds) = update c (key (codes "q")) m d' in
          ((cmds ≡ quits ∷ [])
            ⊎ ((m'.current_view ≡ View.player)
                × ((update c (key (codes "q")) m' d'').2 ≡ quits ∷ [])))
          × (d'' ≡ d')
    quits_in_two msgs d =
        quits_from (run c msgs (new_model b x) d).0 (run c msgs (new_model b x) d).1
          (after-keys b x c msgs d)
