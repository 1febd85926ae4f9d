-- ===== src/Playlist/Spec.antt =====
-- What the manager promises: a partial map from names to song lists, and how each call changes it.
use raag.Prelude.{
  ℕ, zero, suc, ◌≡◌, refl, Str, ◌==◌, eq_iff, List, [], ◌∷◌, ◌++◌, Option, none, some, Result, ok,
  err, arith, if◌then◌else◌, Option-cases, inl, inr,
}
use raag.Prelude.Int.{ℤ, pos, negsuc, pos_part}
use raag.Prelude.Dict.{get, get-put, get-remove}
use mathlib.Core.Path.{ap₂, fun_ext}
use raag.Song.{Song}
use raag.Playlist.{
  Playlist, Manager, Error, already_exists, not_found, invalid_index, create, delete, add_song,
  remove_song, is_invalid, cut,
}

-- The list without its element at a position, if there is one.
unfoldable pub erase_at : ℕ → List Song → Option (List Song)
erase_at i [] = none
erase_at zero (s ∷ ss) = some ss
erase_at (suc i) (s ∷ ss) = elim (erase_at i ss) [ none ↦ none | some rest ↦ some (s ∷ rest) ]

unfoldable pub erase_at_ℤ : ℤ → List Song → Option (List Song)
unfolding erase_at
erase_at_ℤ (pos i) songs = erase_at i songs
erase_at_ℤ (negsuc i) songs = none

pub data Op : Type 0 where
  creates deletes : Str → Op
  adds : Str → Song → Op
  removes : Str → ℤ → Op

abbrev pub target : Op → Str
target (creates name) = name
target (deletes name) = name
target (adds name song) = name
target (removes name index) = name

unfoldable pub apply : Op → Manager → Manager × Result Error Unit
apply (creates name) m = create name m
apply (deletes name) m = delete name m
apply (adds name song) m = add_song name song m
apply (removes name index) m = remove_song name index m

abbrev pub songs_of : Option Playlist → Option (List Song)
songs_of none = none
songs_of (some pl) = some pl.songs

unfoldable pub view : Manager → Str → Option (List Song)
view m name = songs_of (get name m.playlists)

abbrev erased : ℤ → List Song → Option (List Song) → Option (List Song) × Result Error Unit
erased index songs none = (some songs, err (invalid_index index))
erased index songs (some rest) = (some rest, ok tt)

-- The effect of a call on the one playlist that it names.
unfoldable pub effect : Op → Option (List Song) → Option (List Song) × Result Error Unit
effect (creates name) none = (some [], ok tt)
effect (creates name) (some songs) = (some songs, err (already_exists name))
effect (deletes name) none = (none, err (not_found name))
effect (deletes name) (some songs) = (none, ok tt)
effect (adds name song) none = (none, err (not_found name))
effect (adds name song) (some songs) = (some (songs ++ song ∷ []), ok tt)
effect (removes name index) none = (none, err (not_found name))
effect (removes name index) (some songs) = erased index songs (erase_at_ℤ index songs)

-- `cut` behind its bounds test is `erase_at`.
erase_at-cut :
    (i : ℕ) (songs : List Song)
    → erase_at i songs ≡ (if is_invalid (pos i) songs then none else some (cut i songs))
unfolding erase_at
erase_at-cut i [] = ground arith
erase_at-cut zero (s ∷ ss) = ground arith
erase_at-cut (suc i) (s ∷ ss) = ground (arith, erase_at-cut i ss)

erase_at_ℤ-cut :
    (index : ℤ) (songs : List Song)
    → erase_at_ℤ index songs
      ≡ (if is_invalid index songs then none else some (cut (pos_part index) songs))
unfolding erase_at_ℤ
erase_at_ℤ-cut (pos i) songs = erase_at-cut i songs
erase_at_ℤ-cut (negsuc i) songs = ground arith

-- A call answers as the specification says, changes the playlist that it names as it says, and
-- leaves every other playlist alone.
pub apply-effect :
    (op : Op) (m : Manager) (j : Str)
    → (view (apply op m).0 j ≡ (if target op == j then (effect op (view m j)).0 else view m j))
      × ((apply op m).1 ≡ (effect op (view m (target op))).1)
unfolding apply view effect create delete add_song remove_song
apply-effect (creates name) m j = (
  ground (arith, get-put name j (record { name = name; songs = [] }) m.playlists, eq_iff name j),
  ground arith,
)
apply-effect (deletes name) m j =
    (ground (arith, get-remove name j m.playlists, eq_iff name j), ground arith)
apply-effect (adds name song) m j = elim (Option-cases (get name m.playlists)) [
  | inl e ↦ (ground (arith, eq_iff name j), ground arith)
  | inr (pl, e) ↦ (
    ground (
      arith,
      eq_iff name j,
      get-put name j (record pl { songs = pl.songs ++ song ∷ [] }) m.playlists,
    ),
    ground arith,
  )
]
apply-effect (removes name index) m j = elim (Option-cases (get name m.playlists)) [
  | inl e ↦ (ground (arith, eq_iff name j), ground arith)
  | inr (pl, e) ↦ (
    ground (
      arith,
      eq_iff name j,
      erase_at_ℤ-cut index pl.songs,
      get-put name j (record pl { songs = cut (pos_part index) pl.songs }) m.playlists,
    ),
    ground (arith, erase_at_ℤ-cut index pl.songs),
  )
]

-- A history of calls, with their answers.
unfoldable pub run : List Op → Manager → Manager × List (Result Error Unit)
run [] m = (m, [])
run (op ∷ ops) m =
    let (m', answer) = apply op m in let (m'', answers) = run ops m' in (m'', answer ∷ answers)

abbrev pub Spec : Type 0
Spec = Str → Option (List Song)

unfoldable pub run_spec : List Op → Spec → Spec × List (Result Error Unit)
run_spec [] s = (s, [])
run_spec (op ∷ ops) s =
    let (songs, answer) = effect op (s (target op)) in
    let (s', answers) = run_spec ops (λ j. if target op == j then songs else s j) in
    (s', answer ∷ answers)

-- `apply` acts on views.
view-apply :
    (op : Op) (m : Manager)
    → view (apply op m).0
      ≡ (λ j. if target op == j then (effect op (view m (target op))).0 else view m j)
view-apply op m = fun_ext λ j. same j (apply-effect op m j).0
  where
    same :
        (j : Str)
        → view (apply op m).0 j ≡ (if target op == j then (effect op (view m j)).0 else view m j)
        → view (apply op m).0 j
          ≡ (if target op == j then (effect op (view m (target op))).0 else view m j)
    same j h = ground (arith, eq_iff (target op) j)

-- The manager refines the specification over every history of calls: the views stay equal and
-- every answer, errors included, is the specified one.
pub run-refines :
    (ops : List Op) (m : Manager)
    → (view (run ops m).0 ≡ (run_spec ops (view m)).0) × ((run ops m).1 ≡ (run_spec ops (view m)).1)
unfolding run run_spec
run-refines [] m = (refl, refl)
run-refines (op ∷ ops) m = rw (← view-apply op m) (
  (run-refines ops (apply op m).0).0,
  ap₂ ◌∷◌ (apply-effect op m []).1 (run-refines ops (apply op m).0).1,
)
