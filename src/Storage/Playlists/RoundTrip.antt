-- ===== src/Storage/Playlists/RoundTrip.antt =====
-- What is saved is what is loaded.
use mathlib.Core.Path.{subst}
use mathlib.Core.List.{append-nil, append_assoc}
use raag.Prelude.{
  ◌≡◌, refl, ◌∙◌, ap, ◌≢◌, inl, inr, Str, ◌==◌, eq_iff, List, [], ◌∷◌, ◌++◌, Option, none, some, ok,
  err, arith, if◌then◌else◌, Option-cases,
}
use raag.Prelude.Dict.{get}
use raag.Prelude.Sort.{elem}
use raag.Song.{Song}
use raag.Playlist.{Manager, already_exists, create, add_song, get_songs, new_manager}
use raag.Playlist.Spec.{view, creates, adds, apply, effect, apply-effect}
use raag.Playlist.Names.{list_names, list_names_lem}
use raag.Storage.Playlists.{
  PlaylistData, Codec, Lookup, gather, saved, add_songs, restore, fill_playlist, read_file,
  save_playlists, load_playlists,
}
use raag.Storage.{Faults, Disk, write_json_atomic}
use raag.Storage.Atomic.{Holds, write-Holds}

abbrev pub or_else {ℓ} : {A : Type ℓ} → Option A → Option A → Option A
or_else (some a) b = some a
or_else none b = b

-- The songs of the first stored playlist with a name.
unfoldable pub first : Str → List PlaylistData → Option (List Song)
first j [] = none
first j (pl ∷ pls) = if pl.name == j then some pl.songs else first j pls

abbrev grown : List Song → Option (List Song) → Option (List Song)
grown songs none = none
grown songs (some old) = some (old ++ songs)

view-create :
    (name : Str) (m : Manager) (j : Str)
    → view (create name m).0 j
      ≡ (if name == j then (effect (creates name) (view m j)).0 else view m j)
unfolding apply
view-create name m j = (apply-effect (creates name) m j).0

view-add_song :
    (name : Str) (song : Song) (m : Manager) (j : Str)
    → view (add_song name song m).0 j
      ≡ (if name == j then grown (song ∷ []) (view m j) else view m j)
unfolding apply effect
view-add_song name song m j = ground (arith, (apply-effect (adds name song) m j).0)

view-add_songs :
    (name : Str) (songs : List Song) (m : Manager) (j : Str)
    → view (add_songs name songs m) j ≡ (if name == j then grown songs (view m j) else view m j)
unfolding add_songs
view-add_songs name [] m j = elim (Option-cases (view m j)) [
  | inl e ↦ ground arith
  | inr (songs, e) ↦ ground (arith, append-nil songs)
]
view-add_songs name (song ∷ songs) m j = elim (Option-cases (view m j)) [
  | inl e ↦
      ground
        (arith, view-add_songs name songs (add_song name song m).0 j, view-add_song name song m j)
  | inr (old, e) ↦ ground (
    arith,
    view-add_songs name songs (add_song name song m).0 j,
    view-add_song name song m j,
    append_assoc old (song ∷ []) songs,
  )
]

create-fresh : (name : Str) (m : Manager) → view m name ≡ none → (create name m).1 ≡ ok tt
unfolding create view
create-fresh name m h = ground arith

create-taken :
    (name : Str) (m : Manager) (songs : List Song)
    → view m name ≡ some songs
    → create name m ≡ (m, err (already_exists name))
unfolding create view
create-taken name m songs h = ground arith

fill_playlist-fresh :
    (pl : PlaylistData) (m : Manager)
    → view m pl.name ≡ none
    → fill_playlist pl (create pl.name m) ≡ add_songs pl.name pl.songs (create pl.name m).0
fill_playlist-fresh pl m h = ap (fill_playlist pl) (Σ_path' (create-fresh pl.name m h))
  where
    Σ_path' : (create pl.name m).1 ≡ ok tt → create pl.name m ≡ ((create pl.name m).0, ok tt)
    Σ_path' e = λ i. ((create pl.name m).0, e i)

-- One round of the loop: a stored playlist is taken unless its name is taken.
view-fill_playlist :
    (pl : PlaylistData) (m : Manager) (j : Str)
    → view (fill_playlist pl (create pl.name m)) j
      ≡ or_else (view m j) (if pl.name == j then some pl.songs else none)
unfolding effect
view-fill_playlist pl m j = elim (Option-cases (view m pl.name)) [
  | inl e ↦ rw (fill_playlist-fresh pl m e) (
      ground (
        arith,
        eq_iff pl.name j,
        view-add_songs pl.name pl.songs (create pl.name m).0 j,
        view-create pl.name m j,
      ))
  | inr (songs, e) ↦ rw (create-taken pl.name m songs e) (ground (arith, eq_iff pl.name j))
]

-- Loading keeps the playlists that are there, and takes of those stored under one name the first.
pub restore-first :
    (pls : List PlaylistData) (m : Manager) (j : Str)
    → view (restore pls m) j ≡ or_else (view m j) (first j pls)
unfolding restore first
restore-first [] m j = ground arith
restore-first (pl ∷ pls) m j =
    ground
      (arith, restore-first pls (fill_playlist pl (create pl.name m)) j, view-fill_playlist pl m j)

first-gather :
    (m : Manager) (names : List Str) (j : Str)
    → first j (gather m names) ≡ (if elem j names then view m j else none)
unfolding first gather elem view get_songs
first-gather m [] j = refl
first-gather m (name ∷ names) j = ground (arith, eq_iff name j, first-gather m names j)

load-saved :
    (c : Codec) (m : Manager) (l : Lookup)
    → c.decode (c.encode (saved m)) ≡ some (saved m)
    → c.encode (saved m) ≢ []
    → read_file l ≡ ok (some (c.encode (saved m)))
    → load_playlists c l new_manager ≡ (restore (saved m).playlists new_manager, ok tt)
unfolding load_playlists
load-saved c m l decoded some_bytes read = ground arith

view-saved : (m : Manager) (j : Str) → first j (saved m).playlists ≡ view m j
unfolding saved
view-saved m j = ground (arith, first-gather m (list_names m) j, (list_names_lem m).1 j)

view-new_manager : (j : Str) → view new_manager j ≡ none
unfolding view new_manager get
view-new_manager j = refl

-- If saving a manager succeeds, loading what then stands in the file into a new manager succeeds
-- and gives every playlist, each with its songs in order, and no other; the codec must give back
-- this data from a text that is not empty, and the temporary name is not the file's.
pub load-save :
    (c : Codec) (m : Manager) (f : Faults) (tmp path : Str) (d : Disk) (l : Lookup)
    → tmp ≢ path
    → c.decode (c.encode (saved m)) ≡ some (saved m)
    → c.encode (saved m) ≢ []
    → (save_playlists c f tmp (some path) m (record { disk = d; seen = [] })).0 ≡ ok tt
    → read_file l
      ≡ ok (get path (save_playlists c f tmp (some path) m (record { disk = d; seen = [] })).1.disk)
    → ((load_playlists c l new_manager).1 ≡ ok tt)
      × ((j : Str) → view (load_playlists c l new_manager).0 j ≡ view m j)
unfolding save_playlists
load-save c m f tmp path d l ne decoded some_bytes done read =
    rw (load-saved c m l decoded some_bytes (read ∙ ap ok held)) (
      refl,
      λ j. ground (
        arith,
        restore-first (saved m).playlists new_manager j,
        view-new_manager j,
        view-saved m j,
      ),
    )
  where
    held :
        get path
          (write_json_atomic f tmp path
            (c.encode (saved m))
            (record { disk = d; seen = [] })).1.disk
        ≡ some (c.encode (saved m))
    held =
        subst
          (λ r.
            Holds path (c.encode (saved m)) (get path d) r
              (write_json_atomic f tmp path (c.encode (saved m))
                (record { disk = d; seen = [] })).1.disk)
          done (write-Holds f tmp path (c.encode (saved m)) d ne)
