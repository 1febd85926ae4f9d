-- ===== src/Playlist/Names.antt =====
-- The sorted list of names, and that entries stay under their own names.
use raag.Prelude.{◌≡◌, refl, Str, List, [], ◌∷◌, is_some, arith}
use raag.Prelude.Dict.{Dict, get, keys}
use raag.Prelude.Sort.{sort, IsSorted, sort-IsSorted, elem, elem-sort}
use raag.Playlist.{Playlist, Manager}
use raag.Playlist.Spec.{view}

-- slices.Sorted(maps.Keys(m.Playlists))
unfoldable pub list_names : Manager → List Str
unfolding sort
list_names m = sort (keys m.playlists)

elem-keys : (j : Str) (m : Dict Playlist) → elem j (keys m) ≡ is_some (get j m)
unfolding elem get
elem-keys j [] = refl
elem-keys j ((k, v) ∷ m) = ground (arith, elem-keys j m)

-- The names come in byte order, and they are those of the playlists that exist.
pub list_names_lem :
    (m : Manager)
    → IsSorted (list_names m) × ((j : Str) → elem j (list_names m) ≡ is_some (view m j))
unfolding list_names view
list_names_lem m = (
  sort-IsSorted (keys m.playlists),
  λ j. ground (arith, elem-sort j (keys m.playlists), elem-keys j m.playlists),
)
