-- ===== src/Playlist.antt =====
-- internal/playlist/playlist.go: named playlists behind one lock. A method that changes the
-- manager returns the new manager and its error; the lock makes each call one step.
pub mod Spec
pub mod Names
use raag.Prelude.{
  ℕ, suc, ◌≡◌, Str, Bool, ◌||◌, List, [], ◌∷◌, ◌++◌, Option, none, some, Result, ok, err, length,
  take, drop, map, if◌then◌else◌,
}
use raag.Prelude.Int.{ℤ, pos, pos_part, ltb_ℤ, leb_ℤ}
use raag.Prelude.Dict
use raag.Prelude.Dict.{Dict, get, put, remove}
use raag.Song.{Song}

pub record Playlist : Type 0 where
  pub name : Str
  pub songs : List Song

pub record Manager : Type 0 where
  pub playlists : Dict Playlist

pub data Error : Type 0 where
  already_exists not_found : Str → Error
  invalid_index : ℤ → Error

unfoldable pub new_manager : Manager
new_manager = record { playlists = [] }

unfoldable pub create : Str → Manager → Manager × Result Error Unit
create name m = elim (get name m.playlists) [
  | some _ ↦ (m, err (already_exists name))
  | none ↦
      (record m { playlists = put name (record { name = name; songs = [] }) m.playlists }, ok tt)
]

unfoldable pub delete : Str → Manager → Manager × Result Error Unit
delete name m = elim (get name m.playlists) [
  | none ↦ (m, err (not_found name))
  | some _ ↦ (record m { playlists = remove name m.playlists }, ok tt)
]

-- `pl.Songs = songs` through the pointer that the map holds.
set_songs : Str → Playlist → List Song → Manager → Manager
set_songs name pl songs m = record m {
  playlists = put name (record pl { songs = songs }) m.playlists;
}

unfoldable pub add_song : Str → Song → Manager → Manager × Result Error Unit
unfolding set_songs
add_song name song m = elim (get name m.playlists) [
  | none ↦ (m, err (not_found name))
  | some pl ↦ (set_songs name pl (pl.songs ++ song ∷ []) m, ok tt)
]

abbrev pub is_invalid : ℤ → List Song → Bool
is_invalid index songs = ltb_ℤ index (pos 0) || leb_ℤ (pos (length songs)) index

-- append(songs[:index], songs[index+1:]...)
abbrev pub cut : ℕ → List Song → List Song
cut i songs = take i songs ++ drop (suc i) songs

unfoldable pub remove_song : Str → ℤ → Manager → Manager × Result Error Unit
unfolding set_songs
remove_song name index m = elim (get name m.playlists) [
  | none ↦ (m, err (not_found name))
  | some pl ↦
      if is_invalid index pl.songs
      then (m, err (invalid_index index))
      else (set_songs name pl (cut (pos_part index) pl.songs) m, ok tt)
]

-- A copy of the songs.
unfoldable pub get_songs : Str → Manager → Result Error (List Song)
get_songs name m = elim (get name m.playlists) [
  | none ↦ err (not_found name)
  | some pl ↦ ok pl.songs
]

unfoldable pub get_playlist : Str → Manager → Result Error Playlist
get_playlist name m = elim (get name m.playlists) [ none ↦ err (not_found name) | some pl ↦ ok pl ]
