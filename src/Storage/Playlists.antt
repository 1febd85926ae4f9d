-- ===== src/Storage/Playlists.antt =====
-- internal/storage/storage.go, SavePlaylists and LoadPlaylists. JSON is a pair of functions.
pub mod RoundTrip
use raag.Prelude.{
  Str, Bool, true, false, List, [], ◌∷◌, Option, none, some, Result, ok, err, is_empty,
}
use raag.Prelude.Dict.{get}
use raag.Song.{Song}
use raag.Playlist
use raag.Playlist.{Manager, create, add_song, get_songs}
use raag.Playlist.Names.{list_names}
use raag.Storage.{
  Error, M, ◌>>=◌, fail_if, Faults, Store, write_json_atomic, no_path, no_config_dir,
  no_relative_path, root_failed, stat_failed, is_directory, read_failed,
}

pub record PlaylistData : Type 0 where
  pub name : Str
  pub songs : List Song

pub record StorageData : Type 0 where
  pub playlists : List PlaylistData

-- encoding/json at the type of the stored data; `none` is a decoding error.
pub record Codec : Type 0 where
  pub encode : StorageData → Str
  pub decode : Str → Option StorageData

abbrev collect : Str → Result Playlist.Error (List Song) → List PlaylistData → List PlaylistData
collect name (ok songs) rest = record { name = name; songs = songs } ∷ rest
collect name (err e) rest = rest

-- The loop over the names.
unfoldable pub gather : Manager → List Str → List PlaylistData
gather m [] = []
gather m (name ∷ names) = collect name (get_songs name m) (gather m names)

unfoldable pub saved : Manager → StorageData
saved m = record { playlists = gather m (list_names m) }

-- `path` is none where config.PlaylistsPath fails.
unfoldable pub save_playlists : Codec → Faults → Str → Option Str → Manager → M Unit
save_playlists c f tmp none m s = (err no_path, s)
save_playlists c f tmp (some path) m s = write_json_atomic f tmp path (c.encode (saved m)) s

unfoldable pub add_songs : Str → List Song → Manager → Manager
add_songs name [] m = m
add_songs name (song ∷ songs) m = add_songs name songs (add_song name song m).0

abbrev pub fill_playlist : PlaylistData → Manager × Result Playlist.Error Unit → Manager
fill_playlist pl (m, ok _) = add_songs pl.name pl.songs m
fill_playlist pl (m, err e) = m

-- The loop over the stored playlists.
unfoldable pub restore : List PlaylistData → Manager → Manager
restore [] m = m
restore (pl ∷ pls) m = restore pls (fill_playlist pl (create pl.name m))

-- What os.OpenRoot, Stat and ReadFile answer.
pub data Opened : Type 0 where
  missing broken there : Opened

pub data Found : Type 0 where
  missing broken directory : Found
  file : Option Str → Found

pub record Lookup : Type 0 where
  pub no_path : Bool
  pub no_dir : Bool
  pub no_rel : Bool
  pub root : Opened
  pub found : Found

-- The bytes of a file that must be there to be read; `none` inside means that it does not exist.
unfoldable pub read_file : Lookup → Result Error (Option Str)
read_file l = elim l.no_path [
  | true ↦ err no_path
  | false ↦ elim l.no_dir [
    | true ↦ err no_config_dir
    | false ↦ elim l.no_rel [
      | true ↦ err no_relative_path
      | false ↦ elim l.root [
        | Opened.missing ↦ ok none
        | Opened.broken ↦ err root_failed
        | Opened.there ↦ elim l.found [
          | Found.missing ↦ ok none
          | Found.broken ↦ err stat_failed
          | Found.directory ↦ err is_directory
          | Found.file none ↦ err read_failed
          | Found.file (some bytes) ↦ ok (some bytes)
        ]
      ]
    ]
  ]
]

-- An empty file and one that does not decode leave no playlists, and are no errors.
abbrev restore_decoded : Option StorageData → Manager → Manager
restore_decoded none m = m
restore_decoded (some d) m = restore d.playlists m

abbrev restore_bytes : Codec → Str → Manager → Manager
restore_bytes c [] m = m
restore_bytes c (b ∷ bs) m = restore_decoded (c.decode (b ∷ bs)) m

abbrev restore_file : Codec → Result Error (Option Str) → Manager → Manager × Result Error Unit
restore_file c (err e) m = (m, err e)
restore_file c (ok none) m = (m, ok tt)
restore_file c (ok (some bytes)) m = (restore_bytes c bytes m, ok tt)

unfoldable pub load_playlists : Codec → Lookup → Manager → Manager × Result Error Unit
unfolding read_file
load_playlists c l m = restore_file c (read_file l) m
