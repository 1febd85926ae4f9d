-- ===== src/Library.antt =====
-- internal/library/library.go: the songs by their hash, and an index from lower-case titles to
-- hashes. Both are replaced by a scan, and changed in place by single calls. A pointer that is not
-- set yet is none; every value in the maps has the type that the code puts in.
pub mod Index
pub mod Shadow
pub mod Concurrent
use raag.Prelude.{
  ℕ, Str, codes, ◌==◌, Bool, true, false, not, ◌&&◌, ◌||◌, List, [], ◌∷◌, Option, none, some,
  Result, ok, err, retain, contains, to_lower, has_suffix, if◌then◌else◌,
}
use raag.Prelude.Dict.{Dict, get, put, remove}
use raag.Song.{Song, Reader, MetadataError, extract_metadata}

pub data Error : Type 0 where
  song_not_found : Str → Error
  unsupported_file : Str → Error
  bad_metadata : MetadataError → Error
  no_stat not_a_directory walk_failed : Error

pub record Library : Type 0 where
  pub songs : Option (Dict Song)
  pub title_index : Option (Dict Str)
  pub music_dir : Str

unfoldable pub is_audio_file : Str → Bool
is_audio_file filename =
    let lower = to_lower filename in
    has_suffix lower (codes ".mp3")
    || has_suffix lower (codes ".flac")
    || has_suffix lower (codes ".wav")
    || has_suffix lower (codes ".ogg")
    || has_suffix lower (codes ".ogv")

-- What filepath.WalkDir hands to its function.
pub data Walked : Type 0 where
  entry : Str → Str → Bool → Walked
  unreadable : Walked

-- What os.Stat says of the directory.
pub data Stat : Type 0 where
  missing broken a_file a_directory : Stat

pub record Maps : Type 0 where
  pub songs : Dict Song
  pub index : Dict Str

store_song : Song → Maps → Maps
store_song song m = record {
  songs = put song.hash song m.songs;
  index = put (to_lower song.title) song.hash m.index;
}

abbrev store_read : Result MetadataError Song → Maps → Maps
store_read (ok song) m = store_song song m
store_read (err e) m = m

visit : Reader → Str → Str → Bool → Maps → Maps
visit r path name is_dir m =
    if not is_dir && is_audio_file name then store_read (extract_metadata r path) m else m

-- The walk stops at the first entry that cannot be read.
pub walk : Reader → List Walked → Maps → Option Maps
walk r [] m = some m
walk r (entry path name is_dir ∷ ws) m = walk r ws (visit r path name is_dir m)
walk r (unreadable ∷ ws) m = none

abbrev replace : Option Maps → Library → Library × Result Error Unit
replace none l = (l, err walk_failed)
replace (some m) l = (record l { songs = some m.songs; title_index = some m.index }, ok tt)

unfoldable pub scan_music_library :
    Reader → Stat → List Walked → Library → Library × Result Error Unit
unfolding walk visit store_song
scan_music_library r missing ws l = (l, ok tt)
scan_music_library r broken ws l = (l, err no_stat)
scan_music_library r a_file ws l = (l, err not_a_directory)
scan_music_library r a_directory ws l = replace (walk r ws (record { songs = []; index = [] })) l

abbrev values : Dict Song → List Song
values [] = []
values ((k, s) ∷ m) = s ∷ values m

unfoldable pub all_songs : Library → List Song
all_songs l = elim l.songs [ none ↦ [] | some m ↦ values m ]

abbrev lookup_song : Str → Option (Dict Song) → Str → Result Error Song
lookup_song title none hash = err (song_not_found title)
lookup_song title (some m) hash = elim (get hash m) [
  | none ↦ err (song_not_found title)
  | some song ↦ ok song
]

unfoldable pub find_song : Str → Library → Result Error Song
find_song title l = elim l.title_index [
  | none ↦ err (song_not_found title)
  | some index ↦ elim (get (to_lower title) index) [
    | none ↦ err (song_not_found title)
    | some hash ↦ lookup_song title l.songs hash
  ]
]

abbrev put_if {ℓ} : {V : Type ℓ} → Str → V → Option (Dict V) → Option (Dict V)
put_if k v none = none
put_if k v (some m) = some (put k v m)

abbrev remove_if {ℓ} : {V : Type ℓ} → Str → Option (Dict V) → Option (Dict V)
remove_if k none = none
remove_if k (some m) = some (remove k m)

abbrev add_read : Result MetadataError Song → Library → Library × Result Error Unit
add_read (err e) l = (l, err (bad_metadata e))
add_read (ok song) l = (
  record l {
    songs = put_if song.hash song l.songs;
    title_index = put_if (to_lower song.title) song.hash l.title_index;
  },
  ok tt,
)

unfoldable pub add_song : Reader → Str → Library → Library × Result Error Unit
add_song r path l =
    if not (is_audio_file path)
    then (l, err (unsupported_file path))
    else add_read (extract_metadata r path) l

unfoldable pub remove_song : Str → Library → Library × Result Error Unit
remove_song title l = elim l.title_index [
  | none ↦ (l, err (song_not_found title))
  | some index ↦ elim (get (to_lower title) index) [
    | none ↦ (l, err (song_not_found title))
    | some hash ↦ (
      record l {
        title_index = some (remove (to_lower title) index);
        songs = remove_if hash l.songs;
      },
      ok tt,
    )
  ]
]

unfoldable pub filter_songs : (Song → Bool) → Library → List Song
unfolding all_songs
filter_songs p l = retain p (all_songs l)

unfoldable pub get_by_artist : Str → Library → List Song
unfolding filter_songs
get_by_artist artist l = filter_songs (λ s. contains (to_lower s.artist) (to_lower artist)) l

unfoldable pub get_by_album : Str → Library → List Song
unfolding filter_songs
get_by_album album l = filter_songs (λ s. contains (to_lower s.album) (to_lower album)) l

-- NewLibrary's maps before the first scan.
abbrev pub empty_library : Str → Library
empty_library music_dir = record { songs = some []; title_index = some []; music_dir = music_dir }

abbrev created : Library × Result Error Unit → Result Error Library
created (l, ok _) = ok l
created (l, err e) = err e

-- `made` is whether the directory could be created.
unfoldable pub new_library : Bool → Reader → Stat → List Walked → Str → Result Error Library
unfolding scan_music_library
new_library made r stat ws music_dir =
    if made then created (scan_music_library r stat ws (empty_library music_dir)) else err no_stat
