-- ===== src/Library/Shadow.antt =====
-- Two files of one title.
use raag.Prelude.{◌≡◌, ◌≢◌, Str, eq_iff, eq_refl, true, none, some, ok, err, arith, to_lower}
use raag.Prelude.Dict.{Dict, get, put, remove, get-put, get-remove}
use raag.Song.{Song, Reader, extract_metadata}
use raag.Library.{Library, Maps, song_not_found, is_audio_file, add_song, find_song, remove_song}

-- A library with both maps set.
abbrev pub with_maps : Str → Maps → Library
with_maps music_dir m = record {
  songs = some m.songs;
  title_index = some m.index;
  music_dir = music_dir;
}

-- The song of a file that was added is found under its title in any case, and once that title is
-- removed nothing is found under it.
pub find-add-remove :
    (r : Reader) (path music_dir title : Str) (m : Maps) (song : Song)
    → is_audio_file path ≡ true
    → extract_metadata r path ≡ ok song
    → to_lower title ≡ to_lower song.title
    → let l = (add_song r path (with_maps music_dir m)).0 in
      (find_song title l ≡ ok song)
      × (find_song title (remove_song title l).0 ≡ err (song_not_found title))
unfolding add_song find_song remove_song
find-add-remove r path music_dir title m song audio read same = (
  ground (
    arith,
    get-put (to_lower song.title) (to_lower title) song.hash m.index,
    eq_iff (to_lower song.title) (to_lower title),
    get-put song.hash song.hash song m.songs,
    eq_refl song.hash,
  ),
  ground (
    arith,
    get-put (to_lower song.title) (to_lower title) song.hash m.index,
    eq_iff (to_lower song.title) (to_lower title),
    get-remove (to_lower title) (to_lower title) (put (to_lower song.title) song.hash m.index),
    eq_refl (to_lower title),
  ),
)

-- If two files with one title and different contents are added one after the other, removing the
-- title removes the second song and no other: the first stays in the library, though no search by
-- its title finds it.
pub remove_song_shadowed :
    (r : Reader) (path path' music_dir title : Str) (m : Maps) (song song' : Song)
    → is_audio_file path ≡ true
    → is_audio_file path' ≡ true
    → extract_metadata r path ≡ ok song
    → extract_metadata r path' ≡ ok song'
    → to_lower song.title ≡ to_lower title
    → to_lower song'.title ≡ to_lower title
    → song.hash ≢ song'.hash
    → let l = (add_song r path' (add_song r path (with_maps music_dir m)).0).0 in
      ((remove_song title l).1 ≡ ok tt)
      × (find_song title (remove_song title l).0 ≡ err (song_not_found title))
      × ((songs : Dict Song) × ((remove_song title l).0.songs ≡ some songs)
          × (get song.hash songs ≡ some song)
          × (get song'.hash songs ≡ none)
          × ((h : Str) → h ≢ song.hash → h ≢ song'.hash → get h songs ≡ get h m.songs))
unfolding add_song find_song remove_song
remove_song_shadowed r path path' music_dir title m song song' audio audio' read read' same same'
      ne =
    let index =
      put (to_lower song'.title) song'.hash (put (to_lower song.title) song.hash m.index) in
    let songs = put song'.hash song' (put song.hash song m.songs) in
    (
      ground (
        arith,
        get-put (to_lower song'.title) (to_lower title) song'.hash
            (put (to_lower song.title) song.hash m.index),
        eq_iff (to_lower song'.title) (to_lower title),
      ),
      ground (
        arith,
        get-put (to_lower song'.title) (to_lower title) song'.hash
            (put (to_lower song.title) song.hash m.index),
        eq_iff (to_lower song'.title) (to_lower title),
        get-remove (to_lower title) (to_lower title) index,
        eq_refl (to_lower title),
      ),
      (
        remove song'.hash songs,
        ground (
          arith,
          get-put (to_lower song'.title) (to_lower title) song'.hash
              (put (to_lower song.title) song.hash m.index),
          eq_iff (to_lower song'.title) (to_lower title),
        ),
        ground (
          arith,
          get-remove song'.hash song.hash songs,
          eq_iff song'.hash song.hash,
          get-put song'.hash song.hash song' (put song.hash song m.songs),
          get-put song.hash song.hash song m.songs,
          eq_refl song.hash,
        ),
        ground (arith, get-remove song'.hash song'.hash songs, eq_refl song'.hash),
        λ h other other'. ground (
          arith,
          get-remove song'.hash h songs,
          eq_iff song'.hash h,
          get-put song'.hash h song' (put song.hash song m.songs),
          get-put song.hash h song m.songs,
          eq_iff song.hash h,
        ),
      ),
    )
