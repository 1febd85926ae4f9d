-- ===== src/Tests/Library.antt =====
-- The library at concrete files.
use raag.Prelude.{
  ◌≡◌, ◌≢◌, refl, Str, codes, [], none, some, ok, err, to_lower, has_suffix, has_prefix, lower_byte,
  arith,
}
use raag.Prelude.Dict.{Dict, get}
use raag.Prelude.Int.{pos}
use raag.Prelude.Dict.{put, remove}
use raag.Prelude.{◌==◌, All, List, ◌∷◌, true, false}
use raag.Library.{empty_library}
use raag.Library.Concurrent.{
  Event, Call, adds, begins, continues, run, step, advance, find_song_between,
}
use raag.Library.Concurrent.Titled.{IsFaithful, found_titled}
use raag.Song.{Song, Reader, extract_metadata}
use raag.Library.{Maps, song_not_found, is_audio_file, add_song, find_song, remove_song}
use raag.Library.Index.{TitlesByHash}
use raag.Library.Shadow.{with_maps, remove_song_shadowed}

-- Files whose content is their path; a file's title is given by the argument.
abbrev pub reader : (Str → Str) → Reader
reader title_of = record {
  File = Str;
  music_dir = some (codes "/music");
  open_root = some;
  clean = λ path. path;
  rel = λ dir path. some path;
  open_in = λ root path. some path;
  stat_size = λ file. some (pos 3);
  read_tags = λ file. some (record { title = title_of file; artist = []; album = [] });
  sha256_hex = some;
}

abbrev song_at : (Str → Str) → Str → Song
song_at title_of path = record {
  title = title_of path;
  artist = [];
  album = [];
  path = path;
  hash = path;
  size = pos 3;
}

abbrev pub own : Str → Str
own path = path

abbrev pub same : Str → Str
same path = codes "Same"

pub reader-TitlesByHash : TitlesByHash (reader own) to_lower
unfolding extract_metadata
reader-TitlesByHash path song e = ground (arith, e)

abbrev pub a : Str
a = codes "A.mp3"

abbrev pub b : Str
b = codes "B.ogg"

abbrev none_yet : Maps
none_yet = record { songs = []; index = [] }

remove_song_shadowed_example :
    let l =
      (add_song
        (reader same)
        b
        (add_song (reader same) a (with_maps (codes "/music") none_yet)).0).0 in
    ((remove_song (codes "Same") l).1 ≡ ok tt)
    × (find_song (codes "Same") (remove_song (codes "Same") l).0
        ≡ err (song_not_found (codes "Same")))
    × ((songs : Dict Song) × ((remove_song (codes "Same") l).0.songs ≡ some songs)
        × (get a songs ≡ some (song_at same a))
        × (get b songs ≡ none)
        × ((h : Str) → h ≢ a → h ≢ b → get h songs ≡ get h none_yet.songs))
unfolding is_audio_file extract_metadata to_lower has_suffix has_prefix lower_byte
remove_song_shadowed_example =
    remove_song_shadowed (reader same) a b (codes "/music") (codes "Same") none_yet (song_at same a)
      (song_at same b) refl refl refl refl refl refl (ground arith)

-- A file is added while it is found: its song is stored when the index is read, and removed and added
-- again before the songs are read.
abbrev adding : List Event
adding = begins (adds (reader own) a) ∷ (continues 0 false ∷ (continues 0 false ∷ []))

abbrev readding : List Event
readding =
    begins (Call.removes a)
    ∷ (continues 1 false
        ∷ (begins (adds (reader own) a)
            ∷ (continues 1 false ∷ (continues 2 false ∷ (continues 2 true ∷ [])))))

adding-IsFaithful : All (IsFaithful to_lower) adding
adding-IsFaithful = (reader-TitlesByHash, (tt, (tt, tt)))

readding-IsFaithful : All (IsFaithful to_lower) readding
readding-IsFaithful = (tt, (tt, (reader-TitlesByHash, (tt, (tt, (tt, tt))))))

found_titled_example : to_lower (song_at own a).title ≡ to_lower a
unfolding is_audio_file extract_metadata to_lower has_suffix has_prefix lower_byte run step advance
    find_song_between get put remove ◌==◌
found_titled_example =
    found_titled to_lower (codes "/music") a adding readding (song_at own a) adding-IsFaithful
      readding-IsFaithful refl

-- A removal that began once a song was stored under the same title, and goes on last, leaves the title
-- indexed with no song.
abbrev racing : List Event
racing =
    begins (Call.removes a)
    ∷ (continues 1 false
        ∷ (begins (adds (reader own) a)
            ∷ (continues 2 false ∷ (continues 2 false ∷ (continues 1 false ∷ [])))))

raced :
    let l =
      (run racing
        (run adding (record { lib = empty_library (codes "/music"); pending = [] }))).lib in
    (l.title_index ≡ some ((codes "a.mp3", a) ∷ [])) × (l.songs ≡ some [])
unfolding is_audio_file extract_metadata to_lower has_suffix has_prefix lower_byte run step advance
    get put remove ◌==◌
raced = (refl, refl)
