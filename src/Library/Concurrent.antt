-- ===== src/Library/Concurrent.antt =====
-- internal/library/library.go without locks: AddSong, RemoveSong and ScanMusicLibrary as the single
-- stores that they make, which goroutines interleave, and FindSong as its two reads.
pub mod Titled
use mathlib.Core.Path.{subst}
use raag.Prelude.{
  ◌≡◌, refl, sym, Str, eq_iff, Bool, true, false, not, All, List, [], ◌∷◌, ◌++◌, Option, none, some,
  Result, ok, err, ℕ, zero, suc, arith, to_lower, All-append, Bool-cases, Option-cases,
  Result-cases, inl, inr, if◌then◌else◌,
}
use raag.Prelude.Dict.{Dict, get, get-put, get-remove}
use raag.Song.{Song, Reader, MetadataError, extract_metadata}
use raag.Library.{
  Error, Library, Walked, Stat, missing, broken, a_file, a_directory, Maps, song_not_found,
  is_audio_file, walk, visit, store_song, put_if, remove_if, lookup_song, find_song, add_song,
  remove_song, replace, scan_music_library, empty_library,
}
use raag.Library.Index.{TitlesByHash, empty-IsIndexed, walk-IsIndexed}

-- One store to the map of songs or to the index, or one of their pointers.
pub data Write : Type 0 where
  stores : Song → Write
  indexes : Str → Str → Write
  unindexes deletes : Str → Write
  replaces_songs : Dict Song → Write
  replaces_index : Dict Str → Write

unfoldable write : Write → Library → Library
write (stores song) l = record l { songs = put_if song.hash song l.songs }
write (indexes title hash) l = record l { title_index = put_if title hash l.title_index }
write (unindexes title) l = record l { title_index = remove_if title l.title_index }
write (deletes hash) l = record l { songs = remove_if hash l.songs }
write (replaces_songs m) l = record l { songs = some m }
write (replaces_index m) l = record l { title_index = some m }

-- A call, with what the file system answers to it.
pub data Call : Type 1 where
  adds : Reader → Str → Call
  removes : Str → Call
  scans : Reader → Stat → List Walked → Call

abbrev added : Result MetadataError Song → List Write
added (err e) = []
added (ok song) = stores song ∷ (indexes (to_lower song.title) song.hash ∷ [])

abbrev replaced : Option Maps → List Write
replaced none = []
replaced (some m) = replaces_songs m.songs ∷ (replaces_index m.index ∷ [])

abbrev removed : Str → Option Str → List Write
removed title none = []
removed title (some hash) = unindexes title ∷ (deletes hash ∷ [])

-- The stores of a call, in their order. RemoveSong reads the index first.
unfoldable writes_of : Call → Library → List Write
writes_of (adds r path) l = if not (is_audio_file path) then [] else added (extract_metadata r path)
writes_of (removes title) l = elim l.title_index [
  | none ↦ []
  | some index ↦ removed (to_lower title) (get (to_lower title) index)
]
writes_of (scans r a_directory ws) l = replaced (walk r ws (record { songs = []; index = [] }))
writes_of (scans r _ ws) l = []

unfoldable write_all : List Write → Library → Library
unfolding write
write_all [] l = l
write_all (w ∷ ws) l = write_all ws (write w l)

abbrev done : Call → Library → Library
done (adds r path) l = (add_song r path l).0
done (removes title) l = (remove_song title l).0
done (scans r stat ws) l = (scan_music_library r stat ws l).0

write_all-replaced : (m : Option Maps) (l : Library) → write_all (replaced m) l ≡ (replace m l).0
unfolding write_all write
write_all-replaced none l = refl
write_all-replaced (some m) l = refl

-- The stores of a call that nothing interrupts are the call.
write_all-writes_of : (c : Call) (l : Library) → write_all (writes_of c l) l ≡ done c l
unfolding write_all write writes_of add_song remove_song scan_music_library
write_all-writes_of (adds r path) l = elim (Result-cases (extract_metadata r path)) [
  | inl (song, e) ↦ ground (arith, e)
  | inr (x, e) ↦ ground (arith, e)
]
write_all-writes_of (removes title) l = ground arith
write_all-writes_of (scans r missing ws) l = refl
write_all-writes_of (scans r broken ws) l = refl
write_all-writes_of (scans r a_file ws) l = refl
write_all-writes_of (scans r a_directory ws) l = write_all-replaced _ l

-- The library and the stores that each call has still to make.
pub record Shared : Type 0 where
  pub lib : Library
  pub pending : List (List Write)

-- A call begins; or the i-th call makes its next store, which is lost if a scan replaced the map
-- after the call had loaded its pointer.
pub data Event : Type 1 where
  begins : Call → Event
  continues : ℕ → Bool → Event

unfoldable pub advance : ℕ → List (List Write) → Option Write × List (List Write)
advance i [] = (none, [])
advance zero ([] ∷ calls) = (none, [] ∷ calls)
advance zero ((w ∷ ws) ∷ calls) = (some w, ws ∷ calls)
advance (suc i) (ws ∷ calls) = let (w, rest) = advance i calls in (w, ws ∷ rest)

abbrev write_unless : Bool → Option Write → Library → Library
write_unless stale none l = l
write_unless stale (some w) l = if stale then l else write w l

unfoldable pub step : Event → Shared → Shared
unfolding write writes_of advance
step (begins c) s = record s { pending = s.pending ++ writes_of c s.lib ∷ [] }
step (continues i stale) s =
    let (w, pending) = advance i s.pending in
    record { lib = write_unless stale w s.lib; pending = pending }

unfoldable pub run : List Event → Shared → Shared
unfolding step
run [] s = s
run (e ∷ es) s = run es (step e s)

-- FindSong, which reads the index at one moment and the songs at another.
unfoldable pub find_song_between : Str → Library → Library → Result Error Song
find_song_between title then_ later = elim then_.title_index [
  | none ↦ err (song_not_found title)
  | some index ↦ elim (get (to_lower title) index) [
    | none ↦ err (song_not_found title)
    | some hash ↦ lookup_song title later.songs hash
  ]
]

find_song_between-same :
    (title : Str) (l : Library) → find_song_between title l l ≡ find_song title l
unfolding find_song_between find_song
find_song_between-same title l = refl
