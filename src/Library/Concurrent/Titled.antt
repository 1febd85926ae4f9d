-- ===== src/Library/Concurrent/Titled.antt =====
-- That searches beside other calls give songs of the title that is asked for.
use mathlib.Core.Path.{subst}
use raag.Prelude.{
  ◌≡◌, sym, Str, eq_iff, Bool, true, false, not, All, List, [], ◌∷◌, Option, none, some, ok, ℕ,
  zero, suc, arith, to_lower, All-append, Bool-cases, Option-cases, Result-cases, inl, inr,
}
use raag.Prelude.Dict.{Dict, get, get-put, get-remove}
use raag.Song.{Song, extract_metadata}
use raag.Library.{
  Library, missing, broken, a_file, a_directory, is_audio_file, walk, put_if, remove_if,
  empty_library,
}
use raag.Library.Index.{TitlesByHash, empty-IsIndexed, walk-IsIndexed}
use raag.Library.Concurrent.{
  Write, stores, indexes, unindexes, deletes, replaces_songs, replaces_index, write, Call, adds,
  removes, scans, removed, writes_of, Shared, Event, begins, continues, advance, write_unless, step,
  run, find_song_between,
}

module _ (title_of : Str → Str) where
  -- What the maps hold, at any moment: an indexed hash has the indexed title, and a song stands under
  -- a hash of its title.
  abbrev TitledIndex : Dict Str → Type 0
  TitledIndex m = (t h : Str) → get t m ≡ some h → title_of h ≡ t

  abbrev TitledSongs : Dict Song → Type 0
  TitledSongs m = (h : Str) (s : Song) → get h m ≡ some s → to_lower s.title ≡ title_of h

  abbrev IfSome : {V : Type 0} → (V → Type 0) → Option V → Type 0
  IfSome P none = Unit
  IfSome P (some v) = P v

  record IsTitled (l : Library) : Type 0 where
    index : IfSome TitledIndex l.title_index
    songs : IfSome TitledSongs l.songs

  abbrev IsSound : Write → Type 0
  IsSound (stores song) = to_lower song.title ≡ title_of song.hash
  IsSound (indexes title hash) = title_of hash ≡ title
  IsSound (unindexes title) = Unit
  IsSound (deletes hash) = Unit
  IsSound (replaces_songs m) = TitledSongs m
  IsSound (replaces_index m) = TitledIndex m

  put-TitledIndex :
      (t h : Str) (m : Option (Dict Str))
      → title_of h ≡ t
      → IfSome TitledIndex m
      → IfSome TitledIndex (put_if t h m)
  put-TitledIndex t h none e v = tt
  put-TitledIndex t h (some m) e v = λ u g f. ground (arith, get-put t u h m, eq_iff t u, v u g)

  put-TitledSongs :
      (song : Song) (m : Option (Dict Song))
      → to_lower song.title ≡ title_of song.hash
      → IfSome TitledSongs m
      → IfSome TitledSongs (put_if song.hash song m)
  put-TitledSongs song none e v = tt
  put-TitledSongs song (some m) e v =
      λ h s f. ground (arith, get-put song.hash h song m, eq_iff song.hash h, v h s)

  remove-TitledIndex :
      (t : Str) (m : Option (Dict Str)) → IfSome TitledIndex m → IfSome TitledIndex (remove_if t m)
  remove-TitledIndex t none v = tt
  remove-TitledIndex t (some m) v = λ u h f. ground (arith, get-remove t u m, v u h)

  remove-TitledSongs :
      (h : Str) (m : Option (Dict Song)) → IfSome TitledSongs m → IfSome TitledSongs (remove_if h m)
  remove-TitledSongs h none v = tt
  remove-TitledSongs h (some m) v = λ g s f. ground (arith, get-remove h g m, v g s)

  write-IsTitled : (w : Write) (l : Library) → IsSound w → IsTitled l → IsTitled (write w l)
  unfolding write
  write-IsTitled (stores song) l e v = record {
    index = v.index;
    songs = put-TitledSongs song l.songs e v.songs;
  }
  write-IsTitled (indexes t h) l e v = record {
    index = put-TitledIndex t h l.title_index e v.index;
    songs = v.songs;
  }
  write-IsTitled (unindexes t) l e v = record {
    index = remove-TitledIndex t l.title_index v.index;
    songs = v.songs;
  }
  write-IsTitled (deletes h) l e v = record {
    index = v.index;
    songs = remove-TitledSongs h l.songs v.songs;
  }
  write-IsTitled (replaces_songs m) l e v = record { index = v.index; songs = e }
  write-IsTitled (replaces_index m) l e v = record { index = e; songs = v.songs }

  -- A hash determines the title, for the reader of a call.
  abbrev pub IsFaithful : Event → Type 0
  IsFaithful (begins (adds r path)) = TitlesByHash r title_of
  IsFaithful (begins (removes title)) = Unit
  IsFaithful (begins (scans r stat ws)) = TitlesByHash r title_of
  IsFaithful (continues i stale) = Unit

  removed-IsSound : (t : Str) (h : Option Str) → All IsSound (removed t h)
  removed-IsSound t none = tt
  removed-IsSound t (some h) = (tt, (tt, tt))

  writes_of-IsSound : (c : Call) (l : Library) → IsFaithful (begins c) → All IsSound (writes_of c l)
  unfolding writes_of
  writes_of-IsSound (adds r path) l f = elim (Bool-cases (not (is_audio_file path))) [
    | inl e ↦ rw (e, writes_of) tt
    | inr b ↦ elim (Result-cases (extract_metadata r path)) [
      | inl (song, e) ↦ rw (b, e, writes_of) (f path song e, (sym (f path song e), tt))
      | inr (x, e) ↦ rw (b, e, writes_of) tt
    ]
  ]
  writes_of-IsSound (removes title) l f = elim (Option-cases l.title_index) [
    | inl e ↦ rw (e, writes_of) tt
    | inr (index, e) ↦ rw (e, writes_of) (removed-IsSound (to_lower title) _)
  ]
  writes_of-IsSound (scans r missing ws) l f = tt
  writes_of-IsSound (scans r broken ws) l f = tt
  writes_of-IsSound (scans r a_file ws) l f = tt
  writes_of-IsSound (scans r a_directory ws) l f =
      elim (Option-cases (walk r ws (record { songs = []; index = [] }))) [
        | inl e ↦ rw (e, writes_of) tt
        | inr (m, e) ↦
            let v = walk-IsIndexed title_of r f ws _ m (empty-IsIndexed title_of) e in
            rw (e, writes_of) (λ h s g. (v.stored h s g).1, (λ t h g. (v.indexed t h g).0, tt))
      ]

  record IsSafe (s : Shared) : Type 0 where
    titled : IsTitled s.lib
    sound : All (All IsSound) s.pending

  IfWrite : Option Write → Type 0
  IfWrite none = Unit
  IfWrite (some w) = IsSound w

  advance-IsSound :
      (i : ℕ) (calls : List (List Write))
      → All (All IsSound) calls
      → IfWrite (advance i calls).0 × All (All IsSound) (advance i calls).1
  unfolding advance IfWrite
  advance-IsSound i [] h = (tt, tt)
  advance-IsSound zero ([] ∷ calls) h = (tt, h)
  advance-IsSound zero ((w ∷ ws) ∷ calls) h = (h.0.0, (h.0.1, h.1))
  advance-IsSound (suc i) (ws ∷ calls) h =
      let (w, rest) = advance-IsSound i calls h.1 in (w, (h.0, rest))

  write_unless-IsTitled :
      (stale : Bool) (w : Option Write) (l : Library)
      → IfWrite w
      → IsTitled l
      → IsTitled (write_unless stale w l)
  unfolding IfWrite
  write_unless-IsTitled stale none l e v = v
  write_unless-IsTitled true (some w) l e v = v
  write_unless-IsTitled false (some w) l e v = write-IsTitled w l e v

  step-IsSafe : (e : Event) (s : Shared) → IsFaithful e → IsSafe s → IsSafe (step e s)
  unfolding step
  step-IsSafe (begins c) s f v = record {
    titled = v.titled;
    sound =
        All-append (All IsSound) s.pending (writes_of c s.lib ∷ []) v.sound
          (writes_of-IsSound c s.lib f, tt);
  }
  step-IsSafe (continues i stale) s f v =
      let (w, rest) = advance-IsSound i s.pending v.sound in
      record {
        titled = write_unless-IsTitled stale (advance i s.pending).0 s.lib w v.titled;
        sound = rest;
      }

  run-IsSafe : (es : List Event) (s : Shared) → All IsFaithful es → IsSafe s → IsSafe (run es s)
  unfolding run
  run-IsSafe [] s f v = v
  run-IsSafe (e ∷ es) s f v = run-IsSafe es (step e s) f.1 (step-IsSafe e s f.0 v)

  find_song_between-titled :
      (title : Str) (then_ later : Library) (song : Song)
      → IsTitled then_
      → IsTitled later
      → find_song_between title then_ later ≡ ok song
      → to_lower song.title ≡ to_lower title
  unfolding find_song_between
  find_song_between-titled title then_ later song v v' e = elim (Option-cases then_.title_index) [
    | inl n ↦ absurd (ground (arith, n, e))
    | inr (index, i) ↦ elim (Option-cases (get (to_lower title) index)) [
      | inl n ↦ absurd (ground (arith, i, n, e))
      | inr (h, at) ↦ elim (Option-cases later.songs) [
        | inl n ↦ absurd (ground (arith, i, at, n, e))
        | inr (m, j) ↦ elim (Option-cases (get h m)) [
          | inl n ↦ absurd (ground (arith, i, at, j, n, e))
          | inr (s, here) ↦
              let named = subst (IfSome TitledIndex) i v.index in
              let stored = subst (IfSome TitledSongs) j v'.songs in
              ground (arith, i, at, j, here, e, named (to_lower title) h at, stored h s here)
        ]
      ]
    ]
  ]

  -- Whatever calls of AddSong, RemoveSong and ScanMusicLibrary run at the same time, from the empty
  -- maps of NewLibrary on, their single stores interleaved in any order or lost to a scan, and the
  -- file system answering each call as it likes: a search, which reads the index at one moment and
  -- the songs at a later one, gives no song but one that has the title asked for, case aside. The
  -- tags of a file must depend on its hash alone.
  pub found_titled :
      (music_dir title : Str) (before between : List Event) (song : Song)
      → All IsFaithful before
      → All IsFaithful between
      → let s = run before (record { lib = empty_library music_dir; pending = [] }) in
        find_song_between title s.lib (run between s).lib ≡ ok song
        → to_lower song.title ≡ to_lower title
  found_titled music_dir title before between song f g e =
      let start : Shared = record { lib = empty_library music_dir; pending = [] } in
      let empty = empty-IsIndexed title_of in
      let v = run-IsSafe before start f (record {
        titled = record {
          index = λ t h k. (empty.indexed t h k).0;
          songs = λ h s k. (empty.stored h s k).1;
        };
        sound = tt;
      }) in
      let v' = run-IsSafe between (run before start) g v in
      find_song_between-titled title _ _ song v.titled v'.titled e
