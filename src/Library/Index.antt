-- ===== src/Library/Index.antt =====
-- The index leads to the songs.
use mathlib.Core.Path.{subst}
use mathlib.Core.Option.{some-injective}
use raag.Prelude.{
  ◌≡◌, refl, Str, eq_iff, Bool, true, not, ◌&&◌, List, [], ◌∷◌, none, some, ok, is_ok, arith,
  to_lower, Bool-cases, Option-cases, Result-cases, inl, inr,
}
use raag.Prelude.Dict.{Dict, get, has, remove, get-put, get-remove}
use raag.Song.{Song, Reader, extract_metadata}
use raag.Library.{
  Library, Walked, Stat, entry, unreadable, missing, broken, a_file, a_directory, Maps,
  is_audio_file, store_song, visit, walk, scan_music_library, find_song, add_song, remove_song,
  empty_library, new_library,
}

-- The tags are read from the bytes that are hashed, so a hash determines the title.
abbrev pub TitlesByHash : Reader → (Str → Str) → Type 0
TitlesByHash r title_of =
    (path : Str) (song : Song)
    → extract_metadata r path ≡ ok song
    → to_lower song.title ≡ title_of song.hash

-- An indexed hash is that of a stored song with the indexed title, and a song stands under its
-- hash.
pub record IsIndexed (title_of : Str → Str) (m : Maps) : Type 0 where
  pub indexed : (t h : Str) → get t m.index ≡ some h → (title_of h ≡ t) × (has h m.songs ≡ true)
  pub stored :
      (h : Str) (s : Song) → get h m.songs ≡ some s → (s.hash ≡ h) × (to_lower s.title ≡ title_of h)

module _ (title_of : Str → Str) where
  store_song-IsIndexed :
      (song : Song) (m : Maps)
      → to_lower song.title ≡ title_of song.hash
      → IsIndexed title_of m
      → IsIndexed title_of (store_song song m)
  unfolding store_song
  store_song-IsIndexed song m e v = record {
    indexed = λ t h g. ground (
      arith,
      get-put (to_lower song.title) t song.hash m.index,
      eq_iff (to_lower song.title) t,
      get-put song.hash h song m.songs,
      eq_iff song.hash h,
      v.indexed t h,
    );
    stored =
        λ h s g. ground (arith, get-put song.hash h song m.songs, eq_iff song.hash h, v.stored h s);
  }

  -- The maps of a library that is set up.
  pub record IsSetUp (l : Library) (m : Maps) : Type 0 where
    pub songs_set : l.songs ≡ some m.songs
    pub index_set : l.title_index ≡ some m.index
    pub is_indexed : IsIndexed title_of m

  pub empty-IsIndexed : IsIndexed title_of (record { songs = []; index = [] })
  unfolding get
  empty-IsIndexed = record { indexed = λ t h e. cc; stored = λ h s e. cc }

  module _ (r : Reader) (faithful : TitlesByHash r title_of) where
    visit-IsIndexed :
        (path name : Str) (is_dir : Bool) (m : Maps)
        → IsIndexed title_of m
        → IsIndexed title_of (visit r path name is_dir m)
    unfolding visit
    visit-IsIndexed path name is_dir m v = elim (Result-cases (extract_metadata r path)) [
      | inl (song, e) ↦ elim (Bool-cases (not is_dir && is_audio_file name)) [
        | inl b ↦ rw (b, e) (store_song-IsIndexed song m (faithful path song e) v)
        | inr b ↦ rw b v
      ]
      | inr (x, e) ↦ elim (Bool-cases (not is_dir && is_audio_file name)) [
        | inl b ↦ rw (b, e) v
        | inr b ↦ rw b v
      ]
    ]

    pub walk-IsIndexed :
        (ws : List Walked) (m m' : Maps)
        → IsIndexed title_of m
        → walk r ws m ≡ some m'
        → IsIndexed title_of m'
    unfolding walk
    walk-IsIndexed [] m m' v e = subst (IsIndexed title_of) (some-injective m m' e) v
    walk-IsIndexed (entry path name is_dir ∷ ws) m m' v e =
        walk-IsIndexed ws _ m' (visit-IsIndexed path name is_dir m v) e
    walk-IsIndexed (unreadable ∷ ws) m m' v e = cc

  remove-IsIndexed :
      (t h : Str) (m : Maps)
      → get t m.index ≡ some h
      → IsIndexed title_of m
      → IsIndexed title_of (record { songs = remove h m.songs; index = remove t m.index })
  remove-IsIndexed t h m e v = record {
    indexed = λ u g f. ground (
      arith,
      get-remove t u m.index,
      eq_iff t u,
      get-remove h g m.songs,
      eq_iff h g,
      v.indexed u g,
      v.indexed t h,
    );
    stored = λ g s f. ground (arith, get-remove h g m.songs, eq_iff h g, v.stored g s);
  }

pub data Call : Type 0 where
  scans : Stat → List Walked → Call
  adds removes : Str → Call

module _ (r : Reader) where
  unfoldable pub step : Call → Library → Library
  step (scans stat ws) l = (scan_music_library r stat ws l).0
  step (adds path) l = (add_song r path l).0
  step (removes title) l = (remove_song title l).0

  unfoldable pub run : List Call → Library → Library
  unfolding step
  run [] l = l
  run (c ∷ cs) l = run cs (step c l)

-- The index as a map, which is empty where there is none.
abbrev pub index_of : Library → Dict Str
index_of l = elim l.title_index [ none ↦ [] | some index ↦ index ]

module _ (title_of : Str → Str) (r : Reader) (faithful : TitlesByHash r title_of) where
  -- A library whose maps are set and whose index leads to its songs.
  abbrev pub IsGood : Library → Type 0
  IsGood l = (m : Maps) × IsSetUp title_of l m

  pub scan-IsGood :
      (stat : Stat) (ws : List Walked) (l : Library)
      → IsGood l
      → IsGood (scan_music_library r stat ws l).0
  unfolding scan_music_library
  scan-IsGood missing ws l v = v
  scan-IsGood broken ws l v = v
  scan-IsGood a_file ws l v = v
  scan-IsGood a_directory ws l v =
      elim (Option-cases (walk r ws (record { songs = []; index = [] }))) [
        | inl e ↦ rw e v
        | inr (m, e) ↦ rw e (
          m,
          record {
            songs_set = refl;
            index_set = refl;
            is_indexed = walk-IsIndexed title_of r faithful ws _ m (empty-IsIndexed title_of) e;
          },
        )
      ]

  pub add-IsGood : (path : Str) (l : Library) → IsGood l → IsGood (add_song r path l).0
  unfolding add_song store_song
  add-IsGood path l (m, v) = elim (Bool-cases (not (is_audio_file path))) [
    | inl b ↦ rw b (m, v)
    | inr b ↦ elim (Result-cases (extract_metadata r path)) [
      | inr (x, e) ↦ rw (b, e) (m, v)
      | inl (song, e) ↦
          rw (b, e)
            (
              store_song song m,
              record {
                songs_set = ground (arith, v.songs_set);
                index_set = ground (arith, v.index_set);
                is_indexed =
                    store_song-IsIndexed title_of song m (faithful path song e) v.is_indexed;
              },
            )
    ]
  ]

  pub remove-IsGood : (title : Str) (l : Library) → IsGood l → IsGood (remove_song title l).0
  unfolding remove_song
  remove-IsGood title l (m, v) = elim (Option-cases (get (to_lower title) m.index)) [
    | inl e ↦ (
      m,
      record {
        songs_set = ground (arith, v.songs_set, v.index_set);
        index_set = ground (arith, v.index_set);
        is_indexed = v.is_indexed;
      },
    )
    | inr (h, e) ↦ (
      record { songs = remove h m.songs; index = remove (to_lower title) m.index },
      record {
        songs_set = ground (arith, v.songs_set, v.index_set);
        index_set = ground (arith, v.index_set);
        is_indexed = remove-IsIndexed title_of (to_lower title) h m e v.is_indexed;
      },
    )
  ]

  run-IsGood : (cs : List Call) (l : Library) → IsGood l → IsGood (run r cs l)
  unfolding run
  run-IsGood [] l v = v
  run-IsGood (scans stat ws ∷ cs) l v = run-IsGood cs _ (scan-IsGood stat ws l v)
  run-IsGood (adds path ∷ cs) l v = run-IsGood cs _ (add-IsGood path l v)
  run-IsGood (removes title ∷ cs) l v = run-IsGood cs _ (remove-IsGood title l v)

  pub find_song-IsGood :
      (title : Str) (l : Library)
      → IsGood l
      → ((song : Song) → find_song title l ≡ ok song → to_lower song.title ≡ to_lower title)
        × (is_ok (find_song title l) ≡ has (to_lower title) (index_of l))
  unfolding find_song
  find_song-IsGood title l (m, v) = elim (Option-cases (get (to_lower title) m.index)) [
    | inl e ↦ (λ song f. ground (arith, v.index_set), ground (arith, v.index_set))
    | inr (h, e) ↦ elim (Option-cases (get h m.songs)) [
      | inl g ↦ (
        λ song f. ground (arith, v.index_set, v.songs_set),
        ground (arith, v.index_set, v.songs_set, v.is_indexed.indexed (to_lower title) h),
      )
      | inr (s, g) ↦ (
        λ song f. ground (
          arith,
          v.index_set,
          v.songs_set,
          v.is_indexed.indexed (to_lower title) h,
          v.is_indexed.stored h s,
        ),
        ground (arith, v.index_set, v.songs_set),
      )
    ]
  ]

  pub new_library-IsGood :
      (made : Bool) (stat : Stat) (ws : List Walked) (music_dir : Str) (l : Library)
      → new_library made r stat ws music_dir ≡ ok l
      → IsGood l
  unfolding new_library
  new_library-IsGood made stat ws music_dir l e = subst IsGood (ground (arith, e)) (
      scan-IsGood stat ws (empty_library music_dir) (
        record { songs = []; index = [] },
        record { songs_set = refl; index_set = refl; is_indexed = empty-IsIndexed title_of },
      ))

  -- After any scans, additions and removals, a search by title that succeeds gives a song of that
  -- title, case aside, and it succeeds exactly if the title is indexed: the index never leads to
  -- a song that is gone or to another one; the tags of a file must depend on its hash alone.
  pub find_song_sound :
      (music_dir : Str) (cs : List Call) (title : Str)
      → (let l = run r cs (empty_library music_dir) in
          ((song : Song) → find_song title l ≡ ok song → to_lower song.title ≡ to_lower title)
          × (is_ok (find_song title l) ≡ has (to_lower title) (index_of l)))
  find_song_sound music_dir cs title = find_song-IsGood title _ (
      run-IsGood cs (empty_library music_dir) (
        record { songs = []; index = [] },
        record { songs_set = refl; index_set = refl; is_indexed = empty-IsIndexed title_of },
      ))
