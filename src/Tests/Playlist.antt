-- ===== src/Tests/Playlist.antt =====
-- Playlists and their storage at concrete managers, files and disks.
use raag.Prelude.{
  ◌≡◌, refl, ◌⊎◌, All, Str, codes, true, false, List, [], ◌∷◌, none, some, ok, ◌==◌, if◌then◌else◌,
  arith,
}
use raag.Prelude.Dict.{get, put, remove}
use raag.Prelude.Int.{pos, negsuc}
use raag.Song.{Song}
use raag.Playlist.{Manager, new_manager}
use raag.Playlist.Spec.{Op, creates, deletes, adds, removes, view, run, run_spec, run-refines}
use raag.Storage.{Disk, Faults, Error, Store, write_json_atomic}
use raag.Storage
use raag.Storage.Playlists
use raag.Storage.Playlists.{saved, save_playlists, Lookup, Opened, Found, read_file, load_playlists}
use raag.Storage.Playlists.RoundTrip.{load-save}
use raag.Storage.Atomic.{write_crash_safe}

abbrev song_of : Str → Song
song_of title = record {
  title = title;
  artist = [];
  album = [];
  path = codes "/music/a.mp3";
  hash = title;
  size = pos 3;
}

abbrev mix : Str
mix = codes "mix"

abbrev pub manager : Manager
manager = record {
  playlists =
      (mix, record { name = mix; songs = song_of (codes "a") ∷ song_of (codes "b") ∷ [] }) ∷ [];
}

abbrev ops : List Op
ops =
    creates (codes "new")
    ∷ adds (codes "new") (song_of (codes "c"))
    ∷ removes mix (pos 0)
    ∷ removes mix (negsuc 0)
    ∷ deletes (codes "none")
    ∷ []

run-refines_example :
    (view (run ops manager).0 ≡ (run_spec ops (view manager)).0)
    × ((run ops manager).1 ≡ (run_spec ops (view manager)).1)
run-refines_example = run-refines ops manager

abbrev faultless : Faults
faultless = record {
  no_dir = false;
  create = false;
  encode = false;
  sync = false;
  close = false;
  rename = false;
  written = [];
}

-- The write that fails half way.
abbrev torn : Faults
torn = record faultless { encode = true; written = codes "{" }

abbrev path : Str
path = codes "/config/playlists.json"

abbrev tmp : Str
tmp = codes "/config/tmp.1"

abbrev disk : Disk
disk = (path, codes "{}") ∷ []

write_crash_safe_example :
    All
      (λ at. (get path at ≡ get path disk) ⊎ (get path at ≡ some (codes "[]")))
      (write_json_atomic torn tmp path (codes "[]") (record { disk = disk; seen = [] })).1.seen
write_crash_safe_example = write_crash_safe torn tmp path (codes "[]") disk (ground arith)

-- Codecs that know one value.
abbrev pub codec : Playlists.Codec
codec = record {
  encode = λ d. codes "[mix]";
  decode = λ s. if s == codes "[mix]" then some (saved manager) else none;
}

-- A file that reads as the given bytes.
abbrev pub reads : Str → Lookup
reads bytes = record {
  no_path = false;
  no_dir = false;
  no_rel = false;
  root = Opened.there;
  found = Found.file (some bytes);
}

load-save_example :
    ((load_playlists codec (reads (codes "[mix]")) new_manager).1 ≡ ok tt)
    × ((j : Str)
        → view (load_playlists codec (reads (codes "[mix]")) new_manager).0 j ≡ view manager j)
unfolding save_playlists write_json_atomic read_file get put remove ◌==◌ Storage.◌>>=◌
load-save_example =
    load-save codec manager faultless tmp path disk (reads (codes "[mix]")) (ground arith) refl
      (ground arith) refl refl
