-- ===== src/Storage/State.antt =====
-- internal/storage/state.go: what the player keeps between two runs.
use raag.Prelude.{
  ◌≡◌, refl, ◌≢◌, Str, Bool, false, List, [], Option, none, some, Result, ok, err, arith,
}
use raag.Prelude.Int.{ℤ, pos}
use raag.Prelude.Dict.{get}
use raag.Storage.{Error, M, Disk, Faults, write_json_atomic, no_path, decode_failed}
use raag.Storage.Atomic.{Holds, write-Holds}
use raag.Storage.Playlists.{Lookup, read_file}

-- `last_played` is a time in nanoseconds.
pub record PlayerState : Type 0 where
  pub last_song : Str
  pub position : ℤ
  pub volume : ℤ
  pub queue : List Str
  pub current_idx : ℤ
  pub shuffle : Bool
  pub repeat : Bool
  pub last_played : ℤ

pub record Codec : Type 0 where
  pub encode : PlayerState → Str
  pub decode : Str → Option PlayerState

-- The fields that the code leaves out of the literal are zero.
abbrev pub initial : PlayerState
initial = record {
  last_song = [];
  position = pos 0;
  volume = pos 50;
  queue = [];
  current_idx = pos 0;
  shuffle = false;
  repeat = false;
  last_played = pos 0;
}

abbrev decoded : Option PlayerState → Result Error PlayerState
decoded none = err decode_failed
decoded (some s) = ok s

abbrev state_of : Codec → Result Error (Option Str) → Result Error PlayerState
state_of c (err e) = err e
state_of c (ok none) = ok initial
state_of c (ok (some bytes)) = decoded (c.decode bytes)

unfoldable pub load_state : Codec → Lookup → Result Error PlayerState
load_state c l = state_of c (read_file l)

unfoldable pub save_state : Codec → Faults → Str → Option Str → PlayerState → M Unit
save_state c f tmp none p s = (err no_path, s)
save_state c f tmp (some path) p s = write_json_atomic f tmp path (c.encode p) s

-- After a save of the player's state that succeeded, loading gives that state, and after one that
-- failed it gives what it gave before, if the codec gives back this state and loading sees what
-- stands in the file before and after, and the temporary name is not the file's.
pub load_state-save_state :
    (c : Codec) (p : PlayerState) (f : Faults) (tmp path : Str) (d : Disk) (l l' : Lookup)
    → tmp ≢ path
    → c.decode (c.encode p) ≡ some p
    → read_file l ≡ ok (get path d)
    → read_file l'
      ≡ ok (get path (save_state c f tmp (some path) p (record { disk = d; seen = [] })).1.disk)
    → load_state c l' ≡ elim (save_state c f tmp (some path) p (record { disk = d; seen = [] })).0 [
      | ok _ ↦ ok p
      | err _ ↦ load_state c l
    ]
unfolding load_state save_state
load_state-save_state c p f tmp path d l l' ne dec before after =
    go (write_json_atomic f tmp path (c.encode p) (record { disk = d; seen = [] })).0
      (write-Holds f tmp path (c.encode p) d ne)
  where
    go :
        (r : Result Error Unit)
        → Holds path
            (c.encode p)
            (get path d)
            r
            (write_json_atomic f tmp path (c.encode p) (record { disk = d; seen = [] })).1.disk
        → state_of c (read_file l') ≡ elim r [ ok _ ↦ ok p | err _ ↦ state_of c (read_file l) ]
    go (ok _) h = rw (after, h) (ground arith)
    go (err e) h = rw (after, h, before) refl
