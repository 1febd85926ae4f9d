-- ===== src/Storage.antt =====
-- internal/storage/storage.go, WriteJSONAtomic. The disk is a map from paths to contents. Which
-- system calls fail is an argument, so a theorem holds for every pattern of failures; the disks
-- that stood during the call are recorded, so a crash at any moment can be spoken of.
pub mod Atomic
pub mod Playlists
pub mod State
use raag.Prelude.{
  Str, Bool, true, false, List, [], ◌∷◌, Option, none, some, Result, ok, err, if◌then◌else◌,
}
use raag.Prelude.Dict.{Dict, get, put, remove}

pub data Error : Type 0 where
  no_config_dir no_path create_failed encode_failed sync_failed close_failed rename_failed : Error
  no_relative_path root_failed stat_failed is_directory read_failed decode_failed : Error

abbrev pub Disk : Type 0
Disk = Dict Str

-- `written` is what reaches the temporary file if the encoder fails half way.
pub record Faults : Type 0 where
  pub no_dir : Bool
  pub create : Bool
  pub encode : Bool
  pub sync : Bool
  pub close : Bool
  pub rename : Bool
  pub written : Str

-- The disk, and every disk so far, the latest first.
pub record Store : Type 0 where
  pub disk : Disk
  pub seen : List Disk

abbrev pub M : Type 0 → Type 0
M A = Store → Result Error A × Store

continue : {A B : Type 0} → Result Error A → (A → M B) → M B
continue (ok a) f s = f a s
continue (err e) f s = (err e, s)

infixl 5 ◌>>=◌ ◌>>◌
unfoldable pub ◌>>=◌ : {A B : Type 0} → M A → (A → M B) → M B
unfolding continue
◌>>=◌ m f s = let (r, s') = m s in continue r f s'

abbrev pub ◌>>◌ : {B : Type 0} → M Unit → M B → M B
m >> k = m >>= λ _. k

fail_if : Bool → Error → M Unit
fail_if true e s = (err e, s)
fail_if false e s = (ok tt, s)

write : Disk → M Unit
write d s = (ok tt, record { disk = d; seen = d ∷ s.seen })

encode_to : Str → Bool → Str → Str → M Unit
unfolding write
encode_to tmp true written bytes s = (err encode_failed, (write (put tmp written s.disk) s).1)
encode_to tmp false written bytes s = write (put tmp bytes s.disk) s

move : Str → Str → Option Str → M Unit
unfolding write
move tmp path none s = (err rename_failed, s)
move tmp path (some c) s = write (put path c (remove tmp s.disk)) s

-- os.Rename replaces the target in one step.
rename_file : Bool → Str → Str → M Unit
unfolding move
rename_file true tmp path s = (err rename_failed, s)
rename_file false tmp path s = move tmp path (get tmp s.disk) s

-- What stands between the `defer` and the end of the function.
fill : Faults → Str → Str → Str → M Unit
unfolding ◌>>=◌ fail_if encode_to rename_file
fill f tmp path bytes = do
  encode_to tmp f.encode f.written bytes
  fail_if f.sync sync_failed
  fail_if f.close close_failed
  rename_file f.rename tmp path

-- The deferred os.Remove of the temporary file.
deferred : Str → Result Error Unit × Store → Result Error Unit × Store
unfolding write
deferred tmp (r, s) = (r, (write (remove tmp s.disk) s).1)

-- `path` is cleaned; `tmp` is the name that os.CreateTemp chose; `bytes` is the encoded value.
unfoldable pub write_json_atomic : Faults → Str → Str → Str → M Unit
unfolding fill deferred write fail_if ◌>>=◌
write_json_atomic f tmp path bytes = do
  fail_if f.no_dir no_config_dir
  fail_if f.create create_failed
  λ s. deferred tmp (fill f tmp path bytes (write (put tmp [] s.disk) s).1)
