-- ===== src/Storage/Atomic.antt =====
-- The write is all or nothing, also when the machine stops in the middle of it.
use raag.Prelude.{
  ◌≡◌, ◌≢◌, ◌⊎◌, Str, ◌==◌, eq_iff, eq_refl, [], Option, none, some, Result, ok, err, All, arith,
  false,
}
use raag.Prelude.Dict.{get, get-put, get-remove}
use raag.Storage.{Error, Disk, Faults, Store, write_json_atomic}

abbrev pub Holds : Str → Str → Option Str → Result Error Unit → Disk → Type 0
Holds path bytes old (ok _) d = get path d ≡ some bytes
Holds path bytes old (err e) d = get path d ≡ old

ruleset steps = (arith, get-put, get-remove, eq_refl, eq_iff)

not_eq : (s t : Str) → s ≢ t → (s == t) ≡ false
not_eq s t ne = ground (arith, eq_iff s t)

abbrev started : Disk → Store
started d = record { disk = d; seen = [] }

module _ (f : Faults) (tmp path bytes : Str) (d : Disk) (ne : tmp ≢ path) where
  abbrev pub after : Store
  after = (write_json_atomic f tmp path bytes (started d)).1

  pub write-Holds :
      Holds path bytes (get path d) (write_json_atomic f tmp path bytes (started d)).0 after.disk
  unfolding write_json_atomic
  write-Holds = grind (steps, not_eq tmp path, not_eq path tmp)

  write_no_temporary : get tmp d ≡ none → get tmp after.disk ≡ none
  unfolding write_json_atomic
  write_no_temporary fresh = grind (steps, not_eq tmp path, not_eq path tmp)

  write_others : (j : Str) → tmp ≢ j → path ≢ j → get j after.disk ≡ get j d
  unfolding write_json_atomic
  write_others j nt np = grind (steps, not_eq tmp j, not_eq path j)

-- If the temporary name is new and not the file's, a write either fails and leaves the file as it
-- was, or succeeds and leaves the new contents in it; no temporary file stays behind and no other
-- file changes.
pub write_json_atomic_lem :
    (f : Faults) (tmp path bytes : Str) (d : Disk)
    → tmp ≢ path
    → get tmp d ≡ none
    → let (r, s) = write_json_atomic f tmp path bytes (record { disk = d; seen = [] }) in
      Holds path bytes (get path d) r s.disk
      × (get tmp s.disk ≡ none)
      × ((j : Str) → tmp ≢ j → path ≢ j → get j s.disk ≡ get j d)
write_json_atomic_lem f tmp path bytes d ne fresh = (
  write-Holds f tmp path bytes d ne,
  write_no_temporary f tmp path bytes d ne fresh,
  write_others f tmp path bytes d ne,
)

-- At every moment of a write, whatever fails, the file holds its old contents or all of the new, if
-- the temporary name is not the file's.
pub write_crash_safe :
    (f : Faults) (tmp path bytes : Str) (d : Disk)
    → tmp ≢ path
    → All
        (λ at. (get path at ≡ get path d) ⊎ (get path at ≡ some bytes))
        (write_json_atomic f tmp path bytes (record { disk = d; seen = [] })).1.seen
unfolding write_json_atomic
write_crash_safe f tmp path bytes d ne = grind (steps, not_eq tmp path, not_eq path tmp)
