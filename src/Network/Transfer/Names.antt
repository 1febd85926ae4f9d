-- ===== src/Network/Transfer/Names.antt =====
-- The names that received files get.
use raag.Prelude.{ℕ, ◌≢◌, Str, [], ◌∷◌, arith, All, replace_byte, trim_space}
use raag.Network.Transfer.{sanitize_transfer_name, or_received}

pub IsOther : ℕ → ℕ → Type 0
IsOther sep c = c ≢ sep

replace_byte_lem : (sep : ℕ) (s : Str) → sep ≢ b'_' → All (IsOther sep) (replace_byte sep b'_' s)
unfolding replace_byte IsOther
replace_byte_lem sep [] h = tt
replace_byte_lem sep (c ∷ s) h = ground (arith, replace_byte_lem sep s h)

replace_byte_keeps :
    (sep old : ℕ) (s : Str)
    → sep ≢ b'_'
    → All (IsOther sep) s
    → All (IsOther sep) (replace_byte old b'_' s)
unfolding replace_byte IsOther
replace_byte_keeps sep old [] h k = tt
replace_byte_keeps sep old (c ∷ s) h k = ground (arith, replace_byte_keeps sep old s h k.1)

or_received-All :
    (sep : ℕ) (s : Str)
    → All (IsOther sep) s
    → All (IsOther sep) (or_received [])
    → All (IsOther sep) (or_received s)
or_received-All sep [] h k = k
or_received-All sep (c ∷ s) h k = h

or_received_some : (s : Str) → or_received s ≢ []
or_received_some [] = ground arith
or_received_some (c ∷ s) = ground arith

-- A sanitized name is not empty and holds neither a slash nor a backslash.
pub sanitize_transfer_name_lem :
    (name : Str)
    → (sanitize_transfer_name name ≢ [])
      × All (IsOther b'/') (sanitize_transfer_name name)
      × All (IsOther 92) (sanitize_transfer_name name)
unfolding sanitize_transfer_name IsOther
sanitize_transfer_name_lem name =
    let s = replace_byte b'/' b'_' (trim_space name) in
    let t = replace_byte 92 b'_' s in
    let u = replace_byte b'/' b'_' t in
    let slash = replace_byte_lem b'/' t (omega arith) in
    let back = replace_byte_keeps 92 b'/' t (omega arith) (replace_byte_lem 92 s (omega arith)) in
    (
      or_received_some u,
      or_received-All b'/' u slash (ground arith),
      or_received-All 92 u back (ground arith),
    )
