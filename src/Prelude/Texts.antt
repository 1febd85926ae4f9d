-- ===== src/Prelude/Texts.antt =====
-- Go strings as lists of bytes, and the parts of package strings that the program calls. Case
-- folding is that of ASCII: `strings.ToLower` changes further letters only outside ASCII.
use Prim.Native.Nat.{ℕ, ◌+◌}
use Prim.Native.Char.{code}
use Prim.Native.String.{String}
use mathlib.Core.Path.{◌≡◌, refl, ap₂}
use mathlib.Core.Logic.{◌↔◌, ◌⊎◌}
use mathlib.Core.Bool.{Bool, true, false, not, ◌&&◌, ◌||◌}
use mathlib.Core.List.{List, [], ◌∷◌, map, reverse}
use native.Mathlib.Omega.{arith}
use raag.Prelude.Tests.{eqb, leb, if◌then◌else◌}

abbrev pub Str : Type 0
Str = List ℕ

-- A literal.
abbrev pub codes : String → Str
codes String.[] = []
codes (String.◌∷◌ c s) = code c ∷ codes s

infix 50 ◌==◌
unfoldable pub ◌==◌ : Str → Str → Bool
◌==◌ [] [] = true
◌==◌ (x ∷ xs) (y ∷ ys) = eqb x y && xs == ys
◌==◌ _ _ = false

pub eq_iff : (s t : Str) → ((s == t) ≡ true) ↔ (s ≡ t)
unfolding ◌==◌
eq_iff [] [] = ground arith
eq_iff [] (y ∷ ys) = ground arith
eq_iff (x ∷ xs) [] = ground arith
eq_iff (x ∷ xs) (y ∷ ys) = ground (arith, eq_iff xs ys)

pub eq_refl : (s : Str) → (s == s) ≡ true
eq_refl s = (eq_iff s s).1 refl

abbrev pub is_empty : Str → Bool
is_empty [] = true
is_empty (_ ∷ _) = false

-- `expected != "" && id != expected` fails.
pub mismatch_iff :
    (expected id : Str)
    → ((not (is_empty expected) && not (id == expected)) ≡ false)
      ↔ ((expected ≡ []) ⊎ (id ≡ expected))
mismatch_iff [] id = ground arith
mismatch_iff (c ∷ s) id = ground (arith, eq_iff id (c ∷ s))

-- strings.ToLower
unfoldable pub lower_byte : ℕ → ℕ
lower_byte c = if leb b'A' c && leb c b'Z' then c + 32 else c

unfoldable pub to_lower : Str → Str
unfolding lower_byte
to_lower = map lower_byte

-- strings.HasPrefix
unfoldable pub has_prefix : Str → Str → Bool
has_prefix s [] = true
has_prefix [] (y ∷ ys) = false
has_prefix (x ∷ xs) (y ∷ ys) = eqb x y && has_prefix xs ys

-- strings.HasSuffix
unfoldable pub has_suffix : Str → Str → Bool
unfolding has_prefix
has_suffix s suffix = has_prefix (reverse s) (reverse suffix)

-- strings.Contains
unfoldable pub contains : Str → Str → Bool
unfolding has_prefix
contains [] sub = has_prefix [] sub
contains (x ∷ xs) sub = has_prefix (x ∷ xs) sub || contains xs sub

-- unicode.IsSpace on ASCII.
unfoldable pub is_space : ℕ → Bool
is_space c = eqb c b' ' || (leb 9 c && leb c 13)

abbrev drop_if : Bool → Str → Str → Str
drop_if true short long = short
drop_if false short long = long

-- strings.TrimLeft by `is_space`
unfoldable pub trim_left : Str → Str
unfolding is_space
trim_left [] = []
trim_left (c ∷ s) = drop_if (is_space c) (trim_left s) (c ∷ s)

-- strings.TrimSpace
unfoldable pub trim_space : Str → Str
unfolding trim_left
trim_space s = reverse (trim_left (reverse (trim_left s)))

-- strings.Split(s, sep)[0] for a one-byte separator.
unfoldable pub before_byte : ℕ → Str → Str
before_byte sep [] = []
before_byte sep (c ∷ s) = drop_if (eqb c sep) [] (c ∷ before_byte sep s)

-- strings.ReplaceAll(s, old, new) for one-byte texts.
unfoldable pub replace_byte : ℕ → ℕ → Str → Str
replace_byte old new = map (λ c. if eqb c old then new else c)

pub lower_byte_idem : (c : ℕ) → lower_byte (lower_byte c) ≡ lower_byte c
unfolding lower_byte
lower_byte_idem c = ground arith

-- Folding a text twice is folding it once.
pub to_lower_idem : (s : Str) → to_lower (to_lower s) ≡ to_lower s
unfolding to_lower
to_lower_idem [] = refl
to_lower_idem (c ∷ s) = ap₂ ◌∷◌ (lower_byte_idem c) (to_lower_idem s)
