-- ===== src/Prelude/Paths.antt =====
-- path/filepath on Unix: the extension and the last element of a path.
use mathlib.Core.List.{reverse}
use raag.Prelude.{Str, codes, [], ◌∷◌, eqb, if◌then◌else◌}

-- What stands behind the last dot of the last element, the dot included, from a reversed path;
-- `seen` is what was read so far, in order.
ext_from : Str → Str → Str
ext_from seen [] = []
ext_from seen (c ∷ s) =
    let rest = ext_from (c ∷ seen) s in
    if eqb c b'/' then [] else if eqb c b'.' then c ∷ seen else rest

-- filepath.Ext
unfoldable pub ext : Str → Str
unfolding ext_from
ext path = ext_from [] (reverse path)

drop_slashes : Str → Str
drop_slashes [] = []
drop_slashes (c ∷ s) = let rest = drop_slashes s in if eqb c b'/' then rest else c ∷ s

until_slash : Str → Str
until_slash [] = []
until_slash (c ∷ s) = let rest = until_slash s in if eqb c b'/' then [] else c ∷ rest

abbrev or_slash : Str → Str
or_slash [] = codes "/"
or_slash (c ∷ s) = c ∷ s

-- filepath.Base
unfoldable pub base : Str → Str
unfolding drop_slashes until_slash
base [] = codes "."
base (c ∷ s) = or_slash (reverse (until_slash (drop_slashes (reverse (c ∷ s)))))
