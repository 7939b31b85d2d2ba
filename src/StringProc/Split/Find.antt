-- ===== src/StringProc/Split/Find.antt =====
-- The first occurrence of a separator: `find`, then `substr(0, pos)` and `erase(0, pos + length)`.
use Prim.Native.Char.{Char}
use web_socket_ds.Base.{String, Option, none, some, is_empty, if◌then◌else◌, strip_prefix}

abbrev prepend : Char → Option (String × String) → Option (String × String)
prepend c none = none
prepend c (some (t, r)) = some (String.◌∷◌ c t, r)

unfoldable pub find_split : String → String → Option (String × String)
unfolding strip_prefix
find_split d String.[] = if is_empty d then some ("", "") else none
find_split d (String.◌∷◌ c s) =
    let later = find_split d s in
    elim (strip_prefix d (String.◌∷◌ c s)) [ none ↦ prepend c later | some r ↦ some ("", r) ]
