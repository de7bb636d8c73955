-- ===== src/Base/Names.antt =====
-- The parts of file names: what the program uses of `path` and `strings` on them.
use Prim.Native.Nat.{ℕ}
use mathlib.Core.Bool.{Bool}
use mathlib.Core.Option.{Option, none, some}
use mathlib.Core.List.{List, [], ◌∷◌, reverse, map}
use hfdesk.Base.Tests.{◌==◌, if◌then◌else◌}
use hfdesk.Base.Lists.{any}
use hfdesk.Base.Text.{Bytes, bytes_eq, codes, cut_prefix, has_prefix, to_lower}

-- `strings.HasSuffix`.
abbrev pub has_suffix : Bytes → Bytes → Bool
has_suffix s t = has_prefix (reverse s) (reverse t)

abbrev pub trim_prefix : Bytes → Bytes → Bytes
trim_prefix s t = elim (cut_prefix s t) [ none ↦ s | some rest ↦ rest ]

-- `strings.ReplaceAll(p, "\\", "/")`.
abbrev pub with_slashes : Bytes → Bytes
with_slashes p = map (λ c. if c == b'\\' then b'/' else c) p

abbrev pub lowered : Bytes → Bytes
lowered p = map to_lower p

-- The text behind the last `sep`, where there is one.
unfoldable pub behind_last : ℕ → Bytes → Option Bytes
behind_last sep [] = none
behind_last sep (c ∷ s) =
    let rest = behind_last sep s in
    elim rest [ some a ↦ some a | none ↦ if c == sep then some s else none ]

unfoldable pub drop_slashes : Bytes → Bytes
drop_slashes [] = []
drop_slashes (c ∷ s) = let rest = drop_slashes s in if c == b'/' then rest else c ∷ s

-- `strings.TrimSuffix`.
abbrev pub trim_suffix : Bytes → Bytes → Bytes
trim_suffix s t = elim (cut_prefix (reverse s) (reverse t)) [ none ↦ s | some rest ↦ reverse rest ]

-- `path.Base`.
unfoldable pub path_base : Bytes → Bytes
unfolding behind_last drop_slashes
path_base p =
    let q = reverse (drop_slashes (reverse p)) in
    if bytes_eq p []
    then codes "."
    else (if bytes_eq q []
        then codes "/"
        else elim (behind_last b'/' q) [ none ↦ q | some base ↦ base ])

-- `path.Ext` of a name without slashes, with its dot.
unfoldable pub path_ext : Bytes → Bytes
unfolding behind_last
path_ext base = elim (behind_last b'.' base) [ none ↦ [] | some ext ↦ b'.' ∷ ext ]

abbrev pub is_one_of : Bytes → List Bytes → Bool
is_one_of s names = any (bytes_eq s) names
