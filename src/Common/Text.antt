-- ===== src/Common/Text.antt =====
-- Port keys "node/field" and the splits at a slash that read them back.
use Prim.Native.Char.{Char, code}
use Prim.Native.String.{String, ◌++◌}
use Prim.Native.String.append
use mathlib.Core.Path.{◌≡◌, refl, ◌∙◌, ap}
use mathlib.Core.Bool.{Bool, false, ◌||◌}
use mathlib.Core.Option.{Option, none, some}
use native.Mathlib.Omega.{arith}
use leapp.Common.Tests.{nat_eq, ◌==◌, if◌then◌else◌}

-- `node + "/" + field`
unfoldable pub port_key : String → String → String
port_key n i = n ++ ("/" ++ i)

-- `"/" in s`
unfoldable pub has_slash : String → Bool
has_slash String.[] = false
has_slash (String.◌∷◌ c s) = (code c == 47) || has_slash s

abbrev prepend : Char → Option (String × String) → Option (String × String)
prepend c none = none
prepend c (some (a, b)) = some (String.◌∷◌ c a, b)

-- `s.split("/", 1)`, or `none` where there is no slash.
unfoldable pub split_first : String → Option (String × String)
split_first String.[] = none
split_first (String.◌∷◌ c s) =
    let rest = prepend c (split_first s) in if code c == 47 then some (String.[], s) else rest

-- `node, field = s.split("/")`: exactly two parts, or `none` where Python raises ValueError.
unfoldable pub split_pair : String → Option (String × String)
split_pair s = elim (split_first s) [
  | none ↦ none
  | some (a, b) ↦ if has_slash b then none else some (a, b)
]

port_key-nil : (i : String) → port_key String.[] i ≡ String.◌∷◌ "/" i
unfolding port_key
port_key-nil i =
    append.nil ("/" ++ i) ∙ append.cons "/" String.[] i ∙ ap (String.◌∷◌ "/") (append.nil i)

port_key-cons :
    (c : Char) (s i : String) → port_key (String.◌∷◌ c s) i ≡ String.◌∷◌ c (port_key s i)
unfolding port_key
port_key-cons c s i = append.cons c s ("/" ++ i)

-- A name without a slash is read back from its port key.
pub split_first-port_key :
    (n i : String) → has_slash n ≡ false → split_first (port_key n i) ≡ some (n, i)
unfolding split_first has_slash
split_first-port_key String.[] i h = rw port_key-nil refl
split_first-port_key (String.◌∷◌ c s) i h =
    rw port_key-cons (ground (arith, split_first-port_key s i))

-- So port keys of such nodes name one node and one field.
pub port_key_inj :
    (n m i j : String)
    → has_slash n ≡ false
    → has_slash m ≡ false
    → port_key n i ≡ port_key m j
    → (n ≡ m) × (i ≡ j)
port_key_inj n m i j hn hm e =
    ground (arith, split_first-port_key n i hn, split_first-port_key m j hm, ap split_first e)

pub split_pair-port_key :
    (n i : String)
    → has_slash n ≡ false
    → has_slash i ≡ false
    → split_pair (port_key n i) ≡ some (n, i)
unfolding split_pair
split_pair-port_key n i hn hi = rw (split_first-port_key n i hn, hi, split_pair) refl

-- `a + b`
abbrev pub concat : String → String → String
concat a b = a ++ b
