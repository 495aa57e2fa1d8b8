-- ===== src/Semantics/Names.antt =====
-- `_normalize_element_names` of leapp/utils/semantics.py.
pub mod Stable
use leapp.Common.{
  String, string_eq, Option, none, some, List, [], ◌∷◌, ◌++◌, Bool, true, false, not, ◌||◌, ◌==◌,
  if◌then◌else◌,
}
use leapp.Common.Result.{Result, ok, err, value_error, ◌>>=◌, ◌>>◌, raise_if}
use leapp.Semantics.{
  Period, Child, text_child, temporal_child, other_child, Item, text, temporal, nested, nothing,
  foreign, ElementNames, bare, listed, opaque,
}

-- TEMPORAL_AXIS_SENTINEL
abbrev pub sentinel : String
sentinel = "__temporal_axis__"

-- `any(isinstance(child, TemporalAxis) for child in item)`
abbrev pub any_temporal : List Child → Bool
any_temporal [] = false
any_temporal (temporal_child ∷ children) = true
any_temporal (text_child s ∷ children) = any_temporal children
any_temporal (other_child n ∷ children) = any_temporal children

-- `any(child == TEMPORAL_AXIS_SENTINEL for child in item)`
abbrev pub any_sentinel : List Child → Bool
any_sentinel [] = false
any_sentinel (text_child s ∷ children) = (s == sentinel) || any_sentinel children
any_sentinel (temporal_child ∷ children) = any_sentinel children
any_sentinel (other_child n ∷ children) = any_sentinel children

-- The variables of the loop.
pub record Scan : Type 0 where
  pub period : Option Period
  pub normalized : List Item
  pub has_axis : Bool
  pub has_temporal : Bool

-- How the loop ends: after the last item, or by an early return with the period so far.
pub data Scanned : Type 0 where
  finished : Scan → Scanned
  mixed : Option Period → Scanned

abbrev pub push : Item → Bool → Scan → Scan
push i descriptor st = record st {
  normalized = st.normalized ++ i ∷ [];
  has_axis = st.has_axis || descriptor;
}

-- The body of the loop; `none` is the early return.
unfoldable pub scan_item : Bool → Item → Scan → Result (Option Scan)
scan_item allow (temporal p) st = do
  raise_if st.has_temporal value_error
  ok (some (record (push (text sentinel) true st) { period = some p; has_temporal = true }))
scan_item allow (text s) st =
    if s == sentinel
    then (raise_if (not allow) value_error >> ok (some (push (text s) true st)))
    else ok (some (push (text s) false st))
scan_item allow (nested children) st = do
  raise_if (any_temporal children) value_error
  raise_if (any_sentinel children) value_error
  ok (some (push (nested children) true st))
scan_item allow nothing st = ok (some (push nothing true st))
scan_item allow (foreign n) st = ok none

unfoldable pub scan_items : Bool → List Item → Scan → Result Scanned
scan_items allow [] st = ok (finished st)
scan_items allow (i ∷ items) st = scan_item allow i st >>= λ r. elim r [
  | none ↦ ok (mixed st.period)
  | some st' ↦ scan_items allow items st'
]

abbrev pub empty_scan : Scan
empty_scan = record { period = none; normalized = []; has_axis = false; has_temporal = false }

abbrev pub as_child : Item → Child
as_child (text s) = text_child s
as_child (temporal p) = temporal_child
as_child (nested children) = other_child 0
as_child nothing = other_child 0
as_child (foreign n) = other_child n

abbrev pub children_of : List Item → List Child
children_of [] = []
children_of (i ∷ items) = as_child i ∷ children_of items

-- What follows the loop. Without a descriptor every item is a name, and the names become one axis.
abbrev pub conclude : List Item → Scanned → ElementNames × Option Period
conclude items (mixed p) = (listed items, p)
conclude items (finished st) =
    if st.has_axis
    then (listed st.normalized, st.period)
    else (listed (nested (children_of st.normalized) ∷ []), none)

-- `_normalize_element_names`
unfoldable pub normalize : Bool → ElementNames → Result (ElementNames × Option Period)
normalize allow (bare s) =
    if s == sentinel
    then (raise_if (not allow) value_error >> ok (listed (text s ∷ []), none))
    else ok (listed (nested (text_child s ∷ []) ∷ []), none)
normalize allow (opaque n) = ok (opaque n, none)
normalize allow (listed items) = do r ← scan_items allow items empty_scan; ok (conclude items r)
