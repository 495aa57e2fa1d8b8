-- ===== src/Semantics/Axes.antt =====
-- `Axis.__post_init__` and the checks of `axes`, of leapp/utils/semantics.py.
pub mod Fit
use leapp.Common.{
  ℕ, zero, suc, ◌+◌, String, string_eq, nat_eq, Option, none, some, List, [], ◌∷◌, Bool, true,
  false, not, ◌&&◌, ◌||◌, ◌==◌, ltb, length, if◌then◌else◌,
}
use leapp.Common.Result.{Result, ok, err, value_error, type_error, ◌>>=◌, ◌>>◌, raise_if}
use leapp.Semantics.{
  Period, positive, not_positive, not_finite, not_number, Label, label, no_label, Labels, labels,
  no_labels, Axis, AxisEntry, axis, no_axis_entry, other_entry, AxesValue, axes, no_axes_list,
}

-- AxisKind.TIME, and AxisKind.COMPONENT.
abbrev pub time : String
time = "time"

abbrev pub component : String
component = "component"

-- `isinstance(x, str) and x`
abbrev pub is_named : Label → Bool
is_named (label s) = not (s == "")
is_named (no_label n) = false

abbrev pub all_named : List Label → Bool
all_named [] = true
all_named (l ∷ ls) = is_named l && all_named ls

abbrev pub bad_label : Option Label → Bool
bad_label none = false
bad_label (some l) = not (is_named l)

abbrev pub bad_labels : Option Labels → Bool
bad_labels none = false
bad_labels (some (labels ls)) = not (all_named ls)
bad_labels (some (no_labels n)) = true

-- `kind == k`
abbrev pub has_kind : String → Option Label → Bool
has_kind k none = false
has_kind k (some (label s)) = s == k
has_kind k (some (no_label n)) = false

-- A finite number above 0.
abbrev pub is_positive : Period → Bool
is_positive (positive n) = true
is_positive not_positive = false
is_positive not_finite = false
is_positive not_number = false

-- `TemporalAxis.__post_init__`, for a number.
unfoldable pub validate_temporal_axis : Period → Result (Unit {0})
validate_temporal_axis not_positive = err value_error
validate_temporal_axis _ = ok tt

abbrev pub check_period : Bool → Option Period → Result (Unit {0})
check_period timed none = raise_if timed value_error
check_period timed (some p) = do
  raise_if (not timed) value_error
  raise_if (not (is_positive p)) value_error

-- `Axis.__post_init__`
unfoldable pub validate_axis : Axis → Result (Unit {0})
validate_axis a = do
  raise_if (bad_label a.kind) type_error
  raise_if (bad_labels a.names) type_error
  check_period (has_kind time a.kind) a.period_ms

-- The label count of an axis against the size of its dimension. The names of an axis that was
-- made are a list.
abbrev pub check_labels : ℕ → Option Labels → Result (Unit {0})
check_labels size none = ok tt
check_labels size (some (labels ls)) = raise_if (not (length ls == size)) value_error
check_labels size (some (no_labels n)) = err type_error

-- The body of the loop over the dimensions.
abbrev pub check_entry : ℕ → AxisEntry → Result (Unit {0})
check_entry size no_axis_entry = ok tt
check_entry size (other_entry n) = err type_error
check_entry size (axis a) = check_labels size a.names

-- `for size, axis in zip(shape, self.axes)`
unfoldable pub check_entries : List ℕ → List AxisEntry → Result (Unit {0})
check_entries [] entries = ok tt
check_entries (size ∷ shape) [] = ok tt
check_entries (size ∷ shape) (e ∷ entries) = do check_entry size e; check_entries shape entries

abbrev pub is_time_entry : AxisEntry → Bool
is_time_entry (axis a) = has_kind time a.kind
is_time_entry no_axis_entry = false
is_time_entry (other_entry n) = false

abbrev pub count_time : List AxisEntry → ℕ
count_time [] = 0
count_time (e ∷ entries) = let n = count_time entries in if is_time_entry e then suc n else n

-- The checks of `axes` in `TensorSemantics.__post_init__`.
unfoldable pub check_axes : List ℕ → Option AxesValue → Result (Unit {0})
check_axes shape none = ok tt
check_axes shape (some (no_axes_list n)) = err type_error
check_axes shape (some (axes entries)) = do
  raise_if (not (length entries == length shape)) value_error
  check_entries shape entries
  raise_if (ltb 1 (count_time entries)) value_error
