-- ===== src/Semantics/Axes/Fit.antt =====
-- What an axis and the axes of a tensor are, once the checks have passed.
use leapp.Common.{
  ℕ, suc, ◌≤◌, String, string_eq, nat_eq, ◌≡◌, ◌≢◌, ◌↔◌, refl, sym, ap, subst, Option, none, some,
  List, [], ◌∷◌, Bool, true, false, not, ◌==◌, ltb, length, arith, All, Bool-cases, inl, inr,
}
use leapp.Common.Result.{Result, ok, value_error, ◌>>◌, raise_if, >>=-eq-ok}
use leapp.Semantics.{
  Period, positive, not_positive, not_finite, not_number, Label, label, no_label, Labels, labels,
  no_labels, Axis, AxisEntry, axis, no_axis_entry, other_entry, AxesValue, axes, no_axes_list,
}
use leapp.Semantics.Axes.{
  time, is_named, all_named, bad_label, bad_labels, has_kind, is_positive, check_period,
  validate_axis, check_labels, check_entry, check_entries, count_time, check_axes,
}

-- A non-empty text.
abbrev pub IsNamed : Label → Type 0
IsNamed l = (s : String) × (l ≡ label s) × (s ≢ "")

abbrev pub IsLabelled : Option Labels → Type 0
IsLabelled none = Unit
IsLabelled (some (labels ls)) = All IsNamed ls
IsLabelled (some (no_labels n)) = ⊥

-- The period of a time axis is a finite number above 0, and only a time axis has one.
abbrev pub IsTimed : Option Label → Option Period → Type 0
IsTimed k none = k ≢ some (label time)
IsTimed k (some p) = (k ≡ some (label time)) × ((n : ℕ) × (p ≡ positive n))

abbrev pub IsNamedKind : Option Label → Type 0
IsNamedKind none = Unit
IsNamedKind (some l) = IsNamed l

abbrev pub IsAxis : Axis → Type 0
IsAxis a = IsNamedKind a.kind × IsLabelled a.names × IsTimed a.kind a.period_ms

not_beq : (s t : String) → s ≢ t → not (s == t) ≡ true
not_beq s t h = elim (Bool-cases (s == t)) [
  | inl same ↦ absurd (h ((string_eq.beq_iff s t).0 same))
  | inr other ↦ rw other refl
]

passes : (b : Bool) → raise_if (not b) value_error ≡ ok tt → b ≡ true
passes b h = ground arith

is_named_iff : (l : Label) → (is_named l ≡ true) ↔ IsNamed l
is_named_iff (label s) = (
  λ h. (s, refl, λ e. cc ((string_eq.beq_iff s "").1 e, h)),
  λ (t, e, h). let same : s ≡ t = cc e in not_beq s "" (subst (λ x. x ≢ "") (sym same) h),
)
is_named_iff (no_label n) = (λ h. absurd (cc h), λ (t, e, h). absurd (cc e))

all_named_iff : (ls : List Label) → (all_named ls ≡ true) ↔ All IsNamed ls
all_named_iff [] = ground arith
all_named_iff (l ∷ ls) = ground (arith, is_named_iff l, all_named_iff ls)

bad_label_iff : (k : Option Label) → (bad_label k ≡ false) ↔ IsNamedKind k
bad_label_iff none = ground arith
bad_label_iff (some l) = ground (arith, is_named_iff l)

bad_labels_iff : (ls : Option Labels) → (bad_labels ls ≡ false) ↔ IsLabelled ls
bad_labels_iff none = ground arith
bad_labels_iff (some (labels ls)) = ground (arith, all_named_iff ls)
bad_labels_iff (some (no_labels n)) = ground arith

has_kind_iff : (k : String) (o : Option Label) → (has_kind k o ≡ true) ↔ (o ≡ some (label k))
has_kind_iff k none = ground arith
has_kind_iff k (some (label s)) = ground (arith, string_eq.beq_iff s k)
has_kind_iff k (some (no_label n)) = (λ h. absurd (cc h), λ e. absurd (cc e))

is_positive_iff : (p : Period) → (is_positive p ≡ true) ↔ ((n : ℕ) × (p ≡ positive n))
is_positive_iff (positive n) = (λ h. (n, refl), λ h. refl)
is_positive_iff not_positive = (λ h. absurd (cc h), λ (n, e). absurd (cc e))
is_positive_iff not_finite = (λ h. absurd (cc h), λ (n, e). absurd (cc e))
is_positive_iff not_number = (λ h. absurd (cc h), λ (n, e). absurd (cc e))

check_period_iff :
    (k : Option Label) (p : Option Period)
    → (check_period (has_kind time k) p ≡ ok tt) ↔ IsTimed k p
check_period_iff k none = ground (arith, has_kind_iff time k)
check_period_iff k (some p) = (
  λ h.
      let (_, timed, rest) = >>=-eq-ok (raise_if (not (has_kind time k)) value_error) _ h in
      ((has_kind_iff time k).0 (passes _ timed), (is_positive_iff p).0 (passes _ rest)),
  λ (timed, pos). rw ((has_kind_iff time k).1 timed, (is_positive_iff p).1 pos) refl,
)

-- An axis is made exactly if its kind and its names, where given, are non-empty texts, and it has a
-- period, a finite number above 0, exactly if its kind is "time".
pub validate_axis_iff : (a : Axis) → (validate_axis a ≡ ok tt) ↔ IsAxis a
unfolding validate_axis
validate_axis_iff a =
    ground
      (arith, bad_label_iff a.kind, bad_labels_iff a.names, check_period_iff a.kind a.period_ms)

abbrev pub FitLabels : ℕ → Option Labels → Type 0
FitLabels size none = Unit
FitLabels size (some (labels ls)) = length ls ≡ size
FitLabels size (some (no_labels n)) = ⊥

-- The labels of the entry match the size of its dimension.
abbrev pub IsFitting : ℕ → AxisEntry → Type 0
IsFitting size no_axis_entry = Unit
IsFitting size (other_entry n) = ⊥
IsFitting size (axis a) = FitLabels size a.names

-- One entry for each dimension.
abbrev pub AllFit : List ℕ → List AxisEntry → Type 0
AllFit [] [] = Unit
AllFit [] (e ∷ entries) = ⊥
AllFit (size ∷ shape) [] = ⊥
AllFit (size ∷ shape) (e ∷ entries) = IsFitting size e × AllFit shape entries

abbrev pub IsAxes : List ℕ → Option AxesValue → Type 0
IsAxes shape none = Unit
IsAxes shape (some (no_axes_list n)) = ⊥
IsAxes shape (some (axes entries)) = AllFit shape entries × (count_time entries ≤ 1)

check_labels_iff : (size : ℕ) (o : Option Labels) → (check_labels size o ≡ ok tt) ↔ FitLabels size o
check_labels_iff size none = ground arith
check_labels_iff size (some (labels ls)) = ground arith
check_labels_iff size (some (no_labels n)) = ground arith

check_entry_iff : (size : ℕ) (e : AxisEntry) → (check_entry size e ≡ ok tt) ↔ IsFitting size e
check_entry_iff size no_axis_entry = ground arith
check_entry_iff size (other_entry n) = ground arith
check_entry_iff size (axis a) = check_labels_iff size a.names

then_ok : (m k : Result (Unit {0})) → ((m >> k) ≡ ok tt) ↔ ((m ≡ ok tt) × (k ≡ ok tt))
then_ok m k = ground arith

check_entries_iff :
    (shape : List ℕ) (entries : List AxisEntry)
    → length entries ≡ length shape
    → (check_entries shape entries ≡ ok tt) ↔ AllFit shape entries
unfolding check_entries
check_entries_iff [] [] h = ground arith
check_entries_iff [] (e ∷ entries) h = ground arith
check_entries_iff (size ∷ shape) [] h = ground arith
check_entries_iff (size ∷ shape) (e ∷ entries) h = ground (
  arith,
  then_ok (check_entry size e) (check_entries shape entries),
  check_entry_iff size e,
  check_entries_iff shape entries,
)

AllFit-length :
    (shape : List ℕ) (entries : List AxisEntry)
    → AllFit shape entries
    → length entries ≡ length shape
AllFit-length [] [] h = refl
AllFit-length [] (e ∷ entries) h = elim h [ ]
AllFit-length (size ∷ shape) [] h = elim h [ ]
AllFit-length (size ∷ shape) (e ∷ entries) h = ap suc (AllFit-length shape entries h.1)

-- The axes of a tensor pass exactly if there is one entry for each dimension, each is None or an
-- axis whose labels, where given, are as many as the dimension is long, and at most one is a time
-- axis.
pub check_axes_iff :
    (shape : List ℕ) (o : Option AxesValue) → (check_axes shape o ≡ ok tt) ↔ IsAxes shape o
unfolding check_axes
check_axes_iff shape none = ground arith
check_axes_iff shape (some (no_axes_list n)) = ground arith
check_axes_iff shape (some (axes entries)) = ground (
  arith,
  then_ok (check_entries shape entries) (raise_if (ltb 1 (count_time entries)) value_error),
  check_entries_iff shape entries,
  AllFit-length shape entries,
)
