-- ===== src/Semantics/Quantity.antt =====
-- The helpers that annotate a quantity, of leapp/utils/semantics.py.
pub mod Helpers
use leapp.Common.{
  ℕ, String, string_eq, nat_eq, Option, none, some, List, [], ◌∷◌, Bool, true, false, not, ◌&&◌,
  ◌||◌, ◌==◌, length, contains, ◌≡◌, refl, ap, ◌∙◌, In, inl, inr, All, Bool-cases, arith,
  if◌then◌else◌,
}
use leapp.Common.Result.{
  Result, ok, err, value_error, ◌>>=◌, ◌>>◌, raise_if, >>=-eq-ok, ok-injective,
}
use leapp.Semantics.{
  Label, label, no_label, Labels, labels, no_labels, Axis, AxisEntry, axis, no_axis_entry,
  other_entry, AxesValue, axes, no_axes_list, KindValue, quantity, Setpoint, Expressed,
}
use leapp.Semantics.Axes.{component, has_kind}
use leapp.Semantics.Annotation.{Annotation, post_init}

-- `_COMPONENTS.get(kind)`
abbrev pub find_components : List (String × List String) → String → Option (List String)
find_components [] kind = none
find_components ((k, cs) ∷ table) kind = if k == kind then some cs else find_components table kind

abbrev pub positions : List String
positions = "x" ∷ "y" ∷ "z" ∷ []

abbrev pub rotations : List String
rotations = "qx" ∷ "qy" ∷ "qz" ∷ "qw" ∷ []

abbrev pub component_table : List (String × List String)
component_table =
    ("frame/force_application_position", positions)
    ∷ ("frame/pose", "x" ∷ "y" ∷ "z" ∷ rotations)
    ∷ ("frame/position", positions)
    ∷ ("frame/orientation", rotations)
    ∷ ("frame/twist", "vx" ∷ "vy" ∷ "vz" ∷ "wx" ∷ "wy" ∷ "wz" ∷ [])
    ∷ ("frame/linear_velocity", "vx" ∷ "vy" ∷ "vz" ∷ [])
    ∷ ("frame/angular_velocity", "wx" ∷ "wy" ∷ "wz" ∷ [])
    ∷ []

abbrev pub names_label : String → Label → Bool
names_label s (label t) = s == t
names_label s (no_label n) = false

abbrev pub is_label_of : List String → Label → Bool
is_label_of cs (label t) = contains cs t
is_label_of cs (no_label n) = false

abbrev pub any_names : String → List Label → Bool
any_names s [] = false
any_names s (l ∷ ls) = names_label s l || any_names s ls

abbrev pub all_among : List String → List Label → Bool
all_among cs [] = true
all_among cs (l ∷ ls) = is_label_of cs l && all_among cs ls

abbrev pub all_named_in : List String → List Label → Bool
all_named_in [] ls = true
all_named_in (c ∷ cs) ls = any_names c ls && all_named_in cs ls

-- `len(names) != len(components) or set(names) != set(components)`, negated.
abbrev pub is_permutation : List String → List Label → Bool
is_permutation cs ls = (length ls == length cs) && (all_among cs ls && all_named_in cs ls)

abbrev pub check_names : List String → Option Labels → Result (Unit {0})
check_names cs none = ok tt
check_names cs (some (no_labels n)) = ok tt
check_names cs (some (labels ls)) = raise_if (not (is_permutation cs ls)) value_error

abbrev pub check_component : List String → AxisEntry → Result (Unit {0})
check_component cs no_axis_entry = ok tt
check_component cs (other_entry n) = ok tt
check_component cs (axis a) = if has_kind component a.kind then check_names cs a.names else ok tt

unfoldable pub check_components : List String → List AxisEntry → Result (Unit {0})
check_components cs [] = ok tt
check_components cs (e ∷ entries) = do check_component cs e; check_components cs entries

abbrev pub check_axes_of : Option (List String) → Option AxesValue → Result (Unit {0})
check_axes_of (some cs) (some (axes entries)) = check_components cs entries
check_axes_of _ _ = ok tt

-- `_annotate`, with the fields of space, which a helper without them leaves at None.
unfoldable pub annotate :
    String
    → Option (List ℕ)
    → Option AxesValue
    → Option Setpoint
    → Option Label
    → Option Expressed
    → Result Annotation
annotate kind ref axes_given is_setpoint reference expressed_in = do
  annotation ← post_init (record {
    ref = ref;
    kind = some (quantity kind);
    element_names = none;
    temporal_period_ms = none;
    extra = none;
    axes = axes_given;
    is_setpoint = is_setpoint;
    reference = reference;
    expressed_in = expressed_in;
  })
  check_axes_of (find_components component_table kind) annotation.axes
  ok annotation

neither_test : (b : Bool) → raise_if (not b) value_error ≡ ok tt → b ≡ true
neither_test b h = ground arith

both : (a b : Bool) → (a && b) ≡ true → (a ≡ true) × (b ≡ true)
both a b h = ground arith

any_names-In : (s : String) (ls : List Label) → any_names s ls ≡ true → In (label s) ls
any_names-In s [] h = absurd (cc h)
any_names-In s (label t ∷ ls) h = elim (Bool-cases (s == t)) [
  | inl same ↦ inl (ap label ((string_eq.beq_iff s t).0 same))
  | inr other ↦ inr (any_names-In s ls (rw other at h))
]
any_names-In s (no_label n ∷ ls) h = inr (any_names-In s ls h)

all_named_in-All :
    (cs : List String) (ls : List Label) → all_named_in cs ls ≡ true → All (λ c. In (label c) ls) cs
all_named_in-All [] ls h = tt
all_named_in-All (c ∷ cs) ls h =
    let (here, rest) = both (any_names c ls) (all_named_in cs ls) h in
    (any_names-In c ls here, all_named_in-All cs ls rest)

-- As many labels as components, and each component among them.
abbrev pub Covers : List String → List Label → Type 0
Covers cs ls = (length ls ≡ length cs) × All (λ c. In (label c) ls) cs

check_names-Covers :
    (cs : List String) (ls : List Label) → check_names cs (some (labels ls)) ≡ ok tt → Covers cs ls
check_names-Covers cs ls h =
    let (counted, rest) = both (length ls == length cs) _ (neither_test _ h) in
    let (_, named) = both (all_among cs ls) (all_named_in cs ls) rest in
    ((nat_eq.beq_iff (length ls) (length cs)).0 counted, all_named_in-All cs ls named)

check_components-In :
    (cs : List String) (entries : List AxisEntry) (x : AxisEntry)
    → check_components cs entries ≡ ok tt
    → In x entries
    → check_component cs x ≡ ok tt
unfolding check_components
check_components-In cs [] x h m = elim m [ ]
check_components-In cs (e ∷ entries) x h m =
    let (_, first, rest) = >>=-eq-ok (check_component cs e) _ h in
    elim m [ inl same ↦ rw same first | inr later ↦ check_components-In cs entries x rest later ]

-- An annotation of a quantity with components that is made: an axis of components that has labels
-- has exactly as many as there are components, and each component is one of them.
pub annotate-Covers :
    (kind : String) (ref : Option (List ℕ)) (given : Option AxesValue) (set : Option Setpoint)
    (reference : Option Label) (expressed_in : Option Expressed) (cs : List String)
    (entries : List AxisEntry) (x : Axis) (ls : List Label) {b : Annotation}
    → annotate kind ref given set reference expressed_in ≡ ok b
    → find_components component_table kind ≡ some cs
    → b.axes ≡ some (axes entries)
    → In (axis x) entries
    → has_kind component x.kind ≡ true
    → x.names ≡ some (labels ls)
    → Covers cs ls
unfolding annotate
annotate-Covers kind ref given set reference expressed_in cs entries x ls {b} h found there m kinded
      named =
    let (c, _, h₁) = >>=-eq-ok (post_init _) _ h in
    let (_, checked, h₂) =
      >>=-eq-ok (check_axes_of (find_components component_table kind) c.axes) _ h₁ in
    let same : c ≡ b = ok-injective h₂ in
    let c_axes : c.axes ≡ some (axes entries) = ap (λ (a : Annotation). a.axes) same ∙ there in
    let all : check_components cs entries ≡ ok tt = rw c_axes at (rw found at checked) in
    let one = check_components-In cs entries (axis x) all m in
    check_names-Covers cs ls (rw named at (rw kinded at one))
