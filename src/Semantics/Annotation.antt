-- ===== src/Semantics/Annotation.antt =====
-- `TensorSemantics` of leapp/utils/semantics.py: its checks, its update and its dictionary.
pub mod Stable
pub mod Output
use text.Mathlib.Text.{starts_with}
use leapp.Common.{
  ℕ, String, string_eq, Option, none, some, List, [], ◌∷◌, ◌++◌, Bool, true, false, not, ◌&&◌, ◌||◌,
  ◌==◌, Dict, put, keys, contains, if◌then◌else◌, or_else,
}
use leapp.Common.Result.{Result, ok, err, value_error, type_error, ◌>>=◌, ◌>>◌, raise_if}
use leapp.Semantics.{
  Period, ElementNames, Label, AxesValue, KindValue, input_kind, output_kind, quantity, kind_text,
  no_kind_value, Setpoint, setpoint, no_setpoint, Expressed, self_selector, reference_selector,
  frame_name, no_frame,
}
use leapp.Semantics.Names.{normalize}
use leapp.Semantics.Axes.{bad_label, check_axes}

-- The fields of an annotation, without its name. `ref` is the shape of the tensor, if it is one
-- that can be traced. The values of `extra` are objects.
pub record Annotation : Type 0 where
  pub ref : Option (List ℕ)
  pub kind : Option KindValue
  pub element_names : Option ElementNames
  pub temporal_period_ms : Option Period
  pub extra : Option (Dict String ℕ)
  pub axes : Option AxesValue
  pub is_setpoint : Option Setpoint
  pub reference : Option Label
  pub expressed_in : Option Expressed

abbrev pub given : {A : Type 0} → Option A → Bool
given none = false
given (some a) = true

-- `isinstance(kind, Kind)`
abbrev pub is_quantity : Option KindValue → Bool
is_quantity (some (quantity s)) = true
is_quantity _ = false

-- `_uses_experimental_semantics`
abbrev pub uses_experimental : Annotation → Bool
uses_experimental a =
    is_quantity a.kind
    || (given a.axes || (given a.is_setpoint || (given a.reference || given a.expressed_in)))

-- `a or b` of two periods. A period that was found is positive.
abbrev pub or_period : Option Period → Option Period → Option Period
or_period none q = q
or_period (some p) q = some p

-- The conditioning of `element_names` and `temporal_period_ms`.
unfoldable pub condition_names : Annotation → Result Annotation
condition_names a = elim a.element_names [
  | none ↦ ok (record a { temporal_period_ms = none })
  | some names ↦ normalize (given a.temporal_period_ms) names >>= λ r. ok (record a {
    element_names = some r.0;
    temporal_period_ms = or_period r.1 a.temporal_period_ms;
  })
]

abbrev pub bad_kind : Option KindValue → Bool
bad_kind none = false
bad_kind (some (input_kind s)) = false
bad_kind (some (output_kind s)) = false
bad_kind (some (quantity s)) = s == ""
bad_kind (some (kind_text s)) = s == ""
bad_kind (some (no_kind_value n)) = true

abbrev pub bad_setpoint : Option Setpoint → Bool
bad_setpoint (some (no_setpoint n)) = true
bad_setpoint _ = false

abbrev pub bad_expressed : Option Expressed → Bool
bad_expressed (some (frame_name s)) = s == ""
bad_expressed (some (no_frame n)) = true
bad_expressed _ = false

-- The text that `kind` is equal to, for a member of Kind and for a text.
abbrev pub kind_string : Option KindValue → Option String
kind_string (some (quantity s)) = some s
kind_string (some (kind_text s)) = some s
kind_string _ = none

abbrev pub is_in : Option String → List String → Bool
is_in none ss = false
is_in (some s) ss = contains ss s

-- Kind.FRAME_WRENCH and Kind.FORCE_APPLICATION_POSITION.
abbrev pub wrenches : List String
wrenches = "frame/wrench" ∷ "frame/force_application_position" ∷ []

abbrev pub is_reference : Option Expressed → Bool
is_reference (some reference_selector) = true
is_reference _ = false

-- The keys that `extra` cannot have.
abbrev pub reserved : List String
reserved = "axes" ∷ "is_setpoint" ∷ "reference" ∷ "expressed_in" ∷ "spatial" ∷ []

abbrev pub any_in : List String → List String → Bool
any_in [] ks = false
any_in (k ∷ rest) ks = contains ks k || any_in rest ks

abbrev pub clashes : Option (Dict String ℕ) → Bool
clashes none = false
clashes (some extra) = any_in reserved (keys extra)

-- The checks for an annotation that uses experimental fields.
unfoldable pub check_experimental : List ℕ → Annotation → Result (Unit {0})
check_experimental shape a = do
  raise_if (given a.axes && given a.element_names) value_error
  raise_if (bad_kind a.kind) type_error
  raise_if (bad_setpoint a.is_setpoint) type_error
  raise_if (bad_label a.reference) type_error
  raise_if (bad_expressed a.expressed_in) type_error
  raise_if (is_in (kind_string a.kind) wrenches && is_reference a.expressed_in) value_error
  raise_if (clashes a.extra) value_error
  check_axes shape a.axes

abbrev pub shape_of : Option (List ℕ) → Result (List ℕ)
shape_of none = err type_error
shape_of (some shape) = ok shape

-- `__post_init__`. The warnings are left out.
unfoldable pub post_init : Annotation → Result Annotation
post_init a = do
  shape ← shape_of a.ref
  a' ← condition_names a
  if uses_experimental a' then check_experimental shape a' else ok tt
  ok a'

-- An entry of the dictionary of an update: a value for a field that the caller can set, or for
-- another key, with the object that it is.
pub data Change : Type 0 where
  set_kind : Option KindValue → Change
  set_element_names : Option ElementNames → Change
  set_extra : Option (Dict String ℕ) → Change
  set_axes : Option AxesValue → Change
  set_is_setpoint : Option Setpoint → Change
  set_reference : Option Label → Change
  set_expressed_in : Option Expressed → Change
  set_other : String → Change

abbrev pub key_of : Change → String
key_of (set_kind v) = "kind"
key_of (set_element_names v) = "element_names"
key_of (set_extra v) = "extra"
key_of (set_axes v) = "axes"
key_of (set_is_setpoint v) = "is_setpoint"
key_of (set_reference v) = "reference"
key_of (set_expressed_in v) = "expressed_in"
key_of (set_other k) = k

-- `self.extra[key] = value`
abbrev pub add_extra : String → ℕ → Annotation → Annotation
add_extra k object a = record a { extra = some (put k object (or_else a.extra [])) }

-- The body of the loop; the test says whether the experimental fields are among the valid ones.
unfoldable pub apply_change : Bool → Change × ℕ → Annotation → Annotation
apply_change experimental (set_kind v, object) a = record a { kind = v }
apply_change experimental (set_element_names v, object) a = record a { element_names = v }
apply_change experimental (set_extra v, object) a = record a { extra = v }
apply_change experimental (set_axes v, object) a =
    if experimental then record a { axes = v } else add_extra "axes" object a
apply_change experimental (set_is_setpoint v, object) a =
    if experimental then record a { is_setpoint = v } else add_extra "is_setpoint" object a
apply_change experimental (set_reference v, object) a =
    if experimental then record a { reference = v } else add_extra "reference" object a
apply_change experimental (set_expressed_in v, object) a =
    if experimental then record a { expressed_in = v } else add_extra "expressed_in" object a
apply_change experimental (set_other k, object) a = add_extra k object a

unfoldable pub apply_changes : Bool → List (Change × ℕ) → Annotation → Annotation
apply_changes experimental [] a = a
apply_changes experimental (c ∷ changes) a =
    apply_changes experimental changes (apply_change experimental c a)

-- `isinstance(values.get("kind"), Kind)`
abbrev pub sets_quantity : List (Change × ℕ) → Bool
sets_quantity [] = false
sets_quantity ((set_kind v, object) ∷ changes) = is_quantity v
sets_quantity (c ∷ changes) = sets_quantity changes

-- `update`: what it leaves where the checks refuse the result is not modelled.
unfoldable pub update : List (Change × ℕ) → Annotation → Result Annotation
update changes a =
    post_init (apply_changes (uses_experimental a || sets_quantity changes) changes a)
