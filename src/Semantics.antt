-- ===== src/Semantics.antt =====
-- Annotations of tensors: the values that leapp/utils/semantics.py tells apart. A Python value of
-- which the code only asks that it has another type is one constructor of its own.
pub mod Names
pub mod Axes
pub mod Annotation
pub mod Quantity
mod Samples
use leapp.Common.{ℕ, String, Option, List, Bool, Dict}

-- A period as the checks see it: the finite positive numbers, told apart by a number, and the rest.
pub data Period : Type 0 where
  positive : ℕ → Period
  not_positive not_finite not_number : Period

-- An entry of a nested list of names.
pub data Child : Type 0 where
  text_child : String → Child
  temporal_child : Child
  other_child : ℕ → Child

-- An entry of `element_names`: a name, a TemporalAxis, a list, None, or another object.
pub data Item : Type 0 where
  text : String → Item
  temporal : Period → Item
  nested : List Child → Item
  nothing : Item
  foreign : ℕ → Item

-- A value of `element_names` that is not None: a text, a list, or another object.
pub data ElementNames : Type 0 where
  bare : String → ElementNames
  listed : List Item → ElementNames
  opaque : ℕ → ElementNames

-- A value that should be a non-empty text.
pub data Label : Type 0 where
  label : String → Label
  no_label : ℕ → Label

pub data Labels : Type 0 where
  labels : List Label → Labels
  no_labels : ℕ → Labels

-- `Axis`. The members of AxisKind are texts.
pub record Axis : Type 0 where
  pub kind : Option Label
  pub names : Option Labels
  pub period_ms : Option Period

pub data AxisEntry : Type 0 where
  axis : Axis → AxisEntry
  no_axis_entry : AxisEntry
  other_entry : ℕ → AxisEntry

pub data AxesValue : Type 0 where
  axes : List AxisEntry → AxesValue
  no_axes_list : ℕ → AxesValue

-- `kind`: a member of InputKindEnum, OutputKindEnum or Kind by its value, a text, or another object.
pub data KindValue : Type 0 where
  input_kind output_kind quantity kind_text : String → KindValue
  no_kind_value : ℕ → KindValue

pub data Setpoint : Type 0 where
  setpoint : Bool → Setpoint
  no_setpoint : ℕ → Setpoint

-- `expressed_in`: a member of ExpressionFrame, a text, or another object.
pub data Expressed : Type 0 where
  self_selector reference_selector : Expressed
  frame_name : String → Expressed
  no_frame : ℕ → Expressed
