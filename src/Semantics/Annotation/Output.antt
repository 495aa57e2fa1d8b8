-- ===== src/Semantics/Annotation/Output.antt =====
-- `TensorSemantics.to_dict` of leapp/utils/semantics.py.
use text.Mathlib.Text.{starts_with}
use leapp.Common.{
  ℕ, String, string_eq, ◌≡◌, refl, ◌∙◌, Option, none, some, List, [], ◌∷◌, Bool, true, false, not,
  ◌&&◌, ◌||◌, Dict, get, put, get-put, keys, contains, arith, inl, inr, or_else, In, absent-cons,
}
use leapp.Common.Result.{ok}
use leapp.Semantics.{
  Period, ElementNames, Label, AxesValue, KindValue, Setpoint, Expressed, self_selector,
  reference_selector, frame_name, no_frame,
}
use leapp.Semantics.Annotation.{
  Annotation, uses_experimental, kind_string, is_in, wrenches, reserved, any_in, clashes,
  check_experimental, post_init,
}
use leapp.Semantics.Annotation.Stable.{post_init-Accepted, experimental_passed}

-- An entry of the dictionary under "spatial".
pub data Spatial : Type 0 where
  null : Spatial
  frame_label : Label → Spatial
  selector frame : String → Spatial
  frame_object : ℕ → Spatial

-- A value of the dictionary.
pub data Out : Type 0 where
  kind_out : KindValue → Out
  names_out : ElementNames → Out
  period_out : Period → Out
  axes_out : AxesValue → Out
  setpoint_out : Setpoint → Out
  spatial_out : Dict String Spatial → Out
  extra_out : ℕ → Out

abbrev pub add_field :
    {A : Type 0} → String → (A → Out) → Option A → Dict String Out → Dict String Out
add_field k out none result = result
add_field k out (some v) result = put k (out v) result

-- The loop over the fields. The axes stand for the list of their dictionaries.
unfoldable pub own_fields : Annotation → Dict String Out
own_fields a = add_field "is_setpoint" setpoint_out a.is_setpoint (
    add_field "axes" axes_out a.axes (
      add_field "temporal_period_ms" period_out a.temporal_period_ms (
        add_field "element_names" names_out a.element_names (add_field "kind" kind_out a.kind []))))

-- Kind.FRAME_POSE, Kind.FRAME_POSITION and Kind.FRAME_ORIENTATION.
abbrev pub placements : List String
placements = "frame/pose" ∷ "frame/position" ∷ "frame/orientation" ∷ []

abbrev pub is_frame : Option String → Bool
is_frame none = false
is_frame (some s) = starts_with "frame/" s

abbrev pub reference_of : Option Label → Spatial
reference_of none = null
reference_of (some l) = frame_label l

abbrev pub expressed : Expressed → Spatial
expressed self_selector = selector "self"
expressed reference_selector = selector "reference"
expressed (frame_name s) = frame s
expressed (no_frame n) = frame_object n

abbrev pub add_default : Bool → String → Spatial → Dict String Spatial → Dict String Spatial
add_default true k v spatial = put k v spatial
add_default false k v spatial = spatial

abbrev pub add_reference : Option Label → Dict String Spatial → Dict String Spatial
add_reference none spatial = spatial
add_reference (some l) spatial = put "reference" (frame_label l) spatial

abbrev pub add_expressed : Option Expressed → Dict String Spatial → Dict String Spatial
add_expressed none spatial = spatial
add_expressed (some e) spatial = put "expressed_in" (expressed e) spatial

-- The dictionary `spatial`.
unfoldable pub spatial_of : Annotation → Dict String Spatial
spatial_of a =
    let kind = kind_string a.kind in
    let framed = uses_experimental a && is_frame kind in
    add_expressed a.expressed_in (
      add_reference a.reference (
        add_default (framed && not (is_in kind placements)) "expressed_in" null (
          add_default (framed && not (is_in kind wrenches)) "reference" (reference_of a.reference)
            [])))

abbrev pub add_spatial : Dict String Spatial → Dict String Out → Dict String Out
add_spatial [] result = result
add_spatial (e ∷ spatial) result = put "spatial" (spatial_out (e ∷ spatial)) result

-- `result.update(self.extra)`
unfoldable pub add_all : Dict String ℕ → Dict String Out → Dict String Out
add_all [] result = result
add_all ((k, object) ∷ extra) result = add_all extra (put k (extra_out object) result)

-- The dictionary without `extra`.
unfoldable pub known_fields : Annotation → Dict String Out
known_fields a = add_spatial (spatial_of a) (own_fields a)

-- `to_dict`
unfoldable pub to_dict : Annotation → Dict String Out
to_dict a = add_all (or_else a.extra []) (known_fields a)

get-add_all :
    (k : String) (extra : Dict String ℕ) (result : Dict String Out)
    → contains (keys extra) k ≡ false
    → get k (add_all extra result) ≡ get k result
unfolding add_all
get-add_all k [] result h = refl
get-add_all k ((j, object) ∷ extra) result h =
    let (other, rest) = absent-cons k j (keys extra) h in
    get-add_all k extra (put j (extra_out object) result) rest
    ∙ get-put j k (extra_out object) result
    ∙ rw other refl

neither : (a b : Bool) → (a || b) ≡ false → (a ≡ false) × (b ≡ false)
neither a b h = ground arith

any_in-contains :
    (ks rest : List String) (k : String)
    → any_in rest ks ≡ false
    → In k rest
    → contains ks k ≡ false
any_in-contains ks [] k h m = elim m [ ]
any_in-contains ks (j ∷ rest) k h m =
    let (here, there) = neither (contains ks j) (any_in rest ks) h in
    elim m [ inl e ↦ rw e here | inr later ↦ any_in-contains ks rest k there later ]

no_clash :
    (extra : Option (Dict String ℕ)) (k : String)
    → clashes extra ≡ false
    → In k reserved
    → contains (keys (or_else extra [])) k ≡ false
no_clash none k h m = refl
no_clash (some extra) k h m = any_in-contains (keys extra) reserved k h m

-- In the dictionary of an annotation that was accepted and uses experimental fields, what stands
-- under a reserved key is what the fields say: `extra` overrides none of them.
pub to_dict-reserved :
    (a : Annotation) (k : String) {b : Annotation}
    → post_init a ≡ ok b
    → uses_experimental b ≡ true
    → In k reserved
    → get k (to_dict b) ≡ get k (known_fields b)
unfolding to_dict
to_dict-reserved a k {b} h uses m =
    let c = post_init-Accepted a h in
    let checked : check_experimental c.shape b ≡ ok tt = rw uses at c.checked in
    get-add_all k (or_else b.extra []) (known_fields b)
      (no_clash b.extra k (experimental_passed c.shape b checked).0 m)
