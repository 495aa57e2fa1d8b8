-- ===== src/Semantics/Samples.antt =====
-- Annotations, what the checks make of them, and each property at them.
use leapp.Common.{
  string_eq, nat_eq, ◌≡◌, refl, inl, inr, ◌↔◌, none, some, [], ◌∷◌, true, false, get, put, upsert,
}
use leapp.Common.Result.{ok, err, value_error}
use leapp.Semantics.{
  positive, text, temporal, nested, ElementNames, listed, text_child, label, labels, Axis, axis,
  axes, input_kind, quantity,
}
use leapp.Semantics.Names.{sentinel, scan_item, scan_items, normalize}
use leapp.Semantics.Names.Stable.{IsKept, normalize-IsKept}
use leapp.Semantics.Axes.{validate_axis, check_entries, check_axes}
use leapp.Semantics.Axes.Fit.{IsAxis, validate_axis_iff, IsAxes}
use leapp.Semantics.Annotation.{
  Annotation, condition_names, check_experimental, post_init, update, apply_change, apply_changes,
  set_element_names,
}
use leapp.Semantics.Annotation.Stable.{post_init-stable, post_init-IsAxes}
use leapp.Semantics.Annotation.Output.{
  own_fields, spatial_of, known_fields, add_all, to_dict, to_dict-reserved,
}
use leapp.Semantics.Quantity.{check_components, annotate, Covers, annotate-Covers, positions}

program : Unit {0}
unfolding get put upsert scan_item scan_items normalize validate_axis check_entries check_axes
    condition_names check_experimental post_init update apply_change apply_changes own_fields
    spatial_of known_fields add_all to_dict check_components annotate
program = tt

-- Ten steps of history, of two joints.
abbrev history : ElementNames
history = listed (temporal (positive 20) ∷ nested (text_child "hip" ∷ text_child "knee" ∷ []) ∷ [])

abbrev history_names : ElementNames
history_names = listed (text sentinel ∷ nested (text_child "hip" ∷ text_child "knee" ∷ []) ∷ [])

history_normalized : normalize false history ≡ ok (history_names, some (positive 20))
unfolding program
history_normalized = refl

normalize-IsKept_example : IsKept true (history_names, some (positive 20))
normalize-IsKept_example =
    normalize-IsKept false true history (history_names, some (positive 20)) history_normalized
      (λ h. refl) (λ h. refl)

abbrev plain_annotation : Annotation
plain_annotation = record {
  ref = some (10 ∷ 2 ∷ []);
  kind = some (input_kind "state/joint/position");
  element_names = some history;
  temporal_period_ms = none;
  extra = none;
  axes = none;
  is_setpoint = none;
  reference = none;
  expressed_in = none;
}

abbrev made : Annotation
made = record plain_annotation {
  element_names = some history_names;
  temporal_period_ms = some (positive 20);
}

makes : post_init plain_annotation ≡ ok made
unfolding program
makes = refl

post_init-stable_example : post_init made ≡ ok made
post_init-stable_example = post_init-stable plain_annotation makes

-- An update by names without a temporal axis keeps the period of the names before.
update_keeps_period :
    update ((set_element_names (some (listed (text "hip" ∷ text "knee" ∷ []))), 1) ∷ []) made
    ≡ ok (record made {
      element_names = some (listed (nested (text_child "hip" ∷ text_child "knee" ∷ []) ∷ []));
      temporal_period_ms = some (positive 20);
    })
unfolding program
update_keeps_period = refl

abbrev time_axis : Axis
time_axis = record { kind = some (label "time"); names = none; period_ms = some (positive 20) }

validate_axis_iff_example : (validate_axis time_axis ≡ ok tt) ↔ IsAxis time_axis
validate_axis_iff_example = validate_axis_iff time_axis

abbrev xyz : Axis
xyz = record {
  kind = some (label "component");
  names = some (labels (label "z" ∷ label "x" ∷ label "y" ∷ []));
  period_ms = none;
}

abbrev position : Annotation
position = record {
  ref = some (10 ∷ 3 ∷ []);
  kind = some (quantity "frame/position");
  element_names = none;
  temporal_period_ms = none;
  extra = none;
  axes = some (axes (axis time_axis ∷ axis xyz ∷ []));
  is_setpoint = none;
  reference = some (label "base");
  expressed_in = none;
}

position_accepted : post_init position ≡ ok position
unfolding program
position_accepted = refl

position_annotated :
    annotate "frame/position"
      (some (10 ∷ 3 ∷ []))
      (some (axes (axis time_axis ∷ axis xyz ∷ [])))
      none
      (some (label "base"))
      none
    ≡ ok position
unfolding program
position_annotated = refl

-- Two labels for three components.
refuses_two_labels :
    annotate "frame/position"
      (some (2 ∷ []))
      (some (
        axes (
          axis (record {
            kind = some (label "component");
            names = some (labels (label "x" ∷ label "y" ∷ []));
            period_ms = none;
          })
          ∷ [])))
      none
      none
      none
    ≡ err value_error
unfolding program
refuses_two_labels = refl

post_init-IsAxes_example : IsAxes (10 ∷ 3 ∷ []) position.axes
post_init-IsAxes_example = post_init-IsAxes position (10 ∷ 3 ∷ []) position_accepted refl

to_dict-reserved_example : get "spatial" (to_dict position) ≡ get "spatial" (known_fields position)
to_dict-reserved_example =
    to_dict-reserved position "spatial" position_accepted refl (inr (inr (inr (inr (inl refl)))))

annotate-Covers_example : Covers positions (label "z" ∷ label "x" ∷ label "y" ∷ [])
annotate-Covers_example =
    annotate-Covers "frame/position" (some (10 ∷ 3 ∷ []))
      (some (axes (axis time_axis ∷ axis xyz ∷ []))) none (some (label "base")) none positions
      (axis time_axis ∷ axis xyz ∷ []) xyz (label "z" ∷ label "x" ∷ label "y" ∷ [])
      position_annotated refl refl (inr (inl refl)) refl refl
