-- ===== src/Structure/Samples.antt =====
-- A nested value, what is made of it, and each property at it.
use leapp.Common.{ℕ, string_eq, ◌≡◌, refl, [], ◌∷◌, Distinct, keys, put, upsert}
use leapp.Structure.{
  Value, tensor, sequence, mapping, empty_sequence, item, empty_mapping, field, describe,
  describe_items, describe_fields, flatten, flatten_items, flatten_fields, update, child_name,
  decimal, resolve, resolve_items, resolve_fields,
}
use leapp.Structure.Lines.{entries, flatten_lines_up}
use leapp.Structure.Resolve.{Stands, resolve-describe, leaves_if, leaves-describe}

program : Unit {0}
unfolding describe describe_items describe_fields flatten flatten_items flatten_fields update
    child_name decimal put upsert resolve resolve_items resolve_fields
program = tt

-- {"pose": [1, 2], "goal": 3}
abbrev state : Value ℕ
state = mapping (
    field "pose" (sequence (item (tensor 1) (item (tensor 2) empty_sequence)))
      (field "goal" (tensor 3) empty_mapping))

flatten-state :
    flatten state "state" ≡ ("state_pose_0", 1) ∷ ("state_pose_1", 2) ∷ ("state_goal", 3) ∷ []
unfolding program
flatten-state = refl

-- {"a": [1], "a_0": 2} at the root: the two tensors have one name, and the last one is kept.
flatten_collides :
    flatten {A = ℕ}
      (mapping (
        field "a"
          (sequence (item (tensor 1) empty_sequence))
          (field "a_0" (tensor 2) empty_mapping)))
      ""
    ≡ ("a_0", 2) ∷ []
unfolding program
flatten_collides = refl

names-Distinct : Distinct (keys (entries (describe state "state").0))
unfolding program
names-Distinct = (refl, (refl, (refl, tt)))

flatten_lines_up_example : flatten state "state" ≡ entries (describe state "state").0
flatten_lines_up_example = flatten_lines_up state "state" names-Distinct

resolve-describe_example : Stands state (describe state "state").1
resolve-describe_example = resolve-describe state "state" ((tt, (tt, tt)), (tt, tt))

leaves-describe_example : leaves_if (describe state "state").1 ≡ (describe state "state").0
leaves-describe_example = leaves-describe state "state"
