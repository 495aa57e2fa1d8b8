-- ===== src/Structure/Packing/Samples.antt =====
-- The texts for a nested parameter, and each property at them.
use leapp.Common.{
  true, false, ℕ, String, string_eq, nat_eq, ◌≡◌, refl, Option, some, List, [], ◌∷◌, inl, inr,
}
use leapp.Structure.{
  Value, tensor, sequence, mapping, other, empty_sequence, item, empty_mapping, field, Leaf,
  decimal, describe, describe_items, describe_fields, child_name,
}
use leapp.Structure.Packing.{
  replace_dots, join, packed, packed_items, packed_fields, packed_tensor_expr, unpacking,
  unpacking_items, unpacking_fields, unpacked_tensor_expr,
}
use leapp.Structure.Packing.RoundTrip.{RoundTrips, packed-unpacking}
use leapp.Structure.Packing.Python.{are_name_chars, is_identifier, escape, is_plain}

program : Unit {0}
unfolding replace_dots join packed packed_items packed_fields packed_tensor_expr unpacking
    unpacking_items unpacking_fields unpacked_tensor_expr decimal describe describe_items
    describe_fields child_name are_name_chars is_identifier escape is_plain
program = tt

abbrev leaf : String → ℕ → Leaf ℕ
leaf s n = record { name = s; value = n }

abbrev name_of : Leaf ℕ → String
name_of l = l.name

abbrev value_of : Leaf ℕ → ℕ
value_of l = l.value

-- {"pose": [1, 2], "goal": 3}
abbrev state : Value (Leaf ℕ)
state = mapping (
    field "pose"
      (sequence (
        item (tensor (leaf "state_pose_0" 1))
          (item (tensor (leaf "state_pose_1" 2)) empty_sequence)))
      (field "goal" (tensor (leaf "state_goal" 3)) empty_mapping))

packs_state :
    packed_tensor_expr name_of "state" state
    ≡ "state = {\"pose\": [state_pose_0, state_pose_1], \"goal\": state_goal}"
unfolding program
packs_state = refl

unpacks_state :
    unpacked_tensor_expr name_of "state" state
    ≡ "state_pose_0 = state[\"pose\"][0]\nstate_pose_1 = state[\"pose\"][1]\nstate_goal = state[\"goal\"]"
unfolding program
unpacks_state = refl

packs_nothing : packed_tensor_expr name_of "obs.x" (tensor (leaf "obs_x" 1)) ≡ ""
unfolding program
packs_nothing = refl

abbrev unpack_format : String → Option (Value (Leaf ℕ)) → List String
unpack_format s (some f) = unpacking name_of f s
unpack_format s _ = []

-- A list whose first entry is no tensor: the format has dropped it, and the index is that of the
-- format, not that of the list.
unpacks_wrong_index :
    unpack_format "out" (describe (sequence (item other (item (tensor 7) empty_sequence))) "out").1
    ≡ "out_1 = out[0]" ∷ []
unfolding program
unpacks_wrong_index = refl

-- A key with a quote is written without its backslash.
unescaped_key :
    (packed name_of (mapping (field "a\"b" (tensor (leaf "x" 1)) empty_mapping)) ≡ "{\"a\"b\": x}")
    × (escape "a\"b" ≡ "a\\\"b")
unfolding program
unescaped_key = (refl, refl)

-- A name with a dash is no identifier, nor is a keyword.
refuses_name :
    (is_identifier "obs_my-key" ≡ false)
    × (is_identifier "class" ≡ false)
    × (is_identifier "obs_0" ≡ true)
unfolding program
refuses_name = (refl, refl, refl)

packed-unpacking_example : RoundTrips name_of value_of state "state"
unfolding program
packed-unpacking_example =
    packed-unpacking name_of value_of state "state" ((refl, (refl, tt)), ((tt, (tt, tt)), (tt, tt)))
      ((refl, (tt, (tt, tt)), (refl, tt, tt)))
      (
        (refl, (refl, (refl, tt))),
        refl,
        λ l m. elim m [
          | inl e ↦ rw e refl
          | inr later ↦ elim later [
            | inl e ↦ rw e refl
            | inr last ↦ elim last [ inl e ↦ rw e refl | inr none_left ↦ absurd none_left ]
          ]
        ],
      )
      refl
