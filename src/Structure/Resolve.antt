-- ===== src/Structure/Resolve.antt =====
-- A format stands for the value it was made of.
use leapp.Common.{ℕ, suc, String, ◌≡◌, refl, ap, Option, none, some, List, [], ◌∷◌, ◌++◌}
use leapp.Structure.{
  Value, tensor, sequence, mapping, other, Items, empty_sequence, item, Fields, empty_mapping,
  field, Leaf, Described, describe, describe_items, describe_fields, resolve, resolve_items,
  resolve_fields, resolve_to_values, child_name, decimal, add_item, add_field,
}

-- Tensors, and sequences and mappings of such values, only.
abbrev mutual
  pub IsTensors : {A : Type 0} → Value A → Type 0
  IsTensors (tensor t) = Unit
  IsTensors (sequence items) = IsItems items
  IsTensors (mapping fields) = IsFields fields
  IsTensors other = ⊥

  pub IsItems : {A : Type 0} → Items A → Type 0
  IsItems empty_sequence = Unit
  IsItems (item v items) = IsTensors v × IsItems items

  pub IsFields : {A : Type 0} → Fields A → Type 0
  IsFields empty_mapping = Unit
  IsFields (field k v fields) = IsTensors v × IsFields fields

-- The value of a format is there, and is the given one.
abbrev pub Stands : {A : Type 0} → Value A → Option (Value (Leaf A)) → Type 0
Stands v format = (f : Value (Leaf _)) × (format ≡ some f) × (resolve_to_values f ≡ v)

mutual
  unfolding describe describe_items describe_fields resolve resolve_items resolve_fields

  describe-Stands :
      {A : Type 0} (v : Value A) (name : String) → IsTensors v → Stands v (describe v name).1
  describe-Stands (tensor t) name h = (tensor (record { name = name; value = t }), refl, refl)
  describe-Stands (sequence items) name h =
      (sequence (describe_items 0 items name).1, refl, ap sequence (items-Stand 0 items name h))
  describe-Stands (mapping fields) name h =
      (mapping (describe_fields fields name).1, refl, ap mapping (fields-Stand fields name h))
  describe-Stands other name h = elim h [ ]

  items-Stand :
      {A : Type 0} (i : ℕ) (items : Items A) (name : String)
      → IsItems items
      → resolve_items (λ (l : Leaf A). l.value) (describe_items i items name).1 ≡ items
  items-Stand i empty_sequence name h = refl
  items-Stand i (item v items) name h =
      let (f, there, same) = describe-Stands v (child_name name (decimal i)) h.0 in
      rw there (rw (same, items-Stand (suc i) items name h.1) refl)

  fields-Stand :
      {A : Type 0} (fields : Fields A) (name : String)
      → IsFields fields
      → resolve_fields (λ (l : Leaf A). l.value) (describe_fields fields name).1 ≡ fields
  fields-Stand empty_mapping name h = refl
  fields-Stand (field k v fields) name h =
      let (f, there, same) = describe-Stands v (child_name name k) h.0 in
      rw there (rw (same, fields-Stand fields name h.1) refl)

-- A value of tensors only has a format, and resolving the format to values gives the value back.
pub resolve-describe :
    {A : Type 0} (v : Value A) (name : String) → IsTensors v → Stands v (describe v name).1
resolve-describe v name h = describe-Stands v name h

-- The tensors of a structure, in its order.
abbrev mutual
  pub leaves : {A : Type 0} → Value A → List A
  leaves (tensor t) = t ∷ []
  leaves (sequence items) = leaves_of_items items
  leaves (mapping fields) = leaves_of_fields fields
  leaves other = []

  pub leaves_of_items : {A : Type 0} → Items A → List A
  leaves_of_items empty_sequence = []
  leaves_of_items (item v items) = leaves v ++ leaves_of_items items

  pub leaves_of_fields : {A : Type 0} → Fields A → List A
  leaves_of_fields empty_mapping = []
  leaves_of_fields (field k v fields) = leaves v ++ leaves_of_fields fields

abbrev pub leaves_if : {A : Type 0} → Option (Value A) → List A
leaves_if none = []
leaves_if (some f) = leaves f

module _ {A : Type 0} where
  add_item_leaves :
      (d : Described A (Value (Leaf A))) (rest : List (Leaf A) × Items (Leaf A))
      → leaves_if d.1 ≡ d.0
      → leaves_of_items rest.1 ≡ rest.0
      → leaves_of_items (add_item d rest).1 ≡ (add_item d rest).0
  add_item_leaves (ds, none) rest h k = k
  add_item_leaves (ds, some f) (ds', fs) h k = rw (h, k) refl

  add_field_leaves :
      (key : String) (d : Described A (Value (Leaf A))) (rest : List (Leaf A) × Fields (Leaf A))
      → leaves_if d.1 ≡ d.0
      → leaves_of_fields rest.1 ≡ rest.0
      → leaves_of_fields (add_field key d rest).1 ≡ (add_field key d rest).0
  add_field_leaves key (ds, none) rest h k = k
  add_field_leaves key (ds, some f) (ds', fs) h k = rw (h, k) refl

mutual
  unfolding describe describe_items describe_fields

  leaves_of_format :
      {A : Type 0} (v : Value A) (name : String)
      → leaves_if (describe v name).1 ≡ (describe v name).0
  leaves_of_format (tensor t) name = refl
  leaves_of_format (sequence items) name = item_leaves 0 items name
  leaves_of_format (mapping fields) name = field_leaves fields name
  leaves_of_format other name = refl

  item_leaves :
      {A : Type 0} (i : ℕ) (items : Items A) (name : String)
      → leaves_of_items (describe_items i items name).1 ≡ (describe_items i items name).0
  item_leaves i empty_sequence name = refl
  item_leaves i (item v items) name =
      add_item_leaves (describe v (child_name name (decimal i))) (describe_items (suc i) items name)
        (leaves_of_format v (child_name name (decimal i))) (item_leaves (suc i) items name)

  field_leaves :
      {A : Type 0} (fields : Fields A) (name : String)
      → leaves_of_fields (describe_fields fields name).1 ≡ (describe_fields fields name).0
  field_leaves empty_mapping name = refl
  field_leaves (field k v fields) name =
      add_field_leaves k (describe v (child_name name k)) (describe_fields fields name)
        (leaves_of_format v (child_name name k)) (field_leaves fields name)

-- The descriptions are the tensors of the format, in the format's order.
pub leaves-describe :
    {A : Type 0} (v : Value A) (name : String) → leaves_if (describe v name).1 ≡ (describe v name).0
leaves-describe v name = leaves_of_format v name
