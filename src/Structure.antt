-- ===== src/Structure.antt =====
-- Nested inputs and outputs: `flatten_io_structure`, `describe_io`, `_resolve_tensor_descriptions`
-- and the expressions of `ParameterFormat`, of leapp/utils/tensor_description.py.
pub mod Lines
pub mod Resolve
pub mod Packing
mod Samples
use Prim.Native.Nat.{◌/◌, ◌%◌}
use leapp.Common.{
  ℕ, zero, suc, String, string_eq, Option, none, some, List, [], ◌∷◌, ◌++◌, Bool, ltb, ◌==◌, Dict,
  put, if◌then◌else◌, or_else, get_elem?,
}
use leapp.Common.Text.{concat}

-- A Python value: a tensor, a list-like or a dict-like value, or anything else. The keys of a
-- mapping are the texts that an f-string makes of them.
mutual
  pub data Value (A : Type 0) : Type 0 where
    tensor : A → Value A
    sequence : Items A → Value A
    mapping : Fields A → Value A
    other : Value A

  pub data Items (A : Type 0) : Type 0 where
    empty_sequence : Items A
    item : Value A → Items A → Items A

  pub data Fields (A : Type 0) : Type 0 where
    empty_mapping : Fields A
    field : String → Value A → Fields A → Fields A

abbrev digits : List String
digits = "0" ∷ "1" ∷ "2" ∷ "3" ∷ "4" ∷ "5" ∷ "6" ∷ "7" ∷ "8" ∷ "9" ∷ []

abbrev digit : ℕ → String
digit n = or_else (get_elem? digits n) ""

-- `str(n)`, where the first number bounds the digits.
abbrev decimal_of : ℕ → ℕ → String
decimal_of zero n = digit n
decimal_of (suc fuel) n =
    let rest = decimal_of fuel (n / 10) in
    if ltb n 10 then digit n else concat rest (digit (n % 10))

unfoldable pub decimal : ℕ → String
decimal n = decimal_of n n

-- `f"{name_str}_{part}" if name_str else part`
unfoldable pub child_name : String → String → String
child_name name part = if name == "" then part else concat name (concat "_" part)

-- `flat_data.update(more)`
unfoldable pub update : {A : Type 0} → Dict String A → Dict String A → Dict String A
update flat [] = flat
update flat ((k, v) ∷ more) = update (put k v flat) more

-- A tensor of the structure, under the name that it is described by.
pub record Leaf (A : Type 0) : Type 0 where
  pub name : String
  pub value : A

abbrev pub Described : Type 0 → Type 0 → Type 0
Described A F = List (Leaf A) × Option F

-- A child without a format adds neither a format nor descriptions.
abbrev add_item :
    {A : Type 0}
    → Described A (Value (Leaf A))
    → List (Leaf A) × Items (Leaf A)
    → List (Leaf A) × Items (Leaf A)
add_item (ds, none) rest = rest
add_item (ds, some f) (ds', fs) = (ds ++ ds', item f fs)

abbrev add_field :
    {A : Type 0}
    → String
    → Described A (Value (Leaf A))
    → List (Leaf A) × Fields (Leaf A)
    → List (Leaf A) × Fields (Leaf A)
add_field k (ds, none) rest = rest
add_field k (ds, some f) (ds', fs) = (ds ++ ds', field k f fs)

abbrev listed : {A : Type 0} → List (Leaf A) × Items (Leaf A) → Described A (Value (Leaf A))
listed (ds, fs) = (ds, some (sequence fs))

abbrev keyed : {A : Type 0} → List (Leaf A) × Fields (Leaf A) → Described A (Value (Leaf A))
keyed (ds, fs) = (ds, some (mapping fs))

-- `describe_io_helper`: the descriptions, and the format of the value if it has one.
unfoldable mutual
  pub describe : {A : Type 0} → Value A → String → Described A (Value (Leaf A))
  describe (tensor t) name =
      let leaf : Leaf _ = record { name = name; value = t } in (leaf ∷ [], some (tensor leaf))
  describe (sequence items) name = listed (describe_items 0 items name)
  describe (mapping fields) name = keyed (describe_fields fields name)
  describe other name = ([], none)

  pub describe_items : {A : Type 0} → ℕ → Items A → String → List (Leaf A) × Items (Leaf A)
  describe_items i empty_sequence name = ([], empty_sequence)
  describe_items i (item v items) name =
      add_item (describe v (child_name name (decimal i))) (describe_items (suc i) items name)

  pub describe_fields : {A : Type 0} → Fields A → String → List (Leaf A) × Fields (Leaf A)
  describe_fields empty_mapping name = ([], empty_mapping)
  describe_fields (field k v fields) name =
      add_field k (describe v (child_name name k)) (describe_fields fields name)

-- `flatten_io_structure`, with the dictionary that a loop has filled so far.
unfoldable mutual
  pub flatten : {A : Type 0} → Value A → String → Dict String A
  flatten (tensor t) name = put name t []
  flatten (sequence items) name = flatten_items 0 items name []
  flatten (mapping fields) name = flatten_fields fields name []
  flatten other name = []

  pub flatten_items : {A : Type 0} → ℕ → Items A → String → Dict String A → Dict String A
  flatten_items i empty_sequence name flat = flat
  flatten_items i (item v items) name flat =
      flatten_items (suc i) items name (update flat (flatten v (child_name name (decimal i))))

  pub flatten_fields : {A : Type 0} → Fields A → String → Dict String A → Dict String A
  flatten_fields empty_mapping name flat = flat
  flatten_fields (field k v fields) name flat =
      flatten_fields fields name (update flat (flatten v (child_name name k)))

-- `_resolve_tensor_descriptions`
unfoldable mutual
  pub resolve : {A B : Type 0} → (A → B) → Value A → Value B
  resolve f (tensor t) = tensor (f t)
  resolve f (sequence items) = sequence (resolve_items f items)
  resolve f (mapping fields) = mapping (resolve_fields f fields)
  resolve f other = other

  pub resolve_items : {A B : Type 0} → (A → B) → Items A → Items B
  resolve_items f empty_sequence = empty_sequence
  resolve_items f (item v items) = item (resolve f v) (resolve_items f items)

  pub resolve_fields : {A B : Type 0} → (A → B) → Fields A → Fields B
  resolve_fields f empty_mapping = empty_mapping
  resolve_fields f (field k v fields) = field k (resolve f v) (resolve_fields f fields)

abbrev pub resolve_to_names : {A : Type 0} → Value (Leaf A) → Value String
resolve_to_names = resolve (λ l. l.name)

abbrev pub resolve_to_values : {A : Type 0} → Value (Leaf A) → Value A
resolve_to_values = resolve (λ l. l.value)
