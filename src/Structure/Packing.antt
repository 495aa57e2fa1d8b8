-- ===== src/Structure/Packing.antt =====
-- The expressions of `ParameterFormat` of leapp/utils/tensor_description.py: the text that packs
-- tensors into a nested value, and the text that takes one apart. A format inside a format stands for
-- its formatting, and the name of a description is its `name_str`.
pub mod Python
pub mod Meaning
pub mod Names
pub mod RoundTrip
mod Samples
use Prim.Native.Char.{Char, code}
use leapp.Common.{
  ℕ, suc, String, string_eq, nat_eq, List, [], ◌∷◌, ◌++◌, Bool, true, false, ◌==◌, if◌then◌else◌,
}
use leapp.Common.Text.{concat}
use leapp.Structure.{
  Value, tensor, sequence, mapping, other, Items, empty_sequence, item, Fields, empty_mapping,
  field, Leaf, decimal,
}

abbrev undotted : Char → Char
undotted c = if code c == 46 then "_" else c

-- `.replace(".", "_")`
unfoldable pub replace_dots : String → String
replace_dots String.[] = ""
replace_dots (String.◌∷◌ c s) = String.◌∷◌ (undotted c) (replace_dots s)

-- `separator.join(parts)`
unfoldable pub join : String → List String → String
join separator [] = ""
join separator (part ∷ []) = part
join separator (part ∷ next ∷ parts) =
    concat part (concat separator (join separator (next ∷ parts)))

abbrev pub enclosed : String → String → String → String
enclosed left s right = concat left (concat s right)

-- `f'"{k}": {v}'`
abbrev pub entry_text : String → String → String
entry_text k v = concat "\"" (concat k (concat "\": " v))

module _ {F : Type 0} (name_of : F → String) where
  -- `_generate_expr` of `packed_tensor_expr`.
  unfoldable mutual
    pub packed : Value F → String
    packed (tensor l) = name_of l
    packed (sequence items) = enclosed "[" (join ", " (packed_items items)) "]"
    packed (mapping fields) = enclosed "{" (join ", " (packed_fields fields)) "}"
    packed other = "None"

    pub packed_items : Items F → List String
    packed_items empty_sequence = []
    packed_items (item f items) = packed f ∷ packed_items items

    pub packed_fields : Fields F → List String
    packed_fields empty_mapping = []
    packed_fields (field k f fields) = entry_text k (packed f) ∷ packed_fields fields

-- `f"{name} = {expression}"`
abbrev pub assignment : String → String → String
assignment name expression = concat name (concat " = " expression)

module _ {F : Type 0} (name_of : F → String) where
  -- `packed_tensor_expr`, for the name of the parameter.
  unfoldable pub packed_tensor_expr : String → Value F → String
  packed_tensor_expr name f =
      let reconstruction = packed name_of f in
      if replace_dots name == reconstruction
      then ""
      else assignment (replace_dots name) reconstruction

-- `f"{accessor_path}[{idx}]"` and `f'{accessor_path}["{key}"]'`
abbrev pub index_path : String → ℕ → String
index_path path i = concat path (enclosed "[" (decimal i) "]")

abbrev pub key_path : String → String → String
key_path path k = concat path (enclosed "[\"" k "\"]")

module _ {F : Type 0} (name_of : F → String) where
  -- `_generate_unpacking`: the assignments that it appends.
  unfoldable mutual
    pub unpacking : Value F → String → List String
    unpacking (tensor l) path = if name_of l == path then [] else assignment (name_of l) path ∷ []
    unpacking (sequence items) path = unpacking_items 0 items path
    unpacking (mapping fields) path = unpacking_fields fields path
    unpacking other path = []

    pub unpacking_items : ℕ → Items F → String → List String
    unpacking_items i empty_sequence path = []
    unpacking_items i (item f items) path =
        unpacking f (index_path path i) ++ unpacking_items (suc i) items path

    pub unpacking_fields : Fields F → String → List String
    unpacking_fields empty_mapping path = []
    unpacking_fields (field k f fields) path =
        unpacking f (key_path path k) ++ unpacking_fields fields path

  -- `unpacked_tensor_expr`
  unfoldable pub unpacked_tensor_expr : String → Value F → String
  unpacked_tensor_expr name f = join "\n" (unpacking f (replace_dots name))
