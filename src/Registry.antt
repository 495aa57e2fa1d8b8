-- ===== src/Registry.antt =====
-- The inputs and outputs that a node registers: `_validate_and_add_to_list`, `add_output`,
-- `add_input`, `change_input_name` and `change_output_name` of leapp/leapp_graph/leapp_node.py.
pub mod Names
pub mod Reentry
mod Samples
use leapp.Common.{
  ℕ, nat_eq, String, string_eq, Option, none, some, List, [], ◌∷◌, ◌++◌, Bool, contains, map, ◌==◌,
  if◌then◌else◌,
}
use leapp.Common.Result.{Result, ok, err, exception}

-- What registration reads and writes of a description object, told by its identity. The source is
-- the name of a node.
pub record Port : Type 0 where
  pub ident : ℕ
  pub name : String
  pub source_node : Option String
  pub port : Option String

abbrev pub names_of : List Port → List String
names_of = map (λ d. d.name)

-- `_validate_and_add_to_list`: the list, and whether a name was refused. The descriptions before
-- the refused one stay in the list.
unfoldable pub validate_and_add : List Port → List Port → List Port × Result (Unit {0})
validate_and_add [] io = (io, ok tt)
validate_and_add (d ∷ descriptions) io =
    let rest = validate_and_add descriptions (io ++ d ∷ []) in
    if contains (names_of io) d.name then (io, err exception) else rest

-- `desc.source_node = self`, `desc.port = desc.name_str`
abbrev pub stamp : String → Port → Port
stamp node d = record d { source_node = some node; port = some d.name }

-- The objects of the list that are among the descriptions are stamped.
abbrev pub stamp_those : String → List ℕ → Port → Port
stamp_those node those d = if contains those d.ident then stamp node d else d

abbrev pub idents : List Port → List ℕ
idents = map (λ d. d.ident)

abbrev pub stamped :
    String → List Port → List Port × Result (Unit {0}) → List Port × Result (Unit {0})
stamped node descriptions (io, ok tt) = (map (stamp_those node (idents descriptions)) io, ok tt)
stamped node descriptions (io, err e) = (io, err e)

-- `add_output`, for the descriptions of the value: once all are in the list, they are stamped.
unfoldable pub add_output : String → List Port → List Port → List Port × Result (Unit {0})
add_output node descriptions io = stamped node descriptions (validate_and_add descriptions io)

-- `add_input`
unfoldable pub add_input : List Port → List Port → List Port × Result (Unit {0})
add_input = validate_and_add

abbrev pub rename : String → String → Port → Port
rename old new d = if d.name == old then record d { name = new } else d

-- `change_input_name`, and `change_output_name`.
unfoldable pub change_name : String → String → List Port → Result (List Port)
change_name old new io =
    if old == new
    then ok io
    else if contains (names_of io) new
    then err exception
    else ok (map (rename old new) io)
