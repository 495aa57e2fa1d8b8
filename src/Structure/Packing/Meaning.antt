-- ===== src/Structure/Packing/Meaning.antt =====
-- What the texts of Structure/Packing mean: the Python expressions and assignments that they spell,
-- and what these evaluate to.
use leapp.Common.{
  true, ℕ, zero, suc, String, string_eq, ◌≡◌, refl, ap, ◌∙◌, Option, none, some, List, [], ◌∷◌,
  ◌++◌, map, map-append, ◌==◌, if◌then◌else◌, Dict, get, put, Bool-cases, inl, inr,
}
use leapp.Structure.{
  Value, tensor, sequence, mapping, other, Items, empty_sequence, item, Fields, empty_mapping,
  field,
}
use leapp.Structure.Packing.Python.{is_identifier, escape, is_plain, escape-is_plain}
use leapp.Structure.Packing.{
  join, enclosed, entry_text, packed, packed_items, packed_fields, assignment, index_path, key_path,
  unpacking, unpacking_items, unpacking_fields,
}

-- A variable, a list display, a dict display, or None.
mutual
  pub data Expr : Type 0 where
    variable : String → Expr
    list_display : Exprs → Expr
    dict_display : Entries → Expr
    none_literal : Expr

  pub data Exprs : Type 0 where
    no_exprs : Exprs
    expr : Expr → Exprs → Exprs

  pub data Entries : Type 0 where
    no_entries : Entries
    entry : String → Expr → Entries → Entries

-- The text of an expression, with its keys as literals.
abbrev mutual
  pub show : Expr → String
  show (variable s) = s
  show (list_display es) = enclosed "[" (join ", " (show_all es)) "]"
  show (dict_display es) = enclosed "{" (join ", " (show_entries es)) "}"
  show none_literal = "None"

  pub show_all : Exprs → List String
  show_all no_exprs = []
  show_all (expr e es) = show e ∷ show_all es

  pub show_entries : Entries → List String
  show_entries no_entries = []
  show_entries (entry k e es) = entry_text (escape k) (show e) ∷ show_entries es

-- The variables and their values.
abbrev pub Env : Type 0 → Type 0
Env A = Dict String (Value A)

abbrev pub variable_value : {A : Type 0} → Env A → String → Option (Value A)
variable_value env s = if is_identifier s then get s env else none

abbrev join_item : {A : Type 0} → Option (Value A) → Option (Items A) → Option (Items A)
join_item none rest = none
join_item (some v) none = none
join_item (some v) (some vs) = some (item v vs)

abbrev join_field : {A : Type 0} → String → Option (Value A) → Option (Fields A) → Option (Fields A)
join_field k none rest = none
join_field k (some v) none = none
join_field k (some v) (some vs) = some (field k v vs)

abbrev pub as_sequence : {A : Type 0} → Option (Items A) → Option (Value A)
as_sequence none = none
as_sequence (some vs) = some (sequence vs)

abbrev pub as_mapping : {A : Type 0} → Option (Fields A) → Option (Value A)
as_mapping none = none
as_mapping (some vs) = some (mapping vs)

-- The value of an expression, or nothing where a variable has none or is no identifier. The keys of a display are
-- taken to be distinct.
unfoldable mutual
  pub evaluate : {A : Type 0} → Env A → Expr → Option (Value A)
  evaluate env (variable s) = variable_value env s
  evaluate env (list_display es) = as_sequence (evaluate_all env es)
  evaluate env (dict_display es) = as_mapping (evaluate_entries env es)
  evaluate env none_literal = some other

  pub evaluate_all : {A : Type 0} → Env A → Exprs → Option (Items A)
  evaluate_all env no_exprs = some empty_sequence
  evaluate_all env (expr e es) = join_item (evaluate env e) (evaluate_all env es)

  pub evaluate_entries : {A : Type 0} → Env A → Entries → Option (Fields A)
  evaluate_entries env no_entries = some empty_mapping
  evaluate_entries env (entry k e es) = join_field k (evaluate env e) (evaluate_entries env es)

-- A variable, and what is reached from it by indices and keys.
pub data Access : Type 0 where
  root : String → Access
  at_index : Access → ℕ → Access
  at_key : Access → String → Access

abbrev pub show_access : Access → String
show_access (root s) = s
show_access (at_index p i) = index_path (show_access p) i
show_access (at_key p k) = key_path (show_access p) (escape k)

abbrev pub item_at : {A : Type 0} → ℕ → Items A → Option (Value A)
item_at i empty_sequence = none
item_at zero (item v vs) = some v
item_at (suc i) (item v vs) = item_at i vs

abbrev pub field_at : {A : Type 0} → String → Fields A → Option (Value A)
field_at k empty_mapping = none
field_at k (field j v vs) = let rest = field_at k vs in if j == k then some v else rest

abbrev pub index_into : {A : Type 0} → ℕ → Option (Value A) → Option (Value A)
index_into i (some (sequence vs)) = item_at i vs
index_into i _ = none

abbrev pub look_up : {A : Type 0} → String → Option (Value A) → Option (Value A)
look_up k (some (mapping vs)) = field_at k vs
look_up k _ = none

unfoldable pub read : {A : Type 0} → Env A → Access → Option (Value A)
read env (root s) = variable_value env s
read env (at_index p i) = index_into i (read env p)
read env (at_key p k) = look_up k (read env p)

-- An assignment to a variable.
pub record Assign : Type 0 where
  pub target : String
  pub from : Access

abbrev pub show_assign : Assign → String
show_assign a = assignment a.target (show_access a.from)

abbrev assigned : {A : Type 0} → String → Env A → Option (Value A) → Option (Env A)
assigned s env none = none
assigned s env (some v) = if is_identifier s then some (put s v env) else none

abbrev pub and_next : {A : Type 0} → Option (Env A) → (Env A → Option (Env A)) → Option (Env A)
and_next none k = none
and_next (some env) k = k env

-- The variables after a list of assignments, or nothing where one of them fails.
unfoldable pub run : {A : Type 0} → List Assign → Env A → Option (Env A)
run [] env = some env
run (a ∷ rest) env = and_next (assigned a.target env (read env a.from)) (run rest)

module _ {F : Type 0} (name_of : F → String) where
  -- The expression that packs a format.
  abbrev mutual
    pub expr_of : Value F → Expr
    expr_of (tensor l) = variable (name_of l)
    expr_of (sequence items) = list_display (exprs_of items)
    expr_of (mapping fields) = dict_display (entries_of fields)
    expr_of other = none_literal

    pub exprs_of : Items F → Exprs
    exprs_of empty_sequence = no_exprs
    exprs_of (item f items) = expr (expr_of f) (exprs_of items)

    pub entries_of : Fields F → Entries
    entries_of empty_mapping = no_entries
    entries_of (field k f fields) = entry k (expr_of f) (entries_of fields)

module _ {F : Type 0} (name_of : F → String) where
  -- The assignments that take a value apart.
  abbrev mutual
    pub assigns : Value F → Access → List Assign
    assigns (tensor l) p =
        if name_of l == show_access p then [] else record { target = name_of l; from = p } ∷ []
    assigns (sequence items) p = assigns_items 0 items p
    assigns (mapping fields) p = assigns_fields fields p
    assigns other p = []

    pub assigns_items : ℕ → Items F → Access → List Assign
    assigns_items i empty_sequence p = []
    assigns_items i (item f items) p = assigns f (at_index p i) ++ assigns_items (suc i) items p

    pub assigns_fields : Fields F → Access → List Assign
    assigns_fields empty_mapping p = []
    assigns_fields (field k f fields) p = assigns f (at_key p k) ++ assigns_fields fields p

-- Every key of a mapping is written in a literal as it is.
abbrev mutual
  pub HasPlainKeys : {A : Type 0} → Value A → Type 0
  HasPlainKeys (tensor t) = Unit
  HasPlainKeys (sequence items) = ArePlain items
  HasPlainKeys (mapping fields) = HavePlain fields
  HasPlainKeys other = Unit

  pub ArePlain : {A : Type 0} → Items A → Type 0
  ArePlain empty_sequence = Unit
  ArePlain (item v items) = HasPlainKeys v × ArePlain items

  pub HavePlain : {A : Type 0} → Fields A → Type 0
  HavePlain empty_mapping = Unit
  HavePlain (field k v fields) = (is_plain k ≡ true) × HasPlainKeys v × HavePlain fields

module _ {F : Type 0} (name_of : F → String) where
  -- The texts of the source spell these.
  mutual
    unfolding packed packed_items packed_fields

    pub show-expr_of : (f : Value F) → HasPlainKeys f → show (expr_of name_of f) ≡ packed name_of f
    show-expr_of (tensor l) plain = refl
    show-expr_of (sequence items) plain =
        ap (λ s. enclosed "[" (join ", " s) "]") (show_all-exprs_of items plain)
    show-expr_of (mapping fields) plain =
        ap (λ s. enclosed "{" (join ", " s) "}") (show_entries-entries_of fields plain)
    show-expr_of other plain = refl

    show_all-exprs_of :
        (items : Items F)
        → ArePlain items
        → show_all (exprs_of name_of items) ≡ packed_items name_of items
    show_all-exprs_of empty_sequence plain = refl
    show_all-exprs_of (item f items) plain =
        rw (show-expr_of f plain.0, show_all-exprs_of items plain.1) refl

    show_entries-entries_of :
        (fields : Fields F)
        → HavePlain fields
        → show_entries (entries_of name_of fields) ≡ packed_fields name_of fields
    show_entries-entries_of empty_mapping plain = refl
    show_entries-entries_of (field k f fields) (as_it_is, plain, others) =
        rw (escape-is_plain k as_it_is, show-expr_of f plain, show_entries-entries_of fields others)
          refl

  mutual
    unfolding unpacking unpacking_items unpacking_fields

    pub map-show_assign :
        (f : Value F) (p : Access)
        → HasPlainKeys f
        → map show_assign (assigns name_of f p) ≡ unpacking name_of f (show_access p)
    map-show_assign (tensor l) p plain = elim (Bool-cases (name_of l == show_access p)) [
      | inl same ↦ rw same refl
      | inr other_name ↦ rw other_name refl
    ]
    map-show_assign (sequence items) p plain = map-show_items 0 items p plain
    map-show_assign (mapping fields) p plain = map-show_fields fields p plain
    map-show_assign other p plain = refl

    map-show_items :
        (i : ℕ) (items : Items F) (p : Access)
        → ArePlain items
        → map show_assign (assigns_items name_of i items p)
          ≡ unpacking_items name_of i items (show_access p)
    map-show_items i empty_sequence p plain = refl
    map-show_items i (item f items) p plain =
        map-append show_assign (assigns name_of f (at_index p i))
          (assigns_items name_of (suc i) items p)
        ∙ rw (map-show_assign f (at_index p i) plain.0, map-show_items (suc i) items p plain.1) refl

    map-show_fields :
        (fields : Fields F) (p : Access)
        → HavePlain fields
        → map show_assign (assigns_fields name_of fields p)
          ≡ unpacking_fields name_of fields (show_access p)
    map-show_fields empty_mapping p plain = refl
    map-show_fields (field k f fields) p (as_it_is, plain, others) =
        map-append show_assign (assigns name_of f (at_key p k)) (assigns_fields name_of fields p)
        ∙ rw (map-show_assign f (at_key p k) plain, map-show_fields fields p others)
            (rw (escape-is_plain k as_it_is) refl)
