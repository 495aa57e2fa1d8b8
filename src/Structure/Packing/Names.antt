-- ===== src/Structure/Packing/Names.antt =====
-- The names of tensors that the assignments write, and the paths that they read.
use Prim.Native.String.append
use leapp.Common.{
  ℕ, zero, suc, String, string_eq, nat_eq, ◌≡◌, refl, ap, Option, none, some, List, [], ◌∷◌, ◌++◌,
  true, false, ◌==◌, arith, get, Bool-cases, inl, inr, contains, contains-append, Distinct,
  eq_of_beq, beq_self, absent-cons,
}
use leapp.Common.Text.{concat}
use leapp.Structure.{
  Value, tensor, sequence, mapping, other, Items, empty_sequence, item, Fields, empty_mapping,
  field,
}
use leapp.Structure.Packing.Python.{has_bracket}
use leapp.Structure.Packing.Meaning.{
  Env, Access, root, at_index, at_key, Assign, item_at, field_at, read, run, and_next,
}

pub bracket_after : (s t : String) → has_bracket t ≡ true → has_bracket (concat s t) ≡ true
unfolding has_bracket
bracket_after String.[] t h = rw (append.nil t) h
bracket_after (String.◌∷◌ c s) t h = rw (append.cons c s t) (ground (arith, bracket_after s t h))

-- Two texts differ if one has a bracket and the other has none.
pub differ : (s t : String) → has_bracket s ≡ false → has_bracket t ≡ true → (s == t) ≡ false
differ s t h k = elim (Bool-cases (s == t)) [
  | inl same ↦ absurd (cc (ap has_bracket (eq_of_beq s t same), h, k))
  | inr apart ↦ apart
]

abbrev pub root_of : Access → String
root_of (root s) = s
root_of (at_index p i) = root_of p
root_of (at_key p k) = root_of p

abbrev pub drop_items : {A : Type 0} → ℕ → Items A → Items A
drop_items zero vs = vs
drop_items (suc i) empty_sequence = empty_sequence
drop_items (suc i) (item v vs) = drop_items i vs

pub first_left :
    {A : Type 0} (i : ℕ) (vs : Items A) {v : Value A} {rest : Items A}
    → drop_items i vs ≡ item v rest
    → (item_at i vs ≡ some v) × (drop_items (suc i) vs ≡ rest)
first_left zero empty_sequence h = absurd (cc h)
first_left zero (item v vs) h = ground arith
first_left (suc i) empty_sequence h = absurd (cc h)
first_left (suc i) (item v vs) h = first_left i vs h

next-append :
    {A : Type 0} (o : Option (Env A)) (j k l : Env A → Option (Env A))
    → ((env : Env A) → j env ≡ and_next (k env) l)
    → and_next o j ≡ and_next (and_next o k) l
next-append none j k l h = refl
next-append (some env) j k l h = h env

pub run-append :
    {A : Type 0} (xs ys : List Assign) (env : Env A)
    → run (xs ++ ys) env ≡ and_next (run xs env) (run ys)
unfolding run
run-append [] ys env = refl
run-append (a ∷ xs) ys env = next-append _ (run (xs ++ ys)) (run xs) (run ys) (run-append xs ys)

-- Reading depends on the first variable only.
pub read_same :
    {A : Type 0} (env env' : Env A) (p : Access)
    → get (root_of p) env' ≡ get (root_of p) env
    → read env' p ≡ read env p
unfolding read
read_same env env' (root s) h = rw h refl
read_same env env' (at_index p i) h = rw (read_same env env' p h) refl
read_same env env' (at_key p k) h = rw (read_same env env' p h) refl

pub bracket_first : (s : String) → has_bracket (concat "[" s) ≡ true
unfolding has_bracket
bracket_first s = rw (append.cons "[" String.[] s) refl

pub bracket_key : (s : String) → has_bracket (concat "[\"" s) ≡ true
unfolding has_bracket
bracket_key s = rw (append.cons "[" (String.◌∷◌ "\"" String.[]) s) refl

-- Every key of a mapping is there once.
abbrev field_names : {A : Type 0} → Fields A → List String
field_names empty_mapping = []
field_names (field k v fields) = k ∷ field_names fields

abbrev mutual
  pub IsDict : {A : Type 0} → Value A → Type 0
  IsDict (tensor t) = Unit
  IsDict (sequence items) = AreDicts items
  IsDict (mapping fields) = Distinct (field_names fields) × HasDicts fields
  IsDict other = Unit

  pub AreDicts : {A : Type 0} → Items A → Type 0
  AreDicts empty_sequence = Unit
  AreDicts (item v items) = IsDict v × AreDicts items

  pub HasDicts : {A : Type 0} → Fields A → Type 0
  HasDicts empty_mapping = Unit
  HasDicts (field k v fields) = IsDict v × HasDicts fields

-- Each entry of the one is found in the other.
abbrev pub FoundIn : {A : Type 0} → Fields A → Fields A → Type 0
FoundIn empty_mapping whole = Unit
FoundIn (field k v fields) whole = (field_at k whole ≡ some v) × FoundIn fields whole

not_sym : (a b : String) → (a == b) ≡ false → (b == a) ≡ false
not_sym a b h = ground (arith, string_eq.beq_iff a b, string_eq.beq_iff b a)

found_behind :
    {A : Type 0} (j : String) (u : Value A) (fields whole : Fields A)
    → contains (field_names fields) j ≡ false
    → FoundIn fields whole
    → FoundIn fields (field j u whole)
found_behind j u empty_mapping whole h f = tt
found_behind j u (field k v fields) whole h f =
    let (apart, rest) = absent-cons j k (field_names fields) h in
    (rw (not_sym k j apart) f.0, found_behind j u fields whole rest f.1)

pub found_self :
    {A : Type 0} (fields : Fields A) → Distinct (field_names fields) → FoundIn fields fields
found_self empty_mapping h = tt
found_self (field k v fields) h =
    (rw (beq_self k) refl, found_behind k v fields fields h.0 (found_self fields h.1))

pub absent_right :
    (xs ys : List String) (s : String) → contains (xs ++ ys) s ≡ false → contains ys s ≡ false
absent_right xs ys s h = ground (arith, contains-append xs ys s)
