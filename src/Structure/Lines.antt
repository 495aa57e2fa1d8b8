-- ===== src/Structure/Lines.antt =====
-- Where the names of a value's tensors are distinct, `flatten_io_structure` lists what `describe_io`
-- describes, tensor by tensor.
use leapp.Common.{
  ℕ, suc, String, string_eq, ◌≡◌, refl, sym, ap, subst, ◌∙◌, List, [], ◌∷◌, ◌++◌, Bool, false, ◌||◌,
  arith, Dict, put, upsert, keys, contains, contains-append, Distinct, append_assoc, append-nil,
}
use leapp.Structure.{
  Value, tensor, sequence, mapping, other, Items, empty_sequence, item, Fields, empty_mapping,
  field, Leaf, describe, describe_items, describe_fields, flatten, flatten_items, flatten_fields,
  update, child_name, decimal, add_item, add_field,
}

-- The entries that the descriptions stand for.
abbrev pub entries : {A : Type 0} → List (Leaf A) → Dict String A
entries [] = []
entries (l ∷ ls) = (l.name, l.value) ∷ entries ls

or_true : (a b : Bool) → (a || b) ≡ false → (a ≡ false) × (b ≡ false)
or_true a b h = ground arith

pub Distinct-append : (xs ys : List String) → Distinct (xs ++ ys) → Distinct xs × Distinct ys
Distinct-append [] ys h = (tt, h)
Distinct-append (x ∷ xs) ys h =
    let (here, there) =
      or_true (contains xs x) (contains ys x) (sym (contains-append xs ys x) ∙ h.0) in
    let (dx, dy) = Distinct-append xs ys h.1 in ((here, dx), dy)

middle_absent :
    (xs : List String) (y : String) (ys : List String)
    → Distinct (xs ++ y ∷ ys)
    → contains xs y ≡ false
middle_absent [] y ys h = refl
middle_absent (x ∷ xs) y ys h = ground (
  arith,
  h.0,
  contains-append xs (y ∷ ys) x,
  string_eq.beq_iff x y,
  string_eq.beq_iff y x,
  middle_absent xs y ys h.1,
)

module _ {A : Type 0} where
  entries-append : (xs ys : List (Leaf A)) → entries (xs ++ ys) ≡ entries xs ++ entries ys
  entries-append [] ys = refl
  entries-append (x ∷ xs) ys = ap (λ l. (x.name, x.value) ∷ l) (entries-append xs ys)

  keys_append : (xs ys : Dict String A) → keys (xs ++ ys) ≡ keys xs ++ keys ys
  keys_append [] ys = refl
  keys_append ((k, v) ∷ xs) ys = ap (λ l. k ∷ l) (keys_append xs ys)

  put_absent :
      (k : String) (v : A) (d : Dict String A)
      → contains (keys d) k ≡ false
      → put k v d ≡ d ++ (k, v) ∷ []
  unfolding put upsert
  put_absent k v [] h = refl
  put_absent k v ((j, w) ∷ d) h =
      ground (arith, put_absent k v d, string_eq.beq_iff j k, string_eq.beq_iff k j)

  -- New keys are appended in their order.
  update-Distinct :
      (flat more : Dict String A)
      → Distinct (keys flat ++ keys more)
      → update flat more ≡ flat ++ more
  unfolding update
  update-Distinct flat [] h = sym (append-nil flat)
  update-Distinct flat ((k, v) ∷ more) h =
      rw (put_absent k v flat (middle_absent (keys flat) k (keys more) h)) (
        update-Distinct (flat ++ (k, v) ∷ []) more (
          subst Distinct
            (sym (append_assoc (keys flat) (k ∷ []) (keys more))
              ∙ ap (λ l. l ++ keys more) (sym (keys_append flat ((k, v) ∷ []))))
            h)
        ∙ append_assoc flat ((k, v) ∷ []) more)

  update_step :
      (flat first rest : Dict String A)
      → Distinct (keys flat ++ keys (first ++ rest))
      → (update flat first ≡ flat ++ first)
        × Distinct (keys first)
        × Distinct (keys (flat ++ first) ++ keys rest)
  update_step flat first rest h =
      let joined : keys flat ++ keys (first ++ rest) ≡ keys (flat ++ first) ++ keys rest =
        ap (λ l. keys flat ++ l) (keys_append first rest)
        ∙ sym (append_assoc (keys flat) (keys first) (keys rest))
        ∙ ap (λ l. l ++ keys rest) (sym (keys_append flat first)) in
      let all = subst Distinct joined h in
      let (front, _) = Distinct-append (keys (flat ++ first)) (keys rest) all in
      let both = subst Distinct (keys_append flat first) front in
      (update-Distinct flat first both, (Distinct-append (keys flat) (keys first) both).1, all)

  add_item-descriptions :
      (v : Value A) (name : String) (rest : List (Leaf A) × Items (Leaf A))
      → (add_item (describe v name) rest).0 ≡ (describe v name).0 ++ rest.0
  unfolding describe
  add_item-descriptions (tensor t) name rest = refl
  add_item-descriptions (sequence items) name rest = refl
  add_item-descriptions (mapping fields) name rest = refl
  add_item-descriptions other name rest = refl

  add_field-descriptions :
      (k : String) (v : Value A) (name : String) (rest : List (Leaf A) × Fields (Leaf A))
      → (add_field k (describe v name) rest).0 ≡ (describe v name).0 ++ rest.0
  unfolding describe
  add_field-descriptions k (tensor t) name rest = refl
  add_field-descriptions k (sequence items) name rest = refl
  add_field-descriptions k (mapping fields) name rest = refl
  add_field-descriptions k other name rest = refl

mutual
  unfolding describe describe_items describe_fields flatten flatten_items flatten_fields put upsert

  flatten-describe :
      {A : Type 0} (v : Value A) (name : String)
      → Distinct (keys (entries (describe v name).0))
      → flatten v name ≡ entries (describe v name).0
  flatten-describe (tensor t) name h = refl
  flatten-describe (sequence items) name h = flatten_items-describe 0 items name [] h
  flatten-describe (mapping fields) name h = flatten_fields-describe fields name [] h
  flatten-describe other name h = refl

  flatten_items-describe :
      {A : Type 0} (i : ℕ) (items : Items A) (name : String) (flat : Dict String A)
      → Distinct (keys flat ++ keys (entries (describe_items i items name).0))
      → flatten_items i items name flat ≡ flat ++ entries (describe_items i items name).0
  flatten_items-describe i empty_sequence name flat h = sym (append-nil flat)
  flatten_items-describe i (item v items) name flat h =
      let c = child_name name (decimal i) in
      let rest = describe_items (suc i) items name in
      let split =
        ap entries (add_item-descriptions v c rest) ∙ entries-append (describe v c).0 rest.0 in
      let (joined, first, others) =
        update_step flat (entries (describe v c).0) (entries rest.0)
          (subst (λ l. Distinct (keys flat ++ keys l)) split h) in
      rw (flatten-describe v c first, joined)
        (flatten_items-describe (suc i) items name (flat ++ entries (describe v c).0) others
          ∙ append_assoc flat (entries (describe v c).0) (entries rest.0)
          ∙ ap (λ l. flat ++ l) (sym split))

  flatten_fields-describe :
      {A : Type 0} (fields : Fields A) (name : String) (flat : Dict String A)
      → Distinct (keys flat ++ keys (entries (describe_fields fields name).0))
      → flatten_fields fields name flat ≡ flat ++ entries (describe_fields fields name).0
  flatten_fields-describe empty_mapping name flat h = sym (append-nil flat)
  flatten_fields-describe (field k v fields) name flat h =
      let c = child_name name k in
      let rest = describe_fields fields name in
      let split =
        ap entries (add_field-descriptions k v c rest) ∙ entries-append (describe v c).0 rest.0 in
      let (joined, first, others) =
        update_step flat (entries (describe v c).0) (entries rest.0)
          (subst (λ l. Distinct (keys flat ++ keys l)) split h) in
      rw (flatten-describe v c first, joined)
        (flatten_fields-describe fields name (flat ++ entries (describe v c).0) others
          ∙ append_assoc flat (entries (describe v c).0) (entries rest.0)
          ∙ ap (λ l. flat ++ l) (sym split))

-- Where the described names are distinct, the flattened value lists exactly the described tensors,
-- each under its name and in the order of the descriptions.
pub flatten_lines_up :
    {A : Type 0} (v : Value A) (name : String)
    → Distinct (keys (entries (describe v name).0))
    → flatten v name ≡ entries (describe v name).0
flatten_lines_up v name h = flatten-describe v name h
