-- ===== src/Structure/Packing/RoundTrip.antt =====
-- `unpacked_tensor_expr`, then `packed_tensor_expr`, of one format (tensor_description.py).
use leapp.Common.{
  true, ℕ, suc, String, string_eq, nat_eq, ◌≡◌, refl, ap, subst, ◌∙◌, some, List, [], ◌∷◌, ◌++◌,
  map, map-append, false, ◌==◌, arith, get, put, get-put, Bool-cases, In, In-append_left,
  In-append_right, In-append_split, inl, inr, contains, contains-append, Distinct, beq_self,
}
use leapp.Common.Text.{concat}
use leapp.Structure.{
  Value, tensor, sequence, mapping, other, Items, empty_sequence, item, Fields, empty_mapping,
  field, decimal, resolve, resolve_items, resolve_fields,
}
use leapp.Structure.Lines.{Distinct-append}
use leapp.Structure.Resolve.{leaves, leaves_of_items, leaves_of_fields}
use leapp.Structure.Packing.{enclosed, packed, unpacking, index_path, key_path}
use leapp.Structure.Packing.Python.{has_bracket, is_identifier, escape, bracket_free}
use leapp.Structure.Packing.Meaning.{
  variable_value, HasPlainKeys, Env, Expr, Access, root, at_index, at_key, show, show_access,
  Assign, show_assign, field_at, read, run, evaluate, evaluate_all, evaluate_entries, expr_of,
  exprs_of, entries_of, assigns, assigns_items, assigns_fields, show-expr_of, map-show_assign,
}
use leapp.Structure.Packing.Names.{
  bracket_after, differ, root_of, drop_items, first_left, run-append, read_same, bracket_first,
  bracket_key, IsDict, AreDicts, HasDicts, FoundIn, found_self, absent_right,
}

module _ {F A : Type 0} (name_of : F → String) (value_of : F → A) where
  abbrev names : List F → List String
  names ls = map name_of ls

  -- The tensors have identifiers of their own, and none is the variable that is read.
  abbrev AreNamed : List F → String → Type 0
  AreNamed ls first =
      Distinct (names ls)
      × (contains (names ls) first ≡ false)
      × ((l : F) → In l ls → is_identifier (name_of l) ≡ true)

  -- After the assignments each name has its tensor, and every other variable is as before.
  record Taken (statements : List Assign) (env : Env A) (ls : List F) : Type 0 where
    after : Env A
    runs : run statements env ≡ some after
    has : (l : F) → In l ls → get (name_of l) after ≡ some (tensor (value_of l))
    keeps : (s : String) → contains (names ls) s ≡ false → get s after ≡ get s env

  absent_split :
      (xs ys : List F) (s : String)
      → contains (names (xs ++ ys)) s ≡ false
      → (contains (names xs) s ≡ false) × (contains (names ys) s ≡ false)
  absent_split xs ys s h =
      ground (arith, map-append name_of xs ys, contains-append (names xs) (names ys) s)

  apart_of :
      (xs ys : List F)
      → Distinct (names xs ++ names ys)
      → (l : F) → In l xs
      → contains (names ys) (name_of l) ≡ false
  apart_of [] ys h l m = absurd m
  apart_of (x ∷ xs) ys h l (inl e) = rw e (absent_right (names xs) (names ys) (name_of x) h.0)
  apart_of (x ∷ xs) ys h l (inr m) = apart_of xs ys h.1 l m

  named_split :
      (xs ys : List F) (first : String)
      → AreNamed (xs ++ ys) first
      → AreNamed xs first
        × AreNamed ys first
        × ((l : F) → In l xs → contains (names ys) (name_of l) ≡ false)
  named_split xs ys first (distinct, absent, plain) =
      let apart : Distinct (names xs ++ names ys) =
        subst Distinct (map-append name_of xs ys) distinct in
      let (dx, dy) = Distinct-append (names xs) (names ys) apart in
      let (ax, ay) = absent_split xs ys first absent in
      (
        (dx, ax, λ l m. plain l (In-append_left l xs ys m)),
        (dy, ay, λ l m. plain l (In-append_right l xs ys m)),
        apart_of xs ys apart,
      )

  Taken-append :
      (xs ys : List Assign) (env : Env A) (ls ms : List F)
      → ((l : F) → In l ls → contains (names ms) (name_of l) ≡ false)
      → (first : Taken xs env ls) → Taken ys first.after ms
      → Taken (xs ++ ys) env (ls ++ ms)
  Taken-append xs ys env ls ms apart first second = record {
    after = second.after;
    runs = run-append xs ys env ∙ rw first.runs second.runs;
    has = λ l m. elim (In-append_split l ls ms m) [
      | inl here ↦ second.keeps (name_of l) (apart l here) ∙ first.has l here
      | inr there ↦ second.has l there
    ];
    keeps = λ s h.
        let (before, behind) = absent_split ls ms s h in
        second.keeps s behind ∙ first.keeps s before;
  }

  other_name :
      (s : String) (p : Access)
      → (s == root_of p) ≡ false
      → has_bracket s ≡ false
      → (s == show_access p) ≡ false
  other_name s (root r) h plain = h
  other_name s (at_index p i) h plain = differ s (index_path (show_access p) i) plain (
      bracket_after (show_access p) (enclosed "[" (decimal i) "]")
        (bracket_first (concat (decimal i) "]")))
  other_name s (at_key p k) h plain = differ s (key_path (show_access p) (escape k)) plain (
      bracket_after (show_access p) (enclosed "[\"" (escape k) "\"]")
        (bracket_key (concat (escape k) "\"]")))

  absent_one :
      (s t : String) → contains (s ∷ []) t ≡ false → ((s == t) ≡ false) × ((t == s) ≡ false)
  absent_one s t h = ground (arith, string_eq.beq_iff s t, string_eq.beq_iff t s)

  take_one :
      (l : F) (p : Access) (env : Env A)
      → read env p ≡ some (tensor (value_of l))
      → AreNamed (l ∷ []) (root_of p)
      → Taken (assigns name_of (tensor l) p) env (l ∷ [])
  unfolding run
  take_one l p env there (distinct, absent, plain) =
      rw
        (other_name (name_of l) p (absent_one (name_of l) (root_of p) absent).0
          (bracket_free (name_of l) (plain l (inl refl))))
        (record {
          after = put (name_of l) (tensor (value_of l)) env;
          runs = rw (there, plain l (inl refl)) refl;
          has = λ k m. elim m [
            | inl e ↦ rw e (
                get-put (name_of l) (name_of l) (tensor (value_of l)) env
                ∙ rw (beq_self (name_of l)) refl)
            | inr none_left ↦ absurd none_left
          ];
          keeps = λ s h.
              get-put (name_of l) s (tensor (value_of l)) env
              ∙ rw ((absent_one (name_of l) s h).0) refl;
        })

  nothing-Taken : (env : Env A) → Taken [] env []
  unfolding run
  nothing-Taken env = record {
    after = env;
    runs = refl;
    has = λ l m. absurd m;
    keeps = λ s h. refl;
  }

  some_value : {v w : Value F} → some v ≡ some w → v ≡ w
  some_value h = cc h

  field_at-resolve :
      (k : String) (whole : Fields F) (v : Value F)
      → field_at k whole ≡ some v
      → field_at k (resolve_fields value_of whole) ≡ some (resolve value_of v)
  unfolding resolve_fields
  field_at-resolve k empty_mapping v h = absurd (cc h)
  field_at-resolve k (field j u whole) v h = elim (Bool-cases (j == k)) [
    | inl same ↦ rw same (ap some (ap (resolve value_of) (some_value (rw same at h))))
    | inr apart ↦ rw apart (field_at-resolve k whole v (rw apart at h))
  ]

  found_resolved :
      (fields whole : Fields F)
      → FoundIn fields whole
      → FoundIn (resolve_fields value_of fields) (resolve_fields value_of whole)
  unfolding resolve_fields
  found_resolved empty_mapping whole f = tt
  found_resolved (field k v fields) whole f =
      (field_at-resolve k whole v f.0, found_resolved fields whole f.1)

  mutual
    unfolding resolve resolve_items resolve_fields read

    take :
        (f : Value F) (p : Access) (env : Env A)
        → read env p ≡ some (resolve value_of f)
        → IsDict f
        → AreNamed (leaves f) (root_of p)
        → Taken (assigns name_of f p) env (leaves f)
    take (tensor l) p env there dict named = take_one l p env there named
    take (sequence items) p env there dict named =
        take_items 0 items (resolve_items value_of items) p env there refl dict named
    take (mapping fields) p env there dict named =
        take_fields fields (resolve_fields value_of fields) p env there
          (found_resolved fields fields (found_self fields dict.0)) dict.1 named
    take other p env there dict named = nothing-Taken env

    take_items :
        (i : ℕ) (items : Items F) (whole : Items A) (p : Access) (env : Env A)
        → read env p ≡ some (sequence whole)
        → drop_items i whole ≡ resolve_items value_of items
        → AreDicts items
        → AreNamed (leaves_of_items items) (root_of p)
        → Taken (assigns_items name_of i items p) env (leaves_of_items items)
    take_items i empty_sequence whole p env there rest dict named = nothing-Taken env
    take_items i (item f items) whole p env there rest dict named =
        let (here, later) = first_left i whole rest in
        let (own, others, apart) =
          named_split (leaves f) (leaves_of_items items) (root_of p) named in
        let first = take f (at_index p i) env (rw there here) dict.0 own in
        let same = read_same env first.after p (first.keeps (root_of p) own.1) in
        Taken-append (assigns name_of f (at_index p i)) (assigns_items name_of (suc i) items p) env
          (leaves f) (leaves_of_items items) apart first
          (take_items (suc i) items whole p first.after (same ∙ there) later dict.1 others)

    take_fields :
        (fields : Fields F) (whole : Fields A) (p : Access) (env : Env A)
        → read env p ≡ some (mapping whole)
        → FoundIn (resolve_fields value_of fields) whole
        → HasDicts fields
        → AreNamed (leaves_of_fields fields) (root_of p)
        → Taken (assigns_fields name_of fields p) env (leaves_of_fields fields)
    take_fields empty_mapping whole p env there rest dict named = nothing-Taken env
    take_fields (field k f fields) whole p env there rest dict named =
        let (own, others, apart) =
          named_split (leaves f) (leaves_of_fields fields) (root_of p) named in
        let first = take f (at_key p k) env (rw there rest.0) dict.0 own in
        let same = read_same env first.after p (first.keeps (root_of p) own.1) in
        Taken-append (assigns name_of f (at_key p k)) (assigns_fields name_of fields p) env
          (leaves f) (leaves_of_fields fields) apart first
          (take_fields fields whole p first.after (same ∙ there) rest.1 dict.1 others)

  -- What the names have is what the packed expression evaluates to.
  abbrev Has : Env A → List F → Type 0
  Has env ls = (l : F) → In l ls → variable_value env (name_of l) ≡ some (tensor (value_of l))

  mutual
    unfolding resolve resolve_items resolve_fields evaluate evaluate_all evaluate_entries

    pack :
        (f : Value F) (env : Env A)
        → Has env (leaves f)
        → evaluate env (expr_of name_of f) ≡ some (resolve value_of f)
    pack (tensor l) env has = has l (inl refl)
    pack (sequence items) env has = rw (pack_items items env has) refl
    pack (mapping fields) env has = rw (pack_fields fields env has) refl
    pack other env has = refl

    pack_items :
        (items : Items F) (env : Env A)
        → Has env (leaves_of_items items)
        → evaluate_all env (exprs_of name_of items) ≡ some (resolve_items value_of items)
    pack_items empty_sequence env has = refl
    pack_items (item f items) env has =
        rw
          (
            pack f env (λ l m. has l (In-append_left l (leaves f) _ m)),
            pack_items items env (λ l m. has l (In-append_right l (leaves f) _ m)),
          )
          refl

    pack_fields :
        (fields : Fields F) (env : Env A)
        → Has env (leaves_of_fields fields)
        → evaluate_entries env (entries_of name_of fields) ≡ some (resolve_fields value_of fields)
    pack_fields empty_mapping env has = refl
    pack_fields (field k f fields) env has =
        rw
          (
            pack f env (λ l m. has l (In-append_left l (leaves f) _ m)),
            pack_fields fields env (λ l m. has l (In-append_right l (leaves f) _ m)),
          )
          refl

  -- The unpacking text spells assignments that run, where the parameter's variable has the value of
  -- the format; in the variables that they leave, the packing text spells an expression that
  -- evaluates to this value.
  pub record RoundTrips (f : Value F) (first : String) : Type 0 where
    pub statements : List Assign
    pub spelled : map show_assign statements ≡ unpacking name_of f first
    pub after : Env A
    pub runs : run statements ((first, resolve value_of f) ∷ []) ≡ some after
    pub expression : Expr
    pub written : show expression ≡ packed name_of f
    pub gives : evaluate after expression ≡ some (resolve value_of f)

  -- For a format whose mappings have distinct keys, texts without a quote, a backslash, an end of
  -- a line or a NUL, and whose tensors have distinct names, none of them the parameter's, where
  -- these names and the parameter's are identifiers (ASCII, no keyword): the unpacking text spells
  -- assignments that run where the parameter's variable has the value of the format, and in the
  -- variables that they leave the packing text spells an expression that evaluates to this value.
  pub packed-unpacking :
      (f : Value F) (first : String)
      → IsDict f
      → HasPlainKeys f
      → AreNamed (leaves f) first
      → is_identifier first ≡ true
      → RoundTrips f first
  unfolding read get
  packed-unpacking f first dict plain named variable =
      let taken =
        take f (root first) ((first, resolve value_of f) ∷ []) (rw (variable, beq_self first) refl)
          dict named in
      record {
        statements = assigns name_of f (root first);
        spelled = map-show_assign name_of f (root first) plain;
        after = taken.after;
        runs = taken.runs;
        expression = expr_of name_of f;
        written = show-expr_of name_of f plain;
        gives = pack f taken.after (λ l m. rw (named.2 l m) (taken.has l m));
      }
