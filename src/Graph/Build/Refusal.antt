-- ===== src/Graph/Build/Refusal.antt =====
-- When `_build_connections` refuses a graph: a node takes one output on two of its inputs.
use leapp.Common.{
  String, sym, subst, some, none, Option-cases, In-of_contains, contains_of_In, ℕ, ◌≤◌, string_eq,
  nat_eq, pair_eq, ◌≡◌, refl, ◌∙◌, ap, ◌↔◌, List, [], ◌∷◌, Bool, false, arith, Eq, In, inl, inr,
  ◌⊎◌, All, contains, Distinct, select, ltb, Bool-cases, values, beq_self,
}
use leapp.Common.Result.{Error, ok, err, exception, >>=-eq-ok, map-eq-err, Result-cases}
use leapp.Graph.{NodeRef, Desc, Node, Nodes, source_of}
use leapp.Graph.Build.Claims.{state_ids, contains-claimed}
use leapp.Graph.Build.{
  Buckets, Connections, sources_of, count, repeated, nonempty, wire_inputs, wire_node, wire_nodes,
  build_state_connections, build_buckets, build_connections,
}

module _ {A : Type 0} ⦃e : Eq A⦄ where
  count-zero : (a : A) (xs : List A) → contains xs a ≡ false → count a xs ≡ 0
  count-zero a [] h = refl
  count-zero a (x ∷ xs) h = ground (arith, count-zero a xs)

  absent_of_count : (a : A) (xs : List A) → count a xs ≤ 0 → contains xs a ≡ false
  absent_of_count a [] h = refl
  absent_of_count a (x ∷ xs) h = ground (arith, absent_of_count a xs)

  count-le_one : (xs : List A) → Distinct xs → (a : A) → count a xs ≤ 1
  count-le_one [] h a = omega arith
  count-le_one (x ∷ xs) h a =
      ground (arith, e.beq_iff a x, count-zero x xs h.0, count-le_one xs h.1 a)

  Distinct-of_count : (xs : List A) → ((a : A) → In a xs → count a xs ≤ 1) → Distinct xs
  Distinct-of_count [] h = tt
  Distinct-of_count (x ∷ xs) h = (
    absent_of_count x xs (ground (arith, h x (inl refl), beq_self x)),
    Distinct-of_count xs (λ a m. ground (arith, h a (inr m))),
  )

  select_none :
      (p : A → Bool) (xs : List A)
      → (nonempty (select p xs) ≡ false)
      → (a : A) → In a xs
      → p a ≡ false
  select_none p [] h a m = elim m [ ]
  select_none p (x ∷ xs) h a (inl q) = ground arith
  select_none p (x ∷ xs) h a (inr m) = elim (Bool-cases (p x)) [
    | inl taken ↦ cc (rw taken at h)
    | inr left ↦ select_none p xs (rw left at h) a m
  ]

  none_selected :
      (p : A → Bool) (xs : List A) → ((a : A) → p a ≡ false) → nonempty (select p xs) ≡ false
  none_selected p [] h = refl
  none_selected p (x ∷ xs) h = ground (arith, h x, none_selected p xs h)

  -- Python's `Counter` finds a repetition exactly in a list that is not free of repetitions.
  pub no_repeated_iff : (xs : List A) → (nonempty (repeated xs) ≡ false) ↔ Distinct xs
  no_repeated_iff xs = (
    λ h.
        Distinct-of_count xs
          (λ a m. ground (arith, select_none (λ a. ltb 1 (count a xs)) xs h a m)),
    λ h. none_selected (λ a. ltb 1 (count a xs)) xs (λ a. ground (arith, count-le_one xs h a)),
  )

-- The input is not claimed, and takes its value from this output.
abbrev Takes : List ℕ → Desc → ℕ × String → Type 0
Takes claimed d (source, port) =
    (contains claimed d.ident ≡ false)
    × ((s : NodeRef) × (source_of d ≡ some (s, port)) × (s.ident ≡ source))

-- No two of the inputs take one output, claimed ones left aside.
abbrev pub IsSingleUse : List ℕ → List Desc → Type 0
IsSingleUse claimed [] = Unit {0}
IsSingleUse claimed (d ∷ inputs) =
    ((key : ℕ × String) (e : Desc) → Takes claimed d key → In e inputs → ¬ Takes claimed e key)
    × IsSingleUse claimed inputs

In-sources_of :
    (claimed : List ℕ) (d : Desc) (inputs : List Desc) (key : ℕ × String)
    → In d inputs
    → Takes claimed d key
    → In key (sources_of claimed inputs)
unfolding sources_of
In-sources_of claimed d [] key m t = absurd m
In-sources_of claimed d (c ∷ inputs) (source, port) (inl e) (free, (s, from, same)) =
    rw
      (
        ap source_of (sym e) ∙ from,
        ap (λ (x : Desc). contains claimed x.ident) (sym e) ∙ free,
        sources_of,
      )
      (inl (ap (λ i. (i, port)) (sym same)))
In-sources_of claimed d (c ∷ inputs) key (inr m) t =
    let rest = In-sources_of claimed d inputs key m t in
    elim (Option-cases (source_of c)) [
      | inl dangling ↦ rw (dangling, sources_of) rest
      | inr ((s, port), from) ↦ elim (Bool-cases (contains claimed c.ident)) [
        | inl taken ↦ rw (from, taken, sources_of) rest
        | inr free ↦ rw (from, free, sources_of) (inr rest)
      ]
    ]

In-of_sources_of :
    (claimed : List ℕ) (inputs : List Desc) (key : ℕ × String)
    → In key (sources_of claimed inputs)
    → (d : Desc) × In d inputs × Takes claimed d key
unfolding sources_of
In-of_sources_of claimed [] key m = absurd m
In-of_sources_of claimed (c ∷ inputs) (source, port) m = elim (Option-cases (source_of c)) [
  | inl dangling ↦
      let (d, md, t) =
        In-of_sources_of claimed inputs (source, port) (rw (dangling, sources_of) at m) in
      (d, inr md, t)
  | inr ((s, p), from) ↦ elim (Bool-cases (contains claimed c.ident)) [
    | inl taken ↦
        let (d, md, t) =
          In-of_sources_of claimed inputs (source, port) (rw (from, taken, sources_of) at m) in
        (d, inr md, t)
    | inr free ↦ elim (rw (from, free, sources_of) at m) [
      | inl e ↦
          let same : s.ident ≡ source = ap (λ (k : ℕ × String). k.0) (sym e) in
          let ports : p ≡ port = ap (λ (k : ℕ × String). k.1) (sym e) in
          (c, inl refl, (free, (s, from ∙ ap (λ p. some (s, p)) ports, same)))
      | inr later ↦
          let (d, md, t) = In-of_sources_of claimed inputs (source, port) later in (d, inr md, t)
    ]
  ]
]

absent : {A : Type 0} ⦃e : Eq A⦄ (a : A) (xs : List A) → ¬ In a xs → contains xs a ≡ false
absent a xs h = elim (Bool-cases (contains xs a)) [
  | inl there ↦ absurd (h (In-of_contains a xs there))
  | inr away ↦ away
]

present : {A : Type 0} ⦃e : Eq A⦄ (a : A) (xs : List A) → contains xs a ≡ false → ¬ In a xs
present a xs h m = cc (contains_of_In a xs m, h)

Takes-something :
    (claimed : List ℕ) (c : Desc) (key : ℕ × String) → source_of c ≡ none → ¬ Takes claimed c key
Takes-something claimed c (source, p) dangling (free, (s, from, same)) = cc (from, dangling)

taken_key :
    (claimed : List ℕ) (c : Desc) (s : NodeRef) (port : String) (key : ℕ × String)
    → source_of c ≡ some (s, port)
    → Takes claimed c key
    → key ≡ (s.ident, port)
taken_key claimed c s port (source, p) from (free, (s', from', same)) =
    let both : some (s', p) ≡ some (s, port) = sym from' ∙ from in cc (both, same)

sources_of-Distinct :
    (claimed : List ℕ) (inputs : List Desc)
    → Distinct (sources_of claimed inputs) ↔ IsSingleUse claimed inputs
unfolding sources_of
sources_of-Distinct claimed [] = (λ h. tt, λ h. tt)
sources_of-Distinct claimed (c ∷ inputs) =
    let (to, of) = sources_of-Distinct claimed inputs in
    let goal : List (ℕ × String) → Type 0 = λ l. Distinct l ↔ IsSingleUse claimed (c ∷ inputs) in
    elim (Option-cases (source_of c)) [
      | inl dangling ↦
          let e : sources_of claimed (c ∷ inputs) ≡ sources_of claimed inputs =
            rw (dangling, sources_of) refl in
          subst goal (sym e) (
            (λ h. ((λ key e t m u. Takes-something claimed c key dangling t), to h)),
            (λ h. of h.1),
          )
      | inr ((s, port), from) ↦ elim (Bool-cases (contains claimed c.ident)) [
        | inl taken ↦
            let e : sources_of claimed (c ∷ inputs) ≡ sources_of claimed inputs =
              rw (from, taken, sources_of) refl in
            subst goal (sym e) ((λ h. ((λ key e t m u. cc (t.0, taken)), to h)), (λ h. of h.1))
        | inr free ↦
            let e : sources_of claimed (c ∷ inputs) ≡ (s.ident, port) ∷ sources_of claimed inputs =
              rw (from, free, sources_of) refl in
            subst goal (sym e) (
              (λ h. (
                (λ key e t m u.
                    present (s.ident, port) (sources_of claimed inputs) h.0
                      (subst (λ k. In k (sources_of claimed inputs))
                        (taken_key claimed c s port key from t)
                        (In-sources_of claimed e inputs key m u))),
                to h.1,
              )),
              (λ h. (
                absent (s.ident, port) (sources_of claimed inputs)
                    (λ m.
                      let (d, md, t) = In-of_sources_of claimed inputs (s.ident, port) m in
                      h.0 (s.ident, port) d (free, (s, from, refl)) md t),
                of h.1,
              )),
            )
      ]
    ]

module _ (nodes : Nodes) (claimed : List ℕ) where
  wire_node-ok_iff :
      (n : Node) (b : Buckets)
      → (wire_node nodes claimed n b ≡ ok (wire_inputs nodes claimed n 0 n.inputs b))
        ↔ IsSingleUse claimed n.inputs
  unfolding wire_node
  wire_node-ok_iff n b = (
    λ h.
        (sources_of-Distinct claimed n.inputs).0
          ((no_repeated_iff (sources_of claimed n.inputs)).0 (ground arith)),
    λ h.
        rw
          ((no_repeated_iff (sources_of claimed n.inputs)).1
            ((sources_of-Distinct claimed n.inputs).1 h))
          refl,
  )

  wire_node_cases :
      (n : Node) (b : Buckets)
      → (wire_node nodes claimed n b ≡ ok (wire_inputs nodes claimed n 0 n.inputs b))
        ⊎ (wire_node nodes claimed n b ≡ err exception)
  unfolding wire_node
  wire_node_cases n b = elim (Bool-cases (nonempty (repeated (sources_of claimed n.inputs)))) [
    | inl refused ↦ inr (rw refused refl)
    | inr accepted ↦ inl (rw accepted refl)
  ]

  wire_nodes-ok_iff :
      (rest : List Node) (b : Buckets)
      → ((b' : Buckets) × (wire_nodes nodes claimed rest b ≡ ok b'))
        ↔ All (λ (n : Node). IsSingleUse claimed n.inputs) rest
  unfolding wire_nodes
  wire_nodes-ok_iff [] b = (λ h. tt, λ h. (b, refl))
  wire_nodes-ok_iff (n ∷ rest) b = (
    λ (b', h). elim (wire_node_cases n b) [
      | inl accepted ↦
          ((wire_node-ok_iff n b).0 accepted, (wire_nodes-ok_iff rest _).0 (b', rw accepted at h))
      | inr refused ↦ absurd (cc (rw refused at h))
    ],
    λ (single, others).
        let (b', h) =
          (wire_nodes-ok_iff rest (wire_inputs nodes claimed n 0 n.inputs b)).1 others in
        (b', rw ((wire_node-ok_iff n b).1 single) h),
  )

  wire_nodes-err :
      (rest : List Node) (b : Buckets) {e : Error}
      → wire_nodes nodes claimed rest b ≡ err e
      → e ≡ exception
  unfolding wire_nodes
  wire_nodes-err [] b h = cc
  wire_nodes-err (n ∷ rest) b h = elim (wire_node_cases n b) [
    | inl accepted ↦ wire_nodes-err rest _ (rw accepted at h)
    | inr refused ↦ cc (rw refused at h)
  ]

build_connections-ok_iff :
    (nodes : Nodes)
    → (((r : Connections) × (build_connections nodes ≡ ok r))
        ↔ All
            (λ (n : Node). IsSingleUse (build_state_connections nodes).claimed n.inputs)
            (values nodes))
      × ((e : Error) → build_connections nodes ≡ err e → e ≡ exception)
unfolding build_connections build_buckets
build_connections-ok_iff nodes =
    let w = build_state_connections nodes in
    let start : Buckets = record { forward = []; feedback = w.feedback } in
    (
      (
        λ (r, h).
            let (b, at, _) =
              >>=-eq-ok (wire_nodes nodes w.claimed (values nodes) start) (λ b. ok _) h in
            (wire_nodes-ok_iff nodes w.claimed (values nodes) start).0 (b, at),
        λ single.
            let (b, at) = (wire_nodes-ok_iff nodes w.claimed (values nodes) start).1 single in
            (record { forward = values b.forward; feedback = values b.feedback }, rw at refl),
      ),
      λ e h. wire_nodes-err nodes w.claimed (values nodes) start (
          map-eq-err (wire_nodes nodes w.claimed (values nodes) start)
            (λ b. record { forward = values b.forward; feedback = values b.feedback }) h),
    )

-- The claims of inputs count only by what they claim.
IsSingleUse-same :
    (claimed ids : List ℕ) (inputs : List Desc)
    → ((x : ℕ) → contains claimed x ≡ contains ids x)
    → IsSingleUse claimed inputs
    → IsSingleUse ids inputs
IsSingleUse-same claimed ids [] same h = tt
IsSingleUse-same claimed ids (d ∷ inputs) same h = (
  λ key e t m u. h.0 key e (same d.ident ∙ t.0, t.1) m (same e.ident ∙ u.0, u.1),
  IsSingleUse-same claimed ids inputs same h.1,
)

AllSingle-same :
    (claimed ids : List ℕ) (ns : List Node)
    → ((x : ℕ) → contains claimed x ≡ contains ids x)
    → All (λ (n : Node). IsSingleUse claimed n.inputs) ns
    → All (λ (n : Node). IsSingleUse ids n.inputs) ns
AllSingle-same claimed ids [] same h = tt
AllSingle-same claimed ids (n ∷ ns) same h =
    (IsSingleUse-same claimed ids n.inputs same h.0, AllSingle-same claimed ids ns same h.1)

-- No node of the graph takes one output on two of its inputs, those of state pairs left aside.
abbrev pub AllSingle : Nodes → Type 0
AllSingle nodes = All (λ (n : Node). IsSingleUse (state_ids (values nodes)) n.inputs) (values nodes)

-- Either no node takes one output on two of its inputs, the inputs of state pairs whose halves are
-- descriptions of their node left aside, and the connections are built; or some node does, and the
-- build raises an `Exception`.
pub build_connections_accepts :
    (nodes : Nodes)
    → (AllSingle nodes × ((r : Connections) × (build_connections nodes ≡ ok r)))
      ⊎ ((¬ AllSingle nodes) × (build_connections nodes ≡ err exception))
build_connections_accepts nodes =
    let claimed = (build_state_connections nodes).claimed in
    let ids = state_ids (values nodes) in
    elim (Result-cases (build_connections nodes)) [
      | inl accepted ↦ inl (
        AllSingle-same claimed ids (values nodes) (contains-claimed nodes)
            ((build_connections-ok_iff nodes).0.0 accepted),
        accepted,
      )
      | inr (e, refused) ↦ inr (
        λ single.
            let (r, h) = (build_connections-ok_iff nodes).0.1 (
              AllSingle-same ids claimed (values nodes) (λ x. sym (contains-claimed nodes x))
                single) in
            cc (h, refused),
        refused ∙ ap err ((build_connections-ok_iff nodes).1 e refused),
      )
    ]
