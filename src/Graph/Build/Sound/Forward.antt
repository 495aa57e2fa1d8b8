-- ===== src/Graph/Build/Sound/Forward.antt =====
-- The loop over inputs keeps an invariant of both buckets.
use leapp.Common.{
  ℕ, suc, ◌+◌, String, ◌≡◌, refl, sym, subst, ◌∙◌, some, List, [], ◌∷◌, true, false, arith,
  get_elem?, In, inl, inr, values, Bool-cases, Option-cases, contains, nat_eq,
}
use leapp.Common.Result.{ok, exception, raise_if, >>=-eq-ok, ok-injective}
use leapp.Graph.{NodeRef, Desc, Node, Nodes, Endpoint, index_lt, source_of}
use leapp.Graph.Build.{Buckets, resolve, wire_input, wire_inputs, wire_node, wire_nodes}
use leapp.Graph.Build.Keys.{output_key, input_key, resolve_key}
use leapp.Graph.Build.Sound.Buckets.{Objects, IsBucket, add_target-IsBucket}

-- The input at `target` asks for the output at `source`, in a node that completes later.
pub record IsFedForward (nodes : Nodes) (source target : Endpoint) : Type 0 where
  pub target_in : In target.node (values nodes)
  pub carries : input_key target ≡ output_key source
  pub before : index_lt source.node.node_index target.node.node_index ≡ true

-- The input at `target` asks for the output at `source`, in a node that does not complete later.
pub record IsFedLate (nodes : Nodes) (source target : Endpoint) : Type 0 where
  pub target_in : In target.node (values nodes)
  pub carries : input_key target ≡ output_key source
  pub not_before : index_lt source.node.node_index target.node.node_index ≡ false

input_key_of :
    (node : Node) (i : ℕ) (d : Desc) (s : NodeRef) (port : String)
    → get_elem? node.inputs i ≡ some d
    → source_of d ≡ some (s, port)
    → input_key (record { node = node; idx = i }) ≡ some (s.ident, some port)
input_key_of node i d s port at asked = rw (at, asked)

module _ (nodes : Nodes) (objects : Objects nodes) (Fed : Endpoint → Endpoint → Type 0)
    (late : (s t : Endpoint) → IsFedLate nodes s t → Fed s t) where
  abbrev pub AreBuckets : Buckets → Type 0
  AreBuckets b = IsBucket nodes (IsFedForward nodes) b.forward × IsBucket nodes Fed b.feedback

  wire_input-AreBuckets :
      (claimed : List ℕ) (node : Node) (i : ℕ) (d : Desc) (b : Buckets)
      → In node (values nodes)
      → get_elem? node.inputs i ≡ some d
      → AreBuckets b
      → AreBuckets (wire_input nodes claimed node i d b)
  unfolding wire_input
  wire_input-AreBuckets claimed node i d b m at h = elim (Bool-cases (contains claimed d.ident)) [
    | inl skipped ↦ rw skipped h
    | inr unclaimed ↦ elim (Option-cases (source_of d)) [
      | inl dangling ↦ rw (unclaimed, dangling) h
      | inr ((s, port), asked) ↦ elim (Option-cases (resolve nodes s port)) [
        | inl unusable ↦ rw (unclaimed, asked, unusable) h
        | inr (source, resolved) ↦
            let (source_in, key) = resolve_key nodes s port resolved in
            let target : Endpoint = record { node = node; idx = i } in
            let carries : input_key target ≡ output_key source =
              input_key_of node i d s port at asked ∙ sym key in
            elim (Bool-cases (index_lt source.node.node_index node.node_index)) [
              | inl first ↦
                  rw (unclaimed, asked, resolved, first)
                    (
                      add_target-IsBucket nodes objects (IsFedForward nodes) (s.ident, some port)
                          source target b.forward source_in key
                          (record { target_in = m; carries = carries; before = first }) h.0,
                      h.1,
                    )
              | inr not_first ↦
                  rw (unclaimed, asked, resolved, not_first)
                    (
                      h.0,
                      add_target-IsBucket nodes objects Fed (s.ident, some port) source target
                          b.feedback source_in key
                          (late source target
                            (record { target_in = m; carries = carries; not_before = not_first }))
                          h.1,
                    )
            ]
      ]
    ]
  ]

  -- `inputs` is what is left of the node's inputs from the index `i` on.
  wire_inputs-AreBuckets :
      (claimed : List ℕ) (node : Node) (i : ℕ) (inputs : List Desc) (b : Buckets)
      → In node (values nodes)
      → ((j : ℕ) → get_elem? node.inputs (i + j) ≡ get_elem? inputs j)
      → AreBuckets b
      → AreBuckets (wire_inputs nodes claimed node i inputs b)
  unfolding wire_inputs
  wire_inputs-AreBuckets claimed node i [] b m at h = h
  wire_inputs-AreBuckets claimed node i (d ∷ inputs) b m at h =
      wire_inputs-AreBuckets claimed node (suc i) inputs (wire_input nodes claimed node i d b) m
        (λ j. rw (let e : suc i + j ≡ i + suc j = omega arith in e) (at (suc j)))
        (wire_input-AreBuckets claimed node i d b m
          (let e : i + 0 ≡ i = omega arith in rw e at (at 0)) h)

  wire_node-AreBuckets :
      (claimed : List ℕ) (node : Node) (b : Buckets) {b' : Buckets}
      → In node (values nodes)
      → wire_node nodes claimed node b ≡ ok b'
      → AreBuckets b
      → AreBuckets b'
  unfolding wire_node
  wire_node-AreBuckets claimed node b m e h =
      let (_, _, done) = >>=-eq-ok (raise_if _ exception) (λ _. ok _) e in
      subst AreBuckets (ok-injective done) (
        wire_inputs-AreBuckets claimed node 0 node.inputs b m
          (λ j. rw (let e : 0 + j ≡ j = omega arith in e)) h)

  pub wire_nodes-AreBuckets :
      (claimed : List ℕ) (rest : List Node) (b : Buckets) {b' : Buckets}
      → ((n : Node) → In n rest → In n (values nodes))
      → wire_nodes nodes claimed rest b ≡ ok b'
      → AreBuckets b
      → AreBuckets b'
  unfolding wire_nodes
  wire_nodes-AreBuckets claimed [] b ms e h = subst AreBuckets (ok-injective e) h
  wire_nodes-AreBuckets claimed (n ∷ rest) b ms e h =
      let (mid, first, others) =
        >>=-eq-ok (wire_node nodes claimed n b) (λ c. wire_nodes nodes claimed rest c) e in
      wire_nodes-AreBuckets claimed rest mid (λ k mk. ms k (inr mk)) others
        (wire_node-AreBuckets claimed n b (ms n (inl refl)) first h)
