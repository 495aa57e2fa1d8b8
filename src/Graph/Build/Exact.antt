-- ===== src/Graph/Build/Exact.antt =====
-- What the two dictionaries of `_build_connections` list under each key.
use leapp.Common.{
  ℕ, suc, ◌≡◌, refl, sym, ap, ◌∙◌, Option, none, some, List, [], ◌∷◌, ◌++◌, Bool, true, false,
  arith, ◌==◌, nat_eq, string_eq, option_eq, pair_eq, if◌then◌else◌, ◌&&◌, append_assoc, append-nil,
  contains, Bool-cases, Option-cases, get, get-upsert, values, not, inl, inr,
}
use leapp.Common.Result.{ok, exception, raise_if, >>=-eq-ok, ok-injective}
use leapp.Graph.{Desc, Node, Nodes, Endpoint, Connection, index_lt, source_of}
use leapp.Graph.Build.Claims.{state_ids, contains-claimed}
use leapp.Graph.Build.{
  Key, Bucket, Buckets, resolve, index_of, add_target, StateWiring, wire_pair, wire_pairs,
  wire_states, build_state_connections, wire_input, wire_inputs, wire_node, wire_nodes,
  build_buckets,
}

-- The targets that a bucket lists under a key.
unfoldable pub targets_at : Key → Bucket → List Endpoint
targets_at key b = elim (get key b) [ none ↦ [] | some c ↦ c.targets ]

targets_at-add_target :
    (j key : Key) (s t : Endpoint) (b : Bucket)
    → targets_at key (add_target j s t b)
      ≡ (if j == key then targets_at key b ++ t ∷ [] else targets_at key b)
unfolding targets_at add_target
targets_at-add_target j key s t b = ground (
  arith,
  get-upsert j key (record { source = s; targets = [] })
      (λ (c : Connection). record c { targets = c.targets ++ t ∷ [] }) b,
)

-- The key that feeds an input, and whether it does so forward: none if the input is claimed by a
-- state, has no source, or has one that the graph cannot resolve.
pub route : Nodes → List ℕ → Node → Desc → Option (Key × Bool)
route nodes claimed node d = if contains claimed d.ident then none else elim (source_of d) [
  | none ↦ none
  | some (s, port) ↦ elim (resolve nodes s port) [
    | none ↦ none
    | some source ↦ some ((s.ident, some port), index_lt source.node.node_index node.node_index)
  ]
]

module _ (nodes : Nodes) (claimed : List ℕ) (kind : Bool) (key : Key) where
  pub is_fed : Node → Desc → Bool
  is_fed node d = elim (route nodes claimed node d) [
    | none ↦ false
    | some (k, forward) ↦ (k == key) && (if kind then forward else not forward)
  ]

  -- The inputs of a node from the index `i` on that the key feeds.
  pub fed_inputs : Node → ℕ → List Desc → List Endpoint
  fed_inputs node i [] = []
  fed_inputs node i (d ∷ inputs) =
      let rest = fed_inputs node (suc i) inputs in
      if is_fed node d then record { node = node; idx = i } ∷ rest else rest

  -- Those of all nodes.
  pub fed_in : List Node → List Endpoint
  fed_in [] = []
  fed_in (n ∷ rest) = fed_inputs n 0 n.inputs ++ fed_in rest

abbrev bucket_of : Bool → Buckets → Bucket
bucket_of true b = b.forward
bucket_of false b = b.feedback

module _ (nodes : Nodes) (claimed : List ℕ) (kind : Bool) (key : Key) where
  targets_at-wire_input :
      (node : Node) (i : ℕ) (d : Desc) (b : Buckets)
      → targets_at key (bucket_of kind (wire_input nodes claimed node i d b)) ≡ (
          if is_fed nodes claimed kind key node d
          then targets_at key (bucket_of kind b) ++ record { node = node; idx = i } ∷ []
          else targets_at key (bucket_of kind b))
  unfolding wire_input is_fed route
  targets_at-wire_input node i d b = elim (Option-cases (source_of d)) [
    | inl dangling ↦ ground arith
    | inr ((s, port), asked) ↦ elim (Option-cases (resolve nodes s port)) [
      | inl unusable ↦ ground arith
      | inr (source, resolved) ↦
          let t : Endpoint = record { node = node; idx = i } in
          ground (
            arith,
            targets_at-add_target (s.ident, some port) key source t b.forward,
            targets_at-add_target (s.ident, some port) key source t b.feedback,
          )
    ]
  ]

  targets_at-wire_inputs :
      (node : Node) (i : ℕ) (inputs : List Desc) (b : Buckets)
      → targets_at key (bucket_of kind (wire_inputs nodes claimed node i inputs b))
        ≡ targets_at key (bucket_of kind b) ++ fed_inputs nodes claimed kind key node i inputs
  unfolding wire_inputs fed_inputs
  targets_at-wire_inputs node i [] b = sym (append-nil _)
  targets_at-wire_inputs node i (d ∷ inputs) b =
      targets_at-wire_inputs node (suc i) inputs (wire_input nodes claimed node i d b)
      ∙ elim (Bool-cases (is_fed nodes claimed kind key node d)) [
        | inl fed ↦ rw fed (
            rw targets_at-wire_input
              (rw fed (append_assoc (targets_at key (bucket_of kind b)) _ _)))
        | inr not_fed ↦ rw not_fed (rw targets_at-wire_input (rw not_fed refl))
      ]

  targets_at-wire_nodes :
      (rest : List Node) (b : Buckets) {b' : Buckets}
      → wire_nodes nodes claimed rest b ≡ ok b'
      → targets_at key (bucket_of kind b')
        ≡ targets_at key (bucket_of kind b) ++ fed_in nodes claimed kind key rest
  unfolding wire_nodes wire_node fed_in
  targets_at-wire_nodes [] b e =
      ap (λ c. targets_at key (bucket_of kind c)) (sym (ok-injective e)) ∙ sym (append-nil _)
  targets_at-wire_nodes (n ∷ rest) b e =
      let (mid, first, others) =
        >>=-eq-ok (wire_node nodes claimed n b) (λ c. wire_nodes nodes claimed rest c) e in
      let (_, _, done) = >>=-eq-ok (raise_if _ exception) (λ _. ok _) first in
      targets_at-wire_nodes rest mid others
      ∙ rw (← ok-injective done)
          (rw targets_at-wire_inputs (append_assoc (targets_at key (bucket_of kind b)) _ _))

-- The inputs of declared state pairs whose output half has the key, in the order of the pairs.
pub state_input : Key → Node → Desc × Desc → List Endpoint
state_input key node (input, output) = elim (index_of node.inputs input) [
  | none ↦ []
  | some i ↦ elim (index_of node.outputs output) [
    | none ↦ []
    | some o ↦ if (node.ident, output.port) == key then record { node = node; idx = i } ∷ [] else []
  ]
]

pub state_inputs : Key → Node → List (Desc × Desc) → List Endpoint
state_inputs key node [] = []
state_inputs key node (p ∷ pairs) = state_input key node p ++ state_inputs key node pairs

pub states_in : Key → List Node → List Endpoint
states_in key [] = []
states_in key (n ∷ rest) = state_inputs key n n.state_pairs ++ states_in key rest

module _ (key : Key) where
  targets_at-wire_pair :
      (node : Node) (p : Desc × Desc) (w : StateWiring)
      → targets_at key (wire_pair node p w).feedback
        ≡ targets_at key w.feedback ++ state_input key node p
  unfolding wire_pair state_input
  targets_at-wire_pair node (input, output) w = elim (Option-cases (index_of node.inputs input)) [
    | inl unregistered ↦ rw (unregistered, wire_pair, state_input) (sym (append-nil _))
    | inr (i, at_input) ↦ elim (Option-cases (index_of node.outputs output)) [
      | inl unregistered ↦ rw (at_input, unregistered, wire_pair, state_input) (sym (append-nil _))
      | inr (o, at_output) ↦
          rw (at_input, at_output, wire_pair, state_input)
            (rw targets_at-add_target (elim (Bool-cases ((node.ident, output.port) == key)) [
              | inl same ↦ rw same refl
              | inr other ↦ rw other (sym (append-nil _))
            ]))
    ]
  ]

  targets_at-wire_pairs :
      (node : Node) (pairs : List (Desc × Desc)) (w : StateWiring)
      → targets_at key (wire_pairs node pairs w).feedback
        ≡ targets_at key w.feedback ++ state_inputs key node pairs
  unfolding wire_pairs state_inputs
  targets_at-wire_pairs node [] w = sym (append-nil _)
  targets_at-wire_pairs node (p ∷ pairs) w =
      targets_at-wire_pairs node pairs (wire_pair node p w)
      ∙ rw targets_at-wire_pair (append_assoc (targets_at key w.feedback) _ _)

  targets_at-wire_states :
      (rest : List Node) (w : StateWiring)
      → targets_at key (wire_states rest w).feedback
        ≡ targets_at key w.feedback ++ states_in key rest
  unfolding wire_states states_in
  targets_at-wire_states [] w = sym (append-nil _)
  targets_at-wire_states (n ∷ rest) w =
      targets_at-wire_states rest (wire_pairs n n.state_pairs w)
      ∙ rw targets_at-wire_pairs (append_assoc (targets_at key w.feedback) _ _)

-- The routes depend on which inputs are claimed only.
module _ (nodes : Nodes) (claimed ids : List ℕ)
    (same : (x : ℕ) → contains claimed x ≡ contains ids x) (kind : Bool) (key : Key) where
  route_same : (n : Node) (d : Desc) → route nodes claimed n d ≡ route nodes ids n d
  unfolding route
  route_same n d = rw (same d.ident, route) refl

  is_fed_same :
      (n : Node) (d : Desc) → is_fed nodes claimed kind key n d ≡ is_fed nodes ids kind key n d
  unfolding is_fed
  is_fed_same n d = rw (route_same n d, is_fed) refl

  fed_inputs_same :
      (n : Node) (i : ℕ) (ds : List Desc)
      → fed_inputs nodes claimed kind key n i ds ≡ fed_inputs nodes ids kind key n i ds
  unfolding fed_inputs
  fed_inputs_same n i [] = refl
  fed_inputs_same n i (d ∷ ds) = rw (is_fed_same n d, fed_inputs_same n (suc i) ds) refl

  fed_in_same :
      (rest : List Node) → fed_in nodes claimed kind key rest ≡ fed_in nodes ids kind key rest
  unfolding fed_in
  fed_in_same [] = refl
  fed_in_same (n ∷ rest) = rw (fed_inputs_same n 0 n.inputs, fed_in_same rest) refl

-- The inputs of the state pairs whose halves are descriptions of their node are claimed. Under each
-- key, the forward bucket lists exactly the inputs, other than the claimed ones, that the key feeds
-- from an earlier node. The feedback bucket lists the inputs of state pairs with that key, and then
-- exactly the inputs, other than the claimed ones, that the key feeds from a node that is not
-- earlier. All are in the graph's order.
pub build_buckets_exact :
    (nodes : Nodes) (key : Key) {b : Buckets}
    → build_buckets nodes ≡ ok b
    → (targets_at key b.forward ≡ fed_in nodes (state_ids (values nodes)) true key (values nodes))
      × (targets_at key b.feedback
          ≡ states_in key (values nodes)
            ++ fed_in nodes (state_ids (values nodes)) false key (values nodes))
unfolding build_buckets build_state_connections targets_at get
build_buckets_exact nodes key e =
    let w = build_state_connections nodes in
    let start : Buckets = record { forward = []; feedback = w.feedback } in
    let ids = state_ids (values nodes) in
    (
      targets_at-wire_nodes nodes w.claimed true key (values nodes) start e
          ∙ fed_in_same nodes w.claimed ids (contains-claimed nodes) true key (values nodes),
      targets_at-wire_nodes nodes w.claimed false key (values nodes) start e
          ∙ ap (λ l. l ++ fed_in nodes w.claimed false key (values nodes))
              (targets_at-wire_states key (values nodes) (record { claimed = []; feedback = [] }))
          ∙ ap (λ l. states_in key (values nodes) ++ l)
              (fed_in_same nodes w.claimed ids (contains-claimed nodes) false key (values nodes)),
    )
