-- ===== src/Graph/Build/Sound/Feedback.antt =====
-- The loop over declared state pairs, and what both loops leave in the two dictionaries.
use leapp.Common.{
  ◌≡◌, refl, ap, subst, ◌∙◌, some, List, [], ◌∷◌, get_elem?, In, inl, inr, ◌⊎◌, All, values,
  Option-cases,
}
use leapp.Common.Result.{ok, >>=-eq-ok, ok-injective}
use leapp.Graph.{Desc, Node, Nodes, Endpoint, Connection}
use leapp.Graph.Build.{
  Key, Bucket, Buckets, index_of, StateWiring, wire_pair, wire_pairs, wire_states,
  build_state_connections, build_buckets, build_connections, Connections,
}
use leapp.Graph.Build.Keys.{output_key, index_of_at}
use leapp.Graph.Build.Sound.Buckets.{Objects, IsBucket, add_target-IsBucket}
use leapp.Graph.Build.Sound.Forward.{IsFedForward, IsFedLate, wire_nodes-AreBuckets}

-- The two ends are the halves of a state pair that the node declares.
pub record IsStatePair (source target : Endpoint) : Type 0 where
  pub same_node : source.node ≡ target.node
  pub pair : Desc × Desc
  pub declared : In pair target.node.state_pairs
  pub input_half : get_elem? target.node.inputs target.idx ≡ some pair.0
  pub output_half : get_elem? source.node.outputs source.idx ≡ some pair.1

-- Why a feedback edge is there: a declared state, or a source that does not complete earlier.
abbrev pub IsFedBack : Nodes → Endpoint → Endpoint → Type 0
IsFedBack nodes s t = In t.node (values nodes) × (IsStatePair s t ⊎ IsFedLate nodes s t)

-- A returned connection: its source is an output of a node of the graph, and feeds each target.
pub record IsConnection (nodes : Nodes) (Fed : Endpoint → Endpoint → Type 0) (c : Connection)
    : Type 0 where
  pub source_in : In c.source.node (values nodes)
  pub key : Key
  pub source_key : output_key c.source ≡ some key
  pub fed : All (Fed c.source) c.targets

module _ (nodes : Nodes) (objects : Objects nodes) where
  abbrev IsStateBucket : StateWiring → Type 0
  IsStateBucket w = IsBucket nodes (IsFedBack nodes) w.feedback

  wire_pair-IsStateBucket :
      (node : Node) (p : Desc × Desc) (w : StateWiring)
      → In node (values nodes)
      → In p node.state_pairs
      → IsStateBucket w
      → IsStateBucket (wire_pair node p w)
  unfolding wire_pair
  wire_pair-IsStateBucket node (input, output) w m mp h =
      elim (Option-cases (index_of node.inputs input)) [
        | inl unregistered ↦ rw (unregistered, wire_pair) h
        | inr (i, at_input) ↦ elim (Option-cases (index_of node.outputs output)) [
          | inl unregistered ↦ rw (at_input, unregistered, wire_pair) h
          | inr (o, at_output) ↦
              let (c, at_c, mc, same_c) = index_of_at node.inputs input at_input in
              let (d, at_d, md, same_d) = index_of_at node.outputs output at_output in
              let is_input : c ≡ input = objects.input_same node (input, output) c m mp mc same_c in
              let is_output : d ≡ output =
                objects.output_same node (input, output) d m mp md same_d in
              rw (at_input, at_output, wire_pair)
                (add_target-IsBucket nodes objects (IsFedBack nodes) (node.ident, output.port)
                  (record { node = node; idx = o }) (record { node = node; idx = i }) w.feedback m
                  (rw at_d (ap (λ (x : Desc). some (node.ident, x.port)) is_output))
                  (
                    m,
                    inl (record {
                      same_node = refl;
                      pair = (input, output);
                      declared = mp;
                      input_half = at_c ∙ ap some is_input;
                      output_half = at_d ∙ ap some is_output;
                    }),
                  )
                  h)
        ]
      ]

  wire_pairs-IsStateBucket :
      (node : Node) (pairs : List (Desc × Desc)) (w : StateWiring)
      → In node (values nodes)
      → ((p : Desc × Desc) → In p pairs → In p node.state_pairs)
      → IsStateBucket w
      → IsStateBucket (wire_pairs node pairs w)
  unfolding wire_pairs
  wire_pairs-IsStateBucket node [] w m ms h = h
  wire_pairs-IsStateBucket node (p ∷ pairs) w m ms h =
      wire_pairs-IsStateBucket node pairs (wire_pair node p w) m (λ q mq. ms q (inr mq))
        (wire_pair-IsStateBucket node p w m (ms p (inl refl)) h)

  wire_states-IsStateBucket :
      (rest : List Node) (w : StateWiring)
      → ((n : Node) → In n rest → In n (values nodes))
      → IsStateBucket w
      → IsStateBucket (wire_states rest w)
  unfolding wire_states
  wire_states-IsStateBucket [] w ms h = h
  wire_states-IsStateBucket (n ∷ rest) w ms h =
      wire_states-IsStateBucket rest (wire_pairs n n.state_pairs w) (λ k mk. ms k (inr mk))
        (wire_pairs-IsStateBucket n n.state_pairs w (ms n (inl refl)) (λ q mq. mq) h)

  pub build_buckets-IsBucket :
      {b : Buckets}
      → build_buckets nodes ≡ ok b
      → IsBucket nodes (IsFedForward nodes) b.forward × IsBucket nodes (IsFedBack nodes) b.feedback
  unfolding build_buckets build_state_connections
  build_buckets-IsBucket e =
      wire_nodes-AreBuckets nodes objects (IsFedBack nodes) (λ s t f. (f.target_in, inr f))
        (build_state_connections nodes).claimed (values nodes)
        (record { forward = []; feedback = (build_state_connections nodes).feedback }) (λ n mn. mn)
        e
        (
          tt,
          wire_states-IsStateBucket (values nodes) (record { claimed = []; feedback = [] })
              (λ n mn. mn) tt,
        )

  All-values :
      (Fed : Endpoint → Endpoint → Type 0) (b : Bucket)
      → IsBucket nodes Fed b
      → All (IsConnection nodes Fed) (values b)
  All-values Fed [] h = tt
  All-values Fed ((k, c) ∷ b) h = (
    record { source_in = h.0.source_in; key = k; source_key = h.0.source_key; fed = h.0.fed },
    All-values Fed b h.1,
  )

  -- Where the nodes are consistent objects (told apart by identity, the outputs of a node with
  -- ports of their own, the halves of its state pairs its own descriptions): both lists that
  -- `_build_connections` returns hold justified connections only. A forward
  -- connection leaves an output of a node of the graph, and each target's input asks for that
  -- very output, in a node that completes later. A feedback connection's target is the input
  -- half of a state pair whose output half is the source, or asks for the source in a node that
  -- does not complete later.
  pub build_connections_sound :
      {r : Connections}
      → build_connections nodes ≡ ok r
      → All (IsConnection nodes (IsFedForward nodes)) r.forward
        × All (IsConnection nodes (IsFedBack nodes)) r.feedback
  unfolding build_connections
  build_connections_sound e =
      let (b, built, done) = >>=-eq-ok (build_buckets nodes) (λ b. ok _) e in
      let (hf, hb) = build_buckets-IsBucket built in
      subst
        (λ (r : Connections).
          All (IsConnection nodes (IsFedForward nodes)) r.forward
          × All (IsConnection nodes (IsFedBack nodes)) r.feedback)
        (ok-injective done)
        (All-values (IsFedForward nodes) b.forward hf, All-values (IsFedBack nodes) b.feedback hb)
