-- ===== src/Graph/Io/External.antt =====
-- The external ports of a built graph.
use leapp.Common.{
  ℕ, String, ◌≡◌, refl, sym, subst, ◌∙◌, Option, none, some, List, [], ◌∷◌, ◌++◌, arith, ◌↔◌,
  get_elem?, In, In-append_split, inl, inr, All, All-at, values,
}
use leapp.Common.Result.{ok, traverse_total, traverse-append}
use leapp.Common.Text.{port_key}
use leapp.Graph.{Desc, Node, Nodes, Endpoint, Connection}
use leapp.Graph.Build.{Key, Connections, build_connections}
use leapp.Graph.Build.Keys.{desc_key, desc_asks, output_key}
use leapp.Graph.Build.Sound.{
  Objects, IsFedForward, IsFedBack, IsConnection, build_connections_sound,
}
use leapp.Graph.Ports.{Side, inputs_of, outputs_of, end_port, all_targets, all_sources}
use leapp.Graph.Io.{GraphIo, compile_graph_io, all_dangling}
use leapp.Graph.Io.Dangling.{Names, IsPlaced, all_dangling_iff}

output_placed :
    (o : Option Desc) (ident : ℕ) (key : Key)
    → desc_key ident o ≡ some key
    → (d : Desc) × (o ≡ some d)
output_placed none ident key h = ground arith
output_placed (some d) ident key h = (d, refl)

input_placed : (o : Option Desc) (key : Key) → desc_asks o ≡ some key → (d : Desc) × (o ≡ some d)
input_placed none key h = ground arith
input_placed (some d) key h = (d, refl)

module _ (nodes : Nodes) where
  pub forward-IsPlaced :
      (s t : Endpoint) (key : Key)
      → output_key s ≡ some key
      → IsFedForward nodes s t
      → IsPlaced inputs_of nodes t
  forward-IsPlaced s t key h f =
      (f.target_in, input_placed (get_elem? t.node.inputs t.idx) key (f.carries ∙ h))

  pub late-IsPlaced :
      (s t : Endpoint) (key : Key)
      → output_key s ≡ some key
      → IsFedBack nodes s t
      → IsPlaced inputs_of nodes t
  late-IsPlaced s t key h (m, inl p) = (m, (p.pair.0, p.input_half))
  late-IsPlaced s t key h (m, inr f) =
      (m, input_placed (get_elem? t.node.inputs t.idx) key (f.carries ∙ h))

  module _ (Fed : Endpoint → Endpoint → Type 0)
      (placed : (s t : Endpoint) (key : Key)
        → output_key s ≡ some key
        → Fed s t
        → IsPlaced inputs_of nodes t) where
    pub targets-IsPlaced :
        (cs : List Connection)
        → All (IsConnection nodes Fed) cs
        → (e : Endpoint) → In e (all_targets cs)
        → IsPlaced inputs_of nodes e
    targets-IsPlaced [] h e m = elim m [ ]
    targets-IsPlaced (c ∷ cs) h e m = elim (In-append_split e c.targets (all_targets cs) m) [
      | inl here ↦
          placed c.source e h.0.key h.0.source_key (All-at (Fed c.source) e c.targets h.0.fed here)
      | inr there ↦ targets-IsPlaced cs h.1 e there
    ]

    pub sources-IsPlaced :
        (cs : List Connection)
        → All (IsConnection nodes Fed) cs
        → (e : Endpoint) → In e (all_sources cs)
        → IsPlaced outputs_of nodes e
    sources-IsPlaced [] h e m = elim m [ ]
    sources-IsPlaced (c ∷ cs) h e (inl p) = subst (IsPlaced outputs_of nodes) (sym p) (
      h.0.source_in,
      output_placed (get_elem? c.source.node.outputs c.source.idx) c.source.node.ident h.0.key
          h.0.source_key,
    )
    sources-IsPlaced (c ∷ cs) h e (inr m) = sources-IsPlaced cs h.1 e m

  port_total :
      (side : Side) (e : Endpoint)
      → IsPlaced side nodes e
      → (port : String) × (end_port side e ≡ ok port)
  unfolding end_port
  port_total side e (m, (d, at)) = (port_key e.node.name d.name, rw at refl)

-- The ends that connect the graph, forward and back.
abbrev pub connected_inputs : Connections → List Endpoint
connected_inputs r = all_targets r.forward ++ all_targets r.feedback

abbrev pub connected_outputs : Connections → List Endpoint
connected_outputs r = all_sources r.forward ++ all_sources r.feedback

-- `ports` names the external ports of one side: exactly the tensors that are no connected end.
abbrev pub AreExternal : Side → Nodes → List Endpoint → List String → Type 0
AreExternal side nodes ends ports =
    (n : Node) (i : ℕ) (d : Desc)
    → In n (values nodes)
    → get_elem? (side n) i ≡ some d
    → In (port_key n.name d.name) ports ↔ (¬ In (record { node = n; idx = i }) ends)

append_cases :
    {P : Endpoint → Type 0} (xs ys : List Endpoint)
    → ((e : Endpoint) → In e xs → P e)
    → ((e : Endpoint) → In e ys → P e)
    → (e : Endpoint) → In e (xs ++ ys)
    → P e
append_cases xs ys hx hy e m = elim (In-append_split e xs ys m) [
  | inl left ↦ hx e left
  | inr right ↦ hy e right
]

module _ (nodes : Nodes) (objects : Objects nodes) (in_names : Names inputs_of nodes)
    (out_names : Names outputs_of nodes) {r : Connections}
    (built : build_connections nodes ≡ ok r) where
  -- After a build the external ports are computed without an error. A port is listed as a graph
  -- input exactly if it is no target of a returned connection, forward or feedback, and as a
  -- graph output exactly if it is no source of one.
  pub compile_graph_io_external :
      (io : GraphIo) × (compile_graph_io nodes r.forward r.feedback ≡ ok io)
      × AreExternal inputs_of nodes (connected_inputs r) io.graph_inputs
      × AreExternal outputs_of nodes (connected_outputs r) io.graph_outputs
  unfolding compile_graph_io
  compile_graph_io_external =
      let (hf, hb) = build_connections_sound nodes objects built in
      let tf = targets-IsPlaced nodes (IsFedForward nodes) (forward-IsPlaced nodes) r.forward hf in
      let tb = targets-IsPlaced nodes (IsFedBack nodes) (late-IsPlaced nodes) r.feedback hb in
      let sf = sources-IsPlaced nodes (IsFedForward nodes) (forward-IsPlaced nodes) r.forward hf in
      let sb = sources-IsPlaced nodes (IsFedBack nodes) (late-IsPlaced nodes) r.feedback hb in
      let named =
        λ (side : Side) (ends : List Endpoint)
            (placed : (e : Endpoint) → In e ends → IsPlaced side nodes e).
          traverse_total (end_port side) ends (λ e m. port_total nodes side e (placed e m)) in
      let (ptf, etf) = named inputs_of (all_targets r.forward) tf in
      let (ptb, etb) = named inputs_of (all_targets r.feedback) tb in
      let (psf, esf) = named outputs_of (all_sources r.forward) sf in
      let (psb, esb) = named outputs_of (all_sources r.feedback) sb in
      (
        record {
          graph_inputs = all_dangling inputs_of (ptf ++ ptb) (values nodes);
          graph_outputs = all_dangling outputs_of (psf ++ psb) (values nodes);
        },
        rw (etf, etb, esf, esb) refl,
        λ n i d.
            all_dangling_iff inputs_of nodes in_names (connected_inputs r) n i d
              (append_cases (all_targets r.forward) _ tf tb)
              (traverse-append (end_port inputs_of) (all_targets r.forward) _ etf etb),
        λ n i d.
            all_dangling_iff outputs_of nodes out_names (connected_outputs r) n i d
              (append_cases (all_sources r.forward) _ sf sb)
              (traverse-append (end_port outputs_of) (all_sources r.forward) _ esf esb),
      )
