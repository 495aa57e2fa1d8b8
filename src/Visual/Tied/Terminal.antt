-- ===== src/Visual/Tied/Terminal.antt =====
-- The edge of one terminal (visualization_adapter.py).
use leapp.Common.{
  In-sort_by, In-of_sort_by, get_elem?-In, none, ℕ, String, string_eq, ◌≡◌, refl, sym, ap, subst,
  ◌∙◌, some, List, [], ◌∷◌, ◌++◌, map, length, All, In, In-map, In-of_map, In-append_left,
  In-append_right, inl, inr, ◌⊎◌, get, values,
}
use leapp.Common.Result.{Result, ok, ok-injective}
use leapp.Common.Text.{port_key, split_first-port_key}
use leapp.Graph.{Desc, Node, Nodes, Endpoint}
use leapp.Graph.Ports.{Side, inputs_of, outputs_of}
use leapp.Graph.Io.Dangling.{Names, IsPlaced}
use leapp.Visual.{input_side, output_side, VisualPort, VisualNode, VisualTerminal, VisualEdge}
use leapp.Visual.Adapter.{
  node_lt, Presentation, port_id, node_id, port_names, build_port, build_node, sort_nodes,
}
use leapp.Visual.Adapter.Terminals.{
  title_map, terminal, input_edge, output_edge, input_terminal_edge, output_terminal_edge,
  ordered_nodes,
}
use leapp.Visual.Drawn.{Things}
use leapp.Visual.Drawn.{Stands, find_port_id-In}
use leapp.Visual.Wired.{IsDrawnFor}
use leapp.Graph.Validate.{LeappGraph}
use leapp.Visual.Tied.Titled.{IsPortOf, title_map_gives}

-- A terminal, with an edge between it and a drawn node.
abbrev pub IsTied : List String → List String → VisualTerminal × VisualEdge → Type 0
IsTied ids ports p =
    In p.0.port_id ports
    × (((p.1.source_id ≡ p.0.id)
          × (p.1.source_port_id ≡ none)
          × In p.1.target_id ids
          × (p.1.target_port_id ≡ some p.0.port_id))
        ⊎ ((p.1.target_id ≡ p.0.id)
            × (p.1.target_port_id ≡ none)
            × In p.1.source_id ids
            × (p.1.source_port_id ≡ some p.0.port_id)))

-- The identifiers of the ports of nodes.
abbrev pub all_ports : List VisualNode → List VisualPort
all_ports [] = []
all_ports (n ∷ nodes) = (n.inputs ++ n.outputs) ++ all_ports nodes

abbrev pub ids_of : List VisualPort → List String
ids_of ports = map (λ (p : VisualPort). p.id) ports

In-all_ports :
    (n : VisualNode) (p : VisualPort) (nodes : List VisualNode)
    → In n nodes
    → In p (n.inputs ++ n.outputs)
    → In p (all_ports nodes)
In-all_ports n p [] m h = absurd m
In-all_ports n p (k ∷ nodes) (inl e) h =
    In-append_left p (k.inputs ++ k.outputs) (all_ports nodes)
      (subst (λ (k : VisualNode). In p (k.inputs ++ k.outputs)) e h)
In-all_ports n p (k ∷ nodes) (inr m) h =
    In-append_right p (k.inputs ++ k.outputs) (all_ports nodes) (In-all_ports n p nodes m h)

-- Each port of the list has its terminal and its edge.
abbrev pub Ties :
    List String → List String → ℕ → Result (List (VisualTerminal × VisualEdge)) → Type 0
Ties ids ports n m =
    (ps : List (VisualTerminal × VisualEdge)) × (m ≡ ok ps)
    × All (IsTied ids ports) ps
    × (length ps ≡ n)

module _ (shown : Presentation) (nodes : Nodes) where
  abbrev drawn_nodes : List VisualNode
  drawn_nodes = ordered_nodes shown nodes

  abbrev node_ids : List String
  node_ids = map (λ (n : VisualNode). n.id) drawn_nodes

  In-ordered_nodes : (n : Node) → In n (values nodes) → In (build_node shown n) drawn_nodes
  unfolding ordered_nodes sort_nodes
  In-ordered_nodes n m =
      In-map (build_node shown) n (sort_nodes (values nodes))
        (In-sort_by node_lt n (values nodes) m)

  node_drawn : (n : Node) → In n (values nodes) → In (node_id n.name) node_ids
  unfolding build_node
  node_drawn n m =
      In-map (λ (n : VisualNode). n.id) (build_node shown n) drawn_nodes (In-ordered_nodes n m)

  abbrev pub port_ids : List String
  port_ids = ids_of (all_ports drawn_nodes)

  abbrev pub nodes_only : Things
  nodes_only = record { visuals = node_ids; ports = port_ids; terminals = [] }

  input_drawn :
      (n : Node) (d : Desc)
      → In n (values nodes)
      → In d n.inputs
      → In (port_id n.name input_side d.name) port_ids
  unfolding build_node build_port
  input_drawn n d m md =
      In-map (λ (p : VisualPort). p.id) (build_port shown n.name input_side d)
        (all_ports drawn_nodes)
        (In-all_ports (build_node shown n) (build_port shown n.name input_side d) drawn_nodes
          (In-ordered_nodes n m)
          (In-append_left _ (build_node shown n).inputs (build_node shown n).outputs
            (In-map (build_port shown n.name input_side) d n.inputs md)))

  output_drawn :
      (n : Node) (d : Desc)
      → In n (values nodes)
      → In d n.outputs
      → In (port_id n.name output_side d.name) port_ids
  unfolding build_node build_port
  output_drawn n d m md =
      In-map (λ (p : VisualPort). p.id) (build_port shown n.name output_side d)
        (all_ports drawn_nodes)
        (In-all_ports (build_node shown n) (build_port shown n.name output_side d) drawn_nodes
          (In-ordered_nodes n m)
          (In-append_right _ (build_node shown n).inputs (build_node shown n).outputs
            (In-map (build_port shown n.name output_side) d n.outputs md)))

  pub target-Stands :
      (e : Endpoint) → IsPlaced inputs_of nodes e → Stands inputs_of input_side nodes_only e
  target-Stands e (m, (d, at)) =
      (node_drawn e.node m, (d, at, input_drawn e.node d m (get_elem?-In e.node.inputs e.idx d at)))

  pub source-Stands :
      (e : Endpoint) → IsPlaced outputs_of nodes e → Stands outputs_of output_side nodes_only e
  source-Stands e (m, (d, at)) = (
    node_drawn e.node m,
    (d, at, output_drawn e.node d m (get_elem?-In e.node.outputs e.idx d at)),
  )

  module _ (side : Side) (names : Names side nodes) where
    named_node :
        (n : Node)
        → In n (values nodes)
        → get n.name (title_map drawn_nodes []) ≡ some (build_node shown n)
    unfolding ordered_nodes sort_nodes build_node
    named_node n m =
        title_map_gives n.name (build_node shown n) drawn_nodes []
          (λ x mx titled.
            let (k, mk, e) = In-of_map (build_node shown) x (sort_nodes (values nodes)) mx in
            e
            ∙ ap (build_node shown) (
                names.name_same k n (In-of_sort_by node_lt k (values nodes) mk) m
                  (ap (λ (v : VisualNode). v.title) (sym e) ∙ titled)))
          refl (inr (In-ordered_nodes n m))

  abbrev pub input_parts : ℕ → Node → Desc → VisualTerminal × VisualEdge
  input_parts i n d =
      let id = port_id n.name input_side d.name in
      (
        terminal input_side n.name d.name (build_node shown n) id,
        input_edge i n.name d.name (build_node shown n) id,
      )

  abbrev pub output_parts : ℕ → Node → Desc → VisualTerminal × VisualEdge
  output_parts i n d =
      let id = port_id n.name output_side d.name in
      (
        terminal output_side n.name d.name (build_node shown n) id,
        output_edge i n.name d.name (build_node shown n) id,
      )

  pub input_terminal_edge_at :
      (names : Names inputs_of nodes) (i : ℕ) (n : Node) (d : Desc)
      → In n (values nodes)
      → In d n.inputs
      → input_terminal_edge (title_map drawn_nodes []) i (port_key n.name d.name)
        ≡ ok (input_parts i n d)
  unfolding input_terminal_edge build_node build_port
  input_terminal_edge_at names i n d m md =
      let found =
        find_port_id-In n.name input_side d.name (port_names (build_node shown n).inputs) (
          In-map (λ (p : VisualPort). p.name) (build_port shown n.name input_side d) _
            (In-map (build_port shown n.name input_side) d n.inputs md)) in
      rw
        (
          split_first-port_key n.name d.name (names.slash_free n m),
          named_node inputs_of names n m,
          found,
        )
        refl

  pub input_terminal_edge-IsTied :
      (names : Names inputs_of nodes) (i : ℕ) (port : String)
      → IsPortOf inputs_of (values nodes) port
      → (p : VisualTerminal × VisualEdge) × (input_terminal_edge (title_map drawn_nodes []) i port
          ≡ ok p)
        × IsTied node_ids port_ids p
  unfolding build_node build_port
  input_terminal_edge-IsTied names i port (n, d, m, md, e) = (
    input_parts i n d,
    rw e (input_terminal_edge_at names i n d m md),
    (input_drawn n d m md, inl (refl, refl, node_drawn n m, refl)),
  )

  -- The edge that is built for an external port is drawn for it.
  pub input_terminal_edge-IsDrawnFor :
      (names : Names inputs_of nodes) (g : LeappGraph) (i : ℕ) (port : String)
      (p : VisualTerminal × VisualEdge)
      → In port g.io.graph_inputs
      → IsPortOf inputs_of (values nodes) port
      → input_terminal_edge (title_map drawn_nodes []) i port ≡ ok p
      → IsDrawnFor nodes g p.1
  unfolding build_node
  input_terminal_edge-IsDrawnFor names g i port p there (n, d, m, md, e) built =
      let same : input_parts i n d ≡ p = ok-injective (
        sym (input_terminal_edge_at names i n d m md)
        ∙ ap (input_terminal_edge (title_map drawn_nodes []) i) (sym e)
        ∙ built) in
      let listed : In (port_key n.name d.name) g.io.graph_inputs =
        subst (λ s. In s g.io.graph_inputs) e there in
      subst (λ (p : VisualTerminal × VisualEdge). IsDrawnFor nodes g p.1) same
        (n, d, (m, md, listed), refl, (refl, refl))

  pub output_terminal_edge_at :
      (names : Names outputs_of nodes) (i : ℕ) (n : Node) (d : Desc)
      → In n (values nodes)
      → In d n.outputs
      → output_terminal_edge (title_map drawn_nodes []) i (port_key n.name d.name)
        ≡ ok (output_parts i n d)
  unfolding output_terminal_edge build_node build_port
  output_terminal_edge_at names i n d m md =
      let found =
        find_port_id-In n.name output_side d.name (port_names (build_node shown n).outputs) (
          In-map (λ (p : VisualPort). p.name) (build_port shown n.name output_side d) _
            (In-map (build_port shown n.name output_side) d n.outputs md)) in
      rw
        (
          split_first-port_key n.name d.name (names.slash_free n m),
          named_node outputs_of names n m,
          found,
        )
        refl

  pub output_terminal_edge-IsTied :
      (names : Names outputs_of nodes) (i : ℕ) (port : String)
      → IsPortOf outputs_of (values nodes) port
      → (p : VisualTerminal × VisualEdge) × (output_terminal_edge (title_map drawn_nodes []) i port
          ≡ ok p)
        × IsTied node_ids port_ids p
  unfolding build_node build_port
  output_terminal_edge-IsTied names i port (n, d, m, md, e) = (
    output_parts i n d,
    rw e (output_terminal_edge_at names i n d m md),
    (output_drawn n d m md, inr (refl, refl, node_drawn n m, refl)),
  )

  -- The edge that is built for an external port is drawn for it.
  pub output_terminal_edge-IsDrawnFor :
      (names : Names outputs_of nodes) (g : LeappGraph) (i : ℕ) (port : String)
      (p : VisualTerminal × VisualEdge)
      → In port g.io.graph_outputs
      → IsPortOf outputs_of (values nodes) port
      → output_terminal_edge (title_map drawn_nodes []) i port ≡ ok p
      → IsDrawnFor nodes g p.1
  unfolding build_node
  output_terminal_edge-IsDrawnFor names g i port p there (n, d, m, md, e) built =
      let same : output_parts i n d ≡ p = ok-injective (
        sym (output_terminal_edge_at names i n d m md)
        ∙ ap (output_terminal_edge (title_map drawn_nodes []) i) (sym e)
        ∙ built) in
      let listed : In (port_key n.name d.name) g.io.graph_outputs =
        subst (λ s. In s g.io.graph_outputs) e there in
      subst (λ (p : VisualTerminal × VisualEdge). IsDrawnFor nodes g p.1) same
        (n, d, (m, md, listed), (refl, refl), refl)
