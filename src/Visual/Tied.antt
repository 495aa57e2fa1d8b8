-- ===== src/Visual/Tied.antt =====
-- The edges that tie terminals to the nodes of a picture (visualization_adapter.py).
pub mod Titled
pub mod Terminal
use leapp.Common.{
  In-sort_by, In-of_sort_by, get_elem?-In, none, Option, ℕ, suc, ◌+◌, String, string_eq, ◌≡◌, refl,
  sym, ap, subst, ◌∙◌, some, List, [], ◌∷◌, ◌++◌, map, ◌==◌, length, length-append, arith, All, In,
  In-map, In-of_map, In-append_left, In-append_right, In-append_split, inl, inr, ◌⊎◌, Bool-cases,
  Dict, get, put, get-put, values, contains,
}
use leapp.Common.Result.{Result, ok, >>=-eq-ok, ok-injective, traverse}
use leapp.Common.Text.{port_key, split_first-port_key}
use leapp.Graph.{Desc, Node, Nodes, Endpoint, Connection}
use leapp.Graph.Build.{Connections, build_connections}
use leapp.Graph.Build.Sound.{Objects, IsFedForward, IsFedBack, build_connections_sound}
use leapp.Graph.Ports.{Side, inputs_of, outputs_of, end_port, all_targets, all_sources}
use leapp.Graph.Io.{GraphIo, compile_graph_io, dangling, all_dangling}
use leapp.Graph.Io.Dangling.{Names, IsPlaced}
use leapp.Graph.Io.External.{forward-IsPlaced, late-IsPlaced, targets-IsPlaced, sources-IsPlaced}
use leapp.Graph.Validate.{LeappGraph, init, validate_connections}
use leapp.Graph.Pipeline.{graph_statistics}
use leapp.Visual.{
  input_side, output_side, forward_edge, feedback_edge, VisualPort, VisualNode, VisualTerminal,
  VisualEdge, VisualGraph, visual_ids,
}
use leapp.Visual.Adapter.{
  node_lt, Presentation, port_id, node_id, port_names, build_port, build_node, sort_nodes,
}
use leapp.Visual.Adapter.Terminals.{
  title_map, terminal, input_edge, output_edge, input_terminal_edge, output_terminal_edge,
  terminal_edges, terminals_of, edges_of, ordered_nodes, build_visual_graph,
}
use leapp.Visual.Drawn.{Things, IsAnchored}
use leapp.Visual.Drawn.{Joins, Stands, All-append, all_edges-Draws, find_port_id-In}
use leapp.Visual.Tied.Terminal.{IsTied, Ties, port_ids}

module _ (ids port_ids : List String)
    (build : ℕ → String → Result (VisualTerminal × VisualEdge)) where
  pub terminal_edges-Ties :
      (i : ℕ) (ports : List String)
      → ((j : ℕ) (port : String)
          → In port ports
          → (p : VisualTerminal × VisualEdge) × (build j port ≡ ok p) × IsTied ids port_ids p)
      → Ties ids port_ids (length ports) (terminal_edges build i ports)
  unfolding terminal_edges
  terminal_edges-Ties i [] tied = ([], refl, tt, refl)
  terminal_edges-Ties i (port ∷ ports) tied =
      let (p, first, joins) = tied i port (inl refl) in
      let (ps, rest, joins', counted) =
        terminal_edges-Ties (suc i) ports (λ j port m. tied j port (inr m)) in
      (p ∷ ps, rw (first, rest) refl, (joins, joins'), ap suc counted)

-- The edges of terminals join them to the drawn nodes.
tied-Joins :
    (drawn ports : List String) (ids : Things) (p : VisualTerminal × VisualEdge)
    → IsTied drawn ports p
    → ((id : String) → In id drawn → In id ids.visuals)
    → ((id : String) → In id ports → In id ids.ports)
    → In p.0.id ids.visuals
    → In p.0.id ids.terminals
    → Joins ids p.1
tied-Joins drawn ports ids (t, e) (anchored, inl (same, no_port, m, port)) visuals anchors shown
      ended =
    rw (same, no_port, port) ((shown, ended), (visuals e.target_id m, anchors t.port_id anchored))
tied-Joins drawn ports ids (t, e) (anchored, inr (same, no_port, m, port)) visuals anchors shown
      ended =
    rw (same, no_port, port) ((visuals e.source_id m, anchors t.port_id anchored), (shown, ended))

pub edges_of-Joins :
    (drawn ports : List String) (ids : Things) (ps : List (VisualTerminal × VisualEdge))
    → All (IsTied drawn ports) ps
    → ((id : String) → In id drawn → In id ids.visuals)
    → ((id : String) → In id ports → In id ids.ports)
    → ((t : VisualTerminal) → In t (terminals_of ps) → In t.id ids.visuals × In t.id ids.terminals)
    → All (Joins ids) (edges_of ps)
edges_of-Joins drawn ports ids [] tied visuals anchors terminals = tt
edges_of-Joins drawn ports ids (p ∷ ps) tied visuals anchors terminals =
    let (shown, ended) = terminals p.0 (inl refl) in
    (
      tied-Joins drawn ports ids p tied.0 visuals anchors shown ended,
      edges_of-Joins drawn ports ids ps tied.1 visuals anchors (λ t m. terminals t (inr m)),
    )

pub terminals_of-All :
    (drawn ports : List String) (ps : List (VisualTerminal × VisualEdge))
    → All (IsTied drawn ports) ps
    → All (λ (t : VisualTerminal). In t.port_id ports) (terminals_of ps)
terminals_of-All drawn ports [] tied = tt
terminals_of-All drawn ports (p ∷ ps) tied = (tied.0.0, terminals_of-All drawn ports ps tied.1)

pub length-edges_of : (ps : List (VisualTerminal × VisualEdge)) → length (edges_of ps) ≡ length ps
length-edges_of [] = refl
length-edges_of (p ∷ ps) = ap suc (length-edges_of ps)

anchor_more :
    (ids more : Things) (port : Option String) (visual : String)
    → ((id : String) → In id ids.ports → In id more.ports)
    → ((id : String) → In id ids.terminals → In id more.terminals)
    → IsAnchored ids port visual
    → IsAnchored more port visual
anchor_more ids more none visual ports terminals h = terminals visual h
anchor_more ids more (some port) visual ports terminals h = ports port h

pub Joins-more :
    (ids more : Things) (es : List VisualEdge)
    → ((id : String) → In id ids.visuals → In id more.visuals)
    → ((id : String) → In id ids.ports → In id more.ports)
    → ((id : String) → In id ids.terminals → In id more.terminals)
    → All (Joins ids) es
    → All (Joins more) es
Joins-more ids more [] visuals ports terminals h = tt
Joins-more ids more (e ∷ es) visuals ports terminals h = (
  (
    (
      visuals e.source_id h.0.0.0,
      anchor_more ids more e.source_port_id e.source_id ports terminals h.0.0.1,
    ),
    (
      visuals e.target_id h.0.1.0,
      anchor_more ids more e.target_port_id e.target_id ports terminals h.0.1.1,
    ),
  ),
  Joins-more ids more es visuals ports terminals h.1,
)
