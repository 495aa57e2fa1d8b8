-- ===== src/Visual/Geometry/Resolve/Entries.antt =====
-- The entries of nodes, terminals and edges.
use leapp.Common.{
  ℕ, nat_eq, String, string_eq, ◌≡◌, inl, inr, refl, Option, none, some, List, [], ◌∷◌, map, true,
  Bool-cases, Dict, keys, put_all, sort_by, select, In, In-map, In-append_split, In-sort_by,
  In-select, In-keys-put_all,
}
use leapp.Common.Result.{ok}
use leapp.Visual.{VisualNode, VisualTerminal, VisualEdge, VisualGraph, visual_ids}
use leapp.Visual.Adapter.{text_lt}
use leapp.Visual.Drawn.{Things, IsAnchored, Joins}
use leapp.Visual.Picture.{terminal_ids}
use leapp.Visual.Floats.{Floats, Point, look, look_total}
use leapp.Visual.Layout.Indices.{index_of}
use leapp.Visual.Geometry.{Rect, NodeGeometry, TerminalGeometry, PortGeometry, EdgeGeometry}
use leapp.Visual.Geometry.Measure.{measure_visual_sizes, node_sizes, terminal_sizes}
use leapp.Visual.Geometry.Order.Nodes.{node_ids}
use leapp.Visual.Geometry.Resolve.{
  is_feedback, feedback_lane_index, build_node_geometry, build_terminal_geometry, edge_anchor,
  feedback_points, plain_points, edge_points, build_edge_geometry, node_entry, terminal_entry,
  edge_entry,
}
use leapp.Visual.Geometry.Resolve.Ports.{put_all-HasKeys}

-- Each feedback edge has a lane.
lane_of :
    (es : List VisualEdge) (e : VisualEdge)
    → In e es
    → is_feedback e.kind ≡ true
    → (lane : ℕ) × (look e.id (feedback_lane_index es) ≡ ok lane)
unfolding feedback_lane_index
lane_of es e m back =
    let lanes = select (λ (e : VisualEdge). is_feedback e.kind) es in
    let ids = map (λ (e : VisualEdge). e.id) lanes in
    let (lane, found, _) = index_of e.id (sort_by text_lt ids) (
      In-sort_by text_lt e.id ids (
        In-map (λ (e : VisualEdge). e.id) e lanes
          (In-select (λ (e : VisualEdge). is_feedback e.kind) e es m back))) in
    (lane, found)

In-keys-node_sizes :
    (R : Type 0) ⦃F : Floats R⦄ (s : String) (ns : List VisualNode)
    → In s (node_ids ns)
    → In s (keys (node_sizes {R = R} ns))
In-keys-node_sizes R s [] m = m
In-keys-node_sizes R s (n ∷ ns) (inl e) = inl e
In-keys-node_sizes R s (n ∷ ns) (inr m) = inr (In-keys-node_sizes R s ns m)

In-keys-terminal_sizes :
    (R : Type 0) ⦃F : Floats R⦄ (s : String) (ts : List VisualTerminal)
    → In s (terminal_ids ts)
    → In s (keys (terminal_sizes {R = R} ts))
In-keys-terminal_sizes R s [] m = m
In-keys-terminal_sizes R s (t ∷ ts) (inl e) = inl e
In-keys-terminal_sizes R s (t ∷ ts) (inr m) = inr (In-keys-terminal_sizes R s ts m)

pub In-keys-sizes :
    (R : Type 0) ⦃F : Floats R⦄ (g : VisualGraph) (s : String)
    → In s (visual_ids g)
    → In s (keys (measure_visual_sizes {R = R} g))
unfolding measure_visual_sizes visual_ids
In-keys-sizes R g s m =
    let terminals = put_all (terminal_sizes {R = R} g.terminals) [] in
    let nodes = put_all (node_sizes {R = R} g.nodes) [] in
    elim (In-append_split s (node_ids g.nodes) (terminal_ids g.terminals) m) [
      | inl node ↦ In-keys-put_all s terminals nodes (
          inr (
            (put_all-HasKeys (node_sizes {R = R} g.nodes) s).0
              (In-keys-node_sizes R s g.nodes node)))
      | inr terminal ↦ In-keys-put_all s terminals nodes (
          inl (
            (put_all-HasKeys (terminal_sizes {R = R} g.terminals) s).0
              (In-keys-terminal_sizes R s g.terminals terminal)))
    ]

module _ {R : Type 0} ⦃F : Floats R⦄ where
  module _ (ports : Dict String (PortGeometry R)) (terminals : Dict String (TerminalGeometry R))
      (things : Things) (has_port : (s : String) → In s things.ports → In s (keys ports))
      (has_terminal : (s : String) → In s things.terminals → In s (keys terminals)) where
    edge_anchor_total :
        (visual : String) (port : Option String)
        → IsAnchored things port visual
        → (p : Point R) × (edge_anchor ports terminals visual port ≡ ok p)
    unfolding edge_anchor
    edge_anchor_total visual none h =
        let (t, found) = look_total visual terminals (has_terminal visual h) in
        (t.anchor, rw found refl)
    edge_anchor_total visual (some port) h =
        let (g, found) = look_total port ports (has_port port h) in (g.anchor, rw found refl)

    edge_points_total :
        (bounds : Rect R) (es : List VisualEdge) (e : VisualEdge) (start end : Point R)
        → In e es
        → (ps : List (Point R)) × (edge_points bounds (feedback_lane_index es) e start end ≡ ok ps)
    unfolding edge_points
    edge_points_total bounds es e start end m = elim (Bool-cases (is_feedback e.kind)) [
      | inl back ↦
          let (lane, found) = lane_of es e m back in
          (feedback_points bounds lane start end, rw (back, found) refl)
      | inr plain ↦ (plain_points start end, rw plain refl)
    ]

    pub edge_entry_total :
        (bounds : Rect R) (es : List VisualEdge) (e : VisualEdge)
        → In e es
        → Joins things e
        → (p : String × EdgeGeometry R) × (edge_entry ports terminals bounds
              (feedback_lane_index es)
              e
            ≡ ok p)
          × (p.0 ≡ e.id)
    unfolding edge_entry build_edge_geometry
    edge_entry_total bounds es e m joins =
        let (start, at_start) = edge_anchor_total e.source_id e.source_port_id joins.0.1 in
        let (end, at_end) = edge_anchor_total e.target_id e.target_port_id joins.1.1 in
        let (points, drawn) = edge_points_total bounds es e start end m in
        (
          (e.id, record { id = e.id; kind = e.kind; label = e.label; points = points }),
          rw (at_start, at_end, drawn) refl,
          refl,
        )

  pub node_entry_total :
      (centers : Dict String (Point R)) (n : VisualNode)
      → In n.id (keys centers)
      → (p : String × NodeGeometry R) × (node_entry centers n ≡ ok p) × (p.0 ≡ n.id)
  unfolding node_entry
  node_entry_total centers n m =
      let (center, found) = look_total n.id centers m in
      ((n.id, build_node_geometry n center), rw found refl, refl)

  pub terminal_entry_total :
      (centers : Dict String (Point R)) (ports : Dict String (PortGeometry R)) (t : VisualTerminal)
      → In t.id (keys centers)
      → In t.port_id (keys ports)
      → (p : String × TerminalGeometry R) × (terminal_entry centers ports t ≡ ok p) × (p.0 ≡ t.id)
  unfolding terminal_entry
  terminal_entry_total centers ports t m h =
      let (center, found) = look_total t.id centers m in
      let (port, at) = look_total t.port_id ports h in
      ((t.id, build_terminal_geometry t center port), rw (found, at) refl, refl)
