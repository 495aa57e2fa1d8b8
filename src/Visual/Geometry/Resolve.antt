-- ===== src/Visual/Geometry/Resolve.antt =====
-- geometry.py: the rectangles of nodes, terminals and ports, the lines of edges, and
-- `resolve_geometry`.
pub mod Ports
pub mod Entries
pub mod Total
use leapp.Common.{
  ℕ, suc, ◌+◌, nat_eq, Eq, String, string_eq, Option, none, some, List, [], ◌∷◌, ◌++◌, map, Bool,
  true, false, not, ◌==◌, if◌then◌else◌, Dict, values, put_all, sort_by, select,
}
use leapp.Common.Result.{Result, ok, ◌>>=◌, traverse}
use leapp.Structure.Packing.{join}
use leapp.Visual.{
  PortSide, input_side, output_side, EdgeKind, forward_edge, feedback_edge, graph_input_edge,
  graph_output_edge, VisualPort, VisualNode, VisualTerminal, VisualEdge, VisualGraph,
}
use leapp.Visual.Adapter.{text_lt}
use leapp.Visual.Floats.{Floats, Point, look, half, larger}
use leapp.Visual.Layout.{LayoutResult, id_to_index}
use leapp.Visual.Geometry.{
  Rect, Size, NodeGeometry, TerminalGeometry, PortGeometry, EdgeGeometry, GraphGeometry,
  bounds_from_rects, bounds_from_rects_and_points, right_of, shift_rect, shift_node, shift_terminal,
  shift_port, shift_edge,
}
use leapp.Visual.Geometry.Measure.{
  truncate_text, port_detail_text, text_of, measure_side_slot_width, measure_terminal_width,
  measure_node_size, measure_visual_sizes,
}
use leapp.Visual.Geometry.Spread.{expand_layout_centers}
use leapp.Visual.Geometry.Order.{order_ports_for_geometry}

-- `{k: f(v) for k, v in d.items()}`
abbrev pub map_values : {A B : Type 0} → (A → B) → Dict String A → Dict String B
map_values f [] = []
map_values f ((k, a) ∷ d) = (k, f a) ∷ map_values f d

abbrev pub is_feedback : EdgeKind → Bool
is_feedback feedback_edge = true
is_feedback forward_edge = false
is_feedback graph_input_edge = false
is_feedback graph_output_edge = false

-- `feedback_lane_index`
unfoldable pub feedback_lane_index : List VisualEdge → Dict String ℕ
feedback_lane_index es = id_to_index (
    sort_by text_lt
      (map (λ (e : VisualEdge). e.id) (select (λ (e : VisualEdge). is_feedback e.kind) es)))

module _ {R : Type 0} ⦃F : Floats R⦄ where
  abbrev pub at_side : PortSide → R → R → R
  at_side input_side left right = left
  at_side output_side left right = right

  -- `_build_node_geometry`
  unfoldable pub build_node_geometry : VisualNode → Point R → NodeGeometry R
  build_node_geometry n center =
      let size = measure_node_size n in
      let x = F.sub center.x (half size.width) in
      let y = F.sub center.y (half size.height) in
      record {
        id = n.id;
        title = n.title;
        backend = n.backend;
        rect = record { x = x; y = y; width = size.width; height = size.height };
        header_rect = record { x = x; y = y; width = size.width; height = F.tenths 340 };
      }

  -- `_build_terminal_geometry`. A terminal of the input side lies left of its port.
  unfoldable pub build_terminal_geometry :
      VisualTerminal → Point R → PortGeometry R → TerminalGeometry R
  build_terminal_geometry t center port =
      let width = measure_terminal_width t in
      let x = F.sub center.x (half width) in
      let y = F.sub port.anchor.y (half (F.tenths 340)) in
      record {
        id = t.id;
        title = t.title;
        kind = t.kind;
        rect = record { x = x; y = y; width = width; height = F.tenths 340 };
        anchor = record { x = at_side t.kind (F.add x width) x; y = F.add y (half (F.tenths 340)) };
      }

  -- `_build_port_geometry`
  unfoldable pub build_port_geometry : VisualPort → NodeGeometry R → R → R → PortGeometry R
  build_port_geometry p g row_y slot_width = record {
    id = p.id;
    node_id = p.node_id;
    side = p.side;
    name = truncate_text p.name 24;
    detail = truncate_text (port_detail_text p) 32;
    kind = p.kind;
    rect = record {
      x = at_side p.side g.rect.x (F.sub (right_of g.rect) slot_width);
      y = row_y;
      width = slot_width;
      height = F.tenths 620;
    };
    anchor = record {
      x = at_side p.side g.rect.x (right_of g.rect);
      y = F.add row_y (half (F.tenths 620));
    };
    full_label =
        join "\n" (select (λ s. not (s == "")) (p.name ∷ port_detail_text p ∷ text_of p.kind ∷ []));
  }

  module _ (g : NodeGeometry R) (input_width output_width : R) where
    abbrev row_y : ℕ → R
    row_y i =
        F.add (F.add (F.add g.rect.y (F.tenths 340)) (F.tenths 140))
          (F.mul (F.of_int i) (F.tenths 620))

    abbrev input_entry : ℕ → VisualPort → String × PortGeometry R
    input_entry i p = (p.id, build_port_geometry p g (row_y i) input_width)

    abbrev output_entry : ℕ → VisualPort → String × PortGeometry R
    output_entry i p = (p.id, build_port_geometry p g (row_y i) output_width)

    -- The loop over the rows: an input and an output in each, while there are some.
    unfoldable pub port_rows :
        ℕ → List VisualPort → List VisualPort → List (String × PortGeometry R)
    port_rows i [] [] = []
    port_rows i (p ∷ ps) [] = input_entry i p ∷ port_rows (suc i) ps []
    port_rows i [] (q ∷ qs) = output_entry i q ∷ port_rows (suc i) [] qs
    port_rows i (p ∷ ps) (q ∷ qs) = input_entry i p ∷ output_entry i q ∷ port_rows (suc i) ps qs

  -- `_build_port_geometries`
  unfoldable pub build_port_geometries : VisualNode → NodeGeometry R → Dict String (PortGeometry R)
  build_port_geometries n g =
      put_all
        (port_rows g (measure_side_slot_width n.inputs) (measure_side_slot_width n.outputs) 0
          n.inputs n.outputs)
        []

  -- `_edge_anchor`
  unfoldable pub edge_anchor :
      Dict String (PortGeometry R)
      → Dict String (TerminalGeometry R)
      → String
      → Option String
      → Result (Point R)
  edge_anchor ports terminals visual none = do terminal ← look visual terminals; ok terminal.anchor
  edge_anchor ports terminals visual (some port) = do found ← look port ports; ok found.anchor

  abbrev pub feedback_points : Rect R → ℕ → Point R → Point R → List (Point R)
  feedback_points bounds lane start end =
      let lane_y = F.sub bounds.y (F.mul (F.of_int (lane + 1)) (F.tenths 340)) in
      let stub = F.add (F.tenths 240) (F.mul (F.of_int lane) (F.tenths 80)) in
      start
      ∷ record { x = F.add start.x stub; y = start.y }
      ∷ record { x = F.add start.x stub; y = lane_y }
      ∷ record { x = F.sub end.x stub; y = lane_y }
      ∷ record { x = F.sub end.x stub; y = end.y }
      ∷ end
      ∷ []

  abbrev pub plain_points : Point R → Point R → List (Point R)
  plain_points start end =
      let control_x = F.add start.x (half (F.sub end.x start.x)) in
      start ∷ record { x = control_x; y = start.y } ∷ record { x = control_x; y = end.y } ∷ end ∷ []

  unfoldable pub edge_points :
      Rect R → Dict String ℕ → VisualEdge → Point R → Point R → Result (List (Point R))
  edge_points bounds lanes e start end =
      if is_feedback e.kind
      then (look e.id lanes >>= λ lane. ok (feedback_points bounds lane start end))
      else ok (plain_points start end)

  -- `_build_edge_geometry`
  unfoldable pub build_edge_geometry :
      Dict String (PortGeometry R)
      → Dict String (TerminalGeometry R)
      → Rect R
      → Dict String ℕ
      → VisualEdge
      → Result (EdgeGeometry R)
  build_edge_geometry ports terminals bounds lanes e = do
    start ← edge_anchor ports terminals e.source_id e.source_port_id
    end ← edge_anchor ports terminals e.target_id e.target_port_id
    points ← edge_points bounds lanes e start end
    ok (record { id = e.id; kind = e.kind; label = e.label; points = points })

  unfoldable pub node_entry : Dict String (Point R) → VisualNode → Result (String × NodeGeometry R)
  node_entry centers n = do center ← look n.id centers; ok (n.id, build_node_geometry n center)

  -- The loop that collects the ports of all nodes.
  unfoldable pub all_port_geometries :
      Dict String (NodeGeometry R)
      → List VisualNode
      → Dict String (PortGeometry R)
      → Result (Dict String (PortGeometry R))
  all_port_geometries nodes [] ports = ok ports
  all_port_geometries nodes (n ∷ ns) ports = do
    g ← look n.id nodes
    all_port_geometries nodes ns (put_all (build_port_geometries n g) ports)

  unfoldable pub terminal_entry :
      Dict String (Point R)
      → Dict String (PortGeometry R)
      → VisualTerminal
      → Result (String × TerminalGeometry R)
  terminal_entry centers ports t = do
    center ← look t.id centers
    port ← look t.port_id ports
    ok (t.id, build_terminal_geometry t center port)

  unfoldable pub edge_entry :
      Dict String (PortGeometry R)
      → Dict String (TerminalGeometry R)
      → Rect R
      → Dict String ℕ
      → VisualEdge
      → Result (String × EdgeGeometry R)
  edge_entry ports terminals bounds lanes e = do
    g ← build_edge_geometry ports terminals bounds lanes e
    ok (e.id, g)

  abbrev points_of : Dict String (EdgeGeometry R) → List (Point R)
  points_of [] = []
  points_of ((_, g) ∷ edges) = g.points ++ points_of edges

  abbrev pub content_of : Dict String (NodeGeometry R) → Dict String (TerminalGeometry R) → Rect R
  content_of nodes terminals = bounds_from_rects (
      map (λ (g : NodeGeometry R). g.rect) (values nodes)
      ++ map (λ (g : TerminalGeometry R). g.rect) (values terminals))

  abbrev pub sized :
      String
      → Rect R
      → Rect R
      → Dict String (NodeGeometry R)
      → Dict String (TerminalGeometry R)
      → Dict String (PortGeometry R)
      → Dict String (EdgeGeometry R)
      → GraphGeometry R
  sized name content overall nodes terminals ports edges = record {
    graph_name = name;
    width = F.add (right_of overall) (F.tenths 960);
    height = F.add (F.add overall.y overall.height) (F.tenths 960);
    content_bounds = content;
    nodes = nodes;
    terminals = terminals;
    ports = ports;
    edges = edges;
  }

  -- The end of `resolve_geometry`: everything is moved inside the margins, below the lanes of the
  -- feedback.
  unfoldable pub moved_inside :
      String
      → Rect R
      → Dict String (NodeGeometry R)
      → Dict String (TerminalGeometry R)
      → Dict String (PortGeometry R)
      → Dict String (EdgeGeometry R)
      → GraphGeometry R
  moved_inside name content nodes terminals ports edges =
      let overall = bounds_from_rects_and_points (content ∷ []) (points_of edges) in
      let top_offset = larger (F.tenths 0) (F.sub content.y overall.y) in
      let dx = F.sub (F.tenths 960) overall.x in
      let dy = F.sub (F.add (F.tenths 960) top_offset) content.y in
      let shifted_edges = map_values (shift_edge dx dy) edges in
      let shifted_content = shift_rect dx dy content in
      sized name shifted_content
        (bounds_from_rects_and_points (shifted_content ∷ []) (points_of shifted_edges))
        (map_values (shift_node dx dy) nodes) (map_values (shift_terminal dx dy) terminals)
        (map_values (shift_port dx dy) ports) shifted_edges

  -- `resolve_geometry` after the centers are spread and the ports ordered.
  unfoldable pub drawn_geometry :
      VisualGraph → Dict String (Point R) → String → Result (GraphGeometry R)
  drawn_geometry g centers name = do
    node_entries ← traverse (node_entry centers) g.nodes
    let nodes = put_all node_entries []
    ports ← all_port_geometries nodes g.nodes []
    terminal_entries ← traverse (terminal_entry centers ports) g.terminals
    let terminals = put_all terminal_entries []
    let content = content_of nodes terminals
    edge_entries ←
        traverse (edge_entry ports terminals content (feedback_lane_index g.edges)) g.edges
    ok (moved_inside name content nodes terminals ports (put_all edge_entries []))

  -- `resolve_geometry`
  unfoldable pub resolve_geometry :
      ⦃e : Eq R⦄ → VisualGraph → LayoutResult R → String → Result (GraphGeometry R)
  resolve_geometry g layout name = do
    centers ← expand_layout_centers layout.centers (measure_visual_sizes g)
    ordered ← order_ports_for_geometry g centers
    drawn_geometry ordered centers name
