-- ===== src/Visual/Geometry/Resolve/Total.antt =====
-- The keys of the drawing that `resolve_geometry` (geometry.py) returns.
use leapp.Common.{
  nat_eq, Eq, String, string_eq, ◌≡◌, ◌↔◌, inl, inr, refl, sym, subst, List, [], ◌++◌, Dict, keys,
  put_all, In, In-map, In-of_map, In-append_left, In-append_right, All-at, All_of,
}
use leapp.Common.Result.{ok}
use leapp.Visual.{VisualPort, VisualNode, VisualTerminal, VisualEdge, VisualGraph, visual_ids}
use leapp.Visual.Drawn.{Joins}
use leapp.Visual.Picture.{terminal_ids, things_of, IsClosed}
use leapp.Visual.Tied.{Joins-more}
use leapp.Visual.Tied.Terminal.{all_ports, ids_of}
use leapp.Visual.Floats.{Floats, Point}
use leapp.Visual.Layout.{LayoutResult, edge_ids}
use leapp.Visual.Layout.Indices.{HasKeys}
use leapp.Visual.Geometry.{
  Rect, NodeGeometry, TerminalGeometry, PortGeometry, EdgeGeometry, GraphGeometry,
}
use leapp.Visual.Geometry.Measure.{measure_visual_sizes}
use leapp.Visual.Geometry.Spread.Total.{expand_layout_centers-keys}
use leapp.Visual.Geometry.Order.Nodes.{
  AllReordered, node_ids, node_ids-reordered, all_ports-reordered,
  order_ports_for_geometry-AllReordered,
}
use leapp.Visual.Geometry.Resolve.{
  feedback_lane_index, node_entry, terminal_entry, edge_entry, content_of, map_values, moved_inside,
  drawn_geometry, resolve_geometry,
}
use leapp.Visual.Geometry.Resolve.Ports.{keys-map_values, display_total, all_port_geometries-keys}
use leapp.Visual.Geometry.Resolve.Entries.{
  In-keys-sizes, edge_entry_total, node_entry_total, terminal_entry_total,
}

-- The drawing has an entry for each node, terminal, port and edge, and no other.
pub record DrawsAll {R : Type 0} (v : VisualGraph) (g : GraphGeometry R) : Type 0 where
  pub nodes : HasKeys (node_ids v.nodes) g.nodes
  pub terminals : HasKeys (terminal_ids v.terminals) g.terminals
  pub ports : HasKeys (ids_of (all_ports v.nodes)) g.ports
  pub edges : HasKeys (edge_ids v.edges) g.edges

kept_keys :
    {A B : Type 0} (ids : List String) (f : A → B) (d : Dict String A)
    → HasKeys ids d
    → HasKeys ids (map_values f d)
kept_keys ids f d h s =
    let same = keys-map_values f d in
    ((λ m. subst (In s) (sym same) ((h s).0 m)), (λ m. (h s).1 (subst (In s) same m)))

module _ {R : Type 0} ⦃F : Floats R⦄ where
  moved_inside-DrawsAll :
      (v : VisualGraph) (name : String) (content : Rect R) (nodes : Dict String (NodeGeometry R))
      (terminals : Dict String (TerminalGeometry R)) (ports : Dict String (PortGeometry R))
      (edges : Dict String (EdgeGeometry R))
      → HasKeys (node_ids v.nodes) nodes
      → HasKeys (terminal_ids v.terminals) terminals
      → HasKeys (ids_of (all_ports v.nodes)) ports
      → HasKeys (edge_ids v.edges) edges
      → DrawsAll v (moved_inside name content nodes terminals ports edges)
  unfolding moved_inside
  moved_inside-DrawsAll v name content nodes terminals ports edges hn ht hp he = record {
    nodes = kept_keys (node_ids v.nodes) _ nodes hn;
    terminals = kept_keys (terminal_ids v.terminals) _ terminals ht;
    ports = kept_keys (ids_of (all_ports v.nodes)) _ ports hp;
    edges = kept_keys (edge_ids v.edges) _ edges he;
  }

  drawn_geometry-DrawsAll :
      (v : VisualGraph) (centers : Dict String (Point R)) (name : String)
      → IsClosed v
      → ((s : String) → In s (visual_ids v) → In s (keys centers))
      → (g : GraphGeometry R) × (drawn_geometry v centers name ≡ ok g) × DrawsAll v g
  unfolding drawn_geometry visual_ids
  drawn_geometry-DrawsAll v centers name closed centered =
      let (node_entries, made_n, nodes) =
        display_total (node_entry centers) (λ (n : VisualNode). n.id) v.nodes
          (λ n m. node_entry_total centers n (
            centered n.id (
              In-append_left n.id (node_ids v.nodes) (terminal_ids v.terminals)
                (In-map (λ (n : VisualNode). n.id) n v.nodes m)))) in
      let (ports, made_p, port_keys) =
        all_port_geometries-keys (put_all node_entries []) v.nodes (λ s m. (nodes s).0 m) [] in
      let (terminal_entries, made_t, terminals) =
        display_total (terminal_entry centers ports) (λ (t : VisualTerminal). t.id) v.terminals
          (λ t m.
            terminal_entry_total centers ports t
              (centered t.id (
                In-append_right t.id (node_ids v.nodes) (terminal_ids v.terminals)
                  (In-map (λ (t : VisualTerminal). t.id) t v.terminals m)))
              ((port_keys t.port_id).0 (
                inl (
                  All-at (λ (t : VisualTerminal). In t.port_id (ids_of (all_ports v.nodes))) t
                    v.terminals closed.1 m)))) in
      let content = content_of (put_all node_entries []) (put_all terminal_entries []) in
      let (edge_entries, made_e, edges) =
        display_total
          (edge_entry ports (put_all terminal_entries []) content (feedback_lane_index v.edges))
          (λ (e : VisualEdge). e.id) v.edges
          (λ e m.
            edge_entry_total ports (put_all terminal_entries []) (things_of v)
              (λ s k. (port_keys s).0 (inl k)) (λ s k. (terminals s).0 k) content v.edges e m
              (All-at (Joins (things_of v)) e v.edges closed.0 m)) in
      (
        moved_inside name content (put_all node_entries []) (put_all terminal_entries []) ports
            (put_all edge_entries []),
        rw (made_n, made_p, made_t, made_e) refl,
        moved_inside-DrawsAll v name content (put_all node_entries []) (put_all terminal_entries [])
            ports (put_all edge_entries []) nodes terminals
            (λ s. (
              (λ m. (port_keys s).0 (inl m)),
              (λ m. elim ((port_keys s).1 m) [ inl k ↦ k | inr empty ↦ absurd empty ]),
            ))
            edges,
      )

reordered_ids :
    (ns ms : List VisualNode)
    → AllReordered ns ms
    → (s : String) → In s (ids_of (all_ports ns)) ↔ In s (ids_of (all_ports ms))
reordered_ids ns ms same s = (
  (λ m.
      let (p, mp, e) = In-of_map (λ (p : VisualPort). p.id) s (all_ports ns) m in
      subst (λ t. In t (ids_of (all_ports ms))) (sym e)
        (In-map (λ (p : VisualPort). p.id) p (all_ports ms)
          ((all_ports-reordered ns ms same p).0 mp))),
  (λ m.
      let (p, mp, e) = In-of_map (λ (p : VisualPort). p.id) s (all_ports ms) m in
      subst (λ t. In t (ids_of (all_ports ns))) (sym e)
        (In-map (λ (p : VisualPort). p.id) p (all_ports ns)
          ((all_ports-reordered ns ms same p).1 mp))),
)

reordered_visuals :
    (v : VisualGraph) (ms : List VisualNode)
    → AllReordered v.nodes ms
    → (s : String) → In s (node_ids ms ++ terminal_ids v.terminals)
    → In s (visual_ids v)
unfolding visual_ids
reordered_visuals v ms same s m =
    subst (λ is. In s (is ++ terminal_ids v.terminals)) (node_ids-reordered v.nodes ms same) m

-- Another order of the inputs leaves the picture closed.
ordered-IsClosed :
    (v : VisualGraph) (ms : List VisualNode)
    → AllReordered v.nodes ms
    → IsClosed v
    → IsClosed (record { nodes = ms; terminals = v.terminals; edges = v.edges })
unfolding visual_ids
ordered-IsClosed v ms same closed =
    let g : VisualGraph = record { nodes = ms; terminals = v.terminals; edges = v.edges } in
    let more : (s : String) → In s (ids_of (all_ports v.nodes)) → In s (ids_of (all_ports ms)) =
      λ s m. (reordered_ids v.nodes ms same s).0 m in
    (
      Joins-more (things_of v) (things_of g) v.edges
          (λ s m.
            subst (λ is. In s (is ++ terminal_ids v.terminals))
              (sym (node_ids-reordered v.nodes ms same)) m)
          more (λ s m. m) closed.0,
      All_of (λ (t : VisualTerminal). In t.port_id (ids_of (all_ports ms))) v.terminals
          (λ t m. more t.port_id (
            All-at (λ (t : VisualTerminal). In t.port_id (ids_of (all_ports v.nodes))) t v.terminals
              closed.1 m)),
    )

ordered-DrawsAll :
    {R : Type 0} (v : VisualGraph) (ms : List VisualNode) (g : GraphGeometry R)
    → AllReordered v.nodes ms
    → DrawsAll (record { nodes = ms; terminals = v.terminals; edges = v.edges }) g
    → DrawsAll v g
ordered-DrawsAll v ms g same drawn = record {
  nodes = subst (λ is. HasKeys is g.nodes) (node_ids-reordered v.nodes ms same) drawn.nodes;
  terminals = drawn.terminals;
  ports = λ s.
      let (to, of) = reordered_ids v.nodes ms same s in
      ((λ m. (drawn.ports s).0 (to m)), (λ m. of ((drawn.ports s).1 m)));
  edges = drawn.edges;
}

module _ {R : Type 0} ⦃F : Floats R⦄ ⦃e : Eq R⦄ where
  -- The geometry of a closed picture whose layout has a center for each of its nodes and terminals,
  -- and for nothing else, ends without an error. It has an entry for each node, terminal, port and
  -- edge of the picture, and no other.
  pub resolve_geometry-DrawsAll :
      (v : VisualGraph) (layout : LayoutResult R) (name : String)
      → IsClosed v
      → HasKeys (visual_ids v) layout.centers
      → (g : GraphGeometry R) × (resolve_geometry v layout name ≡ ok g) × DrawsAll v g
  unfolding resolve_geometry visual_ids
  resolve_geometry-DrawsAll v layout name closed centered =
      let (centers, spread, same) =
        expand_layout_centers-keys layout.centers (measure_visual_sizes v)
          (λ s m. In-keys-sizes R v s ((centered s).1 m)) in
      let at_center : (s : String) → In s (visual_ids v) → In s (keys centers) =
        λ s m. (same s).0 ((centered s).0 m) in
      let (ms, ordered, moved) =
        order_ports_for_geometry-AllReordered v centers (things_of v) refl at_center closed.0 in
      let after : VisualGraph = record { nodes = ms; terminals = v.terminals; edges = v.edges } in
      let (g, made, drawn) =
        drawn_geometry-DrawsAll after centers name (ordered-IsClosed v ms moved closed)
          (λ s m. at_center s (reordered_visuals v ms moved s m)) in
      (g, rw (spread, ordered) made, ordered-DrawsAll v ms g moved drawn)
