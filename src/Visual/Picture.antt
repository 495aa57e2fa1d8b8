-- ===== src/Visual/Picture.antt =====
-- The picture of a graph, and the same picture with more things (visualization_adapter.py).
use leapp.Common.{
  ℕ, ◌+◌, String, string_eq, ◌≡◌, refl, ap, subst, ◌∙◌, List, ◌++◌, map, length, length-append,
  arith, All, In, In-map, In-append_left, In-append_right, values,
}
use leapp.Common.Result.{ok, >>=-eq-ok, ok-injective, traverse}
use leapp.Graph.{Nodes, Connection}
use leapp.Graph.Build.{Connections, build_connections}
use leapp.Graph.Build.Sound.{Objects, IsFedForward, IsFedBack, build_connections_sound}
use leapp.Graph.Ports.{inputs_of, outputs_of, end_port, all_targets, all_sources}
use leapp.Graph.Io.{GraphIo, compile_graph_io}
use leapp.Graph.Io.Dangling.{Names}
use leapp.Graph.Io.External.{forward-IsPlaced, late-IsPlaced, targets-IsPlaced, sources-IsPlaced}
use leapp.Graph.Validate.{LeappGraph, init, validate_connections}
use leapp.Graph.Pipeline.{graph_statistics}
use leapp.Visual.{forward_edge, feedback_edge, VisualTerminal, VisualEdge, VisualGraph, visual_ids}
use leapp.Visual.Adapter.{Presentation}
use leapp.Visual.Adapter.Terminals.{terminals_of, edges_of, ordered_nodes, build_visual_graph}
use leapp.Visual.Drawn.{Things}
use leapp.Visual.Drawn.{Joins, All-append, all_edges-Draws}
use leapp.Visual.Wired.{IsDrawnFor, wires-AreDrawnFor, terminal_edges-All}
use leapp.Visual.Tied.{
  terminal_edges-Ties, edges_of-Joins, terminals_of-All, length-edges_of, Joins-more,
}
use leapp.Visual.Tied.Terminal.{
  input_terminal_edge-IsDrawnFor, output_terminal_edge-IsDrawnFor, all_ports, ids_of, nodes_only,
  target-Stands, source-Stands, input_terminal_edge-IsTied, output_terminal_edge-IsTied,
}
use leapp.Visual.Tied.Titled.{IsPortOf, all_dangling-IsPortOf}

count_edges :
    (forward feedback : List VisualEdge) (ins outs : List (VisualTerminal × VisualEdge))
    {a b c d : ℕ}
    → length forward ≡ a
    → length feedback ≡ b
    → length ins ≡ c
    → length outs ≡ d
    → length ((forward ++ feedback) ++ (edges_of ins ++ edges_of outs)) ≡ a + b + c + d
count_edges forward feedback ins outs h k l m = omega (
  arith,
  h,
  k,
  l,
  m,
  length-append (forward ++ feedback) (edges_of ins ++ edges_of outs),
  length-append forward feedback,
  length-append (edges_of ins) (edges_of outs),
  length-edges_of ins,
  length-edges_of outs,
)

abbrev pub terminal_ids : List VisualTerminal → List String
terminal_ids ts = map (λ (t : VisualTerminal). t.id) ts

abbrev pub things_of : VisualGraph → Things
things_of v = record {
  visuals = visual_ids v;
  ports = ids_of (all_ports v.nodes);
  terminals = terminal_ids v.terminals;
}

-- Each edge joins two of the picture's nodes and terminals at their anchors, and each terminal has
-- its port.
abbrev pub IsClosed : VisualGraph → Type 0
IsClosed v =
    All (Joins (things_of v)) v.edges
    × All (λ (t : VisualTerminal). In t.port_id (ids_of (all_ports v.nodes))) v.terminals

-- And there are so many edges.
abbrev pub IsPicture : ℕ → VisualGraph → Type 0
IsPicture count v = IsClosed v × (length v.edges ≡ count)

ended :
    (drawn : List String) (t : VisualTerminal) (ts : List VisualTerminal)
    → In t ts
    → In t.id (drawn ++ terminal_ids ts) × In t.id (terminal_ids ts)
ended drawn t ts m =
    let at = In-map (λ (t : VisualTerminal). t.id) t ts m in
    (In-append_right t.id drawn (terminal_ids ts) at, at)

-- What `__init__` has accepted.
init_parts :
    (nodes : Nodes) {g : LeappGraph}
    → init nodes ≡ ok g
    → (build_connections nodes ≡ ok g.connections)
      × (compile_graph_io nodes g.connections.forward g.connections.feedback ≡ ok g.io)
unfolding init
init_parts nodes {g} h =
    let (r, built, h₁) = >>=-eq-ok (build_connections nodes) _ h in
    let (io, computed, h₂) = >>=-eq-ok (compile_graph_io nodes r.forward r.feedback) _ h₁ in
    let (_, _, h₃) = >>=-eq-ok (validate_connections (r.forward ++ r.feedback)) _ h₂ in
    let same = ok-injective h₃ in
    let same_r : r ≡ g.connections = ap (λ (g : LeappGraph). g.connections) same in
    let same_io : io ≡ g.io = ap (λ (g : LeappGraph). g.io) same in
    (
      built ∙ ap ok same_r,
      subst (λ (c : Connections). compile_graph_io nodes c.forward c.feedback ≡ ok g.io) same_r
          (computed ∙ ap ok same_io),
    )

-- The external ports are ports of the graph's nodes.
ports_of_nodes :
    (nodes : Nodes) (forward feedback : List Connection) {io : GraphIo}
    → compile_graph_io nodes forward feedback ≡ ok io
    → ((port : String) → In port io.graph_inputs → IsPortOf inputs_of (values nodes) port)
      × ((port : String) → In port io.graph_outputs → IsPortOf outputs_of (values nodes) port)
unfolding compile_graph_io
ports_of_nodes nodes forward feedback {io} h =
    let (tf, _, h₁) = >>=-eq-ok (traverse (end_port inputs_of) (all_targets forward)) _ h in
    let (tb, _, h₂) = >>=-eq-ok (traverse (end_port inputs_of) (all_targets feedback)) _ h₁ in
    let (sf, _, h₃) = >>=-eq-ok (traverse (end_port outputs_of) (all_sources forward)) _ h₂ in
    let (sb, _, h₄) = >>=-eq-ok (traverse (end_port outputs_of) (all_sources feedback)) _ h₃ in
    subst
      (λ (io : GraphIo).
        ((port : String) → In port io.graph_inputs → IsPortOf inputs_of (values nodes) port)
        × ((port : String) → In port io.graph_outputs → IsPortOf outputs_of (values nodes) port))
      (ok-injective h₄)
      (
        all_dangling-IsPortOf (tf ++ tb) inputs_of (values nodes),
        all_dangling-IsPortOf (sf ++ sb) outputs_of (values nodes),
      )

module _ (shown : Presentation) (nodes : Nodes) (objects : Objects nodes)
    (in_names : Names inputs_of nodes) (out_names : Names outputs_of nodes) {g : LeappGraph}
    (accepted : init nodes ≡ ok g) where
  -- A graph that was built of consistent objects, with port names that do not collide, is drawn
  -- without an error. Each forward or feedback edge runs from the output port that a connection of
  -- the graph starts at to the input port that one of its targets is, each edge of an external
  -- input or output ties a terminal to the port of the node that it names, each end is a drawn node
  -- or terminal, and there are as many edges as the graph's statistics say.
  pub build_visual_graph-IsPicture :
      (v : VisualGraph) × (build_visual_graph shown nodes g ≡ ok v)
      × IsPicture (graph_statistics g).1 v
      × All (IsDrawnFor nodes g) v.edges
  unfolding build_visual_graph graph_statistics visual_ids
  build_visual_graph-IsPicture =
      let (built, computed) = init_parts nodes accepted in
      let (hf, hb) = build_connections_sound nodes objects built in
      let only = nodes_only shown nodes in
      let drawn = only.visuals in
      let r = g.connections in
      let (forward, draws_f, joins_f, count_f) =
        all_edges-Draws only forward_edge r.forward
          (λ e m.
            source-Stands shown nodes e (
              sources-IsPlaced nodes (IsFedForward nodes) (forward-IsPlaced nodes) r.forward hf e
                m))
          (λ e m. target-Stands shown nodes e (
            targets-IsPlaced nodes (IsFedForward nodes) (forward-IsPlaced nodes) r.forward hf e
              m)) in
      let (feedback, draws_b, joins_b, count_b) =
        all_edges-Draws only feedback_edge r.feedback
          (λ e m.
            source-Stands shown nodes e
              (sources-IsPlaced nodes (IsFedBack nodes) (late-IsPlaced nodes) r.feedback hb e m))
          (λ e m.
            target-Stands shown nodes e
              (targets-IsPlaced nodes (IsFedBack nodes) (late-IsPlaced nodes) r.feedback hb e m)) in
      let (in_ports, out_ports) = ports_of_nodes nodes r.forward r.feedback computed in
      let (ins, ties_i, tied_i, count_i) =
        terminal_edges-Ties drawn only.ports _ 0 g.io.graph_inputs
          (λ j port m. input_terminal_edge-IsTied shown nodes in_names j port (in_ports port m)) in
      let (outs, ties_o, tied_o, count_o) =
        terminal_edges-Ties drawn only.ports _ 0 g.io.graph_outputs (λ j port m.
          output_terminal_edge-IsTied shown nodes out_names j port (out_ports port m)) in
      let v : VisualGraph = record {
        nodes = ordered_nodes shown nodes;
        terminals = terminals_of ins ++ terminals_of outs;
        edges = (forward ++ feedback) ++ (edges_of ins ++ edges_of outs);
      } in
      let ids = things_of v in
      let drawn_for = IsDrawnFor nodes g in
      let widen =
        λ (id : String) (m : In id drawn). In-append_left id drawn (terminal_ids v.terminals) m in
      let same = λ (id : String) (m : In id only.ports). m in
      (
        v,
        rw (draws_f, draws_b, ties_i, ties_o) refl,
        (
          (
            All-append (Joins ids) (forward ++ feedback) _
                (Joins-more only ids (forward ++ feedback) widen same (λ id m. absurd m)
                  (All-append (Joins only) forward feedback joins_f joins_b))
                (All-append (Joins ids) (edges_of ins) (edges_of outs)
                  (edges_of-Joins drawn only.ports ids ins tied_i widen same
                    (λ t m. ended drawn t v.terminals (In-append_left t (terminals_of ins) _ m)))
                  (edges_of-Joins drawn only.ports ids outs tied_o widen same
                    (λ t m. ended drawn t v.terminals (In-append_right t (terminals_of ins) _ m)))),
            All-append (λ (t : VisualTerminal). In t.port_id only.ports) (terminals_of ins)
                (terminals_of outs) (terminals_of-All drawn only.ports ins tied_i)
                (terminals_of-All drawn only.ports outs tied_o),
          ),
          count_edges forward feedback ins outs count_f count_b count_i count_o,
        ),
        All-append drawn_for (forward ++ feedback) _
            (All-append drawn_for forward feedback
              (wires-AreDrawnFor nodes g forward_edge r.forward forward (λ e h. h) draws_f)
              (wires-AreDrawnFor nodes g feedback_edge r.feedback feedback (λ e h. h) draws_b))
            (All-append drawn_for (edges_of ins) (edges_of outs)
              (terminal_edges-All drawn_for _ 0 g.io.graph_inputs ties_i (λ j port p m.
                input_terminal_edge-IsDrawnFor shown nodes in_names g j port p m (in_ports port m)))
              (terminal_edges-All drawn_for _ 0 g.io.graph_outputs ties_o (λ j port p m.
                output_terminal_edge-IsDrawnFor shown nodes out_names g j port p m
                  (out_ports port m)))),
      )
