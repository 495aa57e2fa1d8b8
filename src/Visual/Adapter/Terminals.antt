-- ===== src/Visual/Adapter/Terminals.antt =====
-- The terminals of a picture, and the whole picture: `_build_graph_input_terminal_edge`,
-- `_build_graph_output_terminal_edge` and `build_visual_graph` of
-- leapp/leapp_graph/visualization_adapter.py.
use leapp.Common.{
  ℕ, suc, String, string_eq, Option, none, some, List, [], ◌∷◌, ◌++◌, map, Dict, get, put, values,
}
use leapp.Common.Result.{Result, ok, err, key_error, value_error, ◌>>=◌}
use leapp.Common.Text.{split_first}
use leapp.Structure.{decimal}
use leapp.Graph.{Nodes}
use leapp.Graph.Validate.{LeappGraph}
use leapp.Visual.{
  PortSide, input_side, output_side, forward_edge, feedback_edge, graph_input_edge,
  graph_output_edge, VisualNode, VisualTerminal, VisualEdge, VisualGraph, visual_id,
}
use leapp.Visual.Adapter.{
  Presentation, build_node, sort_nodes, find_port_id, port_names, kind_text, side_text, all_edges,
}

-- `{node.title: node for node in ordered_nodes}`, from the entries so far.
unfoldable pub title_map : List VisualNode → Dict String VisualNode → Dict String VisualNode
title_map [] named = named
title_map (n ∷ nodes) named = title_map nodes (put n.title n named)

-- `node_name, port_name = node_port.split("/", 1)`
abbrev pub two_parts : Option (String × String) → Result (String × String)
two_parts none = err value_error
two_parts (some p) = ok p

abbrev pub node_named : Option VisualNode → Result VisualNode
node_named none = err key_error
node_named (some n) = ok n

abbrev pub terminal_id : PortSide → String → String → String
terminal_id side node port = visual_id ("terminal" ∷ side_text side ∷ node ∷ port ∷ [])

abbrev pub terminal : PortSide → String → String → VisualNode → String → VisualTerminal
terminal side node port n id = record {
  id = terminal_id side node port;
  kind = side;
  title = port;
  node_id = n.id;
  port_id = id;
}

abbrev pub input_edge : ℕ → String → String → VisualNode → String → VisualEdge
input_edge i node port n id = record {
  id = visual_id (
      "edge"
      ∷ kind_text graph_input_edge
      ∷ terminal_id input_side node port
      ∷ port
      ∷ n.id
      ∷ port
      ∷ decimal i
      ∷ []);
  kind = graph_input_edge;
  source_id = terminal_id input_side node port;
  target_id = n.id;
  source_port_id = none;
  target_port_id = some id;
  label = port;
}

-- `_build_graph_input_terminal_edge`
unfoldable pub input_terminal_edge :
    Dict String VisualNode → ℕ → String → Result (VisualTerminal × VisualEdge)
input_terminal_edge named i node_port = do
  parts ← two_parts (split_first node_port)
  n ← node_named (get parts.0 named)
  id ← find_port_id n.title input_side parts.1 (port_names n.inputs)
  ok (terminal input_side parts.0 parts.1 n id, input_edge i parts.0 parts.1 n id)

abbrev pub output_edge : ℕ → String → String → VisualNode → String → VisualEdge
output_edge i node port n id = record {
  id = visual_id (
      "edge"
      ∷ kind_text graph_output_edge
      ∷ n.id
      ∷ port
      ∷ terminal_id output_side node port
      ∷ port
      ∷ decimal i
      ∷ []);
  kind = graph_output_edge;
  source_id = n.id;
  target_id = terminal_id output_side node port;
  source_port_id = some id;
  target_port_id = none;
  label = port;
}

-- `_build_graph_output_terminal_edge`
unfoldable pub output_terminal_edge :
    Dict String VisualNode → ℕ → String → Result (VisualTerminal × VisualEdge)
output_terminal_edge named i node_port = do
  parts ← two_parts (split_first node_port)
  n ← node_named (get parts.0 named)
  id ← find_port_id n.title output_side parts.1 (port_names n.outputs)
  ok (terminal output_side parts.0 parts.1 n id, output_edge i parts.0 parts.1 n id)

-- The loops over `enumerate(graph_inputs)` and `enumerate(graph_outputs)`.
unfoldable pub terminal_edges :
    (ℕ → String → Result (VisualTerminal × VisualEdge))
    → ℕ
    → List String
    → Result (List (VisualTerminal × VisualEdge))
terminal_edges build i [] = ok []
terminal_edges build i (port ∷ ports) = do
  first ← build i port
  rest ← terminal_edges build (suc i) ports
  ok (first ∷ rest)

abbrev pub terminals_of : List (VisualTerminal × VisualEdge) → List VisualTerminal
terminals_of ps = map (λ p. p.0) ps

abbrev pub edges_of : List (VisualTerminal × VisualEdge) → List VisualEdge
edges_of ps = map (λ p. p.1) ps

-- The nodes of the picture, in their order.
unfoldable pub ordered_nodes : Presentation → Nodes → List VisualNode
ordered_nodes shown nodes = map (build_node shown) (sort_nodes (values nodes))

-- `build_visual_graph`, for the nodes of a graph and what `LeappGraph` has built of them.
unfoldable pub build_visual_graph : Presentation → Nodes → LeappGraph → Result VisualGraph
build_visual_graph shown nodes g =
    let ordered = ordered_nodes shown nodes in
    let named = title_map ordered [] in
    do
      forward ← all_edges forward_edge g.connections.forward
      feedback ← all_edges feedback_edge g.connections.feedback
      inputs ← terminal_edges (input_terminal_edge named) 0 g.io.graph_inputs
      outputs ← terminal_edges (output_terminal_edge named) 0 g.io.graph_outputs
      ok (record {
        nodes = ordered;
        terminals = terminals_of inputs ++ terminals_of outputs;
        edges = (forward ++ feedback) ++ (edges_of inputs ++ edges_of outputs);
      })
