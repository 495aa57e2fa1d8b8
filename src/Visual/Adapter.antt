-- ===== src/Visual/Adapter.antt =====
-- leapp/leapp_graph/visualization_adapter.py: the picture of a graph is built from its nodes, its
-- connections and its external ports.
pub mod Terminals
use Prim.Native.Char.{Char, code}
use leapp.Common.{
  sort_by, ℕ, zero, suc, String, string_eq, nat_eq, Option, none, some, List, [], ◌∷◌, ◌++◌, map,
  Bool, true, false, ◌&&◌, ◌||◌, ◌==◌, option_eq, ltb, Dict, get, put, values, if◌then◌else◌,
}
use leapp.Common.Result.{Result, ok, err, key_error, value_error, ◌>>=◌}
use leapp.Common.Text.{split_first}
use leapp.Structure.{decimal}
use leapp.Graph.{Desc, Node, Nodes, Endpoint, Connection, index_lt}
use leapp.Graph.Ports.{inputs_of, outputs_of, desc_at}
use leapp.Visual.{
  PortSide, input_side, output_side, EdgeKind, forward_edge, feedback_edge, graph_input_edge,
  graph_output_edge, VisualPort, VisualNode, VisualEdge, visual_id,
}

abbrev pub side_text : PortSide → String
side_text input_side = "input"
side_text output_side = "output"

abbrev pub kind_text : EdgeKind → String
kind_text forward_edge = "forward"
kind_text feedback_edge = "feedback"
kind_text graph_input_edge = "graph_input"
kind_text graph_output_edge = "graph_output"

-- `a < b` of texts: code point by code point.
unfoldable pub text_lt : String → String → Bool
text_lt String.[] String.[] = false
text_lt String.[] (String.◌∷◌ d t) = true
text_lt (String.◌∷◌ c s) String.[] = false
text_lt (String.◌∷◌ c s) (String.◌∷◌ d t) =
    ltb (code c) (code d) || ((code c == code d) && text_lt s t)

-- The comparison of two keys of `_node_sort_key`.
unfoldable pub node_lt : Node → Node → Bool
node_lt m n =
    index_lt m.node_index n.node_index || ((m.node_index == n.node_index) && text_lt m.name n.name)

unfoldable pub sort_nodes : List Node → List Node
sort_nodes = sort_by node_lt

-- What the objects show: `get_backend` of a node, the kind in the semantics of a description.
pub record Presentation : Type 0 where
  pub backend_of : Node → Option String
  pub kind_of : Desc → Option String

-- `visual_id("port", node_name, side, name)`
abbrev pub port_id : String → PortSide → String → String
port_id node side name = visual_id ("port" ∷ node ∷ side_text side ∷ name ∷ [])

abbrev pub node_id : String → String
node_id node = visual_id ("node" ∷ node ∷ [])

unfoldable pub build_port : Presentation → String → PortSide → Desc → VisualPort
build_port shown node side d = record {
  id = port_id node side d.name;
  node_id = node_id node;
  side = side;
  name = d.name;
  shape = map decimal d.shape;
  dtype = d.dtype;
  kind = shown.kind_of d;
}

unfoldable pub build_node : Presentation → Node → VisualNode
build_node shown n = record {
  id = node_id n.name;
  title = n.name;
  backend = shown.backend_of n;
  inputs = map (build_port shown n.name input_side) n.inputs;
  outputs = map (build_port shown n.name output_side) n.outputs;
}

-- `_find_port_id`, over the names of the ports on that side of the node.
unfoldable pub find_port_id : String → PortSide → String → List String → Result String
find_port_id node side port [] = err key_error
find_port_id node side port (name ∷ names) =
    let rest = find_port_id node side port names in
    if name == port then ok (port_id node side name) else rest

abbrev pub desc_names : List Desc → List String
desc_names ds = map (λ (d : Desc). d.name) ds

abbrev pub port_names : List VisualPort → List String
port_names ps = map (λ (p : VisualPort). p.name) ps

-- The edge from an output of a node to the target with a sequence index.
abbrev pub internal_edge : EdgeKind → Node → Desc → String → ℕ → Node → Desc → String → VisualEdge
internal_edge kind source source_desc source_port i target target_desc target_port = record {
  id = visual_id (
      "edge"
      ∷ kind_text kind
      ∷ node_id source.name
      ∷ source_desc.name
      ∷ node_id target.name
      ∷ target_desc.name
      ∷ decimal i
      ∷ []);
  kind = kind;
  source_id = node_id source.name;
  target_id = node_id target.name;
  source_port_id = some source_port;
  target_port_id = some target_port;
  label = source_desc.name;
}

-- The loop of `_build_internal_edges` over the targets, from a sequence index.
unfoldable pub target_edges :
    EdgeKind → Node → Desc → String → ℕ → List Endpoint → Result (List VisualEdge)
target_edges kind source source_desc source_port i [] = ok []
target_edges kind source source_desc source_port i (t ∷ targets) = do
  target_desc ← desc_at inputs_of t
  target_port ← find_port_id t.node.name input_side target_desc.name (desc_names t.node.inputs)
  rest ← target_edges kind source source_desc source_port (suc i) targets
  ok (internal_edge kind source source_desc source_port i t.node target_desc target_port ∷ rest)

-- `_build_internal_edges`
unfoldable pub internal_edges : EdgeKind → Connection → Result (List VisualEdge)
internal_edges kind c = do
  source_desc ← desc_at outputs_of c.source
  source_port ←
      find_port_id c.source.node.name output_side source_desc.name
        (desc_names c.source.node.outputs)
  target_edges kind c.source.node source_desc source_port 0 c.targets

unfoldable pub all_edges : EdgeKind → List Connection → Result (List VisualEdge)
all_edges kind [] = ok []
all_edges kind (c ∷ cs) = do
  edges ← internal_edges kind c
  rest ← all_edges kind cs
  ok (edges ++ rest)
