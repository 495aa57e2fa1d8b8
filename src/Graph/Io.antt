-- ===== src/Graph/Io.antt =====
-- `_compile_graph_io` of leapp/leapp_graph/leapp_graph.py.
pub mod Dangling
pub mod External
use leapp.Common.{String, List, [], ◌∷◌, ◌++◌, Bool, contains, string_eq, if◌then◌else◌, values}
use leapp.Common.Result.{Result, ok, ◌>>=◌, traverse}
use leapp.Common.Text.{port_key}
use leapp.Graph.{Desc, Node, Nodes, Connection}
use leapp.Graph.Ports.{Side, inputs_of, outputs_of, end_port, all_targets, all_sources}

-- The ports of one node that are not among the connected ones.
unfoldable pub dangling : List String → String → List Desc → List String
dangling connected node [] = []
dangling connected node (d ∷ descs) =
    let rest = dangling connected node descs in
    let port = port_key node d.name in if contains connected port then rest else port ∷ rest

-- Those of all nodes, node by node.
unfoldable pub all_dangling : Side → List String → List Node → List String
all_dangling side connected [] = []
all_dangling side connected (n ∷ nodes) =
    dangling connected n.name (side n) ++ all_dangling side connected nodes

pub record GraphIo : Type 0 where
  pub graph_inputs : List String
  pub graph_outputs : List String

-- `_compile_graph_io`. The sets of ports are lists that are only asked for membership.
unfoldable pub compile_graph_io : Nodes → List Connection → List Connection → Result GraphIo
compile_graph_io nodes connections feedback = do
  forward_targets ← traverse (end_port inputs_of) (all_targets connections)
  feedback_targets ← traverse (end_port inputs_of) (all_targets feedback)
  forward_sources ← traverse (end_port outputs_of) (all_sources connections)
  feedback_sources ← traverse (end_port outputs_of) (all_sources feedback)
  ok (record {
    graph_inputs = all_dangling inputs_of (forward_targets ++ feedback_targets) (values nodes);
    graph_outputs = all_dangling outputs_of (forward_sources ++ feedback_sources) (values nodes);
  })
