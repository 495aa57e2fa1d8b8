-- ===== src/Graph/Ports.antt =====
-- The names "node/port" of a connection's ends, as leapp/leapp_graph/leapp_graph.py writes them.
use leapp.Common.{String, Option, none, some, List, [], ◌∷◌, ◌++◌, get_elem?}
use leapp.Common.Result.{Result, ok, err, index_error, ◌>>=◌}
use leapp.Common.Text.{port_key}
use leapp.Graph.{Desc, Node, Endpoint, Connection}

-- `xs[i]`
abbrev pub item : Option Desc → Result Desc
item none = err index_error
item (some d) = ok d

-- One side of a node: its inputs, or its outputs.
abbrev pub Side : Type 0
Side = Node → List Desc

abbrev pub inputs_of : Side
inputs_of n = n.inputs

abbrev pub outputs_of : Side
outputs_of n = n.outputs

-- `end["node"].inputs[end["idx"]]`, or the same of the outputs.
abbrev pub desc_at : Side → Endpoint → Result Desc
desc_at side e = item (get_elem? (side e.node) e.idx)

-- `target_port` and `source_port`: the node's name, a slash, and the name of the tensor.
unfoldable pub end_port : Side → Endpoint → Result String
end_port side e = do d ← desc_at side e; ok (port_key e.node.name d.name)

-- The target ends of connections, connection by connection.
abbrev pub all_targets : List Connection → List Endpoint
all_targets [] = []
all_targets (c ∷ cs) = c.targets ++ all_targets cs

abbrev pub all_sources : List Connection → List Endpoint
all_sources [] = []
all_sources (c ∷ cs) = c.source ∷ all_sources cs
