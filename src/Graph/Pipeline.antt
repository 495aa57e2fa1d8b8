-- ===== src/Graph/Pipeline.antt =====
-- `get_full_pipeline_description`, `_finalize_connections`, `get_feedback_initial_values` and
-- `get_graph_statistics` of leapp/leapp_graph/leapp_graph.py.
pub mod Finalize
pub mod Grouping
use leapp.Common.{
  ℕ, ◌+◌, String, string_eq, Option, none, some, List, [], ◌∷◌, ◌++◌, Bool, length, Dict, put,
  upsert,
}
use leapp.Common.Result.{Result, ok, ◌>>=◌, traverse}
use leapp.Common.Text.{port_key, split_first}
use leapp.Graph.{Desc, Node, Endpoint, Connection}
use leapp.Graph.Build.{Connections}
use leapp.Graph.Ports.{inputs_of, outputs_of, desc_at, end_port}
use leapp.Graph.Io.{GraphIo}
use leapp.Graph.Validate.{LeappGraph}

abbrev pub Flow : Type 0
Flow = Dict String (List String)

-- `_finalize_connections`, from the dictionary that is filled so far.
unfoldable pub finalize_from : List Connection → Flow → Result Flow
finalize_from [] flow = ok flow
finalize_from (c ∷ cs) flow = do
  source ← end_port outputs_of c.source
  targets ← traverse (end_port inputs_of) c.targets
  finalize_from cs (put source targets flow)

unfoldable pub finalize_connections : List Connection → Result Flow
finalize_connections cs = finalize_from cs []

-- `setdefault(node, CompactYamlList())`, then `append(field)`.
unfoldable pub upsert_field : String → String → Flow → Flow
upsert_field node field = upsert node [] (λ fields. fields ++ field ∷ [])

-- The loop over `self.graph_inputs`, and that over `self.graph_outputs`.
unfoldable pub group_port : Option (String × String) → Flow → Flow
group_port none grouped = grouped
group_port (some (node, field)) grouped = upsert_field node field grouped

unfoldable pub group_from : List String → Flow → Flow
group_from [] grouped = grouped
group_from (port ∷ ports) grouped = group_from ports (group_port (split_first port) grouped)

unfoldable pub group_by_node : List String → Flow
group_by_node ports = group_from ports []

pub record Pipeline : Type 0 where
  pub data_flow : Flow
  pub feedback_flow : Flow
  pub inputs : Flow
  pub outputs : Flow

-- `get_full_pipeline_description`
unfoldable pub full_pipeline : LeappGraph → Result Pipeline
full_pipeline g = do
  data_flow ← finalize_connections g.connections.forward
  feedback_flow ← finalize_connections g.connections.feedback
  ok (record {
    data_flow = data_flow;
    feedback_flow = feedback_flow;
    inputs = group_by_node g.io.graph_inputs;
    outputs = group_by_node g.io.graph_outputs;
  })

-- `get_feedback_initial_values`: the loop over targets, and that over connections.
unfoldable pub initial_values_of : List Endpoint → Dict String ℕ → Result (Dict String ℕ)
initial_values_of [] found = ok found
initial_values_of (t ∷ targets) found = do
  d ← desc_at inputs_of t
  initial_values_of targets (put (port_key t.node.name d.name) d.value found)

unfoldable pub initial_values_from : List Connection → Dict String ℕ → Result (Dict String ℕ)
initial_values_from [] found = ok found
initial_values_from (c ∷ cs) found = do
  found' ← initial_values_of c.targets found
  initial_values_from cs found'

unfoldable pub feedback_initial_values : LeappGraph → Result (Dict String ℕ)
feedback_initial_values g = initial_values_from g.connections.feedback []

abbrev pub count_targets : List Connection → ℕ
count_targets [] = 0
count_targets (c ∷ cs) = length c.targets + count_targets cs

-- `get_graph_statistics`: the internal connections, and all edges.
unfoldable pub graph_statistics : LeappGraph → ℕ × ℕ
graph_statistics g =
    let internal = count_targets g.connections.forward + count_targets g.connections.feedback in
    (internal, internal + length g.io.graph_inputs + length g.io.graph_outputs)
