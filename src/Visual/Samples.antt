-- ===== src/Visual/Samples.antt =====
-- The picture of the sample graph, and each property at it.
use leapp.Common.{
  All, insert_by, sort_by, string_eq, nat_eq, option_eq, ◌≡◌, refl, none, [], ◌∷◌, get, put, upsert,
}
use leapp.Common.Result.{ok, err, key_error}
use leapp.Common.Text.{split_first, has_slash}
use leapp.Graph.{index_lt}
use leapp.Graph.Pipeline.{graph_statistics}
use leapp.Graph.Samples.{
  nodes, obs, policy, nodes-Objects, input-Names, output-Names, accepted_graph, init-nodes,
}
use leapp.Structure.{decimal}
use leapp.Visual.{input_side, VisualGraph, normalized, visual_id, visual_ids}
use leapp.Visual.Adapter.{
  Presentation, text_lt, node_lt, sort_nodes, build_port, build_node, find_port_id, target_edges,
  internal_edges, all_edges,
}
use leapp.Visual.Adapter.Terminals.{
  title_map, input_terminal_edge, output_terminal_edge, terminal_edges, ordered_nodes,
  build_visual_graph,
}
use leapp.Visual.Wired.{IsDrawnFor}
use leapp.Visual.Picture.{IsPicture, build_visual_graph-IsPicture}

abbrev silent : Presentation
silent = record { backend_of = λ n. none; kind_of = λ d. none }

program : Unit {0}
unfolding sort_by get put upsert split_first has_slash index_lt decimal normalized visual_id
    visual_ids text_lt node_lt insert_by sort_nodes build_port build_node find_port_id target_edges
    internal_edges all_edges title_map input_terminal_edge output_terminal_edge terminal_edges
    ordered_nodes build_visual_graph graph_statistics
program = tt

sorts_by_index : sort_nodes (policy ∷ obs ∷ []) ≡ (obs ∷ policy ∷ [])
unfolding program
sorts_by_index = refl

-- Two names that differ in a slash and a colon have one id.
one_id : visual_id ("node" ∷ "a/b" ∷ []) ≡ visual_id ("node" ∷ "a:b" ∷ [])
unfolding program
one_id = refl

refuses_unknown_port : find_port_id "obs" input_side "y" ("x" ∷ []) ≡ err key_error
unfolding program
refuses_unknown_port = refl

build_visual_graph-IsPicture_example :
    (v : VisualGraph) × (build_visual_graph silent nodes accepted_graph ≡ ok v)
    × IsPicture (graph_statistics accepted_graph).1 v
    × All (IsDrawnFor nodes accepted_graph) v.edges
build_visual_graph-IsPicture_example =
    build_visual_graph-IsPicture silent nodes nodes-Objects input-Names output-Names init-nodes
