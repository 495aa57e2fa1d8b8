-- ===== src/Graph/Samples.antt =====
-- A graph of two nodes: "obs" keeps a state and reads the last action, "policy" reads features.
-- What the operations make of it, and each property at it.
use leapp.Common.{
  ℕ, Bool, false, true, String, string_eq, nat_eq, option_eq, pair_eq, ◌≡◌, refl, Option, none,
  some, [], ◌∷◌, inl, inr, ◌⊎◌, values, map, All, ◌++◌, ◌↔◌, get, put, upsert,
}
use leapp.Common.Result.{ok, err, exception, traverse}
use leapp.Common.Text.{has_slash, port_key, split_first}
use leapp.Graph.{NodeRef, Desc, Node, Nodes, index_lt, source_of}
use leapp.Graph.Build.{
  Connections, find_output, resolve, index_of, add_target, wire_pair, wire_pairs, wire_states,
  build_state_connections, sources_of, wire_input, wire_inputs, wire_node, wire_nodes,
  build_buckets, build_connections, Buckets,
}
use leapp.Graph.Build.Sound.{Objects, Objects-of_Distinct}
use leapp.Graph.Ports.{inputs_of, outputs_of, end_port}
use leapp.Graph.Io.{GraphIo, dangling, all_dangling, compile_graph_io}
use leapp.Graph.Validate.{LeappGraph, validate_targets, validate_connections, init}
use leapp.Compat.{validate_edge}
use leapp.Graph.Io.Dangling.{Names, Names-of_Distinct}
use leapp.Graph.Io.External.{
  AreExternal, connected_inputs, connected_outputs, compile_graph_io_external,
}
use leapp.Graph.Build.Sound.{IsFedForward, IsFedBack, IsConnection, build_connections_sound}
use leapp.Graph.Build.Order.{Flows, along, Flows-index_lt, forward_acyclic}
use leapp.Graph.Build.Claims.{state_ids}
use leapp.Graph.Build.Exact.{targets_at, fed_in, states_in, build_buckets_exact}
use leapp.Graph.Build.Refusal.{AllSingle, build_connections_accepts}
use leapp.Graph.Validate.{IsCompatible, validate_connections-ok_iff}
use leapp.Graph.Pipeline.{group_by_node, finalize_from, finalize_connections}
use leapp.Graph.Pipeline.Finalize.{source_port, IsListed, finalize_connections-IsListed}
use leapp.Graph.Pipeline.Grouping.{port_of, fields_at, fields_of, group_by_node_fields}

abbrev desc : ℕ → String → Option NodeRef → Option String → Desc
desc ident name source port = record {
  ident = ident;
  name = name;
  port = port;
  source_node = source;
  shape = 6 ∷ [];
  dtype = "float32";
  value = ident;
}

abbrev pub obs : Node
obs = record {
  ident = 1;
  name = "obs";
  node_index = some 0;
  inputs =
      desc 10 "x" none none
      ∷ desc 11 "h" none none
      ∷ desc 12 "last" (some (record { ident = 2; name = "policy" })) (some "action")
      ∷ [];
  outputs = desc 20 "features" none (some "features") ∷ desc 21 "h_out" none (some "h_out") ∷ [];
  state_pairs = (desc 11 "h" none none, desc 21 "h_out" none (some "h_out")) ∷ [];
}

abbrev pub policy : Node
policy = record {
  ident = 2;
  name = "policy";
  node_index = some 1;
  inputs = desc 13 "features" (some (record { ident = 1; name = "obs" })) (some "features") ∷ [];
  outputs = desc 22 "action" none (some "action") ∷ [];
  state_pairs = [];
}

abbrev pub nodes : Nodes
nodes = ("obs", obs) ∷ ("policy", policy) ∷ []

program : Unit {0}
unfolding has_slash get upsert index_lt source_of find_output resolve index_of add_target wire_pair
    wire_pairs wire_states build_state_connections sources_of wire_input wire_inputs wire_node
    wire_nodes build_buckets build_connections end_port dangling all_dangling compile_graph_io
    validate_edge validate_targets validate_connections init traverse port_key split_first put
    finalize_from finalize_connections
program = tt

abbrev Holds : Type 0
Holds = ◌≡◌ {A = Bool} false false

abbrev one : Holds × Unit {0}
one = (refl, tt)

abbrev two : Holds × (Holds × Unit {0})
two = (refl, one)

pub nodes-Objects : Objects nodes
nodes-Objects =
    Objects-of_Distinct nodes two (two, (one, tt)) ((refl, two), (one, tt)) (two, (one, tt))
      (((inr (inl refl), inr (inl refl)), tt), (tt, tt))

pub input-Names : Names inputs_of nodes
unfolding program
input-Names = Names-of_Distinct inputs_of nodes two two ((refl, two), (one, tt))

pub output-Names : Names outputs_of nodes
unfolding program
output-Names = Names-of_Distinct outputs_of nodes two two (two, (one, tt))

abbrev pub built : Connections
built = record {
  forward =
      record {
        source = record { node = obs; idx = 0 };
        targets = record { node = policy; idx = 0 } ∷ [];
      }
      ∷ [];
  feedback =
      record {
        source = record { node = obs; idx = 1 };
        targets = record { node = obs; idx = 1 } ∷ [];
      }
      ∷ record {
        source = record { node = policy; idx = 0 };
        targets = record { node = obs; idx = 2 } ∷ [];
      }
      ∷ [];
}

build_connections-nodes : build_connections nodes ≡ ok built
unfolding program
build_connections-nodes = refl

build_connections_sound_example :
    All (IsConnection nodes (IsFedForward nodes)) built.forward
    × All (IsConnection nodes (IsFedBack nodes)) built.feedback
build_connections_sound_example =
    build_connections_sound nodes nodes-Objects build_connections-nodes

Flows-index_lt_example : index_lt obs.node_index policy.node_index ≡ true
Flows-index_lt_example = Flows-index_lt nodes nodes-Objects build_connections-nodes (
    along
      (record {
        source = record { node = obs; idx = 0 };
        targets = record { node = policy; idx = 0 } ∷ [];
      })
      (record { node = policy; idx = 0 }) (inl refl) (inl refl) refl refl)

forward_acyclic_example : ¬ Flows built.forward obs obs
forward_acyclic_example = forward_acyclic nodes nodes-Objects build_connections-nodes obs

abbrev buckets : Buckets
buckets = record {
  forward =
      (
        (1, some "features"),
        record {
          source = record { node = obs; idx = 0 };
          targets = record { node = policy; idx = 0 } ∷ [];
        },
      )
      ∷ [];
  feedback =
      (
        (1, some "h_out"),
        record {
          source = record { node = obs; idx = 1 };
          targets = record { node = obs; idx = 1 } ∷ [];
        },
      )
      ∷ (
        (2, some "action"),
        record {
          source = record { node = policy; idx = 0 };
          targets = record { node = obs; idx = 2 } ∷ [];
        },
      )
      ∷ [];
}

build_buckets-nodes : build_buckets nodes ≡ ok buckets
unfolding program
build_buckets-nodes = refl

build_buckets_exact_example :
    (targets_at (2, some "action") buckets.forward
      ≡ fed_in nodes (state_ids (values nodes)) true (2, some "action") (values nodes))
    × (targets_at (2, some "action") buckets.feedback
        ≡ states_in (2, some "action") (values nodes)
          ++ fed_in nodes (state_ids (values nodes)) false (2, some "action") (values nodes))
build_buckets_exact_example = build_buckets_exact nodes (2, some "action") build_buckets-nodes

build_connections_accepts_example :
    (AllSingle nodes × ((r : Connections) × (build_connections nodes ≡ ok r)))
    ⊎ ((¬ AllSingle nodes) × (build_connections nodes ≡ err exception))
build_connections_accepts_example = build_connections_accepts nodes

compile_graph_io_external_example :
    (io : GraphIo) × (compile_graph_io nodes built.forward built.feedback ≡ ok io)
    × AreExternal inputs_of nodes (connected_inputs built) io.graph_inputs
    × AreExternal outputs_of nodes (connected_outputs built) io.graph_outputs
compile_graph_io_external_example =
    compile_graph_io_external nodes nodes-Objects input-Names output-Names build_connections-nodes

validate_connections-ok_iff_example :
    (validate_connections built.forward ≡ ok tt) ↔ All IsCompatible built.forward
validate_connections-ok_iff_example = validate_connections-ok_iff built.forward

abbrev pub accepted_graph : LeappGraph
accepted_graph = record {
  connections = built;
  io = record { graph_inputs = "obs/x" ∷ []; graph_outputs = [] };
}

pub init-nodes : init nodes ≡ ok accepted_graph
unfolding program
init-nodes = refl

validate_connections-nodes : validate_connections built.forward ≡ ok tt
unfolding program
validate_connections-nodes = refl

group_by_node_fields_example :
    fields_at "obs"
      (group_by_node (map port_of (("obs", "x") ∷ ("policy", "a") ∷ ("obs", "y/z") ∷ [])))
    ≡ fields_of "obs" (("obs", "x") ∷ ("policy", "a") ∷ ("obs", "y/z") ∷ [])
unfolding program
group_by_node_fields_example =
    group_by_node_fields "obs" (("obs", "x") ∷ ("policy", "a") ∷ ("obs", "y/z") ∷ [])
      (refl, (refl, (refl, tt)))

feedback_ports : traverse source_port built.feedback ≡ ok ("obs/h_out" ∷ "policy/action" ∷ [])
unfolding program
feedback_ports = refl

feedback_flow :
    finalize_connections built.feedback
    ≡ ok (("obs/h_out", "obs/h" ∷ []) ∷ ("policy/action", "obs/last" ∷ []) ∷ [])
unfolding program
feedback_flow = refl

finalize_connections-IsListed_example :
    IsListed (("obs/h_out", "obs/h" ∷ []) ∷ ("policy/action", "obs/last" ∷ []) ∷ []) (record {
      source = record { node = policy; idx = 0 };
      targets = record { node = obs; idx = 2 } ∷ [];
    })
finalize_connections-IsListed_example =
    finalize_connections-IsListed built.feedback
      (record {
        source = record { node = policy; idx = 0 };
        targets = record { node = obs; idx = 2 } ∷ [];
      })
      feedback_ports two feedback_flow (inr (inl refl))
