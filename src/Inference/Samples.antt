-- ===== src/Inference/Samples.antt =====
-- A bundle of two nodes on a small runtime: a tensor is a shape, a data type and one number.
-- What the engine makes of it, and each property at it.
use leapp.Common.{
  ℕ, suc, ◌+◌, String, string_eq, nat_eq, pair_eq, ◌≡◌, refl, some, List, [], ◌∷◌, Bool, true,
  false, ◌==◌, Dict, get, put, upsert, keys, contains, All, Distinct, if◌then◌else◌, or_else,
}
use leapp.Common.Result.{ok, traverse}
use leapp.Common.Text.{has_slash, port_key, split_first, split_pair}
use leapp.Compat.{validate_edge}
use leapp.Inference.{
  Outcome, single, several, Runtime, TensorInfo, NodeManager, Managers, Buffers, Routes, peek,
  store,
}
use leapp.Inference.Run.{
  only_output, call, handed, deliver, route, read_inputs, run_node, run_nodes, set_inputs,
  run_policy, names_of,
}
use leapp.Inference.Run.Writes.{routed}
use leapp.Inference.Run.Feeds.{fed_by, fed_slots, Unfed}
use leapp.Inference.Run.Effect.{Ran}
use leapp.Inference.Run.Delivery.{
  run_nodes_delivers, other_key, CrossesStep, StepParts, feedback_next_step,
}
use leapp.Inference.Routing.{
  Pipeline, merge_flow, all_flows, split_key, organize, described, find_dtype, map_to_torch_dtype,
  out_slot, add_route, mock_from, preallocate, route_outputs, route_all_outputs,
  validate_output_routing, validate_targets, validate_flows, Ready, create_inference_graph,
}
use leapp.Inference.Routing.Progress.{IsReady}
use leapp.Inference.Routing.Keeps.{IsKept}
use leapp.Inference.Routing.Runs.{IsRunnable, IsAddressed}
use leapp.Inference.Routing.Steps.{
  created, stepped, create_inference_graph-IsReady, every_step_runs,
}

record Sample : Type 0 where
  shape : List ℕ
  dtype : String
  datum : ℕ

abbrev scalar : ℕ → Sample
scalar n = record { shape = 6 ∷ []; dtype = "float32"; datum = n }

abbrev total : List Sample → ℕ
total [] = 0
total (t ∷ ts) = t.datum + total ts

-- "obs" answers with the sum of its inputs and the sum increased by one, "policy" with the sum.
abbrev models : String → List Sample → Outcome Sample
models name inputs =
    if name == "obs"
    then several (scalar (total inputs) ∷ scalar (suc (total inputs)) ∷ [])
    else single (scalar (total inputs))

abbrev rt : Runtime
rt = record {
  Tensor = Sample;
  Dtype = String;
  dtype_eq = string_eq;
  clone = λ t. t;
  unstack = λ t. [];
  zeros = λ shape dtype. record { shape = shape; dtype = dtype; datum = 0 };
  shape_of = λ t. t.shape;
  dtype_of = λ t. t.dtype;
  torch_dtypes = ("float32", "float32") ∷ [];
  forward = models;
}

abbrev info : String → TensorInfo
info name = record { name = name; shape = 6 ∷ []; dtype = "float32" }

abbrev obs : NodeManager
obs = record {
  name = "obs";
  inputs = info "x" ∷ info "h" ∷ info "last" ∷ [];
  outputs = info "features" ∷ info "h_out" ∷ [];
}

abbrev policy : NodeManager
policy = record { name = "policy"; inputs = info "features" ∷ []; outputs = info "action" ∷ [] }

abbrev nodes : Managers
nodes = ("obs", obs) ∷ ("policy", policy) ∷ []

abbrev pipeline : Pipeline
pipeline = record {
  data_flow = ("obs/features", "policy/features" ∷ []) ∷ [];
  feedback_flow = ("obs/h_out", "obs/h" ∷ []) ∷ ("policy/action", "obs/last" ∷ []) ∷ [];
  inputs = ("obs", "x" ∷ []) ∷ [];
  outputs = ("policy", "action" ∷ []) ∷ [];
}

program : Unit {0}
unfolding has_slash get upsert put peek store split_pair only_output call handed deliver route
    read_inputs run_node run_nodes set_inputs run_policy routed fed_by fed_slots merge_flow
    all_flows split_key organize described find_dtype map_to_torch_dtype add_route mock_from
    preallocate route_outputs route_all_outputs validate_output_routing validate_targets
    validate_flows create_inference_graph validate_edge traverse port_key split_first
program = tt

abbrev routes : Routes
routes =
    ("obs", ("features", ("policy", "features") ∷ []) ∷ ("h_out", ("obs", "h") ∷ []) ∷ [])
    ∷ ("policy", ("action", ("obs", "last") ∷ ("==out==", "policy/action") ∷ []) ∷ [])
    ∷ []

-- The buffers, with what "obs" reads as its state and as the last action, what "policy" reads,
-- the provided input, and the final output.
abbrev buffers : ℕ → ℕ → ℕ → ℕ → ℕ → Buffers Sample
buffers x h last features action =
    ("obs", ("x", scalar x) ∷ ("h", scalar h) ∷ ("last", scalar last) ∷ [])
    ∷ ("policy", ("features", scalar features) ∷ [])
    ∷ ("==out==", ("policy/action", scalar action) ∷ [])
    ∷ []

abbrev start : Ready rt
start = record { routes = routes; values = buffers 0 0 0 0 0 }

create_inference_graph-nodes : create_inference_graph rt nodes pipeline ≡ ok start
unfolding program
create_inference_graph-nodes = refl

abbrev Holds : Type 0
Holds = ◌≡◌ {A = Bool} false false

abbrev one : Holds × Unit {0}
one = (refl, tt)

Distinct-nodes : Distinct (keys nodes)
Distinct-nodes = (refl, (refl, tt))

runnable : All (λ e. IsRunnable rt e.1) nodes
runnable = (
  record {
    first = info "features";
    rest = info "h_out" ∷ [];
    some_output = refl;
    answers = λ inputs counted. (λ is_one. absurd (cc is_one), λ many. refl);
  },
  (
    record {
      first = info "action";
      rest = [];
      some_output = refl;
      answers = λ inputs counted. (λ is_one. λ e. cc e, λ many. absurd (many refl));
    },
    tt,
  ),
)

-- The first step on the input 5, from zeros: the sum 5 reaches "policy", the state is 6, and the
-- action 5 is fed back and is the output.
first_step :
    run_policy rt routes nodes (("obs/x", scalar 5) ∷ []) start.values
    ≡ ok (buffers 5 6 5 5 5, ("policy/action", scalar 5) ∷ [])
unfolding program
first_step = refl

addressed : All (IsAddressed rt start.values) (("obs/x", scalar 1) ∷ [])
unfolding program
addressed = ((("obs", "x"), refl, (scalar 0, refl)), tt)

create_inference_graph-IsReady_example :
    IsReady rt nodes routes start.values × IsKept rt out_slot start.values
create_inference_graph-IsReady_example =
    create_inference_graph-IsReady rt nodes pipeline create_inference_graph-nodes Distinct-nodes
      refl

every_step_runs_example :
    (after : Buffers Sample) × (outputs : Dict String Sample) × (run_policy rt routes nodes
        (("obs/x", scalar 1) ∷ [])
        (buffers 5 6 5 5 5)
      ≡ ok (after, outputs))
every_step_runs_example =
    every_step_runs rt nodes pipeline (("obs/x", scalar 1) ∷ []) create_inference_graph-nodes
      Distinct-nodes refl runnable
      (stepped (("obs/x", scalar 5) ∷ []) start.values (buffers 5 6 5 5 5)
        (("policy/action", scalar 5) ∷ []) created first_step)
      addressed

-- The loop over the nodes from a provided 5.
one_loop :
    run_nodes rt routes (("obs", obs) ∷ ("policy", policy) ∷ []) (buffers 5 0 0 0 0)
    ≡ ok (buffers 5 6 5 5 5)
unfolding program
one_loop = refl

policy-Unfed : Unfed routes ("policy", "features") (("policy", policy) ∷ [])
unfolding program
policy-Unfed = one

obs-feeds : contains (fed_slots routes ("obs", obs)) ("policy", "features") ≡ true
unfolding program
obs-feeds = refl

obs-Distinct : Distinct (fed_slots routes ("obs", obs))
unfolding program
obs-Distinct = (refl, (refl, tt))

run_nodes_delivers_example :
    (before after : Buffers Sample) × (run_nodes rt routes [] (buffers 5 0 0 0 0) ≡ ok before)
    × ((r : Ran rt routes "obs" obs before after) × ((v : Sample) × (get
              ("policy", "features")
              (routed rt (or_else (get "obs" routes) []) (names_of obs.outputs) r.outputs)
            ≡ some v)
          × (peek ("policy", "features") (buffers 5 6 5 5 5) ≡ some v)))
run_nodes_delivers_example =
    run_nodes_delivers rt routes [] (("policy", policy) ∷ []) "obs" obs (buffers 5 0 0 0 0)
      ("policy", "features") obs-Distinct obs-feeds policy-Unfed one_loop

second_step :
    run_policy rt routes nodes (("obs/x", scalar 1) ∷ []) (buffers 5 6 5 5 5)
    ≡ ok (buffers 1 13 12 12 12, ("policy/action", scalar 12) ∷ [])
unfolding program
second_step = refl

other_x :
    All
      (λ (e : String × Sample). other_key rt routes ("obs", "h") (split_pair e.0) ≡ true)
      (("obs/x", scalar 1) ∷ [])
unfolding program
other_x = (refl, tt)

h_fed : contains (fed_slots routes ("obs", obs)) ("obs", "h") ≡ true
unfolding program
h_fed = refl

h_Unfed : Unfed routes ("obs", "h") (("policy", policy) ∷ [])
unfolding program
h_Unfed = one

-- The state that "obs" produces in the first step is its second input in the second.
feedback_next_step_example :
    (one : StepParts rt routes [] "obs" obs
      (("policy", policy) ∷ [])
      (("obs/x", scalar 5) ∷ [])
      start.values
      (buffers 5 6 5 5 5))
    × (two : StepParts rt routes [] "obs" obs
        (("policy", policy) ∷ [])
        (("obs/x", scalar 1) ∷ [])
        (buffers 5 6 5 5 5)
        (buffers 1 13 12 12 12))
    × CrossesStep ("obs", "h") 1 one two
feedback_next_step_example =
    feedback_next_step rt routes nodes [] (("policy", policy) ∷ []) [] (("policy", policy) ∷ [])
      "obs" "obs" obs obs "h" 1 (("obs/x", scalar 5) ∷ []) (("obs/x", scalar 1) ∷ []) start.values
      refl refl obs-Distinct h_fed h_Unfed tt refl other_x first_step second_step
