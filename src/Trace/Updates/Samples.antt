-- ===== src/Trace/Updates/Samples.antt =====
-- Calls of `update_state` for a node with one state, and each property at one.
use leapp.Common.{
  ℕ, nat_eq, String, string_eq, ◌≡◌, refl, none, some, [], ◌∷◌, true, get, put, upsert, Dict, All,
  Bool-cases, ◌==◌, inl, inr, subst,
}
use leapp.Common.Result.{ok, err, exception, type_error}
use leapp.Compat.{shape_eq}
use leapp.Trace.{
  Carrier, StateInfo, new_node, update_state, update_states, active_states, state_outputs,
  get_state_outputs,
}
use leapp.Trace.States.{IsLike, latest}
use leapp.Trace.Updates.{
  Tensor, Given, raw, traced, untraceable, TracingNode, tracing_node, Api, single, passthrough,
  validate_flat, all_traced, context_names, validate_initial, carriers, first_pass, later_pass,
  on_node, on_entry, annotate_update_state,
}
use leapp.Trace.Updates.Accepted.{
  IsTracedBy, Matches, annotate_update_state-Matches, annotate_update_state-latest,
}

program : Unit {0}
unfolding get put upsert update_state update_states active_states state_outputs get_state_outputs
    passthrough validate_flat all_traced context_names validate_initial first_pass later_pass
    on_node on_entry annotate_update_state
program = tt

abbrev carrier : ℕ → Carrier
carrier i = record { ident = i; shape = 4 ∷ []; dtype = "float32" }

abbrev tensor : ℕ → Tensor
tensor i = record { carrier = carrier i; source_node = none; port = none; facts = []; value = i }

abbrev info : StateInfo
info = record { input = carrier 1; input_desc = none; output = none; output_desc = none }

abbrev policy : TracingNode
policy = record {
  name = "policy";
  trace = record (new_node true) { states = ("h", info) ∷ [] };
  outputs = [];
  cache = record { write_idx = 0; max_cached_io = 2 };
}

abbrev api : Api
api = record { interpret = true; nodes = ("policy", tracing_node policy) ∷ [] }

abbrev update : Dict String Given
update = ("h", traced "policy" (tensor 7)) ∷ []

accepts : (annotate_update_state api "policy" update).1 ≡ ok (single (traced "policy" (tensor 7)))
unfolding program
accepts = refl

refuses_raw : (annotate_update_state api "policy" (("h", raw (tensor 7)) ∷ [])).1 ≡ err exception
unfolding program
refuses_raw = refl

refuses_other_node :
    (annotate_update_state api "policy" (("h", traced "obs" (tensor 7)) ∷ [])).1 ≡ err exception
unfolding program
refuses_other_node = refl

refuses_nested : (annotate_update_state api "policy" (("h", untraceable) ∷ [])).1 ≡ err type_error
unfolding program
refuses_nested = refl

-- An empty update is passed through outside of a session and refused in one.
refuses_empty : (annotate_update_state api "policy" []).1 ≡ err exception
unfolding program
refuses_empty = refl

h_declared : get "h" policy.trace.states ≡ some info
unfolding program
h_declared = refl

policy_found : get "policy" api.nodes ≡ some (tracing_node policy)
unfolding program
policy_found = refl

api-Matches : Matches api
unfolding program
api-Matches = (
  λ name i h. elim (Bool-cases ("h" == name)) [
    | inl same ↦
        let e : info ≡ i = cc (rw same at h) in
        subst (λ (s : StateInfo). IsLike s.input s.output) e tt
    | inr other ↦ absurd (cc (rw other at h))
  ],
  tt,
)

annotate_update_state-latest_example :
    (m : TracingNode) × (get "policy" (annotate_update_state api "policy" update).0.nodes
      ≡ some (tracing_node m))
    × (get "h" (get_state_outputs m.trace).1 ≡ latest "h" (carriers update) none)
    × All (IsTracedBy "policy") update
annotate_update_state-latest_example =
    annotate_update_state-latest api "policy" policy update (single (traced "policy" (tensor 7)))
      "h" info refl policy_found refl (refl, tt) h_declared accepts

annotate_update_state-Matches_example : Matches (annotate_update_state api "policy" update).0
annotate_update_state-Matches_example =
    annotate_update_state-Matches api "policy" update api-Matches
