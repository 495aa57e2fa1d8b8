-- ===== src/Trace/Samples.antt =====
-- A node with two states and two segments, and each property at it.
use leapp.Common.{
  ℕ, nat_eq, String, string_eq, ◌≡◌, ◌↔◌, refl, none, some, [], ◌∷◌, ◌++◌, true, false, not, ◌&&◌,
  get, put, upsert, Dict, In, values,
}
use leapp.Common.Result.{ok, err, exception, runtime_error}
use leapp.Compat.{shape_eq}
use leapp.Structure.{decimal}
use leapp.Graph.{Desc}
use leapp.Trace.Pairs.{IsPaired, In-state_feedback_pairs_iff}
use leapp.Trace.{
  Carrier, StateInfo, TracedNode, new_node, reset_trace_state, prepare_warp_capture,
  acquire_warp_segment, add_warp_segment, pop_first, complete_warp_segment, update_state,
  update_states, active_states, state_outputs, get_state_outputs, state_feedback_pairs,
}
use leapp.Trace.Segments.{
  idents, was_made, was_added, was_captured, was_prepared, was_completed, Reachable-idents,
  complete_warp_segment-ok_iff,
}
use leapp.Trace.States.{latest, get_state_outputs-latest}

program : Unit {0}
unfolding get put upsert decimal reset_trace_state prepare_warp_capture acquire_warp_segment
    add_warp_segment pop_first complete_warp_segment update_state update_states active_states
    state_outputs get_state_outputs state_feedback_pairs
program = tt

abbrev carrier : ℕ → Carrier
carrier i = record { ident = i; shape = 4 ∷ []; dtype = "float32" }

abbrev info : ℕ → StateInfo
info i = record { input = carrier i; input_desc = none; output = none; output_desc = none }

abbrev declared : Dict String StateInfo
declared = ("h", info 1) ∷ ("c", info 2) ∷ []

abbrev node : TracedNode
node = record (new_node true) { states = declared }

-- "c" is not updated, so it is dropped.
feeds_back_h :
    (get_state_outputs (record node {
      states = (update_states (("h", carrier 7) ∷ ("h", carrier 8) ∷ []) declared).0;
    })).1
    ≡ (("h", carrier 8) ∷ [])
unfolding program
feeds_back_h = refl

refuses_unknown : update_state "x" (carrier 7) declared ≡ err exception
unfolding program
refuses_unknown = refl

updates_accepted : (update_states (("h", carrier 7) ∷ ("h", carrier 8) ∷ []) declared).1 ≡ ok tt
unfolding program
updates_accepted = refl

h_declared : get "h" declared ≡ some (info 1)
unfolding program
h_declared = refl

get_state_outputs-latest_example :
    get "h"
      (get_state_outputs (record node {
        states = (update_states (("h", carrier 7) ∷ ("h", carrier 8) ∷ []) node.states).0;
      })).1
    ≡ latest "h" (("h", carrier 7) ∷ ("h", carrier 8) ∷ []) none
get_state_outputs-latest_example =
    get_state_outputs-latest (("h", carrier 7) ∷ ("h", carrier 8) ∷ []) node "h" (info 1)
      (refl, (refl, tt)) h_declared updates_accepted

abbrev two_found : TracedNode
two_found = add_warp_segment 12 (add_warp_segment 11 (new_node true))

abbrev prepared : TracedNode
prepared = prepare_warp_capture (record two_found { model_captured = true })

abbrev one_left : TracedNode
one_left = record prepared { pending = 12 ∷ [] }

captures_first : complete_warp_segment 11 true prepared ≡ ok one_left
unfolding program
captures_first = refl

refuses_second : complete_warp_segment 12 true prepared ≡ err runtime_error
unfolding program
refuses_second = refl

Reachable-idents_example : idents one_left.discovered ≡ (11 ∷ []) ++ one_left.pending
Reachable-idents_example = Reachable-idents (11 ∷ []) one_left (
    was_completed 11 true [] prepared one_left
      (was_prepared [] (record two_found { model_captured = true })
        (was_captured [] two_found (
          was_added 12 [] (add_warp_segment 11 (new_node true))
            (was_added 11 [] (new_node true) (was_made true)))))
      captures_first)

complete_warp_segment-ok_iff_example :
    ((m : TracedNode) × (complete_warp_segment 11 true prepared ≡ ok m))
    ↔ ((acquire_warp_segment prepared ≡ some 11) × ((prepared.exports_model && not true) ≡ false))
complete_warp_segment-ok_iff_example = complete_warp_segment-ok_iff 11 true prepared

abbrev half : ℕ → String → Desc
half i name = record {
  ident = i;
  name = name;
  port = none;
  source_node = none;
  shape = 4 ∷ [];
  dtype = "float32";
  value = i;
}

abbrev described : Dict String StateInfo
described =
    ("h", record (info 1) { input_desc = some (half 1 "h"); output_desc = some (half 2 "h") })
    ∷ ("c", record (info 2) { input_desc = some (half 3 "c") })
    ∷ []

In-state_feedback_pairs_iff_example :
    In (half 1 "h", half 2 "h") (state_feedback_pairs described)
    ↔ ((i : StateInfo) × In i (values described) × IsPaired (half 1 "h", half 2 "h") i)
In-state_feedback_pairs_iff_example = In-state_feedback_pairs_iff (half 1 "h", half 2 "h") described
