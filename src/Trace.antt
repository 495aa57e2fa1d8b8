-- ===== src/Trace.antt =====
-- The state of `TracedTensorNode` of leapp/leapp_graph/traced_node.py that decides what is fed back
-- and what is captured: the declared states with their updates, and the warp segments.
pub mod Segments
pub mod States
pub mod Pairs
pub mod Updates
mod Samples
use leapp.Common.{
  ℕ, String, string_eq, nat_eq, Option, none, some, List, [], ◌∷◌, ◌++◌, Bool, true, false, not,
  ◌&&◌, ◌||◌, ◌==◌, Dict, get, put, has, length, map, if◌then◌else◌,
}
use leapp.Common.Result.{
  Result, ok, err, exception, runtime_error, key_error, ◌>>=◌, ◌>>◌, raise_if,
}
use leapp.Common.Text.{concat}
use leapp.Compat.{shape_eq}
use leapp.Structure.{decimal}
use leapp.Graph.{Desc}

-- A segment is told by its identity; the name of its runner is given when it is discovered.
pub record Segment : Type 0 where
  pub ident : ℕ
  pub runner_name : String

-- A traced value: its identity, and the shape and the data type of the tensor in it.
pub record Carrier : Type 0 where
  pub ident : ℕ
  pub shape : List ℕ
  pub dtype : String

-- An entry of `_state_tensors`.
pub record StateInfo : Type 0 where
  pub input : Carrier
  pub input_desc : Option Desc
  pub output : Option Carrier
  pub output_desc : Option Desc

-- `pending` is the queue of the identities of segments that are not captured yet.
pub record TracedNode : Type 0 where
  pub exports_model : Bool
  pub model_captured : Bool
  pub capture_active : Bool
  pub discovered : List Segment
  pub pending : List ℕ
  pub next_buffer_idx : ℕ
  pub trimmed_inputs : List String
  pub states : Dict String StateInfo

-- `__init__`, for a node that exports a model or not.
abbrev pub new_node : Bool → TracedNode
new_node exports = record {
  exports_model = exports;
  model_captured = false;
  capture_active = false;
  discovered = [];
  pending = [];
  next_buffer_idx = 0;
  trimmed_inputs = [];
  states = [];
}

-- `is_tracing`, `has_pending_warp_segments`
abbrev pub is_tracing : TracedNode → Bool
is_tracing n = not n.model_captured

abbrev pub has_any : List ℕ → Bool
has_any [] = false
has_any (i ∷ is) = true

abbrev pub has_pending_warp_segments : TracedNode → Bool
has_pending_warp_segments n = has_any n.pending

-- `reset_trace_state`, for the state that is modelled.
unfoldable pub reset_trace_state : TracedNode → TracedNode
reset_trace_state n = record n {
  trimmed_inputs = [];
  next_buffer_idx = 0;
  model_captured = false;
  states = [];
}

-- `prepare_warp_capture`
unfoldable pub prepare_warp_capture : TracedNode → TracedNode
prepare_warp_capture n =
    if not (has_pending_warp_segments n) || is_tracing n
    then n
    else reset_trace_state (record n { capture_active = true })

-- `acquire_warp_segment`
unfoldable pub acquire_warp_segment : TracedNode → Option ℕ
acquire_warp_segment n = elim n.pending [ [] ↦ none | i ∷ is ↦ some i ]

-- `add_warp_segment`
unfoldable pub add_warp_segment : ℕ → TracedNode → TracedNode
add_warp_segment ident n = record n {
  discovered =
      n.discovered
      ++ record {
        ident = ident;
        runner_name = concat "warp_segment_" (decimal (length n.discovered));
      }
        ∷ [];
  pending = n.pending ++ ident ∷ [];
}

-- The rest of the queue, where the segment is its first.
unfoldable pub pop_first : ℕ → List ℕ → Result (List ℕ)
pop_first ident [] = err runtime_error
pop_first ident (i ∷ is) = do raise_if (not (i == ident)) runtime_error; ok is

-- `complete_warp_segment`, for a segment that has its APIC graph or not.
unfoldable pub complete_warp_segment : ℕ → Bool → TracedNode → Result TracedNode
complete_warp_segment ident has_graph n = do
  rest ← pop_first ident n.pending
  raise_if (n.exports_model && not has_graph) runtime_error
  ok (record n { pending = rest })

abbrev pub state_at : Option StateInfo → Result StateInfo
state_at none = err exception
state_at (some i) = ok i

-- One turn of the loop of `update_state_tensors`.
unfoldable pub update_state :
    String → Carrier → Dict String StateInfo → Result (Dict String StateInfo)
update_state name value states = do
  info ← state_at (get name states)
  raise_if (not (info.input.shape == value.shape)) exception
  raise_if (not (info.input.dtype == value.dtype)) exception
  ok (put name (record info { output = some value }) states)

-- The loop: the states that a refusal leaves are returned beside it.
unfoldable pub update_states :
    List (String × Carrier) → Dict String StateInfo → Dict String StateInfo × Result (Unit {0})
update_states [] states = (states, ok tt)
update_states ((name, value) ∷ values) states = elim (update_state name value states) [
  | err e ↦ (states, err e)
  | ok states' ↦ update_states values states'
]

-- The states of `get_state_outputs` that are kept, and their outputs.
unfoldable pub active_states : Dict String StateInfo → Dict String StateInfo
active_states [] = []
active_states ((name, info) ∷ states) =
    let rest = active_states states in
    elim info.output [ none ↦ rest | some v ↦ (name, info) ∷ rest ]

unfoldable pub state_outputs : Dict String StateInfo → Dict String Carrier
state_outputs [] = []
state_outputs ((name, info) ∷ states) =
    let rest = state_outputs states in elim info.output [ none ↦ rest | some v ↦ (name, v) ∷ rest ]

-- `get_state_outputs`: the states without an update are dropped.
unfoldable pub get_state_outputs : TracedNode → TracedNode × Dict String Carrier
get_state_outputs n =
    let active = active_states n.states in (record n { states = active }, state_outputs active)

-- `self._state_tensors[name]["output_desc"] = …`, once the output has its description.
unfoldable pub describe_output : String → Desc → TracedNode → TracedNode
describe_output name d n = elim (get name n.states) [
  | none ↦ n
  | some info ↦ record n { states = put name (record info { output_desc = some d }) n.states }
]

-- `state_feedback_pairs`
abbrev pub pair_of : StateInfo → List (Desc × Desc)
pair_of info = elim info.input_desc [
  | none ↦ []
  | some i ↦ elim info.output_desc [ none ↦ [] | some o ↦ (i, o) ∷ [] ]
]

unfoldable pub state_feedback_pairs : Dict String StateInfo → List (Desc × Desc)
state_feedback_pairs [] = []
state_feedback_pairs ((name, info) ∷ states) = pair_of info ++ state_feedback_pairs states
