-- ===== src/Trace/Updates.antt =====
-- `update_state` of leapp/export_manager.py, with the checks of what it is given.
pub mod Accepted
mod Samples
use leapp.Common.{
  ℕ, nat_eq, String, string_eq, Option, none, some, List, [], ◌∷◌, Bool, true, false, not, ◌==◌,
  if◌then◌else◌, contains, Dict, get, put, values,
}
use leapp.Common.Result.{Result, ok, err, exception, type_error, ◌>>=◌, ◌>>◌, raise_if}
use leapp.Registry.Reentry.{Registered, Fresh, Cache, visit_all}
use leapp.Trace.{Carrier, TracedNode, is_tracing, update_states}

-- A tensor that a call is given, with what `describe_io` reads of it.
pub record Tensor : Type 0 where
  pub carrier : Carrier
  pub source_node : Option String
  pub port : Option String
  pub facts : Dict String ℕ
  pub value : ℕ

-- A tensor, one that the node with the name traces, or a value of another type.
pub data Given : Type 0 where
  raw : (tensor : Tensor) → Given
  traced : (context : String) → (tensor : Tensor) → Given
  untraceable : Given

-- A `TracedTensorNode` with the descriptions of its outputs.
pub record TracingNode : Type 0 where
  pub name : String
  pub trace : TracedNode
  pub outputs : List Registered
  pub cache : Cache

pub data Entry : Type 0 where
  tracing_node : (node : TracingNode) → Entry
  method_node : Entry

-- `_interpret_graph` and `nodes`.
pub record Api : Type 0 where
  pub interpret : Bool
  pub nodes : Dict String Entry

-- `_passthrough_dict_values`
pub data Passed : Type 0 where
  single : (value : Given) → Passed
  several : (all : List Given) → Passed

unfoldable pub passthrough : List Given → Passed
passthrough [] = several []
passthrough (v ∷ []) = single v
passthrough (v ∷ w ∷ vs) = several (v ∷ w ∷ vs)

-- `_validate_flat_state_payload`
unfoldable pub validate_flat : Dict String Given → Result (Unit {0})
validate_flat [] = ok tt
validate_flat ((k, raw t) ∷ tensors) = validate_flat tensors
validate_flat ((k, traced c t) ∷ tensors) = validate_flat tensors
validate_flat ((k, untraceable) ∷ tensors) = err type_error

unfoldable pub all_traced : Dict String Given → Bool
all_traced [] = true
all_traced ((k, raw t) ∷ tensors) = false
all_traced ((k, traced c t) ∷ tensors) = all_traced tensors
all_traced ((k, untraceable) ∷ tensors) = false

-- `context_names`: each once.
unfoldable pub context_names : Dict String Given → List String
context_names [] = []
context_names ((k, raw t) ∷ tensors) = context_names tensors
context_names ((k, traced c t) ∷ tensors) =
    let rest = context_names tensors in if contains rest c then rest else c ∷ rest
context_names ((k, untraceable) ∷ tensors) = context_names tensors

abbrev pub is_only : String → List String → Bool
is_only name [] = false
is_only name (c ∷ []) = c == name
is_only name (c ∷ d ∷ cs) = false

-- `_validate_initial_traced_payload`
unfoldable pub validate_initial : String → Dict String Given → Result (Unit {0})
validate_initial name tensors = do
  raise_if (not (all_traced tensors)) exception
  raise_if (not (is_only name (context_names tensors))) exception

abbrev pub carriers : Dict String Given → List (String × Carrier)
carriers [] = []
carriers ((k, raw t) ∷ tensors) = (k, t.carrier) ∷ carriers tensors
carriers ((k, traced c t) ∷ tensors) = (k, t.carrier) ∷ carriers tensors
carriers ((k, untraceable) ∷ tensors) = carriers tensors

abbrev fresh : String → Tensor → Fresh
fresh k t = record {
  name_str = k;
  source_node = t.source_node;
  port = t.port;
  facts = t.facts;
  value = t.value;
}

abbrev pub fresh_all : Dict String Given → List Fresh
fresh_all [] = []
fresh_all ((k, raw t) ∷ tensors) = fresh k t ∷ fresh_all tensors
fresh_all ((k, traced c t) ∷ tensors) = fresh k t ∷ fresh_all tensors
fresh_all ((k, untraceable) ∷ tensors) = fresh_all tensors

abbrev pub with_node : String → TracingNode → Api → Api
with_node key n a = record a { nodes = put key (tracing_node n) a.nodes }

abbrev pub Call : Type 0
Call = Api × Result Passed

-- What follows a check is skipped where it raises.
abbrev pub checked : Api → Result (Unit {0}) → Call → Call
checked a (err e) call = (a, err e)
checked a (ok u) call = call

abbrev pub updated : Api → String → TracingNode → Dict String Given → Call
updated a key n tensors =
    let after = update_states (carriers tensors) n.trace.states in
    (
      with_node key (record n { trace = record n.trace { states = after.0 } }) a,
      after.1 >>= λ _. ok (passthrough (values tensors)),
    )

-- While the node traces.
unfoldable pub first_pass : Api → String → TracingNode → Dict String Given → Call
first_pass a key n tensors = checked a (validate_initial n.name tensors) (updated a key n tensors)

-- `reentry_validate_state_update`, once the node is compiled.
unfoldable pub later_pass : Api → String → TracingNode → Dict String Given → Call
later_pass a key n tensors =
    let seen = visit_all false n.cache n.trace.trimmed_inputs (fresh_all tensors) n.outputs in
    (
      with_node key (record n { outputs = seen.0 }) a,
      seen.1 >>= λ _. ok (passthrough (values tensors)),
    )

unfoldable pub on_node : Api → String → TracingNode → Dict String Given → Call
on_node a key n tensors =
    checked a (validate_flat tensors)
      (if is_tracing n.trace then first_pass a key n tensors else later_pass a key n tensors)

unfoldable pub on_entry : Api → String → Option Entry → Dict String Given → Call
on_entry a key none tensors = (a, err exception)
on_entry a key (some method_node) tensors = (a, err exception)
on_entry a key (some (tracing_node n)) tensors = on_node a key n tensors

-- While no session runs, a value is passed through.
abbrev pub outside : Api → Dict String Given → Call
outside a tensors = (a, validate_flat tensors >>= λ _. ok (passthrough (values tensors)))

-- `update_state`: the state that a refusal leaves is returned beside it.
unfoldable pub annotate_update_state : Api → String → Dict String Given → Call
annotate_update_state a key tensors =
    if a.interpret then on_entry a key (get key a.nodes) tensors else outside a tensors
