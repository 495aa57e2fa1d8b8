-- ===== src/Inference/Run.antt =====
-- `NodeManager.__call__` and `InferenceManager.run_policy` of leapp/inference_manager.py.
pub mod Writes
pub mod Feeds
pub mod Effect
pub mod Delivery
use leapp.Common.{
  ℕ, zero, suc, String, string_eq, nat_eq, Option, none, some, List, [], ◌∷◌, Bool, not, length,
  ◌==◌, map, Dict, get, if◌then◌else◌, or_else,
}
use leapp.Common.Result.{Result, ok, err, value_error, index_error, ◌>>=◌, ◌>>◌, raise_if, traverse}
use leapp.Common.Text.{split_pair}
use leapp.Inference.{
  Outcome, single, several, Runtime, TensorInfo, NodeManager, Managers, Slot, Buffers, Routes,
  found, peek, store,
}

abbrev pub names_of : List TensorInfo → List String
names_of [] = []
names_of (t ∷ infos) = t.name ∷ names_of infos

module _ (rt : Runtime) where
  open rt use {Tensor, clone, unstack, forward}

  -- `outputs[0]` of a tuple, or the tensor itself; then `run_policy` wraps it in a tuple.
  unfoldable pub only_output : Outcome Tensor → Result (List Tensor)
  only_output (single t) = ok (t ∷ [])
  only_output (several []) = err index_error
  only_output (several (t ∷ rest)) = ok (t ∷ [])

  -- A tuple, or a tensor that is iterated over as one.
  abbrev pub parts : Outcome Tensor → List Tensor
  parts (single t) = unstack t
  parts (several ts) = ts

  -- `NodeManager.__call__`, and the single output made a tuple as `run_policy` does.
  unfoldable pub call : NodeManager → List Tensor → Result (List Tensor)
  call node inputs = do
    raise_if (not (length inputs == length node.inputs)) value_error
    let outputs = forward node.name inputs
    if length node.outputs == 1
        then only_output outputs
        else raise_if (not (length (parts outputs) == length node.outputs)) value_error
          >> ok (parts outputs)

  -- The value for the consumer at a place of the list of targets: the first one gets the tensor.
  unfoldable pub handed : ℕ → Tensor → Tensor
  handed zero v = v
  handed (suc i) v = clone v

  -- `for i, (target_node_name, target_input_name) in enumerate(targets)`
  unfoldable pub deliver : ℕ → List Slot → Tensor → Buffers Tensor → Result (Buffers Tensor)
  deliver i [] v values = ok values
  deliver i (slot ∷ targets) v values = do
    values' ← store slot (handed i v) values
    deliver (suc i) targets v values'

  -- `for output_name, output_value in zip(output_order, outputs)`
  unfoldable pub route :
      Dict String (List Slot) → List String → List Tensor → Buffers Tensor → Result (Buffers Tensor)
  route routes [] outputs values = ok values
  route routes (o ∷ order) [] values = ok values
  route routes (o ∷ order) (v ∷ outputs) values = do
    targets ← found (get o routes)
    values' ← deliver 0 targets v values
    route routes order outputs values'

  -- `[self.value_dict[node_name][name] for name in node.input_names]`
  unfoldable pub read_inputs : String → List String → Buffers Tensor → Result (List Tensor)
  read_inputs node names values = traverse (λ i. found (peek (node, i) values)) names

  -- The body of the loop over the nodes.
  unfoldable pub run_node : Routes → String × NodeManager → Buffers Tensor → Result (Buffers Tensor)
  run_node routes (name, node) values = do
    inputs ← read_inputs name (names_of node.inputs) values
    outputs ← call node inputs
    targets ← found (get name routes)
    route targets (names_of node.outputs) outputs values

  unfoldable pub run_nodes : Routes → Managers → Buffers Tensor → Result (Buffers Tensor)
  run_nodes routes [] values = ok values
  run_nodes routes (n ∷ nodes) values = do
    values' ← run_node routes n values
    run_nodes routes nodes values'

  abbrev pub slot_of : Option Slot → Result Slot
  slot_of none = err value_error
  slot_of (some slot) = ok slot

  -- The loop over the provided inputs.
  unfoldable pub set_inputs : List (String × Tensor) → Buffers Tensor → Result (Buffers Tensor)
  set_inputs [] values = ok values
  set_inputs ((key, v) ∷ inputs) values = do
    slot ← slot_of (split_pair key)
    values' ← store slot v values
    set_inputs inputs values'

  -- `run_policy`: the new buffers, and the dictionary of final outputs.
  unfoldable pub run_policy :
      Routes
      → Managers
      → List (String × Tensor)
      → Buffers Tensor
      → Result (Buffers Tensor × Dict String Tensor)
  run_policy routes nodes inputs values = do
    values' ← set_inputs inputs values
    values'' ← run_nodes routes nodes values'
    outputs ← found (get "==out==" values'')
    ok (values'', outputs)
