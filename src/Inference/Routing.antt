-- ===== src/Inference/Routing.antt =====
-- `_validate_and_create_inference_graph`, `_validate_output_routing`,
-- `_validate_connection_compatibility`, `_prepopulate_feedback_inputs` and the key properties of
-- leapp/inference_manager.py, and `map_to_torch_dtype` of leapp/utils/dtype.py.
pub mod Slots
pub mod Buffered
pub mod Progress
pub mod Runs
pub mod Keeps
pub mod Steps
use leapp.Common.{
  ℕ, String, string_eq, Option, none, some, List, [], ◌∷◌, ◌++◌, Bool, true, false, not, ◌==◌, map,
  Dict, get, put, upsert, keys, contains, if◌then◌else◌, or_else, nat_eq, Eq,
}
use leapp.Common.Result.{Result, ok, err, value_error, key_error, ◌>>=◌, ◌>>◌, raise_if, traverse}
use leapp.Common.Text.{port_key, split_pair}
use leapp.Compat.{validate_edge}
use leapp.Inference.{
  Runtime, TensorInfo, NodeManager, Managers, Slot, Buffers, Routes, found, peek, store,
}
use leapp.Inference.Run.{names_of}

abbrev pub Flow : Type 0
Flow = Dict String (List String)

-- The `pipeline` section of a description.
pub record Pipeline : Type 0 where
  pub data_flow : Flow
  pub feedback_flow : Flow
  pub inputs : Flow
  pub outputs : Flow

-- `all_flows[source] = all_flows[source] + targets`, or `targets` for a new source.
unfoldable pub merge_flow : Flow → Flow → Flow
merge_flow [] all = all
merge_flow ((source, targets) ∷ flow) all =
    merge_flow flow (upsert source [] (λ old. old ++ targets) all)

-- `all_flows`: both flows, with the targets of a shared source joined.
unfoldable pub all_flows : Pipeline → Flow
all_flows p = merge_flow p.feedback_flow (merge_flow p.data_flow [])

-- `node, field = key.split("/")`
abbrev pub pair_of : Option Slot → Result Slot
pair_of none = err value_error
pair_of (some pair) = ok pair

unfoldable pub split_key : String → Result Slot
split_key key = pair_of (split_pair key)

-- The loop that organises the connections.
unfoldable pub organize : Flow → Routes → Result Routes
organize [] routes = ok routes
organize ((source, targets) ∷ flow) routes = do
  from ← split_key source
  slots ← traverse split_key targets
  organize flow (upsert from.0 [] (put from.1 slots) routes)

-- `{desc["name"]: desc for desc in descriptions}`
unfoldable pub described : List TensorInfo → Dict String TensorInfo → Dict String TensorInfo
described [] found = found
described (t ∷ infos) found = described infos (put t.name t found)

-- `codec.dtype_to_name.items()` is searched for the name.
unfoldable pub find_dtype : {D : Type 0} → List (D × String) → String → Option D
find_dtype [] name = none
find_dtype ((d, n) ∷ table) name = if n == name then some d else find_dtype table name

abbrev pub supported : {D : Type 0} → Option D → Result D
supported none = err value_error
supported (some d) = ok d

-- `map_to_torch_dtype`, for the table of the registered torch codec.
unfoldable pub map_to_torch_dtype : {D : Type 0} → List (D × String) → String → Result D
map_to_torch_dtype table name = supported (find_dtype table name)

-- The slot of final outputs.
abbrev pub out_slot : String
out_slot = "==out=="

-- Appends a target to the targets of an output.
unfoldable pub add_route : String → String → Slot → Routes → Routes
add_route node output slot = upsert node [] (upsert output [] (λ old. old ++ slot ∷ []))

module _ (rt : Runtime) where
  open rt use {Tensor, Dtype, dtype_eq, zeros, shape_of, dtype_of, torch_dtypes}

  -- `mock_input`: zeros under the names of a node's inputs.
  unfoldable pub mock_from : List TensorInfo → Dict String Tensor → Result (Dict String Tensor)
  mock_from [] buffer = ok buffer
  mock_from (t ∷ infos) buffer = do
    dtype ← map_to_torch_dtype torch_dtypes t.dtype
    mock_from infos (put t.name (zeros t.shape dtype) buffer)

  -- The preallocation of every node's inputs.
  unfoldable pub preallocate : Managers → Buffers Tensor → Result (Buffers Tensor)
  preallocate [] values = ok values
  preallocate ((name, node) ∷ nodes) values = do
    buffer ← mock_from node.inputs []
    preallocate nodes (put name buffer values)

  -- The loop over a node's final outputs: the routes and `output_cache`.
  unfoldable pub route_outputs :
      String
      → Dict String TensorInfo
      → List String
      → Routes × Dict String Tensor
      → Result (Routes × Dict String Tensor)
  route_outputs node descs [] state = ok state
  route_outputs node descs (o ∷ outputs) (routes, cache) = do
    desc ← found (get o descs)
    dtype ← map_to_torch_dtype torch_dtypes desc.dtype
    let key = port_key node o
    route_outputs node descs outputs
        (add_route node o (out_slot, key) routes, put key (zeros desc.shape dtype) cache)

  -- The loop over `pipeline["outputs"]`.
  unfoldable pub route_all_outputs :
      Managers → Flow → Routes × Dict String Tensor → Result (Routes × Dict String Tensor)
  route_all_outputs nodes [] state = ok state
  route_all_outputs nodes ((name, outputs) ∷ rest) state = do
    node ← found (get name nodes)
    state' ← route_outputs name (described node.outputs []) outputs state
    route_all_outputs nodes rest state'

  -- `_validate_output_routing`
  abbrev pub is_missing : Dict String (List Slot) → List String → Bool
  is_missing routes [] = false
  is_missing routes (o ∷ outputs) =
      if contains (keys routes) o then is_missing routes outputs else true

  unfoldable pub validate_output_routing : Managers → Routes → Result (Unit {0})
  validate_output_routing [] routes = ok tt
  validate_output_routing ((name, node) ∷ nodes) routes = do
    raise_if (is_missing (or_else (get name routes) []) (names_of node.outputs)) value_error
    validate_output_routing nodes routes

  abbrev pub first_named : String → List TensorInfo → Option TensorInfo
  first_named o [] = none
  first_named o (t ∷ infos) = if t.name == o then some t else first_named o infos

  abbrev pub present : {A : Type 0} → Option A → Result A
  present none = err value_error
  present (some a) = ok a

  -- The loop over the targets of a source of `_validate_connection_compatibility`.
  unfoldable pub validate_targets :
      Managers → Buffers Tensor → List ℕ → Dtype → List String → Result (Unit {0})
  validate_targets nodes values shape dtype [] = ok tt
  validate_targets nodes values shape dtype (target ∷ targets) = do
    slot ← split_key target
    _ ← present (get slot.0 nodes)
    tensor ← present (peek slot values)
    validate_edge ⦃e = dtype_eq⦄ shape dtype (shape_of tensor) (dtype_of tensor)
    validate_targets nodes values shape dtype targets

  -- `_validate_connection_compatibility`
  unfoldable pub validate_flows : Managers → Buffers Tensor → Flow → Result (Unit {0})
  validate_flows nodes values [] = ok tt
  validate_flows nodes values ((source, targets) ∷ flow) = do
    from ← split_key source
    node ← present (get from.0 nodes)
    desc ← present (first_named from.1 node.outputs)
    dtype ← map_to_torch_dtype torch_dtypes desc.dtype
    validate_targets nodes values desc.shape dtype targets
    validate_flows nodes values flow

  -- The attributes that the inference graph is made of.
  pub record Ready : Type 0 where
    pub routes : Routes
    pub values : Buffers Tensor

  -- `_validate_and_create_inference_graph`
  unfoldable pub create_inference_graph : Managers → Pipeline → Result Ready
  create_inference_graph nodes p = do
    values ← preallocate nodes []
    routes ← organize (all_flows p) []
    (routes', cache) ← route_all_outputs nodes p.outputs (routes, [])
    let values' = put out_slot cache values
    validate_output_routing nodes routes'
    validate_flows nodes values' (all_flows p)
    ok (record { routes = routes'; values = values' })

  -- `_prepopulate_feedback_inputs`, for the tensors that the file holds. The move of a tensor to
  -- the device of the buffer keeps its contents.
  unfoldable pub prepopulate : List (String × Tensor) → Buffers Tensor → Result (Buffers Tensor)
  prepopulate [] values = ok values
  prepopulate ((key, v) ∷ rest) values = do
    slot ← split_key key
    _ ← present (peek slot values)
    values' ← store slot v values
    prepopulate rest values'

-- `inputs`, and `outputs`: "node/field" for each field of each node.
unfoldable pub node_keys : String → List String → List String
node_keys node [] = []
node_keys node (i ∷ fields) = port_key node i ∷ node_keys node fields

unfoldable pub flow_keys : Flow → List String
flow_keys [] = []
flow_keys ((node, fields) ∷ flow) = node_keys node fields ++ flow_keys flow

-- `feedback_inputs`
unfoldable pub feedback_inputs : Flow → List String
feedback_inputs [] = []
feedback_inputs ((source, targets) ∷ flow) = targets ++ feedback_inputs flow
