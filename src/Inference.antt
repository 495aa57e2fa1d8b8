-- ===== src/Inference.antt =====
-- The objects of leapp/inference_manager.py: what a bundle's description holds, the loaded nodes,
-- and the buffers. The tensor library and the model runtimes are a parameter.
mod Samples
pub mod Run
pub mod Routing
use leapp.Common.{ℕ, String, string_eq, Option, none, some, List, Dict, get, put, ◌≡◌, Eq}
use leapp.Common.Result.{Result, ok, err, key_error}

-- What a compiled model returns: one tensor, or a tuple of them.
pub data Outcome (T : Type 0) : Type 0 where
  single : T → Outcome T
  several : List T → Outcome T

-- Torch and the model runtimes. `unstack` lists what iterating over a tensor gives, and the
-- length of that list is Python's `len`. `forward` calls the compiled model of a node.
pub record Runtime : Type 1 where
  pub Tensor : Type 0
  pub Dtype : Type 0
  pub dtype_eq : Eq Dtype
  pub clone : Tensor → Tensor
  pub unstack : Tensor → List Tensor
  pub zeros : List ℕ → Dtype → Tensor
  pub shape_of : Tensor → List ℕ
  pub dtype_of : Tensor → Dtype
  pub torch_dtypes : List (Dtype × String)
  pub forward : String → List Tensor → Outcome Tensor

-- One entry of a model's `inputs` or `outputs`.
pub record TensorInfo : Type 0 where
  pub name : String
  pub shape : List ℕ
  pub dtype : String

-- `NodeManager`: the loaded model is the runtime's, under the node's name.
pub record NodeManager : Type 0 where
  pub name : String
  pub inputs : List TensorInfo
  pub outputs : List TensorInfo

abbrev pub Managers : Type 0
Managers = Dict String NodeManager

-- A buffer: the node that reads it and its input, or "==out==" and the name of a final output.
abbrev pub Slot : Type 0
Slot = String × String

-- `value_dict`
abbrev pub Buffers : Type 0 → Type 0
Buffers T = Dict String (Dict String T)

-- `organized_pipeline_connections`: node, output, targets.
abbrev pub Routes : Type 0
Routes = Dict String (Dict String (List Slot))

-- `d[k]`
abbrev pub found {ℓ} : {A : Type ℓ} → Option A → Result A
found none = err key_error
found (some a) = ok a

module _ {T : Type 0} where
  abbrev pub inner : String → Option (Dict String T) → Option T
  inner i none = none
  inner i (some buffer) = get i buffer

  -- What a buffer holds.
  unfoldable pub peek : Slot → Buffers T → Option T
  peek (n, i) values = inner i (get n values)

  abbrev pub stored : Slot → T → Buffers T → Option (Dict String T) → Result (Buffers T)
  stored (n, i) v values none = err key_error
  stored (n, i) v values (some buffer) = ok (put n (put i v buffer) values)

  -- `value_dict[n][i] = v`
  unfoldable pub store : Slot → T → Buffers T → Result (Buffers T)
  store (n, i) v values = stored (n, i) v values (get n values)
