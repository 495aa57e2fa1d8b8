-- ===== src/Export.antt =====
-- The nodes of an export as `ExportManager` of leapp/export_manager.py keeps them: creation,
-- completion in execution order, and the check before a compilation. The index of a node and its
-- setter are those of leapp/leapp_graph/leapp_node.py.
pub mod Order
pub mod Readiness
mod Samples
use leapp.Common.{
  ℕ, zero, suc, String, string_eq, Option, none, some, List, [], ◌∷◌, Bool, true, false, ◌||◌, Dict,
  get, put, has, keys, contains, if◌then◌else◌,
}
use leapp.Common.Result.{Result, ok, err, exception, key_error, ◌>>=◌, ◌>>◌, raise_if}

-- The index is `none` for UNSET_NODE_INDEX. Whether a node has discovered warp segments that are
-- not captured yet is a property of its class.
pub record TraceNode : Type 0 where
  pub node_index : Option ℕ
  pub pending_warp : Bool

pub record Manager : Type 0 where
  pub nodes : Dict String TraceNode
  pub next_index : ℕ
  pub dry_run : Bool
  pub non_traced : List String

-- `set_dry_run_and_non_traced`, for a collection of names.
unfoldable pub set_dry_run_and_non_traced : Bool → List String → Manager → Manager
set_dry_run_and_non_traced dry names m = record m { dry_run = dry; non_traced = names }

-- `is_dry_run`
unfoldable pub is_dry_run : Option String → Manager → Bool
is_dry_run none m = m.dry_run
is_dry_run (some name) m = m.dry_run || contains m.non_traced name

-- `reset_nodes`
unfoldable pub reset_nodes : Manager → Manager
reset_nodes m = record m { nodes = []; next_index = 0 }

abbrev pub is_set : Option ℕ → Bool
is_set none = false
is_set (some i) = true

-- The setter of `node_index`.
unfoldable pub set_node_index : ℕ → TraceNode → Result TraceNode
set_node_index i n = do
  raise_if (is_set n.node_index) exception
  ok (record n { node_index = some i })

abbrev pub node_at : Option TraceNode → Result TraceNode
node_at none = err key_error
node_at (some n) = ok n

-- `_assign_completion_index`, for the node that the manager has under a name.
unfoldable pub assign_completion_index : String → Manager → Result Manager
assign_completion_index name m = do
  n ← node_at (get name m.nodes)
  if is_set n.node_index then ok m else do
    n' ← set_node_index m.next_index n
    ok (record m { nodes = put name n' m.nodes; next_index = suc m.next_index })

-- `_setup_new_node`, with the node that the class makes: its index is not set.
unfoldable pub setup_new_node : String → Bool → Manager → Result Manager
setup_new_node name pending m = do
  raise_if (has name m.nodes) exception
  ok (record m { nodes = put name (record { node_index = none; pending_warp = pending }) m.nodes })

-- The segments of a node are discovered, or captured.
unfoldable pub mark_pending : String → Bool → Manager → Result Manager
mark_pending name pending m = do
  n ← node_at (get name m.nodes)
  ok (record m { nodes = put name (record n { pending_warp = pending }) m.nodes })

-- The list comprehensions `incomplete_nodes` and `pending_warp_nodes`.
abbrev pub incomplete_nodes : Dict String TraceNode → List String
incomplete_nodes [] = []
incomplete_nodes ((name, n) ∷ nodes) =
    if is_set n.node_index then incomplete_nodes nodes else name ∷ incomplete_nodes nodes

abbrev pub pending_warp_nodes : Dict String TraceNode → List String
pending_warp_nodes [] = []
pending_warp_nodes ((name, n) ∷ nodes) =
    if n.pending_warp then name ∷ pending_warp_nodes nodes else pending_warp_nodes nodes

abbrev pub is_empty : List String → Bool
is_empty [] = true
is_empty (x ∷ xs) = false

-- `validate_nodes_ready_for_compile`
unfoldable pub validate_nodes_ready_for_compile : Manager → Result (Unit {0})
validate_nodes_ready_for_compile m = do
  raise_if (if is_empty (incomplete_nodes m.nodes) then false else true) exception
  raise_if (if is_empty (pending_warp_nodes m.nodes) then false else true) exception
