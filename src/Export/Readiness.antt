-- ===== src/Export/Readiness.antt =====
-- When the export may be compiled.
use leapp.Common.{String, ◌≡◌, ◌↔◌, [], ◌∷◌, true, false, Dict, values, All, arith}
use leapp.Common.Result.{ok}
use leapp.Export.{
  TraceNode, Manager, is_set, incomplete_nodes, pending_warp_nodes, is_empty,
  validate_nodes_ready_for_compile,
}

-- The node has completed, and no segment waits to be captured.
abbrev pub IsComplete : TraceNode → Type 0
IsComplete n = (is_set n.node_index ≡ true) × (n.pending_warp ≡ false)

abbrev IsQuiet : Dict String TraceNode → Type 0
IsQuiet nodes =
    (is_empty (incomplete_nodes nodes) ≡ true) × (is_empty (pending_warp_nodes nodes) ≡ true)

IsQuiet-iff : (nodes : Dict String TraceNode) → IsQuiet nodes ↔ All IsComplete (values nodes)
IsQuiet-iff [] = ground arith
IsQuiet-iff ((name, n) ∷ nodes) = ground (arith, IsQuiet-iff nodes)

-- The check passes exactly if every node has completed and has no segments to be captured.
pub validate_nodes_ready_for_compile-ok_iff :
    (m : Manager) → (validate_nodes_ready_for_compile m ≡ ok tt) ↔ All IsComplete (values m.nodes)
unfolding validate_nodes_ready_for_compile
validate_nodes_ready_for_compile-ok_iff m = ground (arith, IsQuiet-iff m.nodes)
