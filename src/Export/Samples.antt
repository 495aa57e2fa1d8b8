-- ===== src/Export/Samples.antt =====
-- An export of two nodes, and each property at it.
use leapp.Common.{
  ℕ, String, string_eq, ◌≡◌, refl, ◌<◌, Option, none, some, List, [], ◌∷◌, false, get, put, upsert,
}
use leapp.Common.Result.{ok, err, exception}
use leapp.Export.{
  TraceNode, Manager, reset_nodes, set_node_index, assign_completion_index, setup_new_node,
  validate_nodes_ready_for_compile,
}
use leapp.Export.Order.{
  index_at, IsOrdered, Reachable, was_reset, was_set_up, was_completed, Reachable-IsOrdered,
  completion_order,
}

program : Unit {0}
unfolding get put upsert reset_nodes set_node_index assign_completion_index setup_new_node
    validate_nodes_ready_for_compile
program = tt

abbrev manager : List (String × TraceNode) → ℕ → Manager
manager nodes next = record { nodes = nodes; next_index = next; dry_run = false; non_traced = [] }

abbrev node : Option ℕ → TraceNode
node i = record { node_index = i; pending_warp = false }

abbrev opened : Manager
opened = manager (("a", node none) ∷ []) 0

abbrev both_open : Manager
both_open = manager (("a", node none) ∷ ("b", node none) ∷ []) 0

abbrev b_done : Manager
b_done = manager (("a", node none) ∷ ("b", node (some 0)) ∷ []) 1

abbrev both_done : Manager
both_done = manager (("a", node (some 1)) ∷ ("b", node (some 0)) ∷ []) 2

is_reset : reset_nodes (manager [] 7) ≡ manager [] 0
unfolding program
is_reset = refl

start-Reachable : Reachable (manager [] 0)
unfolding program
start-Reachable = was_reset (manager [] 7)

opens : setup_new_node "a" false (manager [] 0) ≡ ok opened
unfolding program
opens = refl

opens_b : setup_new_node "b" false opened ≡ ok both_open
unfolding program
opens_b = refl

refuses_a_again : setup_new_node "a" false opened ≡ err exception
unfolding program
refuses_a_again = refl

completes_b : assign_completion_index "b" both_open ≡ ok b_done
unfolding program
completes_b = refl

completes_a : assign_completion_index "a" b_done ≡ ok both_done
unfolding program
completes_a = refl

refuses_a_open : validate_nodes_ready_for_compile b_done ≡ err exception
unfolding program
refuses_a_open = refl

b_done-Reachable : Reachable b_done
b_done-Reachable =
    was_completed "b" both_open b_done
      (was_set_up "b" false opened both_open
        (was_set_up "a" false (manager [] 0) opened start-Reachable opens) opens_b)
      completes_b

unset_a : index_at "a" b_done ≡ none
unfolding program
unset_a = refl

set_b : index_at "b" b_done ≡ some 0
unfolding program
set_b = refl

Reachable-IsOrdered_example : IsOrdered b_done
Reachable-IsOrdered_example = Reachable-IsOrdered b_done b_done-Reachable

completion_order_example :
    (j : ℕ) × (index_at "a" both_done ≡ some j) × (0 < j) × (index_at "b" both_done ≡ some 0)
completion_order_example =
    completion_order "a" "b" b_done b_done-Reachable completes_a unset_a set_b
