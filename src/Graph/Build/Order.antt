-- ===== src/Graph/Build/Order.antt =====
-- Data flow along forward connections follows the order in which nodes complete.
use leapp.Common.{ℕ, ◌≡◌, Option, List, In, All-at, true, false, arith}
use leapp.Common.Result.{ok}
use leapp.Graph.{Node, Nodes, Endpoint, Connection, index_lt}
use leapp.Graph.Build.{Connections, build_connections}
use leapp.Graph.Build.Sound.{Objects, IsFedForward, IsConnection, build_connections_sound}

-- `Flows cs m n`: data leaves `m` and reaches `n` along one or more of the connections.
pub data Flows (cs : List Connection) : Node → Node → Type 0 where
  along :
      {m n : Node} (c : Connection) (t : Endpoint)
      → In c cs
      → In t c.targets
      → c.source.node ≡ m
      → t.node ≡ n
      → Flows cs m n
  through : {m k n : Node} → Flows cs m k → Flows cs k n → Flows cs m n

index_lt_trans :
    (i j k : Option ℕ) → index_lt i j ≡ true → index_lt j k ≡ true → index_lt i k ≡ true
unfolding index_lt
index_lt_trans i j k p q = ground arith

index_lt_irrefl : (i : Option ℕ) → index_lt i i ≡ false
unfolding index_lt
index_lt_irrefl i = ground arith

module _ (nodes : Nodes) (objects : Objects nodes) {r : Connections}
    (built : build_connections nodes ≡ ok r) where
  -- Where data flows forward from one node to another, the first completed before the second.
  pub Flows-index_lt :
      {m n : Node} → Flows r.forward m n → index_lt m.node_index n.node_index ≡ true
  Flows-index_lt (along c t mc mt source_eq target_eq) =
      let justified =
        All-at (IsConnection nodes (IsFedForward nodes)) c r.forward
          (build_connections_sound nodes objects built).0 mc in
      let fed = All-at (IsFedForward nodes c.source) t c.targets justified.fed mt in
      rw (← source_eq, ← target_eq) fed.before
  Flows-index_lt (through {m} {k} {n} f g) =
      index_lt_trans m.node_index k.node_index n.node_index (Flows-index_lt f) (Flows-index_lt g)

  -- Where the nodes are consistent objects (told apart by identity, the outputs of a node with
  -- ports of their own, the halves of its state pairs its own descriptions): the forward
  -- connections that `_build_connections` returns have no cycle, so no data flows along one or more
  -- of them from a node back to itself.
  pub forward_acyclic : (n : Node) → ¬ Flows r.forward n n
  forward_acyclic n f = cc (Flows-index_lt f, index_lt_irrefl n.node_index)
