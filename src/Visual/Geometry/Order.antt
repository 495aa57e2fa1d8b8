-- ===== src/Visual/Geometry/Order.antt =====
-- geometry.py: `_order_ports_for_geometry`, which orders a node's connected inputs as their sources
-- lie in the layout.
pub mod Slots
pub mod Total
pub mod Nodes
use leapp.Common.{
  ℕ, suc, nat_eq, Eq, String, string_eq, Option, none, some, List, [], ◌∷◌, ◌++◌, map, Bool, true,
  false, ◌&&◌, ◌||◌, ◌==◌, ltb, if◌then◌else◌, length, Dict, has, put, upsert, sort_by, select,
}
use leapp.Common.Result.{Result, ok, ◌>>=◌, traverse}
use leapp.Visual.{
  EdgeKind, forward_edge, feedback_edge, graph_input_edge, graph_output_edge, VisualPort,
  VisualNode, VisualEdge, VisualGraph,
}
use leapp.Visual.Floats.{Floats, Point, look}

unfoldable pub index_ports : ℕ → List VisualPort → Dict String ℕ → Dict String ℕ
index_ports i [] indices = indices
index_ports i (p ∷ ps) indices = index_ports (suc i) ps (put p.id i indices)

-- `_collect_original_port_indices`
unfoldable pub original_port_indices : List VisualNode → Dict String ℕ → Dict String ℕ
original_port_indices [] indices = indices
original_port_indices (n ∷ ns) indices =
    original_port_indices ns (index_ports 0 n.outputs (index_ports 0 n.inputs indices))

abbrev pub between_nodes : EdgeKind → Bool
between_nodes forward_edge = true
between_nodes feedback_edge = true
between_nodes graph_input_edge = false
between_nodes graph_output_edge = false

module _ {R : Type 0} ⦃F : Floats R⦄ where
  abbrev pub sum_from : R → List R → R
  sum_from a [] = a
  sum_from a (b ∷ bs) = sum_from (F.add a b) bs

  -- `sum(xs) / len(xs)`
  abbrev pub mean : List R → R
  mean xs = F.div (sum_from (F.of_int 0) xs) (F.of_int (length xs))

  -- `_average_order_key`
  unfoldable pub average_order_key : List (R × R) → R × R
  average_order_key ks = (mean (map (λ (k : R × R). k.0) ks), mean (map (λ (k : R × R). k.1) ks))

  module _ (centers : Dict String (Point R)) (indices : Dict String ℕ) where
    -- `_connected_port_order_key`
    unfoldable pub connected_port_order_key : String → String → Result (R × R)
    connected_port_order_key visual port = do
      center ← look visual centers
      index ← look port indices
      ok (center.y, F.of_int index)

    abbrev pub add_key :
        VisualEdge
        → Option String
        → Option String
        → Dict String (List (R × R))
        → Result (Dict String (List (R × R)))
    add_key e (some source) (some target) collected = do
      key ← connected_port_order_key e.source_id source
      ok (upsert target [] (λ ks. ks ++ (key ∷ [])) collected)
    add_key e _ _ collected = ok collected

    unfoldable pub edge_keys :
        VisualEdge → Dict String (List (R × R)) → Result (Dict String (List (R × R)))
    edge_keys e collected =
        if between_nodes e.kind
        then add_key e e.source_port_id e.target_port_id collected
        else ok collected

    -- `input_order_keys` after the loop over the edges.
    unfoldable pub collect_keys :
        List VisualEdge → Dict String (List (R × R)) → Result (Dict String (List (R × R)))
    collect_keys [] collected = ok collected
    collect_keys (e ∷ es) collected = do more ← edge_keys e collected; collect_keys es more

  module _ (order_keys : Dict String (List (R × R))) where
    abbrev pub is_connected : VisualPort → Bool
    is_connected p = has p.id order_keys

    unfoldable pub port_order_key : Dict String ℕ → VisualPort → Result (((R × R) × ℕ) × VisualPort)
    port_order_key indices p = do
      ks ← look p.id order_keys
      index ← look p.id indices
      ok ((average_order_key ks, index), p)

    -- The sorted ports take the connected slots, in order.
    unfoldable pub fill_slots : List VisualPort → List VisualPort → List VisualPort
    fill_slots [] sorted = []
    fill_slots (p ∷ ps) [] = p ∷ ps
    fill_slots (p ∷ ps) (q ∷ qs) =
        let kept = fill_slots ps (q ∷ qs) in
        let filled = fill_slots ps qs in if is_connected p then q ∷ filled else p ∷ kept

  module _ ⦃e : Eq R⦄ where
    -- The order of Python's tuples.
    abbrev pub order_key_lt : ((R × R) × ℕ) × VisualPort → ((R × R) × ℕ) × VisualPort → Bool
    order_key_lt (((a, b), i), _) (((c, d), j), _) =
        F.lt a c || ((a == c) && (F.lt b d || ((b == d) && ltb i j)))

    abbrev pub sorted_ports : List (((R × R) × ℕ) × VisualPort) → List VisualPort
    sorted_ports keyed = map (λ (k : ((R × R) × ℕ) × VisualPort). k.1) (sort_by order_key_lt keyed)

    abbrev filled_with :
        Dict String (List (R × R))
        → List VisualPort
        → Result (List (((R × R) × ℕ) × VisualPort))
        → Result (List VisualPort)
    filled_with order_keys ps call = do
      keyed ← call
      ok (fill_slots order_keys ps (sorted_ports keyed))

    -- `_reorder_connected_ports`
    unfoldable pub reorder_connected_ports :
        Dict String (List (R × R)) → Dict String ℕ → List VisualPort → Result (List VisualPort)
    reorder_connected_ports order_keys indices ps =
        let connected = select (is_connected order_keys) ps in
        if ltb (length connected) 2
        then ok ps
        else filled_with order_keys ps (traverse (port_order_key order_keys indices) connected)

    unfoldable pub reorder_node :
        Dict String (List (R × R)) → Dict String ℕ → VisualNode → Result VisualNode
    reorder_node order_keys indices n = do
      inputs ← reorder_connected_ports order_keys indices n.inputs
      ok (record {
        id = n.id;
        title = n.title;
        backend = n.backend;
        inputs = inputs;
        outputs = n.outputs;
      })

    -- `_order_ports_for_geometry`
    unfoldable pub order_ports_for_geometry :
        VisualGraph → Dict String (Point R) → Result VisualGraph
    order_ports_for_geometry g centers = do
      order_keys ← collect_keys centers (original_port_indices g.nodes []) g.edges []
      nodes ← traverse (reorder_node order_keys (original_port_indices g.nodes [])) g.nodes
      ok (record { nodes = nodes; terminals = g.terminals; edges = g.edges })
