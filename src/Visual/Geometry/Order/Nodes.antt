-- ===== src/Visual/Geometry/Order/Nodes.antt =====
-- The nodes before and after `_order_ports_for_geometry` (geometry.py).
use leapp.Common.{
  ℕ, nat_eq, Eq, String, string_eq, ◌≡◌, ◌↔◌, inl, inr, refl, sym, ap, subst, ◌∙◌, List, [], ◌∷◌,
  ◌++◌, map, Dict, keys, In, In-map, In-append_left, In-append_right, In-append_split, All,
}
use leapp.Common.Result.{ok, traverse}
use leapp.Visual.{VisualPort, VisualNode, VisualGraph}
use leapp.Visual.Drawn.{Things, Joins}
use leapp.Visual.Tied.Terminal.{all_ports, ids_of}
use leapp.Visual.Floats.{Floats, Point}
use leapp.Visual.Geometry.Order.{original_port_indices, reorder_node, order_ports_for_geometry}
use leapp.Visual.Geometry.Order.Total.{reorder_connected_ports-SamePorts}
use leapp.Visual.Geometry.Order.Slots.{SamePorts, original_port_indices-keys, collect_keys_total}

-- The node with its inputs in another order.
abbrev pub Reordered : VisualNode → VisualNode → Type 0
Reordered n m = (m.id ≡ n.id) × SamePorts n.inputs m.inputs × (m.outputs ≡ n.outputs)

abbrev pub AllReordered : List VisualNode → List VisualNode → Type 0
AllReordered [] [] = Unit {0}
AllReordered [] (m ∷ ms) = [] ≡ m ∷ ms
AllReordered (n ∷ ns) [] = [] ≡ n ∷ ns
AllReordered (n ∷ ns) (m ∷ ms) = Reordered n m × AllReordered ns ms

abbrev pub node_ids : List VisualNode → List String
node_ids ns = map (λ (n : VisualNode). n.id) ns

pub node_ids-reordered : (ns ms : List VisualNode) → AllReordered ns ms → node_ids ms ≡ node_ids ns
node_ids-reordered [] [] h = refl
node_ids-reordered [] (m ∷ ms) h = cc h
node_ids-reordered (n ∷ ns) [] h = cc h
node_ids-reordered (n ∷ ns) (m ∷ ms) h =
    ap (λ i. i ∷ node_ids ms) h.0.0 ∙ ap (λ is. n.id ∷ is) (node_ids-reordered ns ms h.1)

node_ports :
    (n m : VisualNode) (p : VisualPort)
    → Reordered n m
    → In p (n.inputs ++ n.outputs) ↔ In p (m.inputs ++ m.outputs)
node_ports n m p (same_id, inputs, outputs) = (
  (λ h. elim (In-append_split p n.inputs n.outputs h) [
    | inl a ↦ In-append_left p m.inputs m.outputs ((inputs p).0 a)
    | inr b ↦ In-append_right p m.inputs m.outputs (subst (In p) (sym outputs) b)
  ]),
  (λ h. elim (In-append_split p m.inputs m.outputs h) [
    | inl a ↦ In-append_left p n.inputs n.outputs ((inputs p).1 a)
    | inr b ↦ In-append_right p n.inputs n.outputs (subst (In p) outputs b)
  ]),
)

pub all_ports-reordered :
    (ns ms : List VisualNode) → AllReordered ns ms → SamePorts (all_ports ns) (all_ports ms)
all_ports-reordered [] [] h p = ((λ m. m), (λ m. m))
all_ports-reordered [] (m ∷ ms) h p = cc h
all_ports-reordered (n ∷ ns) [] h p = cc h
all_ports-reordered (n ∷ ns) (m ∷ ms) h p =
    let rest = all_ports-reordered ns ms h.1 p in
    let here = node_ports n m p h.0 in
    (
      (λ k. elim (In-append_split p (n.inputs ++ n.outputs) (all_ports ns) k) [
        | inl a ↦ In-append_left p (m.inputs ++ m.outputs) (all_ports ms) (here.0 a)
        | inr b ↦ In-append_right p (m.inputs ++ m.outputs) (all_ports ms) (rest.0 b)
      ]),
      (λ k. elim (In-append_split p (m.inputs ++ m.outputs) (all_ports ms) k) [
        | inl a ↦ In-append_left p (n.inputs ++ n.outputs) (all_ports ns) (here.1 a)
        | inr b ↦ In-append_right p (n.inputs ++ n.outputs) (all_ports ns) (rest.1 b)
      ]),
    )

module _ {R : Type 0} ⦃F : Floats R⦄ ⦃e : Eq R⦄ where
  module _ (order_keys : Dict String (List (R × R))) (indices : Dict String ℕ) where
    reorder_node-Reordered :
        (n : VisualNode)
        → ((p : VisualPort) → In p n.inputs → In p.id (keys indices))
        → (m : VisualNode) × (reorder_node order_keys indices n ≡ ok m) × Reordered n m
    unfolding reorder_node
    reorder_node-Reordered n indexed =
        let (inputs, made, same) =
          reorder_connected_ports-SamePorts order_keys indices n.inputs indexed in
        (
          record {
            id = n.id;
            title = n.title;
            backend = n.backend;
            inputs = inputs;
            outputs = n.outputs;
          },
          rw made refl,
          (refl, same, refl),
        )

    reorder_nodes-AllReordered :
        (ns : List VisualNode)
        → ((p : VisualPort) → In p (all_ports ns) → In p.id (keys indices))
        → (ms : List VisualNode) × (traverse (reorder_node order_keys indices) ns ≡ ok ms)
          × AllReordered ns ms
    unfolding traverse
    reorder_nodes-AllReordered [] indexed = ([], refl, tt)
    reorder_nodes-AllReordered (n ∷ ns) indexed =
        let (m, at, same) = reorder_node-Reordered n (λ p mp. indexed p (
          In-append_left p (n.inputs ++ n.outputs) (all_ports ns)
            (In-append_left p n.inputs n.outputs mp))) in
        let (ms, made, rest) =
          reorder_nodes-AllReordered ns
            (λ p mp. indexed p (In-append_right p (n.inputs ++ n.outputs) (all_ports ns) mp)) in
        (m ∷ ms, rw (at, made) refl, (same, rest))

  pub order_ports_for_geometry-AllReordered :
      (g : VisualGraph) (centers : Dict String (Point R)) (things : Things)
      → things.ports ≡ ids_of (all_ports g.nodes)
      → ((s : String) → In s things.visuals → In s (keys centers))
      → All (Joins things) g.edges
      → (ms : List VisualNode) × (order_ports_for_geometry g centers
          ≡ ok (record { nodes = ms; terminals = g.terminals; edges = g.edges }))
        × AllReordered g.nodes ms
  unfolding order_ports_for_geometry
  order_ports_for_geometry-AllReordered g centers things ports centered joins =
      let indices = original_port_indices g.nodes [] in
      let indexed : (s : String) → In s (ids_of (all_ports g.nodes)) → In s (keys indices) =
        λ s m. original_port_indices-keys g.nodes [] s (inl m) in
      let (order_keys, collected) =
        collect_keys_total centers indices things centered (λ s m. indexed s (subst (In s) ports m))
          g.edges [] joins in
      let (ms, made, same) =
        reorder_nodes-AllReordered order_keys indices g.nodes
          (λ p m. indexed p.id (In-map (λ (p : VisualPort). p.id) p (all_ports g.nodes) m)) in
      (ms, rw (collected, made) refl, same)
