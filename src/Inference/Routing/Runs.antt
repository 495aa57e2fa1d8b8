-- ===== src/Inference/Routing/Runs.antt =====
-- A bundle that passes the checks of the constructor runs, step after step, without an error.
use leapp.Common.{
  String, string_eq, ◌≡◌, refl, ◌∙◌, some, List, [], ◌∷◌, All, All-at, All_of, In, inl, In-of_get,
}
use leapp.Common.Result.{ok}
use leapp.Common.Text.{split_pair}
use leapp.Inference.{Runtime, TensorInfo, NodeManager, Managers, Slot, Buffers, Routes, found, peek}
use leapp.Inference.Run.{names_of, read_inputs, run_node, run_nodes, set_inputs}
use leapp.Inference.Routing.Slots.{AllSlots, AllSlots-mono, IsStored}
use leapp.Inference.Routing.Buffered.{IsBuffered, IsRouted}
use leapp.Inference.Routing.Progress.{
  Answers, Extends, call_total, route_total, read_total, length-traverse, length-names_of,
  some_route, store_total, store-IsStored,
}

-- A model with an output, that answers as described.
pub record IsRunnable (rt : Runtime) (node : NodeManager) : Type 0 where
  pub first : TensorInfo
  pub rest : List TensorInfo
  pub some_output : node.outputs ≡ first ∷ rest
  pub answers : Answers rt node

module _ (rt : Runtime) where
  open rt use {Tensor}

  pub AllSlots-Extends :
      (routes : Routes) (before after : Buffers Tensor)
      → Extends rt before after
      → AllSlots (IsStored rt before) routes
      → AllSlots (IsStored rt after) routes
  AllSlots-Extends routes before after =
      AllSlots-mono rt (IsStored rt before) (IsStored rt after) routes

  pub All-IsBuffered-Extends :
      (nodes : Managers) (before after : Buffers Tensor)
      → Extends rt before after
      → All (IsBuffered rt before) nodes
      → All (IsBuffered rt after) nodes
  All-IsBuffered-Extends [] before after e b = tt
  All-IsBuffered-Extends ((name, node) ∷ nodes) before after e b =
      (λ i m. e (name, i) (b.0 i m), All-IsBuffered-Extends nodes before after e b.1)

  run_node_total :
      (routes : Routes) (name : String) (node : NodeManager) (values : Buffers Tensor)
      → AllSlots (IsStored rt values) routes
      → IsBuffered rt values (name, node)
      → IsRouted rt routes (name, node)
      → IsRunnable rt node
      → (after : Buffers Tensor) × (run_node rt routes (name, node) values ≡ ok after)
        × Extends rt values after
  unfolding run_node read_inputs
  run_node_total routes name node values a b has runnable =
      let (inputs, read) = read_total rt name node values b in
      let counted =
        length-traverse rt (λ i. found (peek (name, i) values)) (names_of node.inputs) read
        ∙ length-names_of rt node.inputs in
      let (outputs, called) = call_total rt node inputs runnable.answers counted in
      let first_named : In runnable.first.name (names_of node.outputs) =
        rw runnable.some_output (inl refl) in
      let (targets, there) = some_route rt routes name runnable.first.name (has _ first_named) in
      let all_targets =
        All-at (λ e. All (λ r. All (IsStored rt values) r.1) e.1) (name, targets) routes a
          (In-of_get name targets routes there) in
      let (after, ended, extends) =
        route_total rt targets (names_of node.outputs) outputs values all_targets
          (λ o m. rw there at (has o m)) in
      (after, rw (read, called, there) ended, extends)

  -- From buffers that serve the routes, the loop over the nodes ends, and no buffer is lost.
  pub run_nodes_total :
      (routes : Routes) (nodes : Managers) (values : Buffers Tensor)
      → AllSlots (IsStored rt values) routes
      → All (IsBuffered rt values) nodes
      → All (IsRouted rt routes) nodes
      → All (λ e. IsRunnable rt e.1) nodes
      → (after : Buffers Tensor) × (run_nodes rt routes nodes values ≡ ok after)
        × Extends rt values after
  unfolding run_nodes
  run_nodes_total routes [] values a b h r = (values, refl, λ t s. s)
  run_nodes_total routes ((name, node) ∷ nodes) values a b h r =
      let (mid, first, keeps) = run_node_total routes name node values a b.0 h.0 r.0 in
      let (after, rest, more) =
        run_nodes_total routes nodes mid (AllSlots-Extends routes values mid keeps a)
          (All-IsBuffered-Extends nodes values mid keeps b.1) h.1 r.1 in
      (after, rw first rest, λ t s. more t (keeps t s))

  -- The key names a buffer that is there.
  abbrev pub IsAddressed : Buffers Tensor → String × Tensor → Type 0
  IsAddressed values (key, v) =
      (slot : Slot) × (split_pair key ≡ some slot) × IsStored rt values slot

  pub set_inputs_total :
      (inputs : List (String × Tensor)) (values : Buffers Tensor)
      → All (IsAddressed values) inputs
      → (after : Buffers Tensor) × (set_inputs rt inputs values ≡ ok after)
        × Extends rt values after
  unfolding set_inputs
  set_inputs_total [] values a = (values, refl, λ t s. s)
  set_inputs_total ((key, v) ∷ inputs) values a =
      let (slot, splits, there) = a.0 in
      let (mid, stored_ok) = store_total rt slot v values there in
      let keeps = store-IsStored rt slot v values stored_ok in
      let (after, rest, more) = set_inputs_total inputs mid (
        All_of (IsAddressed mid) inputs (λ e m.
          let (s, splits', there') = All-at (IsAddressed values) e inputs a.1 m in
          (s, splits', keeps s there'))) in
      (after, rw splits (rw stored_ok rest), λ t s. more t (keeps t s))
