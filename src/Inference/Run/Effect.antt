-- ===== src/Inference/Run/Effect.antt =====
-- What the run of a node, and of the nodes after it, does to the buffers.
use leapp.Common.{
  nat_eq, get_of_has, String, string_eq, pair_eq, ◌≡◌, refl, sym, ap, subst, ◌∙◌, some, List, [],
  ◌∷◌, ◌++◌, true, or_else, get, keys, contains, Distinct, Option-cases, inl, inr,
}
use leapp.Common.Result.{ok, ◌>>=◌, >>=-eq-ok, ok-injective, Result-cases}
use leapp.Inference.{Runtime, NodeManager, Managers, Slot, Buffers, Routes, found, peek}
use leapp.Inference.Run.{names_of, call, route, read_inputs, run_node, run_nodes}
use leapp.Inference.Run.Writes.{
  store_all, routed, route-store_all, peek-store_all, peek-store_all_other,
}
use leapp.Inference.Run.Feeds.{
  fed_by, fed_slots, Unfed, routed_absent, length-names_of, keys-routed, call-length,
}

-- What a node's run did: it read its inputs, called its model on them, and stored the outputs.
pub record Ran (rt : Runtime) (routes : Routes) (name : String) (node : NodeManager)
    (before after : Buffers (Runtime.Tensor rt)) : Type 0 where
  pub inputs : List (Runtime.Tensor rt)
  pub outputs : List (Runtime.Tensor rt)
  pub read : read_inputs rt name (names_of node.inputs) before ≡ ok inputs
  pub called : call rt node inputs ≡ ok outputs
  pub stored :
      store_all (routed rt (or_else (get name routes) []) (names_of node.outputs) outputs) before
      ≡ ok after

module _ (rt : Runtime) (routes : Routes) where
  open rt use {Tensor}

  pub ran :
      (name : String) (node : NodeManager) (before : Buffers Tensor) {after : Buffers Tensor}
      → run_node rt routes (name, node) before ≡ ok after
      → Ran rt routes name node before after
  unfolding run_node
  ran name node before h =
      let (inputs, read, h₁) =
        >>=-eq-ok (read_inputs rt name (names_of node.inputs) before)
          (λ i. call rt node i >>= λ o.
            found (get name routes) >>= λ t. route rt t (names_of node.outputs) o before)
          h in
      let (outputs, called, h₂) =
        >>=-eq-ok (call rt node inputs)
          (λ o. found (get name routes) >>= λ t. route rt t (names_of node.outputs) o before) h₁ in
      elim (Option-cases (get name routes)) [
        | inl missing ↦ absurd (cc (rw missing at h₂))
        | inr (targets, there) ↦ record {
          inputs = inputs;
          outputs = outputs;
          read = read;
          called = called;
          stored =
              rw there (
                route-store_all rt targets (names_of node.outputs) outputs before (rw there at h₂));
        }
      ]

  pub run_nodes-append :
      (xs ys : Managers) (values : Buffers Tensor)
      → run_nodes rt routes (xs ++ ys) values
        ≡ (run_nodes rt routes xs values >>= run_nodes rt routes ys)
  unfolding run_nodes
  run_nodes-append [] ys values = refl
  run_nodes-append (n ∷ xs) ys values = elim (Result-cases (run_node rt routes n values)) [
    | inl (values', done) ↦ rw done (run_nodes-append xs ys values')
    | inr (e, failed) ↦ rw failed refl
  ]

  -- A buffer that no node of the run feeds keeps its value.
  pub run_nodes-Unfed :
      (slot : Slot) (nodes : Managers) (before : Buffers Tensor) {after : Buffers Tensor}
      → Unfed routes slot nodes
      → run_nodes rt routes nodes before ≡ ok after
      → peek slot after ≡ peek slot before
  unfolding run_nodes fed_slots
  run_nodes-Unfed slot [] before u h = ap (peek slot) (sym (ok-injective h))
  run_nodes-Unfed slot ((name, node) ∷ nodes) before u h =
      let (mid, first, rest) =
        >>=-eq-ok (run_node rt routes (name, node) before) (run_nodes rt routes nodes) h in
      let r = ran name node before first in
      run_nodes-Unfed slot nodes mid u.1 rest
      ∙ peek-store_all_other
          (routed rt (or_else (get name routes) []) (names_of node.outputs) r.outputs) slot before
          (routed_absent rt slot (or_else (get name routes) []) (names_of node.outputs) r.outputs
            u.0)
          r.stored

  -- What a node wrote for a buffer is there at the end, if no later node feeds the buffer.
  pub delivered :
      (post : Managers) (name : String) (node : NodeManager) (slot : Slot)
      {before after final : Buffers Tensor} (r : Ran rt routes name node before after)
      → Distinct (fed_slots routes (name, node))
      → contains (fed_slots routes (name, node)) slot ≡ true
      → Unfed routes slot post
      → run_nodes rt routes post after ≡ ok final
      → (v : Tensor) × (get slot
            (routed rt (or_else (get name routes) []) (names_of node.outputs) r.outputs)
          ≡ some v)
        × (peek slot final ≡ some v)
  unfolding fed_slots
  delivered post name node slot {before} {after} r distinct fed unfed rest =
      let writes = routed rt (or_else (get name routes) []) (names_of node.outputs) r.outputs in
      let written : keys writes ≡ fed_by (or_else (get name routes) []) (names_of node.outputs) =
        keys-routed rt (or_else (get name routes) []) (names_of node.outputs) r.outputs
          (call-length rt node r.inputs r.called ∙ sym (length-names_of node.outputs)) in
      let (v, there) = get_of_has slot writes (ap (λ l. contains l slot) written ∙ fed) in
      (
        v,
        there,
        run_nodes-Unfed slot post after unfed rest
            ∙ peek-store_all writes slot v before (subst Distinct (sym written) distinct) there
                r.stored,
      )
