-- ===== src/Inference/Routing/Steps.antt =====
-- A bundle that passes the checks of the constructor runs, step after step, without an error.
use leapp.Common.{
  String, string_eq, ◌≡◌, refl, sym, subst, ◌∙◌, List, [], ◌∷◌, false, Dict, put, keys, contains,
  All, All-at, All_of, inl, inr, Distinct, absent-cons, arith, ◌==◌,
}
use leapp.Common.Result.{ok, >>=-eq-ok, ok-injective}
use leapp.Inference.{Runtime, Managers, Slot, Buffers, Routes}
use leapp.Inference.Run.{run_policy}
use leapp.Inference.Routing.{
  Pipeline, all_flows, organize, out_slot, preallocate, route_all_outputs, validate_output_routing,
  validate_flows, Ready, create_inference_graph,
}
use leapp.Inference.Routing.Slots.{
  AllSlots-mono, IsStored, EitherSlot, organize-AllSlots, validate_flows-Names,
  route_all_outputs-EitherSlot,
}
use leapp.Inference.Routing.Buffered.{
  IsBuffered, preallocate-IsBuffered, peek-put_other, peek-put_same,
  validate_output_routing-IsRouted,
}
use leapp.Inference.Routing.Progress.{IsReady}
use leapp.Inference.Routing.Runs.{
  IsRunnable, IsAddressed, AllSlots-Extends, All-IsBuffered-Extends, run_nodes_total,
  set_inputs_total,
}
use leapp.Inference.Routing.Keeps.{
  IsKept, put-IsKept_same, Keeps, Keeps-trans, run_nodes-Keeps, set_inputs-Keeps, run_policy-Keeps,
}

flip : (a b : String) → (a == b) ≡ false → (b == a) ≡ false
flip a b h = ground (arith, string_eq.beq_iff a b, string_eq.beq_iff b a)

module _ (rt : Runtime) where
  open rt use {Tensor}

  cached-IsStored :
      (values : Buffers Tensor) (cache : Dict String Tensor) (slot : Slot)
      → EitherSlot rt (IsStored rt (put out_slot cache values)) cache slot
      → IsStored rt (put out_slot cache values) slot
  cached-IsStored values cache slot (inl there) = there
  cached-IsStored values cache (n, i) (inr (e, (v, there))) =
      subst (λ m. IsStored rt (put out_slot cache values) (m, i)) (sym e)
        (v, peek-put_same rt out_slot i cache values ∙ there)

  All-IsBuffered-put :
      (nodes : Managers) (cache : Dict String Tensor) (values : Buffers Tensor)
      → contains (keys nodes) out_slot ≡ false
      → All (IsBuffered rt values) nodes
      → All (IsBuffered rt (put out_slot cache values)) nodes
  All-IsBuffered-put [] cache values absent b = tt
  All-IsBuffered-put ((name, node) ∷ nodes) cache values absent b =
      let (other, rest) = absent-cons out_slot name (keys nodes) absent in
      (
        λ i m.
            let (v, there) = b.0 i m in
            (v, peek-put_other rt name i out_slot cache values (flip name out_slot other) ∙ there),
        All-IsBuffered-put nodes cache values rest b.1,
      )

  -- What the constructor leaves serves every step, where no node is named like the output slot:
  -- every target of a route and every input of a node has a buffer, and every output a route.
  pub create_inference_graph-IsReady :
      (nodes : Managers) (p : Pipeline) {st : Ready rt}
      → create_inference_graph rt nodes p ≡ ok st
      → Distinct (keys nodes)
      → contains (keys nodes) out_slot ≡ false
      → IsReady rt nodes st.routes st.values × IsKept rt out_slot st.values
  unfolding create_inference_graph
  create_inference_graph-IsReady nodes p {st} h distinct absent =
      let (values, allocated, h₁) = >>=-eq-ok (preallocate rt nodes []) _ h in
      let (routes, organized, h₂) = >>=-eq-ok (organize (all_flows p) []) _ h₁ in
      let (state, routed, h₃) =
        >>=-eq-ok (route_all_outputs rt nodes p.outputs (routes, [])) _ h₂ in
      let (_, checked, h₄) = >>=-eq-ok (validate_output_routing rt nodes state.0) _ h₃ in
      let (_, compatible, h₅) =
        >>=-eq-ok (validate_flows rt nodes (put out_slot state.1 values) (all_flows p)) _ h₄ in
      let served = IsStored rt (put out_slot state.1 values) in
      let named =
        validate_flows-Names rt nodes (put out_slot state.1 values) (all_flows p) compatible in
      let slots = organize-AllSlots served (all_flows p) [] organized named tt in
      let either =
        route_all_outputs-EitherSlot rt served nodes p.outputs routes [] routed
          (AllSlots-mono rt served (EitherSlot rt served []) routes (λ s q. inl q) slots) in
      subst (λ (s : Ready rt). IsReady rt nodes s.routes s.values × IsKept rt out_slot s.values)
        (ok-injective h₅)
        (
          record {
            targets =
                AllSlots-mono rt (EitherSlot rt served state.1) served state.0
                  (cached-IsStored values state.1) either;
            buffered =
                All-IsBuffered-put nodes state.1 values absent
                  (preallocate-IsBuffered rt nodes [] distinct allocated);
            routed = validate_output_routing-IsRouted rt nodes state.0 checked;
          },
          put-IsKept_same rt out_slot state.1 values,
        )

  -- A step from buffers that serve the routes ends, for inputs whose keys name buffers.
  run_policy_total :
      (routes : Routes) (nodes : Managers) (inputs : List (String × Tensor))
      (values : Buffers Tensor)
      → IsReady rt nodes routes values
      → IsKept rt out_slot values
      → All (λ e. IsRunnable rt e.1) nodes
      → All (IsAddressed rt values) inputs
      → (after : Buffers Tensor) × (outputs : Dict String Tensor) × (run_policy rt routes nodes
            inputs values
          ≡ ok (after, outputs))
  unfolding run_policy
  run_policy_total routes nodes inputs values ready kept runnable addressed =
      let (mid, first, e) = set_inputs_total rt inputs values addressed in
      let (after, second, e') =
        run_nodes_total rt routes nodes mid (AllSlots-Extends rt routes values mid e ready.targets)
          (All-IsBuffered-Extends rt nodes values mid e ready.buffered) ready.routed runnable in
      let (outputs, there) =
        (run_nodes-Keeps rt routes nodes mid second).1 out_slot
          ((set_inputs-Keeps rt inputs values first).1 out_slot kept) in
      (after, outputs, rw (first, second) (rw there refl))

  -- The buffers that an engine can hold: those of the constructor, and those that a step leaves.
  pub data Reachable (nodes : Managers) (st : Ready rt) : Buffers Tensor → Type 0 where
    created : Reachable nodes st st.values
    stepped :
        (inputs : List (String × Tensor)) (before after : Buffers Tensor)
        (outputs : Dict String Tensor)
        → Reachable nodes st before
        → run_policy rt st.routes nodes inputs before ≡ ok (after, outputs)
        → Reachable nodes st after

  Reachable-Keeps :
      (nodes : Managers) (st : Ready rt) (values : Buffers Tensor)
      → Reachable nodes st values
      → Keeps rt st.values values
  Reachable-Keeps nodes st values created = (λ t s. s, λ n k. k)
  Reachable-Keeps nodes st values (stepped inputs before after outputs r h) =
      Keeps-trans rt st.values before values (Reachable-Keeps nodes st before r)
        (run_policy-Keeps rt st.routes nodes inputs before h)

  -- Once the constructor has accepted a bundle, every step of every run ends with its outputs,
  -- where the nodes' names are distinct and none is the output slot's, every model has an output
  -- and answers as described, and the keys of the provided inputs name inputs that have a buffer.
  pub every_step_runs :
      (nodes : Managers) (p : Pipeline) {st : Ready rt} {values : Buffers Tensor}
      (inputs : List (String × Tensor))
      → create_inference_graph rt nodes p ≡ ok st
      → Distinct (keys nodes)
      → contains (keys nodes) out_slot ≡ false
      → All (λ e. IsRunnable rt e.1) nodes
      → Reachable nodes st values
      → All (IsAddressed rt st.values) inputs
      → (after : Buffers Tensor) × (outputs : Dict String Tensor) × (run_policy rt st.routes nodes
            inputs values
          ≡ ok (after, outputs))
  every_step_runs nodes p {st} {values} inputs made distinct absent runnable reached addressed =
      let (ready, kept) = create_inference_graph-IsReady nodes p made distinct absent in
      let (extends, keeps) = Reachable-Keeps nodes st values reached in
      run_policy_total st.routes nodes inputs values
        (record {
          targets = AllSlots-Extends rt st.routes st.values values extends ready.targets;
          buffered = All-IsBuffered-Extends rt nodes st.values values extends ready.buffered;
          routed = ready.routed;
        })
        (keeps out_slot kept) runnable
        (All_of (IsAddressed rt values) inputs λ e m.
          let (slot, splits, there) = All-at (IsAddressed rt st.values) e inputs addressed m in
          (slot, splits, extends slot there))
