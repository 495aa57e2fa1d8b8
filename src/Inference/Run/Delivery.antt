-- ===== src/Inference/Run/Delivery.antt =====
-- Which value a node reads: the one that the last node to feed the buffer produced.
use leapp.Common.{
  ℕ, zero, suc, Dict, get_elem?, nat_eq, String, string_eq, pair_eq, ◌≡◌, refl, sym, ap, subst, ◌∙◌,
  Option, none, some, List, [], ◌∷◌, ◌++◌, Bool, true, false, ◌==◌, or_else, get, contains,
  Distinct, All, Option-cases, Bool-cases, if◌then◌else◌, inl, inr,
}
use leapp.Common.Result.{ok, >>=-eq-ok, ok-injective, traverse-cons}
use leapp.Common.Text.{split_pair}
use leapp.Inference.{Runtime, NodeManager, Managers, Slot, Buffers, Routes, found, peek, store}
use leapp.Inference.Run.{names_of, read_inputs, run_node, run_nodes, set_inputs, run_policy}
use leapp.Inference.Run.Writes.{routed, peek-store}
use leapp.Inference.Run.Feeds.{fed_slots, Unfed}
use leapp.Inference.Run.Effect.{Ran, ran, run_nodes-append, run_nodes-Unfed, delivered}

module _ (rt : Runtime) (routes : Routes) where
  open rt use {Tensor}

  -- A run over `pre`, a node and `post` that ends: the node read its inputs from the buffers as
  -- `pre` left them, and called its model on them. Each buffer that the node feeds holds at the
  -- end what it wrote there (the output itself for the first consumer of an output, a clone for a
  -- later one), where its routes name no buffer twice and no node of `post` feeds the buffer.
  pub run_nodes_delivers :
      (pre post : Managers) (name : String) (node : NodeManager) (start : Buffers Tensor)
      (slot : Slot) {final : Buffers Tensor}
      → Distinct (fed_slots routes (name, node))
      → contains (fed_slots routes (name, node)) slot ≡ true
      → Unfed routes slot post
      → run_nodes rt routes (pre ++ (name, node) ∷ post) start ≡ ok final
      → (before after : Buffers Tensor) × (run_nodes rt routes pre start ≡ ok before)
        × ((r : Ran rt routes name node before after) × ((v : Tensor) × (get slot
                  (routed rt (or_else (get name routes) []) (names_of node.outputs) r.outputs)
                ≡ some v)
              × (peek slot final ≡ some v)))
  unfolding run_nodes
  run_nodes_delivers pre post name node start slot distinct fed unfed h =
      let (before, first, h₁) =
        >>=-eq-ok (run_nodes rt routes pre start) (run_nodes rt routes ((name, node) ∷ post))
          (sym (run_nodes-append rt routes pre ((name, node) ∷ post) start) ∙ h) in
      let (after, middle, rest) =
        >>=-eq-ok (run_node rt routes (name, node) before) (run_nodes rt routes post) h₁ in
      let r = ran rt routes name node before middle in
      (before, after, first, (r, delivered rt routes post name node slot r distinct fed unfed rest))

  -- The key names another buffer, or none.
  abbrev pub other_key : Slot → Option Slot → Bool
  other_key slot none = true
  other_key slot (some t) = if t == slot then false else true

  set_inputs-other :
      (slot : Slot) (inputs : List (String × Tensor)) (before : Buffers Tensor)
      {after : Buffers Tensor}
      → All (λ e. other_key slot (split_pair e.0) ≡ true) inputs
      → set_inputs rt inputs before ≡ ok after
      → peek slot after ≡ peek slot before
  unfolding set_inputs
  set_inputs-other slot [] before o h = ap (peek slot) (sym (ok-injective h))
  set_inputs-other slot ((key, v) ∷ inputs) before o h = elim (Option-cases (split_pair key)) [
    | inl malformed ↦ absurd (cc (rw malformed at h))
    | inr (t, splits) ↦
        let (mid, first, rest) =
          >>=-eq-ok (store t v before) (set_inputs rt inputs) (rw splits at h) in
        set_inputs-other slot inputs mid o.1 rest
        ∙ peek-store t slot v before first
        ∙ elim (Bool-cases (t == slot)) [
          | inl same ↦ absurd (cc (rw (splits, same) at o.0))
          | inr other ↦ rw other refl
        ]
  ]

  run_policy_parts :
      (nodes : Managers) (inputs : List (String × Tensor)) (start : Buffers Tensor)
      {after : Buffers Tensor} {outputs : Dict String Tensor}
      → run_policy rt routes nodes inputs start ≡ ok (after, outputs)
      → (provided : Buffers Tensor) × (set_inputs rt inputs start ≡ ok provided)
        × (run_nodes rt routes nodes provided ≡ ok after)
  unfolding run_policy
  run_policy_parts nodes inputs start h =
      let (provided, given, h₁) = >>=-eq-ok (set_inputs rt inputs start) _ h in
      let (ran, run, h₂) = >>=-eq-ok (run_nodes rt routes nodes provided) _ h₁ in
      let (_, _, h₃) = >>=-eq-ok (found (get "==out==" ran)) _ h₂ in
      (
        provided,
        given,
        run ∙ ap ok (ap (λ (p : Buffers Tensor × Dict String Tensor). p.0) (ok-injective h₃)),
      )

-- A step from the buffers `start` to the buffers `final`, taken apart at one of its nodes: the
-- provided inputs are set, `pre` runs, the node runs, `post` runs.
pub record StepParts (rt : Runtime) (routes : Routes) (pre : Managers) (name : String)
    (node : NodeManager) (post : Managers) (inputs : List (String × Runtime.Tensor rt))
    (start final : Buffers (Runtime.Tensor rt)) : Type 0 where
  pub provided : Buffers (Runtime.Tensor rt)
  pub before : Buffers (Runtime.Tensor rt)
  pub after : Buffers (Runtime.Tensor rt)
  pub given : set_inputs rt inputs start ≡ ok provided
  pub earlier : run_nodes rt routes pre provided ≡ ok before
  pub ran_here : Ran rt routes name node before after
  pub later : run_nodes rt routes post after ≡ ok final

-- What the node of the first step produced for the buffer is what the node of the second step is
-- called with, as its input of this index.
abbrev pub CrossesStep :
    {rt : Runtime} {routes : Routes} {wpre wpost pre post : Managers} {writer reader : String}
    {wnode rnode : NodeManager} {first second : List (String × Runtime.Tensor rt)}
    {start middle final : Buffers (Runtime.Tensor rt)}
    → Slot
    → ℕ
    → StepParts rt routes wpre writer wnode wpost first start middle
    → StepParts rt routes pre reader rnode post second middle final
    → Type 0
CrossesStep {rt} {routes} {writer = writer} {wnode = wnode} slot k one two =
    (value : Runtime.Tensor rt) × (get slot
        (routed rt (or_else (get writer routes) []) (names_of wnode.outputs) one.ran_here.outputs)
      ≡ some value)
    × (get_elem? two.ran_here.inputs k ≡ some value)

module _ (rt : Runtime) (routes : Routes) where
  open rt use {Tensor}

  get_elem?-read_inputs :
      (reader : String) (names : List String) (values : Buffers Tensor) (k : ℕ) (i : String)
      (v : Tensor) {inputs : List Tensor}
      → read_inputs rt reader names values ≡ ok inputs
      → get_elem? names k ≡ some i
      → peek (reader, i) values ≡ some v
      → get_elem? inputs k ≡ some v
  unfolding read_inputs
  get_elem?-read_inputs reader [] values k i v h at there = absurd (cc at)
  get_elem?-read_inputs reader (n ∷ names) values zero i v h at there =
      let (w, rest, first, _, e) = traverse-cons (λ i. found (peek (reader, i) values)) n names h in
      let same : n ≡ i = cc at in
      rw e (
        ap some (
          ok-injective (
            sym first
            ∙ ap (λ n. found (peek (reader, n) values)) same
            ∙ ap (λ (o : Option Tensor). found o) there)))
  get_elem?-read_inputs reader (n ∷ names) values (suc k) i v h at there =
      let (w, rest, _, others, e) =
        traverse-cons (λ i. found (peek (reader, i) values)) n names h in
      rw e (get_elem?-read_inputs reader names values k i v others at there)

  parts_of :
      (nodes pre post : Managers) (name : String) (node : NodeManager)
      (inputs : List (String × Tensor)) (start : Buffers Tensor) {final : Buffers Tensor}
      {outputs : Dict String Tensor}
      → nodes ≡ pre ++ (name, node) ∷ post
      → run_policy rt routes nodes inputs start ≡ ok (final, outputs)
      → StepParts rt routes pre name node post inputs start final
  unfolding run_nodes
  parts_of nodes pre post name node inputs start {final} parts h =
      let (provided, given, run) = run_policy_parts rt routes nodes inputs start h in
      let (before, earlier, h₁) =
        >>=-eq-ok (run_nodes rt routes pre provided) (run_nodes rt routes ((name, node) ∷ post)) (
          sym (run_nodes-append rt routes pre ((name, node) ∷ post) provided)
          ∙ subst (λ ns. run_nodes rt routes ns provided ≡ ok final) parts run) in
      let (after, here, later) =
        >>=-eq-ok (run_node rt routes (name, node) before) (run_nodes rt routes post) h₁ in
      record {
        provided = provided;
        before = before;
        after = after;
        given = given;
        earlier = earlier;
        ran_here = ran rt routes name node before here;
        later = later;
      }

  -- Feedback crosses to the next step. Take two calls of `run_policy` that end, the second on the
  -- buffers that the first leaves. Where a node feeds a buffer in the first, naming no buffer twice,
  -- and no node after it feeds it; and where in the second neither the provided inputs nor a node
  -- before the reader writes it: what the writer produced for the buffer in the first step is what
  -- the reader's model is called with in the second, in the place of this input.
  pub feedback_next_step :
      (nodes wpre wpost pre post : Managers) (writer reader : String) (wnode rnode : NodeManager)
      (i : String) (k : ℕ) (first second : List (String × Tensor)) (start : Buffers Tensor)
      {middle final : Buffers Tensor} {outputs last : Dict String Tensor}
      → nodes ≡ wpre ++ (writer, wnode) ∷ wpost
      → nodes ≡ pre ++ (reader, rnode) ∷ post
      → Distinct (fed_slots routes (writer, wnode))
      → contains (fed_slots routes (writer, wnode)) (reader, i) ≡ true
      → Unfed routes (reader, i) wpost
      → Unfed routes (reader, i) pre
      → get_elem? (names_of rnode.inputs) k ≡ some i
      → All (λ e. other_key rt routes (reader, i) (split_pair e.0) ≡ true) second
      → run_policy rt routes nodes first start ≡ ok (middle, outputs)
      → run_policy rt routes nodes second middle ≡ ok (final, last)
      → (one : StepParts rt routes wpre writer wnode wpost first start middle) × (two : StepParts rt
          routes pre reader rnode post second middle final)
        × CrossesStep (reader, i) k one two
  feedback_next_step nodes wpre wpost pre post writer reader wnode rnode i k first second start
        {middle} as_writer as_reader distinct fed unfed_after unfed_before place other h h' =
      let one = parts_of nodes wpre wpost writer wnode first start as_writer h in
      let two = parts_of nodes pre post reader rnode second middle as_reader h' in
      let (v, produced, kept) =
        delivered rt routes wpost writer wnode (reader, i) one.ran_here distinct fed unfed_after
          one.later in
      (
        one,
        two,
        (
          v,
          produced,
          get_elem?-read_inputs reader (names_of rnode.inputs) two.before k i v two.ran_here.read
              place
              (run_nodes-Unfed rt routes (reader, i) pre two.provided unfed_before two.earlier
                ∙ set_inputs-other rt routes (reader, i) second middle other two.given
                ∙ kept),
        ),
      )
