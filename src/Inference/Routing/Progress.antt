-- ===== src/Inference/Routing/Progress.antt =====
-- Each step of a run ends, where the buffers that it needs are there.
use leapp.Common.{
  ℕ, suc, String, string_eq, nat_eq, pair_eq, ◌≡◌, ◌≢◌, refl, sym, ap, ◌∙◌, some, List, [], ◌∷◌,
  true, arith, ◌==◌, Dict, get, put, keys, contains, All, All-at, All_of, In, inl, inr, or_else,
  Bool-cases, Option-cases, length, get_of_has, In-of_get,
}
use leapp.Common.Result.{Result, ok, traverse, traverse_total, traverse-cons, ok-injective}
use leapp.Inference.{
  Runtime, Outcome, single, several, TensorInfo, NodeManager, Managers, Slot, Buffers, Routes,
  found, peek, store,
}
use leapp.Inference.Run.{names_of, only_output, parts, call, handed, deliver, route, read_inputs}
use leapp.Inference.Run.Writes.{peek-store}
use leapp.Inference.Routing.Slots.{AllSlots, IsStored}
use leapp.Inference.Routing.Buffered.{IsBuffered, IsRouted}

-- What LEAPP relies on of an exported model: it answers with as many tensors as the description
-- lists, where a model with one output may answer with the bare tensor.
abbrev pub Answers : Runtime → NodeManager → Type 0
Answers rt node =
    (inputs : List (Runtime.Tensor rt))
    → length inputs ≡ length node.inputs
    → (length node.outputs ≡ 1 → Runtime.forward rt node.name inputs ≢ several [])
      × (length node.outputs ≢ 1
          → length (parts rt (Runtime.forward rt node.name inputs)) ≡ length node.outputs)

-- The buffers serve the routes and the nodes.
pub record IsReady (rt : Runtime) (nodes : Managers) (routes : Routes)
    (values : Buffers (Runtime.Tensor rt)) : Type 0 where
  pub targets : AllSlots (IsStored rt values) routes
  pub buffered : All (IsBuffered rt values) nodes
  pub routed : All (IsRouted rt routes) nodes

module _ (rt : Runtime) where
  open rt use {Tensor, forward}

  only_output_total :
      (out : Outcome Tensor) → out ≢ several [] → (t : Tensor) × (only_output rt out ≡ ok (t ∷ []))
  unfolding only_output
  only_output_total (single t) h = (t, refl)
  only_output_total (several []) h = absurd (h refl)
  only_output_total (several (t ∷ rest)) h = (t, refl)

  beq_of_eq : (a b : ℕ) → a ≡ b → (a == b) ≡ true
  beq_of_eq a b h = ground arith

  pub call_total :
      (node : NodeManager) (inputs : List Tensor)
      → Answers rt node
      → length inputs ≡ length node.inputs
      → (outputs : List Tensor) × (call rt node inputs ≡ ok outputs)
  unfolding call
  call_total node inputs answers h =
      let counted = beq_of_eq (length inputs) (length node.inputs) h in
      let (one, many) = answers inputs h in
      elim (Bool-cases (length node.outputs == 1)) [
        | inl is_one ↦
            let (t, e) = only_output_total (forward node.name inputs) (one (ground arith)) in
            (t ∷ [], rw (counted, is_one) e)
        | inr is_many ↦
            let fits = beq_of_eq _ _ (many (ground arith)) in
            (parts rt (forward node.name inputs), rw (counted, is_many) (rw fits refl))
      ]

  -- A buffer that is there can be stored to, and no buffer is lost.
  pub store_total :
      (slot : Slot) (v : Tensor) (values : Buffers Tensor)
      → IsStored rt values slot
      → (values' : Buffers Tensor) × (store slot v values ≡ ok values')
  unfolding store peek
  store_total (n, i) v values (w, h) = elim (Option-cases (get n values)) [
    | inl missing ↦ absurd (cc (rw missing at h))
    | inr (buffer, there) ↦ (put n (put i v buffer) values, rw (there, store) refl)
  ]

  pub store-IsStored :
      (slot : Slot) (v : Tensor) (values : Buffers Tensor) {values' : Buffers Tensor}
      → store slot v values ≡ ok values'
      → (t : Slot) → IsStored rt values t
      → IsStored rt values' t
  store-IsStored slot v values h t (w, there) = elim (Bool-cases (slot == t)) [
    | inl same ↦ (v, peek-store slot t v values h ∙ rw same refl)
    | inr other ↦ (w, peek-store slot t v values h ∙ rw other there)
  ]

  -- A step of the buffers that loses none of them.
  abbrev pub Extends : Buffers Tensor → Buffers Tensor → Type 0
  Extends before after = (t : Slot) → IsStored rt before t → IsStored rt after t

  deliver_total :
      (i : ℕ) (targets : List Slot) (v : Tensor) (values : Buffers Tensor)
      → All (IsStored rt values) targets
      → (after : Buffers Tensor) × (deliver rt i targets v values ≡ ok after) × Extends values after
  unfolding deliver
  deliver_total i [] v values a = (values, refl, λ t s. s)
  deliver_total i (slot ∷ targets) v values a =
      let (mid, stored_ok) = store_total slot (handed rt i v) values a.0 in
      let keeps = store-IsStored slot (handed rt i v) values stored_ok in
      let (after, rest, more) = deliver_total (suc i) targets v mid (
        All_of (IsStored rt mid) targets
          (λ t m. keeps t (All-at (IsStored rt values) t targets a.1 m))) in
      (after, rw stored_ok rest, λ t s. more t (keeps t s))

  pub route_total :
      (routes : Dict String (List Slot)) (order : List String) (outputs : List Tensor)
      (values : Buffers Tensor)
      → All (λ r. All (IsStored rt values) r.1) routes
      → ((o : String) → In o order → contains (keys routes) o ≡ true)
      → (after : Buffers Tensor) × (route rt routes order outputs values ≡ ok after)
        × Extends values after
  unfolding route
  route_total routes [] outputs values a has = (values, refl, λ t s. s)
  route_total routes (o ∷ order) [] values a has = (values, refl, λ t s. s)
  route_total routes (o ∷ order) (v ∷ outputs) values a has =
      let (targets, there) = get_of_has o routes (has o (inl refl)) in
      let (mid, first, keeps) = deliver_total 0 targets v values (
        All-at (λ r. All (IsStored rt values) r.1) (o, targets) routes a
          (In-of_get o targets routes there)) in
      let (after, rest, more) =
        route_total routes order outputs mid
          (All_of (λ r. All (IsStored rt mid) r.1) routes
            λ r mr. All_of (IsStored rt mid) r.1 λ t mt. keeps t (
              All-at (IsStored rt values) t r.1
                (All-at (λ r. All (IsStored rt values) r.1) r routes a mr) mt))
          (λ p mp. has p (inr mp)) in
      (after, rw there (rw first rest), λ t s. more t (keeps t s))

  pub length-traverse :
      {A B : Type 0} (f : A → Result B) (xs : List A) {ys : List B}
      → traverse f xs ≡ ok ys
      → length ys ≡ length xs
  unfolding traverse
  length-traverse f [] h = ap length (sym (ok-injective h))
  length-traverse f (x ∷ xs) h =
      let (y, rest, _, at_xs, e) = traverse-cons f x xs h in
      ap length e ∙ ap suc (length-traverse f xs at_xs)

  pub length-names_of : (infos : List TensorInfo) → length (names_of infos) ≡ length infos
  length-names_of [] = refl
  length-names_of (t ∷ infos) = ap suc (length-names_of infos)

  pub read_total :
      (name : String) (node : NodeManager) (values : Buffers Tensor)
      → IsBuffered rt values (name, node)
      → (inputs : List Tensor) × (read_inputs rt name (names_of node.inputs) values ≡ ok inputs)
  unfolding read_inputs
  read_total name node values b =
      traverse_total (λ i. found (peek (name, i) values)) (names_of node.inputs)
        λ i m. let (v, there) = b i m in (v, rw there refl)

  -- The routes of a node that has an output.
  pub some_route :
      (routes : Routes) (name : String) (o : String)
      → contains (keys (or_else (get name routes) [])) o ≡ true
      → (targets : Dict String (List Slot)) × (get name routes ≡ some targets)
  some_route routes name o h = elim (Option-cases (get name routes)) [
    | inl missing ↦ absurd (cc (rw missing at h))
    | inr there ↦ there
  ]
