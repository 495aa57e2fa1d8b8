-- ===== src/Inference/Run/Feeds.antt =====
-- The buffers that a node feeds, and what its run writes to them.
use leapp.Common.{
  ℕ, suc, length, not, nat_eq, String, string_eq, pair_eq, ◌≡◌, refl, sym, ap, ◌∙◌, List, [], ◌∷◌,
  ◌++◌, Bool, false, arith, ◌==◌, ◌||◌, or_else, Dict, get, keys, contains, contains-append, All,
  Bool-cases, inl, inr,
}
use leapp.Common.Result.{ok, value_error, raise_if, ◌>>◌, >>=-eq-ok, ok-injective}
use leapp.Inference.{
  Runtime, Outcome, single, several, TensorInfo, NodeManager, Managers, Slot, Routes,
}
use leapp.Inference.Run.{names_of, only_output, parts, call}
use leapp.Inference.Run.Writes.{delivered, routed}

-- The buffers that the routes send a list of outputs to.
unfoldable pub fed_by : Dict String (List Slot) → List String → List Slot
fed_by routes [] = []
fed_by routes (o ∷ order) = or_else (get o routes) [] ++ fed_by routes order

-- The buffers that a node feeds.
unfoldable pub fed_slots : Routes → String × NodeManager → List Slot
unfolding fed_by
fed_slots routes (name, node) = fed_by (or_else (get name routes) []) (names_of node.outputs)

-- No node of the list feeds the buffer.
abbrev pub Unfed : Routes → Slot → Managers → Type 0
Unfed routes slot nodes = All (λ n. contains (fed_slots routes n) slot ≡ false) nodes

or_false : (a b : Bool) → (a || b) ≡ false → (a ≡ false) × (b ≡ false)
or_false a b h = ground arith

keys-append : {A : Type 0} (xs ys : Dict Slot A) → keys (xs ++ ys) ≡ keys xs ++ keys ys
keys-append [] ys = refl
keys-append ((k, v) ∷ xs) ys = ap (λ l. k ∷ l) (keys-append xs ys)

counted :
    {A : Type 0} (xs : List A) (n : ℕ) {ys : List A}
    → (raise_if (not (length xs == n)) value_error >> ok xs) ≡ ok ys
    → length ys ≡ n
counted xs n h = elim (Bool-cases (length xs == n)) [
  | inl fits ↦ ap length (sym (ok-injective (rw fits at h))) ∙ ground arith
  | inr off ↦ absurd (cc (rw off at h))
]

module _ (rt : Runtime) (slot : Slot) where
  open rt use {Tensor}

  delivered_absent :
      (i : ℕ) (targets : List Slot) (v : Tensor)
      → contains targets slot ≡ false
      → contains (keys (delivered rt i targets v)) slot ≡ false
  unfolding delivered
  delivered_absent i [] v h = refl
  delivered_absent i (t ∷ targets) v h =
      let (here, there) = or_false (slot == t) (contains targets slot) h in
      rw (here, delivered_absent (suc i) targets v there) refl

  pub routed_absent :
      (routes : Dict String (List Slot)) (order : List String) (outputs : List Tensor)
      → contains (fed_by routes order) slot ≡ false
      → contains (keys (routed rt routes order outputs)) slot ≡ false
  unfolding routed fed_by
  routed_absent routes [] outputs h = refl
  routed_absent routes (o ∷ order) [] h = refl
  routed_absent routes (o ∷ order) (v ∷ outputs) h =
      let targets = or_else (get o routes) [] in
      let (here, there) =
        or_false (contains targets slot) (contains (fed_by routes order) slot)
          (sym (contains-append targets (fed_by routes order) slot) ∙ h) in
      rw (keys-append, contains-append, delivered_absent 0 targets v here)
        (routed_absent routes order outputs there)

pub length-names_of : (infos : List TensorInfo) → length (names_of infos) ≡ length infos
length-names_of [] = refl
length-names_of (t ∷ infos) = ap suc (length-names_of infos)

module _ (rt : Runtime) where
  open rt use {Tensor, forward}

  keys-delivered :
      (i : ℕ) (targets : List Slot) (v : Tensor) → keys (delivered rt i targets v) ≡ targets
  unfolding delivered
  keys-delivered i [] v = refl
  keys-delivered i (t ∷ targets) v = ap (λ l. t ∷ l) (keys-delivered (suc i) targets v)

  -- With a value for each output, the node writes the buffers that its routes name.
  pub keys-routed :
      (routes : Dict String (List Slot)) (order : List String) (outputs : List Tensor)
      → length outputs ≡ length order
      → keys (routed rt routes order outputs) ≡ fed_by routes order
  unfolding routed fed_by
  keys-routed routes [] outputs h = refl
  keys-routed routes (o ∷ order) [] h = ground arith
  keys-routed routes (o ∷ order) (v ∷ outputs) h =
      let targets = or_else (get o routes) [] in
      keys-append (delivered rt 0 targets v) (routed rt routes order outputs)
      ∙ ap (λ l. l ++ keys (routed rt routes order outputs)) (keys-delivered 0 targets v)
      ∙ ap (λ l. targets ++ l) (keys-routed routes order outputs (ground arith))

  only_output-length :
      (out : Outcome Tensor) {ts : List Tensor} → only_output rt out ≡ ok ts → length ts ≡ 1
  unfolding only_output
  only_output-length (single t) h = ap length (sym (ok-injective h))
  only_output-length (several []) h = absurd (cc h)
  only_output-length (several (t ∷ rest)) h = ap length (sym (ok-injective h))

  -- A call that ends answers with a value for each output.
  pub call-length :
      (node : NodeManager) (inputs : List Tensor) {outputs : List Tensor}
      → call rt node inputs ≡ ok outputs
      → length outputs ≡ length node.outputs
  unfolding call
  call-length node inputs h =
      let (_, _, h₁) =
        >>=-eq-ok (raise_if (not (length inputs == length node.inputs)) value_error) _ h in
      elim (Bool-cases (length node.outputs == 1)) [
        | inl is_one ↦
            only_output-length (forward node.name inputs) (rw is_one at h₁) ∙ sym (ground arith)
        | inr is_many ↦
            counted (parts rt (forward node.name inputs)) (length node.outputs) (rw is_many at h₁)
      ]
