-- ===== src/Inference/Routing/Keeps.antt =====
-- No step of the engine loses a buffer.
use leapp.Common.{
  String, string_eq, pair_eq, ◌≡◌, refl, ap, subst, ◌∙◌, some, List, [], ◌∷◌, ◌==◌, Dict, get, put,
  get-put, Option-cases, Bool-cases, inl, inr, or_else, beq_self,
}
use leapp.Common.Result.{ok, >>=-eq-ok, ok-injective}
use leapp.Common.Text.{split_pair}
use leapp.Inference.{Runtime, Managers, Slot, Buffers, Routes, found, store}
use leapp.Inference.Run.{names_of, run_node, run_nodes, slot_of, set_inputs, run_policy}
use leapp.Inference.Run.Writes.{store_all, routed}
use leapp.Inference.Run.Effect.{ran}
use leapp.Inference.Routing.Progress.{Extends, store-IsStored}

module _ (rt : Runtime) where
  open rt use {Tensor}

  -- The buffers of a node are there.
  abbrev pub IsKept : String → Buffers Tensor → Type 0
  IsKept n values = (d : Dict String Tensor) × (get n values ≡ some d)

  -- A step that loses no buffer, and no node's buffers.
  abbrev pub Keeps : Buffers Tensor → Buffers Tensor → Type 0
  Keeps before after = Extends rt before after × ((n : String) → IsKept n before → IsKept n after)

  pub Keeps-trans : (a b c : Buffers Tensor) → Keeps a b → Keeps b c → Keeps a c
  Keeps-trans a b c (e, k) (e', k') = (λ t s. e' t (e t s), λ n h. k' n (k n h))

  put-IsKept :
      (n k : String) (buffer : Dict String Tensor) (values : Buffers Tensor)
      → IsKept n values
      → IsKept n (put k buffer values)
  put-IsKept n k buffer values (d, h) = elim (Bool-cases (k == n)) [
    | inl same ↦ (buffer, get-put k n buffer values ∙ rw same refl)
    | inr other ↦ (d, get-put k n buffer values ∙ rw other h)
  ]

  pub put-IsKept_same :
      (n : String) (buffer : Dict String Tensor) (values : Buffers Tensor)
      → IsKept n (put n buffer values)
  put-IsKept_same n buffer values = (buffer, get-put n n buffer values ∙ rw (beq_self n) refl)

  store-Keeps :
      (slot : Slot) (v : Tensor) (values : Buffers Tensor) {values' : Buffers Tensor}
      → store slot v values ≡ ok values'
      → Keeps values values'
  unfolding store
  store-Keeps (n, i) v values h = (
    store-IsStored rt (n, i) v values h,
    λ k kept. elim (Option-cases (get n values)) [
      | inl missing ↦ absurd (cc (rw missing at h))
      | inr (buffer, there) ↦
          subst (IsKept k) (ok-injective (rw there at h))
            (put-IsKept k n (put i v buffer) values kept)
    ],
  )

  store_all-Keeps :
      (writes : Dict Slot Tensor) (values : Buffers Tensor) {values' : Buffers Tensor}
      → store_all writes values ≡ ok values'
      → Keeps values values'
  unfolding store_all
  store_all-Keeps [] values h = subst (Keeps values) (ok-injective h) (λ t s. s, λ n k. k)
  store_all-Keeps ((s, v) ∷ writes) values {values'} h =
      let (mid, first, rest) = >>=-eq-ok (store s v values) (store_all writes) h in
      Keeps-trans values mid values' (store-Keeps s v values first)
        (store_all-Keeps writes mid rest)

  pub run_nodes-Keeps :
      (routes : Routes) (nodes : Managers) (values : Buffers Tensor) {values' : Buffers Tensor}
      → run_nodes rt routes nodes values ≡ ok values'
      → Keeps values values'
  unfolding run_nodes
  run_nodes-Keeps routes [] values h = subst (Keeps values) (ok-injective h) (λ t s. s, λ n k. k)
  run_nodes-Keeps routes ((name, node) ∷ nodes) values {values'} h =
      let (mid, first, rest) =
        >>=-eq-ok (run_node rt routes (name, node) values) (run_nodes rt routes nodes) h in
      let r = ran rt routes name node values first in
      Keeps-trans values mid values'
        (store_all-Keeps
          (routed rt (or_else (get name routes) []) (names_of node.outputs) r.outputs) values
          r.stored)
        (run_nodes-Keeps routes nodes mid rest)

  pub set_inputs-Keeps :
      (inputs : List (String × Tensor)) (values : Buffers Tensor) {values' : Buffers Tensor}
      → set_inputs rt inputs values ≡ ok values'
      → Keeps values values'
  unfolding set_inputs
  set_inputs-Keeps [] values h = subst (Keeps values) (ok-injective h) (λ t s. s, λ n k. k)
  set_inputs-Keeps ((key, v) ∷ inputs) values {values'} h =
      let (slot, _, h₁) = >>=-eq-ok (slot_of rt (split_pair key)) _ h in
      let (mid, first, rest) = >>=-eq-ok (store slot v values) (set_inputs rt inputs) h₁ in
      Keeps-trans values mid values' (store-Keeps slot v values first)
        (set_inputs-Keeps inputs mid rest)

  pub run_policy-Keeps :
      (routes : Routes) (nodes : Managers) (inputs : List (String × Tensor))
      (values : Buffers Tensor) {values' : Buffers Tensor} {outputs : Dict String Tensor}
      → run_policy rt routes nodes inputs values ≡ ok (values', outputs)
      → Keeps values values'
  unfolding run_policy
  run_policy-Keeps routes nodes inputs values {values'} h =
      let (mid, first, h₁) = >>=-eq-ok (set_inputs rt inputs values) _ h in
      let (last, second, h₂) = >>=-eq-ok (run_nodes rt routes nodes mid) _ h₁ in
      let (outputs, _, h₃) = >>=-eq-ok (found (get "==out==" last)) _ h₂ in
      subst (Keeps values) (ap (λ r. r.0) (ok-injective h₃)) (
        Keeps-trans values mid last (set_inputs-Keeps inputs values first)
          (run_nodes-Keeps routes nodes mid second))
