-- ===== src/Inference/Routing/Slots.antt =====
-- Every routed target is a buffer that is there.
use leapp.Common.{
  ℕ, String, string_eq, ◌≡◌, refl, sym, ap, subst, ◌∙◌, Option, none, some, List, [], ◌∷◌, ◌++◌,
  ◌==◌, Dict, get, put, get-put, upsert, All, All-at, All_of, All-upsert, inl, inr, ◌⊎◌, Bool-cases,
  beq_self,
}
use leapp.Common.Result.{ok, traverse, In-of_traverse, >>=-eq-ok, ok-injective}
use leapp.Common.Text.{port_key}
use leapp.Compat.{validate_edge}
use leapp.Inference.{Runtime, TensorInfo, Managers, Slot, Buffers, Routes, found, inner, peek}
use leapp.Inference.Routing.{
  Flow, split_key, organize, add_route, out_slot, described, map_to_torch_dtype, route_outputs,
  route_all_outputs, validate_targets, validate_flows, present, first_named,
}

-- A statement about every target of every route.
abbrev pub AllSlots : (Slot → Type 0) → Routes → Type 0
AllSlots Q routes = All (λ e. All (λ r. All Q r.1) e.1) routes

All-append : {A : Type 0} (P : A → Type 0) (xs ys : List A) → All P xs → All P ys → All P (xs ++ ys)
All-append P [] ys h k = k
All-append P (x ∷ xs) ys h k = (h.0, All-append P xs ys h.1 k)

module _ (Q : Slot → Type 0) where
  -- A target of a flow that is well formed names a slot of which the statement holds.
  abbrev pub Names : String → Type 0
  Names target = (slot : Slot) → split_key target ≡ ok slot → Q slot

  put-AllSlots :
      (o : String) (slots : List Slot) (inner : Dict String (List Slot))
      → All Q slots
      → All (λ r. All Q r.1) inner
      → All (λ r. All Q r.1) (put o slots inner)
  unfolding put
  put-AllSlots o slots inner q h =
      All-upsert (λ r. All Q r.1) o slots (λ _. slots) inner q (λ _ _. q) h

  traverse-AllSlots :
      (targets : List String) {slots : List Slot}
      → traverse split_key targets ≡ ok slots
      → All Names targets
      → All Q slots
  traverse-AllSlots targets {slots} h n = All_of Q slots λ slot m.
      let (target, mt, splits) = In-of_traverse split_key targets slot h m in
      All-at Names target targets n mt slot splits

  pub organize-AllSlots :
      (flow : Flow) (routes : Routes) {routes' : Routes}
      → organize flow routes ≡ ok routes'
      → All (λ e. All Names e.1) flow
      → AllSlots Q routes
      → AllSlots Q routes'
  unfolding organize
  organize-AllSlots [] routes h n a = subst (AllSlots Q) (ok-injective h) a
  organize-AllSlots ((source, targets) ∷ flow) routes h n a =
      let (from, _, h₁) = >>=-eq-ok (split_key source) _ h in
      let (slots, split, h₂) = >>=-eq-ok (traverse split_key targets) _ h₁ in
      let q = traverse-AllSlots targets split n.0 in
      organize-AllSlots flow (upsert from.0 [] (put from.1 slots) routes) h₂ n.1 (
        All-upsert (λ e. All (λ r. All Q r.1) e.1) from.0 [] (put from.1 slots) routes
          (put-AllSlots from.1 slots [] q tt) (λ inner. put-AllSlots from.1 slots inner q) a)

  pub add_route-AllSlots :
      (node o : String) (slot : Slot) (routes : Routes)
      → Q slot
      → AllSlots Q routes
      → AllSlots Q (add_route node o slot routes)
  unfolding add_route
  add_route-AllSlots node o slot routes q a =
      let push = λ (old : List Slot). old ++ slot ∷ [] in
      let inner_ok : (d : Dict String (List Slot))
          → All (λ r. All Q r.1) d
          → All (λ r. All Q r.1) (upsert o [] push d) =
        λ d h.
          All-upsert (λ r. All Q r.1) o [] push d (q, tt)
            (λ old hold. All-append Q old _ hold (q, tt)) h in
      All-upsert (λ e. All (λ r. All Q r.1) e.1) node [] (upsert o [] push) routes (inner_ok [] tt)
        inner_ok a

module _ (rt : Runtime) where
  open rt use {Tensor, Dtype, dtype_eq, shape_of, dtype_of, torch_dtypes, zeros}

  -- The buffer is there.
  abbrev pub IsStored : Buffers Tensor → Slot → Type 0
  IsStored values slot = (v : Tensor) × (peek slot values ≡ some v)

  present-eq-ok : {A : Type 0} (o : Option A) {a : A} → present rt o ≡ ok a → o ≡ some a
  present-eq-ok none h = absurd (cc h)
  present-eq-ok (some b) h = ap some (ok-injective h)

  -- The targets that pass the validation name buffers that are there.
  validate_targets-Names :
      (nodes : Managers) (values : Buffers Tensor) (shape : List ℕ) (dtype : Dtype)
      (targets : List String)
      → validate_targets rt nodes values shape dtype targets ≡ ok tt
      → All (Names (IsStored values)) targets
  unfolding validate_targets
  validate_targets-Names nodes values shape dtype [] h = tt
  validate_targets-Names nodes values shape dtype (target ∷ targets) h =
      let (slot, splits, h₁) = >>=-eq-ok (split_key target) _ h in
      let (_, _, h₂) = >>=-eq-ok (present rt (get slot.0 nodes)) _ h₁ in
      let (tensor, there, h₃) = >>=-eq-ok (present rt (peek slot values)) _ h₂ in
      let (_, _, h₄) =
        >>=-eq-ok (validate_edge ⦃e = dtype_eq⦄ shape dtype (shape_of tensor) (dtype_of tensor)) _
          h₃ in
      (
        λ other e.
            subst (IsStored values) (ok-injective (sym splits ∙ e))
              (tensor, present-eq-ok (peek slot values) there),
        validate_targets-Names nodes values shape dtype targets h₄,
      )

  pub validate_flows-Names :
      (nodes : Managers) (values : Buffers Tensor) (flow : Flow)
      → validate_flows rt nodes values flow ≡ ok tt
      → All (λ e. All (Names (IsStored values)) e.1) flow
  unfolding validate_flows
  validate_flows-Names nodes values [] h = tt
  validate_flows-Names nodes values ((source, targets) ∷ flow) h =
      let (from, _, h₁) = >>=-eq-ok (split_key source) _ h in
      let (node, _, h₂) = >>=-eq-ok (present rt (get from.0 nodes)) _ h₁ in
      let (desc, _, h₃) = >>=-eq-ok (present rt (first_named rt from.1 node.outputs)) _ h₂ in
      let (dtype, _, h₄) = >>=-eq-ok (map_to_torch_dtype torch_dtypes desc.dtype) _ h₃ in
      let (_, checked, h₅) =
        >>=-eq-ok (validate_targets rt nodes values desc.shape dtype targets) _ h₄ in
      (
        validate_targets-Names nodes values desc.shape dtype targets checked,
        validate_flows-Names nodes values flow h₅,
      )

  -- A slot of the output cache that is there.
  abbrev pub IsCached : Dict String Tensor → Slot → Type 0
  IsCached cache slot = (slot.0 ≡ out_slot) × ((v : Tensor) × (get slot.1 cache ≡ some v))

  -- Each slot is cached, or meets the first statement.
  abbrev pub EitherSlot : (Slot → Type 0) → Dict String Tensor → Slot → Type 0
  EitherSlot Q cache slot = Q slot ⊎ IsCached cache slot

  get-put-some :
      (k j : String) (w : Tensor) (cache : Dict String Tensor)
      → ((v : Tensor) × (get j cache ≡ some v))
      → (v : Tensor) × (get j (put k w cache) ≡ some v)
  get-put-some k j w cache (v, h) = elim (Bool-cases (k == j)) [
    | inl same ↦ (w, get-put k j w cache ∙ rw same refl)
    | inr other ↦ (v, get-put k j w cache ∙ rw other h)
  ]

  All-mono :
      {A : Type 0} (P Q : A → Type 0) (xs : List A) → ((a : A) → P a → Q a) → All P xs → All Q xs
  All-mono P Q [] f h = tt
  All-mono P Q (x ∷ xs) f h = (f x h.0, All-mono P Q xs f h.1)

  pub AllSlots-mono :
      (P Q : Slot → Type 0) (routes : Routes)
      → ((s : Slot) → P s → Q s)
      → AllSlots P routes
      → AllSlots Q routes
  AllSlots-mono P Q routes f h =
      All-mono (λ e. All (λ r. All P r.1) e.1) (λ e. All (λ r. All Q r.1) e.1) routes
        (λ e. All-mono (λ r. All P r.1) (λ r. All Q r.1) e.1 (λ r. All-mono P Q r.1 f)) h

  either-put :
      (Q : Slot → Type 0) (k : String) (w : Tensor) (cache : Dict String Tensor) (slot : Slot)
      → EitherSlot Q cache slot
      → EitherSlot Q (put k w cache) slot
  either-put Q k w cache slot (inl q) = inl q
  either-put Q k w cache slot (inr (e, h)) = inr (e, get-put-some k slot.1 w cache h)

  route_outputs-EitherSlot :
      (Q : Slot → Type 0) (node : String) (descs : Dict String TensorInfo) (outputs : List String)
      (routes : Routes) (cache : Dict String Tensor) {state : Routes × Dict String Tensor}
      → route_outputs rt node descs outputs (routes, cache) ≡ ok state
      → AllSlots (EitherSlot Q cache) routes
      → AllSlots (EitherSlot Q state.1) state.0
  unfolding route_outputs
  route_outputs-EitherSlot Q node descs [] routes cache h a =
      subst (λ (s : Routes × Dict String Tensor). AllSlots (EitherSlot Q s.1) s.0) (ok-injective h)
        a
  route_outputs-EitherSlot Q node descs (o ∷ outputs) routes cache h a =
      let (desc, _, h₁) = >>=-eq-ok (found (get o descs)) _ h in
      let (dtype, _, h₂) = >>=-eq-ok (map_to_torch_dtype torch_dtypes desc.dtype) _ h₁ in
      let key = port_key node o in
      let w = zeros desc.shape dtype in
      route_outputs-EitherSlot Q node descs outputs (add_route node o (out_slot, key) routes)
        (put key w cache) h₂
        (add_route-AllSlots (EitherSlot Q (put key w cache)) node o (out_slot, key) routes
          (inr (refl, (w, get-put key key w cache ∙ rw (beq_self key) refl)))
          (AllSlots-mono (EitherSlot Q cache) (EitherSlot Q (put key w cache)) routes
            (either-put Q key w cache) a))

  pub route_all_outputs-EitherSlot :
      (Q : Slot → Type 0) (nodes : Managers) (outputs : Flow) (routes : Routes)
      (cache : Dict String Tensor) {state : Routes × Dict String Tensor}
      → route_all_outputs rt nodes outputs (routes, cache) ≡ ok state
      → AllSlots (EitherSlot Q cache) routes
      → AllSlots (EitherSlot Q state.1) state.0
  unfolding route_all_outputs
  route_all_outputs-EitherSlot Q nodes [] routes cache h a =
      subst (λ (s : Routes × Dict String Tensor). AllSlots (EitherSlot Q s.1) s.0) (ok-injective h)
        a
  route_all_outputs-EitherSlot Q nodes ((name, outs) ∷ rest) routes cache h a =
      let (node, _, h₁) = >>=-eq-ok (found (get name nodes)) _ h in
      let (mid, first, h₂) =
        >>=-eq-ok (route_outputs rt name (described node.outputs []) outs (routes, cache)) _ h₁ in
      route_all_outputs-EitherSlot Q nodes rest mid.0 mid.1 h₂
        (route_outputs-EitherSlot Q name (described node.outputs []) outs routes cache first a)
