-- ===== src/Inference/Routing/Buffered.antt =====
-- Every input of every node has a buffer, and a validated graph has a buffer for every target.
use leapp.Common.{
  String, string_eq, ◌≡◌, refl, sym, ap, subst, ◌∙◌, some, List, [], ◌∷◌, Bool, true, false, arith,
  ◌==◌, Dict, get, put, get-put, keys, contains, All, In, inl, inr, ◌⊎◌, or_else, Bool-cases,
  Distinct, beq_self, absent-cons,
}
use leapp.Common.Result.{ok, value_error, raise_if, >>=-eq-ok, ok-injective}
use leapp.Inference.{Runtime, TensorInfo, NodeManager, Managers, Slot, Buffers, Routes, peek}
use leapp.Inference.Run.{names_of}
use leapp.Inference.Routing.{
  map_to_torch_dtype, mock_from, preallocate, is_missing, validate_output_routing,
}
use leapp.Inference.Routing.Slots.{IsStored}

module _ (rt : Runtime) where
  open rt use {Tensor, torch_dtypes, zeros}

  HasBuffer : String → Dict String Tensor → Type 0
  HasBuffer i buffer = (v : Tensor) × (get i buffer ≡ some v)

  put-HasBuffer :
      (i k : String) (w : Tensor) (buffer : Dict String Tensor)
      → (i ≡ k) ⊎ HasBuffer i buffer
      → HasBuffer i (put k w buffer)
  unfolding HasBuffer
  put-HasBuffer i k w buffer h = elim (Bool-cases (k == i)) [
    | inl same ↦ (w, get-put k i w buffer ∙ rw same refl)
    | inr other ↦ elim h [
      | inl e ↦ absurd (cc (rw (sym e, beq_self i) at other))
      | inr (v, there) ↦ (v, get-put k i w buffer ∙ rw other there)
    ]
  ]

  mock_from-keeps :
      (infos : List TensorInfo) (buffer : Dict String Tensor) (i : String)
      {buffer' : Dict String Tensor}
      → mock_from rt infos buffer ≡ ok buffer'
      → HasBuffer i buffer
      → HasBuffer i buffer'
  unfolding mock_from
  mock_from-keeps [] buffer i h b = subst (HasBuffer i) (ok-injective h) b
  mock_from-keeps (t ∷ infos) buffer i h b =
      let (dtype, _, h₁) = >>=-eq-ok (map_to_torch_dtype torch_dtypes t.dtype) _ h in
      mock_from-keeps infos (put t.name (zeros t.shape dtype) buffer) i h₁
        (put-HasBuffer i t.name (zeros t.shape dtype) buffer (inr b))

  mock_from-HasBuffer :
      (infos : List TensorInfo) (buffer : Dict String Tensor) (i : String)
      {buffer' : Dict String Tensor}
      → mock_from rt infos buffer ≡ ok buffer'
      → In i (names_of infos)
      → HasBuffer i buffer'
  unfolding mock_from
  mock_from-HasBuffer [] buffer i h m = elim m [ ]
  mock_from-HasBuffer (t ∷ infos) buffer i h m =
      let (dtype, _, h₁) = >>=-eq-ok (map_to_torch_dtype torch_dtypes t.dtype) _ h in
      elim m [
        | inl e ↦
            mock_from-keeps infos (put t.name (zeros t.shape dtype) buffer) i h₁
              (put-HasBuffer i t.name (zeros t.shape dtype) buffer (inl e))
        | inr there ↦ mock_from-HasBuffer infos (put t.name (zeros t.shape dtype) buffer) i h₁ there
      ]

  -- Every input of the node has a buffer.
  abbrev pub IsBuffered : Buffers Tensor → String × NodeManager → Type 0
  IsBuffered values (name, node) =
      (i : String) → In i (names_of node.inputs) → IsStored rt values (name, i)

  pub peek-put_other :
      (name : String) (i : String) (k : String) (buffer : Dict String Tensor)
      (values : Buffers Tensor)
      → (k == name) ≡ false
      → peek (name, i) (put k buffer values) ≡ peek (name, i) values
  unfolding peek
  peek-put_other name i k buffer values h = rw get-put (rw h refl)

  pub peek-put_same :
      (name : String) (i : String) (buffer : Dict String Tensor) (values : Buffers Tensor)
      → peek (name, i) (put name buffer values) ≡ get i buffer
  unfolding peek
  peek-put_same name i buffer values = rw get-put (rw beq_self refl)

  preallocate-other :
      (nodes : Managers) (values : Buffers Tensor) (name i : String) {values' : Buffers Tensor}
      → contains (keys nodes) name ≡ false
      → preallocate rt nodes values ≡ ok values'
      → peek (name, i) values' ≡ peek (name, i) values
  unfolding preallocate
  preallocate-other [] values name i a h = ap (peek (name, i)) (sym (ok-injective h))
  preallocate-other ((k, node) ∷ nodes) values name i a h =
      let (buffer, _, h₁) = >>=-eq-ok (mock_from rt node.inputs []) _ h in
      let (other, absent) = absent-cons name k (keys nodes) a in
      preallocate-other nodes (put k buffer values) name i absent h₁
      ∙ peek-put_other name i k buffer values other

  pub preallocate-IsBuffered :
      (nodes : Managers) (values : Buffers Tensor) {values' : Buffers Tensor}
      → Distinct (keys nodes)
      → preallocate rt nodes values ≡ ok values'
      → All (IsBuffered values') nodes
  unfolding preallocate HasBuffer
  preallocate-IsBuffered [] values d h = tt
  preallocate-IsBuffered ((name, node) ∷ nodes) values d h =
      let (buffer, mocked, h₁) = >>=-eq-ok (mock_from rt node.inputs []) _ h in
      (
        λ i m.
            let (v, there) = mock_from-HasBuffer node.inputs [] i mocked m in
            (
              v,
              preallocate-other nodes (put name buffer values) name i d.0 h₁
                  ∙ peek-put_same name i buffer values
                  ∙ there,
            ),
        preallocate-IsBuffered nodes (put name buffer values) d.1 h₁,
      )

  -- Every output of the node has an entry in the routes.
  abbrev pub IsRouted : Routes → String × NodeManager → Type 0
  IsRouted routes (name, node) =
      (o : String)
      → In o (names_of node.outputs)
      → contains (keys (or_else (get name routes) [])) o ≡ true

  none_missing :
      (routes : Dict String (List Slot)) (outputs : List String) (o : String)
      → is_missing rt routes outputs ≡ false
      → In o outputs
      → contains (keys routes) o ≡ true
  none_missing routes [] o h m = elim m [ ]
  none_missing routes (p ∷ outputs) o h m = elim (Bool-cases (contains (keys routes) p)) [
    | inl there ↦ elim m [
      | inl e ↦ rw e there
      | inr rest ↦ none_missing routes outputs o (rw there at h) rest
    ]
    | inr absent ↦ absurd (cc (rw absent at h))
  ]

  raise_if-ok : (b : Bool) → raise_if b value_error ≡ ok tt → b ≡ false
  raise_if-ok b h = ground arith

  pub validate_output_routing-IsRouted :
      (nodes : Managers) (routes : Routes)
      → validate_output_routing rt nodes routes ≡ ok tt
      → All (IsRouted routes) nodes
  unfolding validate_output_routing
  validate_output_routing-IsRouted [] routes h = tt
  validate_output_routing-IsRouted ((name, node) ∷ nodes) routes h =
      let (_, passed, h₁) =
        >>=-eq-ok
          (raise_if (is_missing rt (or_else (get name routes) []) (names_of node.outputs))
            value_error)
          _ h in
      (
        λ o m.
            none_missing (or_else (get name routes) []) (names_of node.outputs) o
              (raise_if-ok _ passed) m,
        validate_output_routing-IsRouted nodes routes h₁,
      )
