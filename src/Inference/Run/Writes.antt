-- ===== src/Inference/Run/Writes.antt =====
-- What a node's run writes, as a list of buffers with their new values.
use leapp.Common.{
  ℕ, suc, String, string_eq, nat_eq, pair_eq, ◌≡◌, refl, sym, ap, subst, ◌∙◌, some, List, [], ◌∷◌,
  ◌++◌, false, arith, ◌==◌, if◌then◌else◌, or_else, Dict, get, put, get-put, keys, contains,
  Distinct, inl, inr, Bool-cases, Option-cases, absent-cons, eq_of_beq,
}
use leapp.Common.Result.{Result, ok, ◌>>=◌, >>=-eq-ok, ok-injective, Result-cases}
use leapp.Inference.{Runtime, Slot, Buffers, inner, peek, stored, store}
use leapp.Inference.Run.{handed, deliver, route}

module _ {T : Type 0} where
  stored_peek :
      (n i m j : String) (v : T) (values : Buffers T) {values' : Buffers T}
      → stored (n, i) v values (get n values) ≡ ok values'
      → inner j (get m values') ≡ (
          if n == m
          then (if i == j then some v else inner j (get m values))
          else inner j (get m values))
  stored_peek n i m j v values {values'} h = elim (Option-cases (get n values)) [
    | inl missing ↦ absurd (cc (rw missing at h))
    | inr (buffer, there) ↦
        let e : put n (put i v buffer) values ≡ values' = ok-injective (rw there at h) in
        rw (← e) (
          ground (
            arith,
            there,
            get-put n m (put i v buffer) values,
            get-put i j v buffer,
            string_eq.beq_iff n m,
          ))
  ]

  -- A store changes the one buffer.
  pub peek-store :
      (s t : Slot) (v : T) (values : Buffers T) {values' : Buffers T}
      → store s v values ≡ ok values'
      → peek t values' ≡ (if s == t then some v else peek t values)
  unfolding store peek
  peek-store (n, i) (m, j) v values h = stored_peek n i m j v values h ∙ ground arith

  -- Stores, one after the other.
  unfoldable pub store_all : Dict Slot T → Buffers T → Result (Buffers T)
  store_all [] values = ok values
  store_all ((s, v) ∷ writes) values = do values' ← store s v values; store_all writes values'

  pub store_all-append :
      (xs ys : Dict Slot T) (values : Buffers T)
      → store_all (xs ++ ys) values ≡ (store_all xs values >>= store_all ys)
  unfolding store_all
  store_all-append [] ys values = refl
  store_all-append ((s, v) ∷ xs) ys values = elim (Result-cases (store s v values)) [
    | inl (values', stored_ok) ↦ rw stored_ok (store_all-append xs ys values')
    | inr (e, failed) ↦ rw failed refl
  ]

  -- A buffer that is not written keeps its value.
  pub peek-store_all_other :
      (writes : Dict Slot T) (t : Slot) (values : Buffers T) {values' : Buffers T}
      → contains (keys writes) t ≡ false
      → store_all writes values ≡ ok values'
      → peek t values' ≡ peek t values
  unfolding store_all
  peek-store_all_other [] t values h e = ap (peek t) (sym (ok-injective e))
  peek-store_all_other ((s, v) ∷ writes) t values h e =
      let (mid, first, rest) = >>=-eq-ok (store s v values) (store_all writes) e in
      let (other, absent) = absent-cons t s (keys writes) h in
      peek-store_all_other writes t mid absent rest ∙ peek-store s t v values first ∙ rw other refl

  -- If no buffer is written twice, each one holds what is written to it.
  pub peek-store_all :
      (writes : Dict Slot T) (t : Slot) (v : T) (values : Buffers T) {values' : Buffers T}
      → Distinct (keys writes)
      → get t writes ≡ some v
      → store_all writes values ≡ ok values'
      → peek t values' ≡ some v
  unfolding store_all get
  peek-store_all [] t v values d at e = absurd (cc at)
  peek-store_all ((s, w) ∷ writes) t v values d at e =
      let (mid, first, rest) = >>=-eq-ok (store s w values) (store_all writes) e in
      elim (Bool-cases (s == t)) [
        | inl here ↦
            let same : s ≡ t = eq_of_beq s t here in
            peek-store_all_other writes t mid
              (subst (λ x. contains (keys writes) x ≡ false) same d.0) rest
            ∙ peek-store s t w values first
            ∙ rw here (rw here at at)
        | inr other ↦ peek-store_all writes t v mid d.1 (rw other at at) rest
      ]

module _ (rt : Runtime) where
  open rt use {Tensor}

  -- The writes of `deliver`.
  unfoldable pub delivered : ℕ → List Slot → Tensor → Dict Slot Tensor
  delivered i [] v = []
  delivered i (slot ∷ targets) v = (slot, handed rt i v) ∷ delivered (suc i) targets v

  deliver-store_all :
      (i : ℕ) (targets : List Slot) (v : Tensor) (values : Buffers Tensor)
      → deliver rt i targets v values ≡ store_all (delivered i targets v) values
  unfolding deliver delivered store_all
  deliver-store_all i [] v values = refl
  deliver-store_all i (slot ∷ targets) v values =
      elim (Result-cases (store slot (handed rt i v) values)) [
        | inl (values', stored_ok) ↦ rw stored_ok (deliver-store_all (suc i) targets v values')
        | inr (e, failed) ↦ rw failed refl
      ]

  -- The writes of `route`, where each output has an entry.
  unfoldable pub routed : Dict String (List Slot) → List String → List Tensor → Dict Slot Tensor
  routed routes [] outputs = []
  routed routes (o ∷ order) [] = []
  routed routes (o ∷ order) (v ∷ outputs) =
      delivered 0 (or_else (get o routes) []) v ++ routed routes order outputs

  -- A run of `route` that ends stores its writes.
  pub route-store_all :
      (routes : Dict String (List Slot)) (order : List String) (outputs : List Tensor)
      (values : Buffers Tensor) {values' : Buffers Tensor}
      → route rt routes order outputs values ≡ ok values'
      → store_all (routed routes order outputs) values ≡ ok values'
  unfolding route routed store_all
  route-store_all routes [] outputs values h = h
  route-store_all routes (o ∷ order) [] values h = h
  route-store_all routes (o ∷ order) (v ∷ outputs) values h = elim (Option-cases (get o routes)) [
    | inl missing ↦ absurd (cc (rw missing at h))
    | inr (targets, there) ↦
        let (mid, first, rest) =
          >>=-eq-ok (deliver rt 0 targets v values) (route rt routes order outputs)
            (rw there at h) in
        rw (store_all-append, there, ← deliver-store_all, first)
          (route-store_all routes order outputs mid rest)
  ]
