-- ===== src/Common/Dicts.antt =====
-- Python's `dict`: an association list in insertion order. Writing a present key keeps its place.
use mathlib.Core.Path.{◌≡◌, refl, sym, ap, subst, ◌∙◌}
use mathlib.Core.Logic.{◌⊎◌, inl, inr}
use mathlib.Core.Bool.{Bool, true, false, ◌||◌}
use mathlib.Core.List.{List, [], ◌∷◌}
use mathlib.Core.Option.{Option, none, some}
use native.Mathlib.Omega.{arith}
use leapp.Common.Tests.{Eq, ◌==◌, if◌then◌else◌, beq_self, eq_of_beq, Bool-cases}
use leapp.Common.Lists.{In-of_contains, contains_of_In, contains, In, Distinct, All}

abbrev pub Dict : Type 0 → Type 0 → Type 0
Dict K V = List (K × V)

abbrev pub keys : {K V : Type 0} → Dict K V → List K
keys [] = []
keys ((k, v) ∷ d) = k ∷ keys d

abbrev pub values : {K V : Type 0} → Dict K V → List V
values [] = []
values ((k, v) ∷ d) = v ∷ values d

abbrev pub or_else : {V : Type 0} → Option V → V → V
or_else none d = d
or_else (some v) d = v

module _ {K V : Type 0} ⦃e : Eq K⦄ where
  -- `d.get(k)`
  unfoldable pub get : K → Dict K V → Option V
  get k [] = none
  get k ((j, v) ∷ d) = if j == k then some v else get k d

  -- `d.setdefault(k, init)`, then the value under `k` is changed by `f`.
  unfoldable pub upsert : K → V → (V → V) → Dict K V → Dict K V
  upsert k init f [] = (k, f init) ∷ []
  upsert k init f ((j, v) ∷ d) = if j == k then (j, f v) ∷ d else (j, v) ∷ upsert k init f d

  -- `d[k] = v`
  unfoldable pub put : K → V → Dict K V → Dict K V
  put k v = upsert k v (λ _. v)

  -- `k in d`
  abbrev pub has : K → Dict K V → Bool
  has k d = contains (keys d) k

  pub get-upsert :
      (k j : K) (init : V) (f : V → V) (d : Dict K V)
      → get j (upsert k init f d) ≡ (if k == j then some (f (or_else (get j d) init)) else get j d)
  unfolding get upsert
  get-upsert k j init f [] = ground arith
  get-upsert k j init f ((i, v) ∷ d) =
      ground (arith, e.beq_iff k j, e.beq_iff i k, e.beq_iff i j, get-upsert k j init f d)

  pub get-put :
      (k j : K) (v : V) (d : Dict K V) → get j (put k v d) ≡ (if k == j then some v else get j d)
  unfolding put
  get-put k j v d = get-upsert k j v (λ _. v) d

  pub get-put_self : (k : K) (v : V) (d : Dict K V) → get k (put k v d) ≡ some v
  get-put_self k v d = ground (arith, get-put k k v d, beq_self k)

  pub contains-keys-upsert :
      (k j : K) (init : V) (f : V → V) (d : Dict K V)
      → contains (keys (upsert k init f d)) j ≡ ((j == k) || contains (keys d) j)
  unfolding upsert
  contains-keys-upsert k j init f [] = ground arith
  contains-keys-upsert k j init f ((i, v) ∷ d) =
      ground (arith, e.beq_iff j k, e.beq_iff i k, e.beq_iff j i, contains-keys-upsert k j init f d)

  pub Distinct-keys-upsert :
      (k : K) (init : V) (f : V → V) (d : Dict K V)
      → Distinct (keys d)
      → Distinct (keys (upsert k init f d))
  unfolding upsert
  Distinct-keys-upsert k init f [] h = (refl, tt)
  Distinct-keys-upsert k init f ((i, v) ∷ d) h =
      ground (
        arith,
        e.beq_iff i k,
        contains-keys-upsert k i init f d,
        Distinct-keys-upsert k init f d h.1,
      )

  pub get_iff_has : (k : K) (d : Dict K V) → (get k d ≡ none) → has k d ≡ false
  unfolding get
  get_iff_has k [] h = refl
  get_iff_has k ((j, v) ∷ d) h = ground (arith, e.beq_iff j k, e.beq_iff k j, get_iff_has k d)

  -- What is found under a key is an entry.
  pub In-of_get : (k : K) (v : V) (d : Dict K V) → get k d ≡ some v → In (k, v) d
  unfolding get
  In-of_get k v [] h = ground arith
  In-of_get k v ((j, w) ∷ d) h = ground (arith, e.beq_iff j k, In-of_get k v d)

  pub contains_of_entry : (k : K) (v : V) (d : Dict K V) → In (k, v) d → contains (keys d) k ≡ true
  contains_of_entry k v [] h = elim h [ ]
  contains_of_entry k v ((j, w) ∷ d) (inl p) = ground (arith, e.beq_iff k j)
  contains_of_entry k v ((j, w) ∷ d) (inr m) = ground (arith, contains_of_entry k v d m)

  pub In-values : (k : K) (v : V) (d : Dict K V) → get k d ≡ some v → In v (values d)
  unfolding get
  In-values k v [] h = ground arith
  In-values k v ((j, w) ∷ d) h = ground (arith, In-values k v d)

  -- With distinct keys every entry is what its key finds.
  pub get_of_In :
      (k : K) (v : V) (d : Dict K V) → Distinct (keys d) → In (k, v) d → get k d ≡ some v
  unfolding get
  get_of_In k v [] h m = elim m [ ]
  get_of_In k v ((j, w) ∷ d) h (inl p) = ground (arith, e.beq_iff j k)
  get_of_In k v ((j, w) ∷ d) h (inr m) =
      ground (arith, e.beq_iff j k, contains_of_entry k v d m, get_of_In k v d h.1 m)

  pub get_of_has : (k : K) (d : Dict K V) → has k d ≡ true → (v : V) × (get k d ≡ some v)
  unfolding get
  get_of_has k [] h = absurd (cc h)
  get_of_has k ((j, v) ∷ d) h = elim (Bool-cases (j == k)) [
    | inl same ↦ (v, rw same refl)
    | inr other ↦
        let (w, found) = get_of_has k d (ground (arith, e.beq_iff j k, e.beq_iff k j)) in
        (w, rw other found)
  ]

  pub All-upsert :
      (P : K × V → Type 0) (k : K) (init : V) (f : V → V) (d : Dict K V)
      → P (k, f init)
      → ((v : V) → P (k, v) → P (k, f v))
      → All P d
      → All P (upsert k init f d)
  unfolding upsert
  All-upsert P k init f [] p step h = (p, tt)
  All-upsert P k init f ((j, v) ∷ d) p step h = elim (Bool-cases (j == k)) [
    | inl same ↦
        let q : j ≡ k = eq_of_beq j k same in
        rw same (subst (λ i. P (i, f v)) (sym q) (step v (subst (λ i. P (i, v)) q h.0)), h.1)
    | inr other ↦ rw other (h.0, All-upsert P k init f d p step h.1)
  ]

  -- A dictionary display, or `update`: each pair is written, in order.
  unfoldable pub put_all : List (K × V) → Dict K V → Dict K V
  put_all [] d = d
  put_all ((k, v) ∷ pairs) d = put_all pairs (put k v d)

  holds_either :
      (k j : K) (d : Dict K V) → (j ≡ k) ⊎ In j (keys d) → ((j == k) || contains (keys d) j) ≡ true
  holds_either k j d (inl same) = ground (arith, e.beq_iff j k)
  holds_either k j d (inr m) = ground (arith, contains_of_In j (keys d) m)

  either_holds :
      (k j : K) (d : Dict K V) → ((j == k) || contains (keys d) j) ≡ true → (j ≡ k) ⊎ In j (keys d)
  either_holds k j d h = elim (Bool-cases (j == k)) [
    | inl same ↦ inl (eq_of_beq j k same)
    | inr other ↦ inr (In-of_contains j (keys d) (rw other at h))
  ]

  pub In-keys-put :
      (k j : K) (v : V) (d : Dict K V) → (j ≡ k) ⊎ In j (keys d) → In j (keys (put k v d))
  unfolding put
  In-keys-put k j v d h =
      In-of_contains j (keys (upsert k v (λ _. v) d))
        (contains-keys-upsert k j v (λ _. v) d ∙ holds_either k j d h)

  pub In-of_keys-put :
      (k j : K) (v : V) (d : Dict K V) → In j (keys (put k v d)) → (j ≡ k) ⊎ In j (keys d)
  unfolding put
  In-of_keys-put k j v d m = either_holds k j d (
      sym (contains-keys-upsert k j v (λ _. v) d)
      ∙ contains_of_In j (keys (upsert k v (λ _. v) d)) m)

  -- The keys that a display has.
  pub In-keys-put_all :
      (j : K) (pairs : List (K × V)) (d : Dict K V)
      → In j (keys pairs) ⊎ In j (keys d)
      → In j (keys (put_all pairs d))
  unfolding put_all
  In-keys-put_all j [] d (inl m) = absurd m
  In-keys-put_all j [] d (inr m) = m
  In-keys-put_all j ((k, v) ∷ pairs) d (inl (inl e)) =
      In-keys-put_all j pairs (put k v d) (inr (In-keys-put k j v d (inl e)))
  In-keys-put_all j ((k, v) ∷ pairs) d (inl (inr m)) = In-keys-put_all j pairs (put k v d) (inl m)
  In-keys-put_all j ((k, v) ∷ pairs) d (inr m) =
      In-keys-put_all j pairs (put k v d) (inr (In-keys-put k j v d (inr m)))

  pub In-of_keys-put_all :
      (j : K) (pairs : List (K × V)) (d : Dict K V)
      → In j (keys (put_all pairs d))
      → In j (keys pairs) ⊎ In j (keys d)
  unfolding put_all
  In-of_keys-put_all j [] d m = inr m
  In-of_keys-put_all j ((k, v) ∷ pairs) d m = elim (In-of_keys-put_all j pairs (put k v d) m) [
    | inl here ↦ inl (inr here)
    | inr there ↦ elim (In-of_keys-put k j v d there) [ inl e ↦ inl (inl e) | inr old ↦ inr old ]
  ]

  -- A key that is there is found.
  pub get_of_key : (k : K) (d : Dict K V) → In k (keys d) → (v : V) × (get k d ≡ some v)
  get_of_key k d m = get_of_has k d (contains_of_In k (keys d) m)

pub In-keys_of_entry : {K V : Type 0} (k : K) (v : V) (d : Dict K V) → In (k, v) d → In k (keys d)
In-keys_of_entry k v [] m = m
In-keys_of_entry k v ((j, w) ∷ d) (inl e) = inl (ap (λ (p : _ × _). p.0) e)
In-keys_of_entry k v ((j, w) ∷ d) (inr m) = inr (In-keys_of_entry k v d m)

pub entry_of_key : {K V : Type 0} (k : K) (d : Dict K V) → In k (keys d) → (v : V) × In (k, v) d
entry_of_key k [] m = absurd m
entry_of_key k ((j, w) ∷ d) (inl e) = (w, inl (ap (λ i. (i, w)) e))
entry_of_key k ((j, w) ∷ d) (inr m) = let (v, h) = entry_of_key k d m in (v, inr h)
