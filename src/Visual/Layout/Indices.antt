-- ===== src/Visual/Layout/Indices.antt =====
-- The indices by which the layout hands the edges to fast_sugiyama.
use leapp.Common.{
  ℕ, suc, ◌+◌, nat_eq, arith, String, string_eq, ◌≡◌, ◌↔◌, ◌⊎◌, inl, inr, refl, sym, subst, ◌∙◌,
  some, List, [], ◌∷◌, Dict, keys, put_all, get_elem?, In, In-keys-put_all, In-of_get, get_of_key,
  All, All-at, All-upsert, put,
}
use leapp.Common.Result.{ok, traverse, ok-injective, traverse_total, In-traverse, In-of_traverse}
use leapp.Visual.{VisualEdge}
use leapp.Visual.Floats.{look}
use leapp.Visual.Layout.{indices_from, id_to_index, edge_pair}

-- What the layout relies on: fast_sugiyama has a position for each vertex of an edge and for
-- nothing else.
pub record IsSugiyama {R : Type 0} (sugiyama : List (ℕ × ℕ) → Dict ℕ (R × R)) : Type 0 where
  pub places_source :
      (pairs : List (ℕ × ℕ)) (p : ℕ × ℕ) → In p pairs → In p.0 (keys (sugiyama pairs))
  pub places_target :
      (pairs : List (ℕ × ℕ)) (p : ℕ × ℕ) → In p pairs → In p.1 (keys (sugiyama pairs))
  pub only_vertices :
      (pairs : List (ℕ × ℕ)) (i : ℕ)
      → In i (keys (sugiyama pairs))
      → (p : ℕ × ℕ) × In p pairs × ((i ≡ p.0) ⊎ (i ≡ p.1))

-- The dictionary has just these keys.
abbrev pub HasKeys : {A : Type 0} → List String → Dict String A → Type 0
HasKeys ids d = (id : String) → In id ids ↔ In id (keys d)

abbrev IsAt : List String → String × ℕ → Type 0
IsAt ids entry = get_elem? ids entry.1 ≡ some entry.0

indices_from-IsAt :
    (ids rest : List String) (i : ℕ)
    → ((j : ℕ) (s : String) → get_elem? rest j ≡ some s → get_elem? ids (i + j) ≡ some s)
    → All (IsAt ids) (indices_from i rest)
indices_from-IsAt ids [] i h = tt
indices_from-IsAt ids (s ∷ rest) i h = (
  subst (λ n. get_elem? ids n ≡ some s) (omega arith) (h 0 s refl),
  indices_from-IsAt ids rest (suc i)
      (λ j t at. subst (λ n. get_elem? ids n ≡ some t) (omega arith) (h (suc j) t at)),
)

put_all-IsAt :
    (ids : List String) (pairs : List (String × ℕ)) (d : Dict String ℕ)
    → All (IsAt ids) pairs
    → All (IsAt ids) d
    → All (IsAt ids) (put_all pairs d)
unfolding put_all put
put_all-IsAt ids [] d h k = k
put_all-IsAt ids ((s, i) ∷ pairs) d h k =
    put_all-IsAt ids pairs (put s i d) h.1 (All-upsert (IsAt ids) s i (λ _. i) d h.0 (λ _ _. h.0) k)

In-keys-indices :
    (s : String) (ids : List String) (i : ℕ) → In s ids → In s (keys (indices_from i ids))
In-keys-indices s [] i m = m
In-keys-indices s (t ∷ ids) i (inl e) = inl e
In-keys-indices s (t ∷ ids) i (inr m) = inr (In-keys-indices s ids (suc i) m)

-- The index of a thing leads back to it.
pub index_of :
    (s : String) (ids : List String)
    → In s ids
    → (i : ℕ) × (look s (id_to_index ids) ≡ ok i) × (get_elem? ids i ≡ some s)
unfolding id_to_index
index_of s ids m =
    let d = id_to_index ids in
    let (i, found) =
      get_of_key s d
        (In-keys-put_all s (indices_from 0 ids) [] (inl (In-keys-indices s ids 0 m))) in
    (
      i,
      rw found refl,
      All-at (IsAt ids) (s, i) d
          (put_all-IsAt ids (indices_from 0 ids) []
            (indices_from-IsAt ids ids 0
              (λ j t at. subst (λ n. get_elem? ids n ≡ some t) (omega arith) at))
            tt)
          (In-of_get s i d found),
    )

-- Both ends of a pair are indices of things.
abbrev IsPair : List String → ℕ × ℕ → Type 0
IsPair ids p =
    ((s : String) × (get_elem? ids p.0 ≡ some s)) × ((s : String) × (get_elem? ids p.1 ≡ some s))

edge_pair-IsPair :
    (ids : List String) (e : VisualEdge)
    → In e.source_id ids
    → In e.target_id ids
    → (p : ℕ × ℕ) × (edge_pair (id_to_index ids) e ≡ ok p) × IsPair ids p
unfolding edge_pair
edge_pair-IsPair ids e hs ht =
    let (i, at_i, back_i) = index_of e.source_id ids hs in
    let (j, at_j, back_j) = index_of e.target_id ids ht in
    ((i, j), rw (at_i, at_j) refl, ((e.source_id, back_i), (e.target_id, back_j)))

-- The pairs of the edges are pairs of indices, and there is one.
pub pairs_of_edges :
    (ids : List String) (e : VisualEdge) (es : List VisualEdge)
    → ((d : VisualEdge) → In d (e ∷ es) → In d.source_id ids × In d.target_id ids)
    → (pairs : List (ℕ × ℕ)) × (traverse (edge_pair (id_to_index ids)) (e ∷ es) ≡ ok pairs)
      × ((p : ℕ × ℕ) → In p pairs → IsPair ids p)
      × ((p : ℕ × ℕ) × In p pairs)
pairs_of_edges ids e es ends =
    let one : (d : VisualEdge)
        → In d (e ∷ es)
        → (p : ℕ × ℕ) × (edge_pair (id_to_index ids) d ≡ ok p) × IsPair ids p =
      λ d m. edge_pair-IsPair ids d (ends d m).0 (ends d m).1 in
    let (pairs, made) =
      traverse_total (edge_pair (id_to_index ids)) (e ∷ es)
        (λ d m. let (p, at, _) = one d m in (p, at)) in
    let (first, at_first, _) = one e (inl refl) in
    (
      pairs,
      made,
      (λ p m.
          let (d, md, at) = In-of_traverse (edge_pair (id_to_index ids)) (e ∷ es) p made m in
          let (q, at_q, pair) = one d md in subst (IsPair ids) (ok-injective (sym at_q ∙ at)) pair),
      (first, In-traverse (edge_pair (id_to_index ids)) (e ∷ es) e first made (inl refl) at_first),
    )
