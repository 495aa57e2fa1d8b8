-- ===== src/Visual/Geometry/Spread/Layers.antt =====
-- The layers that `_expand_layout_centers` (geometry.py) groups things in.
use leapp.Common.{
  Eq, String, string_eq, ◌≡◌, ◌⊎◌, inl, inr, refl, sym, ap, subst, List, [], ◌∷◌, ◌++◌, ◌==◌,
  Bool-cases, Dict, upsert, In, In-append_left, In-append_right, In-append_split,
}

-- The things of all layers.
abbrev pub flat : {K : Type 0} → Dict K (List String) → List String
flat [] = []
flat ((k, ids) ∷ layers) = ids ++ flat layers

pub In-flat :
    {K : Type 0} (k : K) (ids : List String) (layers : Dict K (List String)) (s : String)
    → In (k, ids) layers
    → In s ids
    → In s (flat layers)
In-flat k ids [] s m h = absurd m
In-flat k ids ((j, other) ∷ layers) s (inl e) h =
    In-append_left s other (flat layers) (subst (In s) (ap (λ (p : _ × List String). p.1) e) h)
In-flat k ids ((j, other) ∷ layers) s (inr m) h =
    In-append_right s other (flat layers) (In-flat k ids layers s m h)

module _ {K : Type 0} ⦃e : Eq K⦄ where
  abbrev pub grown : K → String → Dict K (List String) → Dict K (List String)
  grown k s layers = upsert k [] (λ ids. ids ++ (s ∷ [])) layers

  pub In-flat-grown :
      (k : K) (s t : String) (layers : Dict K (List String))
      → (t ≡ s) ⊎ In t (flat layers)
      → In t (flat (grown k s layers))
  unfolding upsert
  In-flat-grown k s t [] h = elim h [ inl e ↦ inl e | inr m ↦ inr m ]
  In-flat-grown k s t ((j, ids) ∷ layers) h = elim (Bool-cases (j == k)) [
    | inl same ↦ rw same (elim h [
      | inl e ↦
          In-append_left t (ids ++ (s ∷ [])) (flat layers) (In-append_right t ids (s ∷ []) (inl e))
      | inr m ↦ elim (In-append_split t ids (flat layers) m) [
        | inl here ↦
            In-append_left t (ids ++ (s ∷ [])) (flat layers) (In-append_left t ids (s ∷ []) here)
        | inr there ↦ In-append_right t (ids ++ (s ∷ [])) (flat layers) there
      ]
    ])
    | inr other ↦ rw other (elim h [
      | inl e ↦ In-append_right t ids (flat (grown k s layers)) (In-flat-grown k s t layers (inl e))
      | inr m ↦ elim (In-append_split t ids (flat layers) m) [
        | inl here ↦ In-append_left t ids (flat (grown k s layers)) here
        | inr there ↦
            In-append_right t ids (flat (grown k s layers)) (In-flat-grown k s t layers (inr there))
      ]
    ])
  ]

  pub In-of_flat-grown :
      (k : K) (s t : String) (layers : Dict K (List String))
      → In t (flat (grown k s layers))
      → (t ≡ s) ⊎ In t (flat layers)
  unfolding upsert
  In-of_flat-grown k s t [] h = h
  In-of_flat-grown k s t ((j, ids) ∷ layers) h = elim (Bool-cases (j == k)) [
    | inl same ↦ elim (In-append_split t (ids ++ (s ∷ [])) (flat layers) (rw same at h)) [
      | inl here ↦ elim (In-append_split t ids (s ∷ []) here) [
        | inl old ↦ inr (In-append_left t ids (flat layers) old)
        | inr last ↦ elim last [ inl e ↦ inl e | inr empty ↦ absurd empty ]
      ]
      | inr there ↦ inr (In-append_right t ids (flat layers) there)
    ]
    | inr other ↦ elim (In-append_split t ids (flat (grown k s layers)) (rw other at h)) [
      | inl here ↦ inr (In-append_left t ids (flat layers) here)
      | inr there ↦ elim (In-of_flat-grown k s t layers there) [
        | inl e ↦ inl e
        | inr m ↦ inr (In-append_right t ids (flat layers) m)
      ]
    ]
  ]

  -- Each layer has a thing.
  abbrev pub IsFull : Dict K (List String) → Type 0
  IsFull layers = (k : K) (ids : List String) → In (k, ids) layers → (t : String) × In t ids

  pub grown-IsFull :
      (k : K) (s : String) (layers : Dict K (List String))
      → IsFull layers
      → IsFull (grown k s layers)
  unfolding upsert
  grown-IsFull k s [] full j ids (inl e) =
      (s, subst (In s) (sym (ap (λ (p : K × List String). p.1) e)) (inl refl))
  grown-IsFull k s [] full j ids (inr m) = absurd m
  grown-IsFull k s ((i, old) ∷ layers) full j ids m = elim (Bool-cases (i == k)) [
    | inl same ↦ elim (rw same at m) [
      | inl e ↦ (
        s,
        subst (In s) (sym (ap (λ (p : K × List String). p.1) e))
            (In-append_right s old (s ∷ []) (inl refl)),
      )
      | inr later ↦ full j ids (inr later)
    ]
    | inr other ↦ elim (rw other at m) [
      | inl e ↦ full j ids (inl e)
      | inr later ↦ grown-IsFull k s layers (λ j ids m. full j ids (inr m)) j ids later
    ]
  ]
