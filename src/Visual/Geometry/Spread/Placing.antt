-- ===== src/Visual/Geometry/Spread/Placing.antt =====
-- The loop over the layers in `_expand_layout_centers` (geometry.py).
use leapp.Common.{
  Eq, String, string_eq, ◌≡◌, ◌↔◌, ◌⊎◌, inl, inr, refl, Option, some, List, [], ◌∷◌, Dict, keys,
  put, In, In-keys-put, get_of_key, In-of_get,
}
use leapp.Common.Result.{ok, traverse, traverse_total, In-traverse}
use leapp.Visual.Floats.{Floats, Point, look_total, max_of, half}
use leapp.Visual.Geometry.{Size}
use leapp.Visual.Geometry.Spread.{layers_of, half_width_of, next_center, place_layers}
use leapp.Visual.Geometry.Spread.Layers.{
  flat, In-flat, grown, In-flat-grown, In-of_flat-grown, IsFull, grown-IsFull,
}

max_of_In :
    {R : Type 0} ⦃F : Floats R⦄ (a : R) (bs : List R) → In a bs → (m : R) × (max_of bs ≡ ok m)
max_of_In a [] m = absurd m
max_of_In a (b ∷ bs) m = (_, refl)

module _ {R : Type 0} ⦃F : Floats R⦄ ⦃e : Eq R⦄ where
  pub layers_of-flat :
      (centers : Dict String (Point R)) (layers : Dict R (List String)) (s : String)
      → (In s (keys centers) ⊎ In s (flat layers)) ↔ In s (flat (layers_of centers layers))
  unfolding layers_of
  layers_of-flat [] layers s =
      ((λ h. elim h [ inl empty ↦ absurd empty | inr m ↦ m ]), (λ m. inr m))
  layers_of-flat ((id, center) ∷ centers) layers s =
      let k = F.round_3 center.x in
      let (to, of) = layers_of-flat centers (grown k id layers) s in
      (
        (λ h. elim h [
          | inl (inl e) ↦ to (inr (In-flat-grown k id s layers (inl e)))
          | inl (inr m) ↦ to (inl m)
          | inr m ↦ to (inr (In-flat-grown k id s layers (inr m)))
        ]),
        (λ h. elim (of h) [
          | inl m ↦ inl (inr m)
          | inr m ↦ elim (In-of_flat-grown k id s layers m) [
            | inl e ↦ inl (inl e)
            | inr old ↦ inr old
          ]
        ]),
      )

  pub layers_of-IsFull :
      (centers : Dict String (Point R)) (layers : Dict R (List String))
      → IsFull layers
      → IsFull (layers_of centers layers)
  unfolding layers_of
  layers_of-IsFull [] layers full = full
  layers_of-IsFull ((id, center) ∷ centers) layers full =
      layers_of-IsFull centers (grown (F.round_3 center.x) id layers)
        (grown-IsFull (F.round_3 center.x) id layers full)

  half_width_total :
      (sizes : Dict String (Size R)) (id : String)
      → In id (keys sizes)
      → (w : R) × (half_width_of sizes id ≡ ok w)
  unfolding half_width_of
  half_width_total sizes id m =
      let (size, found) = look_total id sizes m in (half size.width, rw found refl)

  -- The widest thing of a layer.
  widest :
      (sizes : Dict String (Size R)) (ids : List String) (t : String)
      → In t ids
      → ((s : String) → In s ids → In s (keys sizes))
      → (widths : List R) × (w : R) × (traverse (half_width_of sizes) ids ≡ ok widths)
        × (max_of widths ≡ ok w)
  widest sizes ids t mt known =
      let (widths, made) =
        traverse_total (half_width_of sizes) ids (λ s m. half_width_total sizes s (known s m)) in
      let (w, at) = half_width_total sizes t (known t mt) in
      let (m, found) = max_of_In w widths (In-traverse (half_width_of sizes) ids t w made mt at) in
      (widths, m, made, found)

  pub place_layers-keys :
      (sizes : Dict String (Size R)) (layers : Dict R (List String))
      → IsFull layers
      → ((s : String) → In s (flat layers) → In s (keys sizes))
      → (ks : List R) (right : Option R) (placed : Dict R R)
      → ((k : R) → In k ks → In k (keys layers))
      → (x : Dict R R) × (place_layers sizes layers ks right placed ≡ ok x)
        × ((k : R) → In k ks ⊎ In k (keys placed) → In k (keys x))
  unfolding place_layers
  place_layers-keys sizes layers full known [] right placed inside =
      (placed, refl, λ k h. elim h [ inl empty ↦ absurd empty | inr m ↦ m ])
  place_layers-keys sizes layers full known (k ∷ ks) right placed inside =
      let (ids, found) = get_of_key k layers (inside k (inl refl)) in
      let entry = In-of_get k ids layers found in
      let (t, mt) = full k ids entry in
      let (widths, w, made, at) =
        widest sizes ids t mt (λ s m. known s (In-flat k ids layers s entry m)) in
      let (x, rest, has) =
        place_layers-keys sizes layers full known ks (some (F.add (next_center right w) w))
          (put k (next_center right w) placed) (λ j m. inside j (inr m)) in
      (
        x,
        rw (found, made, at) rest,
        λ j h. elim h [
          | inl (inl e) ↦ has j (inr (In-keys-put k j (next_center right w) placed (inl e)))
          | inl (inr m) ↦ has j (inl m)
          | inr m ↦ has j (inr (In-keys-put k j (next_center right w) placed (inr m)))
        ],
      )
