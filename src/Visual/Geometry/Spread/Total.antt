-- ===== src/Visual/Geometry/Spread/Total.antt =====
-- The things of a layer in `_expand_layout_centers` (geometry.py), and of all layers.
use leapp.Common.{
  Eq, String, string_eq, ◌≡◌, ◌↔◌, ◌⊎◌, inl, inr, refl, sym, ap, subst, ◌∙◌, Option, none, some,
  List, [], ◌∷◌, map, Dict, keys, put, sort_by, In, In-map, In-of_map, In-append_left,
  In-append_right, In-append_split, In-sort_by, In-of_sort_by, In-keys-put, In-of_keys-put,
}
use leapp.Common.Result.{
  Result, ok, ok-injective, traverse, traverse_total, traverse-cons, >>=-eq-ok,
}
use leapp.Visual.Floats.{Floats, Point, look, look_total, half}
use leapp.Visual.Geometry.{Size}
use leapp.Visual.Geometry.Spread.{
  layers_of, height_key, height_lt, moved_down, stack_things, stack_layers, expand_layout_centers,
}
use leapp.Visual.Geometry.Spread.Layers.{flat}
use leapp.Visual.Geometry.Spread.Placing.{layers_of-flat, layers_of-IsFull, place_layers-keys}

module _ {R : Type 0} ⦃F : Floats R⦄ ⦃e : Eq R⦄ where
  height_key_total :
      (centers : Dict String (Point R)) (id : String)
      → In id (keys centers)
      → (k : R × String) × (height_key centers id ≡ ok k)
  unfolding height_key
  height_key_total centers id m =
      let (center, found) = look_total id centers m in ((center.y, id), rw found refl)

  height_key-id :
      (centers : Dict String (Point R)) (id : String) {k : R × String}
      → height_key centers id ≡ ok k
      → k.1 ≡ id
  unfolding height_key
  height_key-id centers id h =
      let (center, _, h') = >>=-eq-ok (look id centers) _ h in
      ap (λ (k : R × String). k.1) (sym (ok-injective h'))

  abbrev ids_of_keys : List (R × String) → List String
  ids_of_keys ks = map (λ (k : R × String). k.1) ks

  height_keys-ids :
      (centers : Dict String (Point R)) (ids : List String) {keyed : List (R × String)}
      → traverse (height_key centers) ids ≡ ok keyed
      → ids_of_keys keyed ≡ ids
  unfolding traverse
  height_keys-ids centers [] h = ap ids_of_keys (sym (ok-injective h))
  height_keys-ids centers (id ∷ ids) h =
      let (k, rest, at, made, e) = traverse-cons (height_key centers) id ids h in
      ap ids_of_keys e
      ∙ ap (λ s. s ∷ ids_of_keys rest) (height_key-id centers id at)
      ∙ ap (λ ss. id ∷ ss) (height_keys-ids centers ids made)

  -- The things of a layer, sorted.
  sorted_keys :
      (centers : Dict String (Point R)) (ids : List String)
      → ((s : String) → In s ids → In s (keys centers))
      → (keyed : List (R × String)) × (traverse (height_key centers) ids ≡ ok keyed)
        × ((s : String) → In s ids ↔ In s (ids_of_keys (sort_by height_lt keyed)))
  sorted_keys centers ids known =
      let (keyed, made) =
        traverse_total (height_key centers) ids (λ s m. height_key_total centers s (known s m)) in
      let same = height_keys-ids centers ids made in
      (
        keyed,
        made,
        λ s. (
          (λ m.
              let (k, mk, e) =
                In-of_map (λ (k : R × String). k.1) s keyed (subst (In s) (sym same) m) in
              subst (λ t. In t (ids_of_keys (sort_by height_lt keyed))) (sym e)
                (In-map (λ (k : R × String). k.1) k (sort_by height_lt keyed)
                  (In-sort_by height_lt k keyed mk))),
          (λ m.
              let (k, mk, e) = In-of_map (λ (k : R × String). k.1) s (sort_by height_lt keyed) m in
              subst (In s) same (
                subst (λ t. In t (ids_of_keys keyed)) (sym e)
                  (In-map (λ (k : R × String). k.1) k keyed (In-of_sort_by height_lt k keyed mk)))),
        ),
      )

  -- These and those are the keys.
  abbrev Adds : List String → Dict String (Point R) → Result (Dict String (Point R)) → Type 0
  Adds ids before m =
      (d : Dict String (Point R)) × (m ≡ ok d)
      × ((s : String) → (In s ids ⊎ In s (keys before)) ↔ In s (keys d))

  module _ (centers : Dict String (Point R)) (sizes : Dict String (Size R))
      (layer_x : Dict R R) where
    abbrev Known : List String → Type 0
    Known ids = (s : String) → In s ids → In s (keys centers) × In s (keys sizes)

    stack_things-Adds :
        (layer : R)
        → In layer (keys layer_x)
        → (things : List (R × String)) → Known (ids_of_keys things)
        → (bottom : Option R) (adjusted : Dict String (Point R))
        → Adds
            (ids_of_keys things)
            adjusted
            (stack_things centers sizes layer_x layer things bottom adjusted)
    unfolding stack_things
    stack_things-Adds layer at [] known bottom adjusted = (
      adjusted,
      refl,
      λ s. ((λ h. elim h [ inl empty ↦ absurd empty | inr m ↦ m ]), (λ m. inr m)),
    )
    stack_things-Adds layer at ((key, id) ∷ things) known bottom adjusted =
        let (in_centers, in_sizes) = known id (inl refl) in
        let (size, found_size) = look_total id sizes in_sizes in
        let (center, found_center) = look_total id centers in_centers in
        let (x, found_x) = look_total layer layer_x at in
        let y = moved_down bottom center.y (half size.height) in
        let p : Point R = record { x = x; y = y } in
        let (d, rest, same) =
          stack_things-Adds layer at things (λ s m. known s (inr m))
            (some (F.add y (half size.height))) (put id p adjusted) in
        (
          d,
          rw (found_size, found_center, found_x) rest,
          λ s. (
            (λ h. elim h [
              | inl (inl e) ↦ (same s).0 (inr (In-keys-put id s p adjusted (inl e)))
              | inl (inr m) ↦ (same s).0 (inl m)
              | inr m ↦ (same s).0 (inr (In-keys-put id s p adjusted (inr m)))
            ]),
            (λ m. elim ((same s).1 m) [
              | inl later ↦ inl (inr later)
              | inr there ↦ elim (In-of_keys-put id s p adjusted there) [
                | inl e ↦ inl (inl e)
                | inr old ↦ inr old
              ]
            ]),
          ),
        )

    stack_layers-Adds :
        (layers : Dict R (List String))
        → ((k : R) → In k (keys layers) → In k (keys layer_x))
        → Known (flat layers)
        → (adjusted : Dict String (Point R))
        → Adds (flat layers) adjusted (stack_layers centers sizes layer_x layers adjusted)
    unfolding stack_layers
    stack_layers-Adds [] at known adjusted = (
      adjusted,
      refl,
      λ s. ((λ h. elim h [ inl empty ↦ absurd empty | inr m ↦ m ]), (λ m. inr m)),
    )
    stack_layers-Adds ((layer, ids) ∷ layers) at known adjusted =
        let (keyed, made, sorted) =
          sorted_keys centers ids (λ s m. (known s (In-append_left s ids (flat layers) m)).0) in
        let (placed, stacked, adds) =
          stack_things-Adds layer (at layer (inl refl)) (sort_by height_lt keyed)
            (λ s m. known s (In-append_left s ids (flat layers) ((sorted s).1 m))) none adjusted in
        let (d, rest, same) =
          stack_layers-Adds layers (λ k m. at k (inr m))
            (λ s m. known s (In-append_right s ids (flat layers) m)) placed in
        (
          d,
          rw (made, stacked) rest,
          λ s. (
            (λ h. elim h [
              | inl m ↦ elim (In-append_split s ids (flat layers) m) [
                | inl here ↦ (same s).0 (inr ((adds s).0 (inl ((sorted s).0 here))))
                | inr there ↦ (same s).0 (inl there)
              ]
              | inr m ↦ (same s).0 (inr ((adds s).0 (inr m)))
            ]),
            (λ m. elim ((same s).1 m) [
              | inl later ↦ inl (In-append_right s ids (flat layers) later)
              | inr there ↦ elim ((adds s).1 there) [
                | inl here ↦ inl (In-append_left s ids (flat layers) ((sorted s).1 here))
                | inr old ↦ inr old
              ]
            ]),
          ),
        )

  -- The spread centers are those of the same things.
  pub expand_layout_centers-keys :
      (centers : Dict String (Point R)) (sizes : Dict String (Size R))
      → ((s : String) → In s (keys centers) → In s (keys sizes))
      → (d : Dict String (Point R)) × (expand_layout_centers centers sizes ≡ ok d)
        × ((s : String) → In s (keys centers) ↔ In s (keys d))
  unfolding expand_layout_centers
  expand_layout_centers-keys centers sizes known =
      let layers = layers_of centers [] in
      let grouped : (s : String) → In s (flat layers) → In s (keys centers) =
        λ s m. elim ((layers_of-flat centers [] s).1 m) [ inl m ↦ m | inr empty ↦ absurd empty ] in
      let (x, placed, has) =
        place_layers-keys sizes layers (layers_of-IsFull centers [] (λ k ids m. absurd m))
          (λ s m. known s (grouped s m)) (sort_by F.lt (keys layers)) none []
          (λ k m. In-of_sort_by F.lt k (keys layers) m) in
      let (d, stacked, same) =
        stack_layers-Adds centers sizes x layers
          (λ k m. has k (inl (In-sort_by F.lt k (keys layers) m)))
          (λ s m. (grouped s m, known s (grouped s m))) [] in
      (
        d,
        rw (placed, stacked) refl,
        λ s. (
          (λ m. (same s).0 (inl ((layers_of-flat centers [] s).0 (inl m)))),
          (λ m. elim ((same s).1 m) [ inl there ↦ grouped s there | inr empty ↦ absurd empty ]),
        ),
      )
