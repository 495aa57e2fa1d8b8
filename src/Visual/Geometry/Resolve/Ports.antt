-- ===== src/Visual/Geometry/Resolve/Ports.antt =====
-- The keys of the dictionaries that `resolve_geometry` builds, and the ports of all nodes.
use leapp.Common.{
  ℕ, suc, String, string_eq, ◌≡◌, ◌↔◌, ◌⊎◌, inl, inr, refl, ap, subst, ◌∙◌, List, [], ◌∷◌, ◌++◌,
  map, Dict, keys, put_all, In, In-keys-put_all, In-of_keys-put_all,
}
use leapp.Common.Result.{Result, ok, traverse}
use leapp.Visual.{VisualPort, VisualNode}
use leapp.Visual.Tied.Terminal.{all_ports, ids_of}
use leapp.Visual.Layout.Indices.{HasKeys}
use leapp.Visual.Floats.{Floats, look_total}
use leapp.Visual.Geometry.{NodeGeometry, PortGeometry}
use leapp.Visual.Geometry.Measure.{measure_side_slot_width}
use leapp.Visual.Geometry.Order.Slots.{ids_of-split}
use leapp.Visual.Geometry.Order.Nodes.{node_ids}
use leapp.Visual.Geometry.Resolve.{
  map_values, port_rows, build_port_geometries, all_port_geometries,
}

pub keys-map_values :
    {A B : Type 0} (f : A → B) (d : Dict String A) → keys (map_values f d) ≡ keys d
keys-map_values f [] = refl
keys-map_values f ((k, a) ∷ d) = ap (λ ks. k ∷ ks) (keys-map_values f d)

pub put_all-HasKeys : {A : Type 0} (pairs : Dict String A) → HasKeys (keys pairs) (put_all pairs [])
put_all-HasKeys pairs s = (
  (λ m. In-keys-put_all s pairs [] (inl m)),
  (λ m. elim (In-of_keys-put_all s pairs [] m) [ inl there ↦ there | inr empty ↦ absurd empty ]),
)

-- `{id(x): ... for x in xs}`, where no element raises.
module _ {A B : Type 0} (entry : A → Result (String × B)) (id : A → String) where
  entries_total :
      (xs : List A)
      → ((x : A) → In x xs → (p : String × B) × (entry x ≡ ok p) × (p.0 ≡ id x))
      → (pairs : List (String × B)) × (traverse entry xs ≡ ok pairs) × (keys pairs ≡ map id xs)
  unfolding traverse
  entries_total [] one = ([], refl, refl)
  entries_total (x ∷ xs) one =
      let (p, at, same) = one x (inl refl) in
      let (pairs, made, rest) = entries_total xs (λ y m. one y (inr m)) in
      (
        (p.0, p.1) ∷ pairs,
        rw (at, made) refl,
        ap (λ k. k ∷ keys pairs) same ∙ ap (λ ks. id x ∷ ks) rest,
      )

  pub display_total :
      (xs : List A)
      → ((x : A) → In x xs → (p : String × B) × (entry x ≡ ok p) × (p.0 ≡ id x))
      → (pairs : List (String × B)) × (traverse entry xs ≡ ok pairs)
        × HasKeys (map id xs) (put_all pairs [])
  display_total xs one =
      let (pairs, made, same) = entries_total xs one in
      (pairs, made, subst (λ ks. HasKeys ks (put_all pairs [])) same (put_all-HasKeys pairs))

In-ids_left : (s : String) (ps qs : List VisualPort) → In s (ids_of ps) → In s (ids_of (ps ++ qs))
In-ids_left s [] qs m = absurd m
In-ids_left s (p ∷ ps) qs (inl e) = inl e
In-ids_left s (p ∷ ps) qs (inr m) = inr (In-ids_left s ps qs m)

In-ids_right : (s : String) (ps qs : List VisualPort) → In s (ids_of qs) → In s (ids_of (ps ++ qs))
In-ids_right s [] qs m = m
In-ids_right s (p ∷ ps) qs m = inr (In-ids_right s ps qs m)

module _ {R : Type 0} ⦃F : Floats R⦄ where
  port_rows-keys :
      (g : NodeGeometry R) (u w : R) (i : ℕ) (ps qs : List VisualPort) (s : String)
      → (In s (ids_of ps) ⊎ In s (ids_of qs)) ↔ In s (keys (port_rows g u w i ps qs))
  unfolding port_rows
  port_rows-keys g u w i [] [] s = ((λ h. elim h [ inl m ↦ m | inr m ↦ m ]), (λ m. inl m))
  port_rows-keys g u w i (p ∷ ps) [] s =
      let (to, of) = port_rows-keys g u w (suc i) ps [] s in
      (
        (λ h. elim h [ inl (inl e) ↦ inl e | inl (inr m) ↦ inr (to (inl m)) | inr m ↦ absurd m ]),
        (λ h. elim h [
          | inl e ↦ inl (inl e)
          | inr m ↦ elim (of m) [ inl k ↦ inl (inr k) | inr k ↦ inr k ]
        ]),
      )
  port_rows-keys g u w i [] (q ∷ qs) s =
      let (to, of) = port_rows-keys g u w (suc i) [] qs s in
      (
        (λ h. elim h [ inl m ↦ absurd m | inr (inl e) ↦ inl e | inr (inr m) ↦ inr (to (inr m)) ]),
        (λ h. elim h [
          | inl e ↦ inr (inl e)
          | inr m ↦ elim (of m) [ inl k ↦ inl k | inr k ↦ inr (inr k) ]
        ]),
      )
  port_rows-keys g u w i (p ∷ ps) (q ∷ qs) s =
      let (to, of) = port_rows-keys g u w (suc i) ps qs s in
      (
        (λ h. elim h [
          | inl (inl e) ↦ inl e
          | inl (inr m) ↦ inr (inr (to (inl m)))
          | inr (inl e) ↦ inr (inl e)
          | inr (inr m) ↦ inr (inr (to (inr m)))
        ]),
        (λ h. elim h [
          | inl e ↦ inl (inl e)
          | inr (inl e) ↦ inr (inl e)
          | inr (inr m) ↦ elim (of m) [ inl k ↦ inl (inr k) | inr k ↦ inr (inr k) ]
        ]),
      )

  build_port_geometries-HasKeys :
      (n : VisualNode) (g : NodeGeometry R)
      → HasKeys (ids_of (n.inputs ++ n.outputs)) (build_port_geometries n g)
  unfolding build_port_geometries
  build_port_geometries-HasKeys n g s =
      let u = measure_side_slot_width n.inputs in
      let w = measure_side_slot_width n.outputs in
      let (to, of) = port_rows-keys g u w 0 n.inputs n.outputs s in
      let (put, taken) = put_all-HasKeys (port_rows g u w 0 n.inputs n.outputs) s in
      (
        (λ m. put (to (ids_of-split n.inputs n.outputs s m))),
        (λ m. elim (of (taken m)) [
          | inl k ↦ In-ids_left s n.inputs n.outputs k
          | inr k ↦ In-ids_right s n.inputs n.outputs k
        ]),
      )

  pub all_port_geometries-keys :
      (nodes : Dict String (NodeGeometry R)) (ns : List VisualNode)
      → ((s : String) → In s (node_ids ns) → In s (keys nodes))
      → (ports : Dict String (PortGeometry R))
      → (d : Dict String (PortGeometry R)) × (all_port_geometries nodes ns ports ≡ ok d)
        × ((s : String) → (In s (ids_of (all_ports ns)) ⊎ In s (keys ports)) ↔ In s (keys d))
  unfolding all_port_geometries
  all_port_geometries-keys nodes [] drawn ports =
      (ports, refl, λ s. ((λ h. elim h [ inl empty ↦ absurd empty | inr m ↦ m ]), (λ m. inr m)))
  all_port_geometries-keys nodes (n ∷ ns) drawn ports =
      let (g, found) = look_total n.id nodes (drawn n.id (inl refl)) in
      let built = build_port_geometries n g in
      let own = n.inputs ++ n.outputs in
      let (d, rest, same) =
        all_port_geometries-keys nodes ns (λ s m. drawn s (inr m)) (put_all built ports) in
      (
        d,
        rw found rest,
        λ s.
            let (to, of) = build_port_geometries-HasKeys n g s in
            (
              (λ h. elim h [
                | inl m ↦ elim (ids_of-split own (all_ports ns) s m) [
                  | inl here ↦ (same s).0 (inr (In-keys-put_all s built ports (inl (to here))))
                  | inr there ↦ (same s).0 (inl there)
                ]
                | inr m ↦ (same s).0 (inr (In-keys-put_all s built ports (inr m)))
              ]),
              (λ m. elim ((same s).1 m) [
                | inl later ↦ inl (In-ids_right s own (all_ports ns) later)
                | inr there ↦ elim (In-of_keys-put_all s built ports there) [
                  | inl here ↦ inl (In-ids_left s own (all_ports ns) (of here))
                  | inr old ↦ inr old
                ]
              ]),
            ),
      )
