-- ===== src/Visual/Geometry/Order/Total.antt =====
-- The ports of a node before and after `_reorder_connected_ports` (geometry.py).
use leapp.Common.{
  ℕ, nat_eq, Eq, String, string_eq, ◌≡◌, ◌↔◌, inl, inr, refl, sym, ap, subst, ◌∙◌, List, [], ◌∷◌,
  true, ltb, Bool-cases, length, Dict, keys, sort_by, select, In, In-map, In-of_map, In-sort_by,
  In-of_sort_by, length-sort_by, In-select, In-of_select, In-of_contains,
}
use leapp.Common.Result.{ok, ok-injective, traverse, traverse_total, traverse-cons, >>=-eq-ok}
use leapp.Visual.{VisualPort}
use leapp.Visual.Floats.{Floats, look, look_total}
use leapp.Visual.Geometry.Order.{
  average_order_key, is_connected, port_order_key, fill_slots, order_key_lt, sorted_ports,
  reorder_connected_ports,
}
use leapp.Visual.Geometry.Order.Slots.{
  SamePorts, length-map, Keyed, ports_of, connected_of, In-fill_slots, In-fill_slots_other,
  In-of_fill_slots,
}

module _ {R : Type 0} ⦃F : Floats R⦄ where
  module _ (order_keys : Dict String (List (R × R))) (indices : Dict String ℕ) where
    port_order_key_total :
        (p : VisualPort)
        → is_connected order_keys p ≡ true
        → In p.id (keys indices)
        → (k : Keyed R) × (port_order_key order_keys indices p ≡ ok k)
    unfolding port_order_key
    port_order_key_total p connected indexed =
        let (ks, found) =
          look_total p.id order_keys (In-of_contains p.id (keys order_keys) connected) in
        let (index, at) = look_total p.id indices indexed in
        (((average_order_key ks, index), p), rw (found, at) refl)

    port_order_key-port :
        (p : VisualPort) {k : Keyed R} → port_order_key order_keys indices p ≡ ok k → k.1 ≡ p
    unfolding port_order_key
    port_order_key-port p h =
        let (ks, _, h₁) = >>=-eq-ok (look p.id order_keys) _ h in
        let (index, _, h₂) = >>=-eq-ok (look p.id indices) _ h₁ in
        ap (λ (k : Keyed R). k.1) (sym (ok-injective h₂))

    port_order_keys-ports :
        (ps : List VisualPort) {keyed : List (Keyed R)}
        → traverse (port_order_key order_keys indices) ps ≡ ok keyed
        → ports_of keyed ≡ ps
    unfolding traverse
    port_order_keys-ports [] h = ap ports_of (sym (ok-injective h))
    port_order_keys-ports (p ∷ ps) h =
        let (k, rest, at, made, e) = traverse-cons (port_order_key order_keys indices) p ps h in
        ap ports_of e
        ∙ ap (λ q. q ∷ ports_of rest) (port_order_key-port p at)
        ∙ ap (λ qs. p ∷ qs) (port_order_keys-ports ps made)

  selected :
      (order_keys : Dict String (List (R × R))) (x : VisualPort) (ps : List VisualPort)
      → In x (select (is_connected order_keys) ps)
      → is_connected order_keys x ≡ true
  selected order_keys x [] m = absurd m
  selected order_keys x (p ∷ ps) m = elim (Bool-cases (is_connected order_keys p)) [
    | inl connected ↦ elim (rw connected at m) [
      | inl e ↦ ap (is_connected order_keys) e ∙ connected
      | inr later ↦ selected order_keys x ps later
    ]
    | inr other ↦ selected order_keys x ps (rw other at m)
  ]

  module _ ⦃e : Eq R⦄ (order_keys : Dict String (List (R × R))) (indices : Dict String ℕ) where
    In-sorted_ports :
        (keyed : List (Keyed R)) (x : VisualPort)
        → In x (ports_of keyed) ↔ In x (sorted_ports keyed)
    In-sorted_ports keyed x = (
      (λ m.
          let (k, mk, same) = In-of_map (λ (k : Keyed R). k.1) x keyed m in
          subst (λ y. In y (sorted_ports keyed)) (sym same)
            (In-map (λ (k : Keyed R). k.1) k (sort_by order_key_lt keyed)
              (In-sort_by order_key_lt k keyed mk))),
      (λ m.
          let (k, mk, same) = In-of_map (λ (k : Keyed R). k.1) x (sort_by order_key_lt keyed) m in
          subst (λ y. In y (ports_of keyed)) (sym same)
            (In-map (λ (k : Keyed R). k.1) k keyed (In-of_sort_by order_key_lt k keyed mk))),
    )

    length-sorted_ports :
        (keyed : List (Keyed R)) → length (sorted_ports keyed) ≡ length (ports_of keyed)
    length-sorted_ports keyed =
        length-map (λ (k : Keyed R). k.1) (sort_by order_key_lt keyed)
        ∙ length-sort_by order_key_lt keyed
        ∙ sym (length-map (λ (k : Keyed R). k.1) keyed)

    -- The slots hold the same ports as before.
    fill_slots-SamePorts :
        (ps : List VisualPort) (keyed : List (Keyed R))
        → ports_of keyed ≡ connected_of order_keys ps
        → SamePorts ps (fill_slots order_keys ps (sorted_ports keyed))
    fill_slots-SamePorts ps keyed same x = (
      (λ m. elim (Bool-cases (is_connected order_keys x)) [
        | inl connected ↦
            In-fill_slots order_keys x ps (sorted_ports keyed)
              (length-sorted_ports keyed ∙ ap (λ (qs : List VisualPort). length qs) same)
              ((In-sorted_ports keyed x).0
                (subst (In x) (sym same) (In-select (is_connected order_keys) x ps m connected)))
        | inr other ↦ In-fill_slots_other order_keys x ps (sorted_ports keyed) other m
      ]),
      (λ m. elim (In-of_fill_slots order_keys x ps (sorted_ports keyed) m) [
        | inl here ↦ here
        | inr sorted ↦
            In-of_select (is_connected order_keys) x ps
              (subst (In x) same ((In-sorted_ports keyed x).1 sorted))
      ]),
    )

    pub reorder_connected_ports-SamePorts :
        (ps : List VisualPort)
        → ((p : VisualPort) → In p ps → In p.id (keys indices))
        → (qs : List VisualPort) × (reorder_connected_ports order_keys indices ps ≡ ok qs)
          × SamePorts ps qs
    unfolding reorder_connected_ports
    reorder_connected_ports-SamePorts ps indexed =
        elim (Bool-cases (ltb (length (connected_of order_keys ps)) 2)) [
          | inl few ↦ (ps, rw few refl, λ p. ((λ m. m), (λ m. m)))
          | inr many ↦
              let (keyed, made) =
                traverse_total (port_order_key order_keys indices) (connected_of order_keys ps)
                  (λ p m.
                    port_order_key_total order_keys indices p (selected order_keys p ps m)
                      (indexed p (In-of_select (is_connected order_keys) p ps m))) in
              (
                fill_slots order_keys ps (sorted_ports keyed),
                rw (many, made) refl,
                fill_slots-SamePorts ps keyed
                    (port_order_keys-ports order_keys indices (connected_of order_keys ps) made),
              )
        ]
