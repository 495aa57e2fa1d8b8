-- ===== src/Visual/Geometry/Order/Slots.antt =====
-- The keys of connected ports, and the slots that the sorted ports take.
use leapp.Common.{
  ℕ, suc, arith, nat_eq, String, string_eq, ◌≡◌, ◌↔◌, ◌⊎◌, inl, inr, refl, sym, ap, ◌∙◌, Option,
  none, some, List, [], ◌∷◌, ◌++◌, map, false, Bool-cases, length, Dict, keys, put, upsert, select,
  In, In-keys-put, All,
}
use leapp.Common.Result.{ok}
use leapp.Visual.{VisualPort, VisualNode, VisualEdge}
use leapp.Visual.Drawn.{Things, IsAnchored, Joins}
use leapp.Visual.Tied.Terminal.{all_ports, ids_of}
use leapp.Visual.Floats.{Floats, Point, look_total}
use leapp.Visual.Geometry.Order.{
  index_ports, original_port_indices, between_nodes, connected_port_order_key, add_key, edge_keys,
  collect_keys, is_connected, fill_slots,
}

-- Every port has an index.
index_ports-keys :
    (i : ℕ) (ps : List VisualPort) (indices : Dict String ℕ) (s : String)
    → In s (ids_of ps) ⊎ In s (keys indices)
    → In s (keys (index_ports i ps indices))
unfolding index_ports
index_ports-keys i [] indices s h = elim h [ inl empty ↦ absurd empty | inr m ↦ m ]
index_ports-keys i (p ∷ ps) indices s h =
    index_ports-keys (suc i) ps (put p.id i indices) s (elim h [
      | inl (inl e) ↦ inr (In-keys-put p.id s i indices (inl e))
      | inl (inr m) ↦ inl m
      | inr m ↦ inr (In-keys-put p.id s i indices (inr m))
    ])

pub ids_of-split :
    (ps qs : List VisualPort) (s : String)
    → In s (ids_of (ps ++ qs))
    → In s (ids_of ps) ⊎ In s (ids_of qs)
ids_of-split [] qs s m = inr m
ids_of-split (p ∷ ps) qs s (inl e) = inl (inl e)
ids_of-split (p ∷ ps) qs s (inr m) = elim (ids_of-split ps qs s m) [
  | inl here ↦ inl (inr here)
  | inr there ↦ inr there
]

pub original_port_indices-keys :
    (ns : List VisualNode) (indices : Dict String ℕ) (s : String)
    → In s (ids_of (all_ports ns)) ⊎ In s (keys indices)
    → In s (keys (original_port_indices ns indices))
unfolding original_port_indices
original_port_indices-keys [] indices s h = elim h [ inl empty ↦ absurd empty | inr m ↦ m ]
original_port_indices-keys (n ∷ ns) indices s h =
    let after_inputs = index_ports 0 n.inputs indices in
    original_port_indices-keys ns (index_ports 0 n.outputs after_inputs) s (elim h [
      | inl m ↦ elim (ids_of-split (n.inputs ++ n.outputs) (all_ports ns) s m) [
        | inl here ↦ inr (
            index_ports-keys 0 n.outputs after_inputs s
              (elim (ids_of-split n.inputs n.outputs s here) [
                | inl input ↦ inr (index_ports-keys 0 n.inputs indices s (inl input))
                | inr output ↦ inl output
              ]))
        | inr there ↦ inl there
      ]
      | inr m ↦ inr (
          index_ports-keys 0 n.outputs after_inputs s
            (inr (index_ports-keys 0 n.inputs indices s (inr m))))
    ])

-- The same ports, in some order.
abbrev pub SamePorts : List VisualPort → List VisualPort → Type 0
SamePorts ps qs = (p : VisualPort) → In p ps ↔ In p qs

pub length-map : {A B : Type 0} (f : A → B) (xs : List A) → length (map f xs) ≡ length xs
length-map f [] = refl
length-map f (x ∷ xs) = ap suc (length-map f xs)

abbrev pub Keyed : Type 0 → Type 0
Keyed R = ((R × R) × ℕ) × VisualPort

abbrev pub ports_of : {R : Type 0} → List (Keyed R) → List VisualPort
ports_of {R} keyed = map (λ (k : Keyed R). k.1) keyed

module _ {R : Type 0} ⦃F : Floats R⦄ where
  module _ (centers : Dict String (Point R)) (indices : Dict String ℕ) (things : Things)
      (centered : (s : String) → In s things.visuals → In s (keys centers))
      (indexed : (s : String) → In s things.ports → In s (keys indices)) where
    add_key_total :
        (e : VisualEdge) (source target : Option String) (collected : Dict String (List (R × R)))
        → In e.source_id things.visuals
        → IsAnchored things source e.source_id
        → (more : Dict String (List (R × R))) × (add_key centers indices e source target collected
            ≡ ok more)
    unfolding connected_port_order_key
    add_key_total e none none collected drawn anchored = (collected, refl)
    add_key_total e none (some target) collected drawn anchored = (collected, refl)
    add_key_total e (some source) none collected drawn anchored = (collected, refl)
    add_key_total e (some source) (some target) collected drawn anchored =
        let (center, found) = look_total e.source_id centers (centered e.source_id drawn) in
        let (index, at) = look_total source indices (indexed source anchored) in
        let key : R × R = (center.y, F.of_int index) in
        (upsert target [] (λ ks. ks ++ (key ∷ [])) collected, rw (found, at) refl)

    edge_keys_total :
        (e : VisualEdge) (collected : Dict String (List (R × R)))
        → Joins things e
        → (more : Dict String (List (R × R))) × (edge_keys centers indices e collected ≡ ok more)
    unfolding edge_keys
    edge_keys_total e collected joins = elim (Bool-cases (between_nodes e.kind)) [
      | inl between ↦
          let (more, made) =
            add_key_total e e.source_port_id e.target_port_id collected joins.0.0 joins.0.1 in
          (more, rw between made)
      | inr other ↦ (collected, rw other refl)
    ]

    pub collect_keys_total :
        (es : List VisualEdge) (collected : Dict String (List (R × R)))
        → All (Joins things) es
        → (all : Dict String (List (R × R))) × (collect_keys centers indices es collected ≡ ok all)
    unfolding collect_keys
    collect_keys_total [] collected joins = (collected, refl)
    collect_keys_total (e ∷ es) collected joins =
        let (more, made) = edge_keys_total e collected joins.0 in
        let (all, rest) = collect_keys_total es more joins.1 in (all, rw made rest)

  module _ (order_keys : Dict String (List (R × R))) where
    abbrev pub connected_of : List VisualPort → List VisualPort
    connected_of ps = select (is_connected order_keys) ps

    -- Each of the sorted ports takes a slot, where there are as many as slots.
    pub In-fill_slots :
        (x : VisualPort) (ps qs : List VisualPort)
        → length qs ≡ length (connected_of ps)
        → In x qs
        → In x (fill_slots order_keys ps qs)
    unfolding fill_slots
    In-fill_slots x [] [] h m = m
    In-fill_slots x [] (q ∷ qs) h m = absurd (omega (arith, h))
    In-fill_slots x (p ∷ ps) [] h m = absurd m
    In-fill_slots x (p ∷ ps) (q ∷ qs) h m = elim (Bool-cases (is_connected order_keys p)) [
      | inl yes_it_is ↦ rw yes_it_is (elim m [
        | inl e ↦ inl e
        | inr later ↦
            inr (In-fill_slots x ps qs (let k = rw yes_it_is at h in omega (arith, k)) later)
      ])
      | inr other ↦ rw other (inr (In-fill_slots x ps (q ∷ qs) (rw other at h) m))
    ]

    -- The other ports keep theirs.
    pub In-fill_slots_other :
        (x : VisualPort) (ps qs : List VisualPort)
        → is_connected order_keys x ≡ false
        → In x ps
        → In x (fill_slots order_keys ps qs)
    unfolding fill_slots
    In-fill_slots_other x [] qs h m = m
    In-fill_slots_other x (p ∷ ps) [] h m = m
    In-fill_slots_other x (p ∷ ps) (q ∷ qs) h (inl e) =
        rw (ap (is_connected order_keys) (sym e) ∙ h) (inl e)
    In-fill_slots_other x (p ∷ ps) (q ∷ qs) h (inr m) =
        elim (Bool-cases (is_connected order_keys p)) [
          | inl connected ↦ rw connected (inr (In-fill_slots_other x ps qs h m))
          | inr other ↦ rw other (inr (In-fill_slots_other x ps (q ∷ qs) h m))
        ]

    pub In-of_fill_slots :
        (x : VisualPort) (ps qs : List VisualPort)
        → In x (fill_slots order_keys ps qs)
        → In x ps ⊎ In x qs
    unfolding fill_slots
    In-of_fill_slots x [] qs m = inl m
    In-of_fill_slots x (p ∷ ps) [] m = inl m
    In-of_fill_slots x (p ∷ ps) (q ∷ qs) m = elim (Bool-cases (is_connected order_keys p)) [
      | inl connected ↦ elim (rw connected at m) [
        | inl e ↦ inr (inl e)
        | inr later ↦ elim (In-of_fill_slots x ps qs later) [
          | inl a ↦ inl (inr a)
          | inr b ↦ inr (inr b)
        ]
      ]
      | inr other ↦ elim (rw other at m) [
        | inl e ↦ inl (inl e)
        | inr later ↦ elim (In-of_fill_slots x ps (q ∷ qs) later) [
          | inl a ↦ inl (inr a)
          | inr b ↦ inr b
        ]
      ]
    ]
