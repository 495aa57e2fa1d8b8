-- ===== src/Visual/Tied/Titled.antt =====
-- The ports and the titles that external ports are looked up by.
use leapp.Common.{
  String, string_eq, ◌≡◌, refl, sym, ap, ◌∙◌, some, List, [], ◌∷◌, ◌==◌, In, In-append_split, inl,
  inr, ◌⊎◌, Bool-cases, Dict, get, put, get-put, contains,
}
use leapp.Common.Text.{port_key}
use leapp.Graph.{Desc, Node}
use leapp.Graph.Ports.{Side}
use leapp.Graph.Io.{dangling, all_dangling}
use leapp.Visual.{VisualNode}
use leapp.Visual.Adapter.Terminals.{title_map}

-- A port of a list of dangling ones is a port of a node.
dangling_port :
    (connected : List String) (node : String) (descs : List Desc) (port : String)
    → In port (dangling connected node descs)
    → (d : Desc) × In d descs × (port ≡ port_key node d.name)
unfolding dangling
dangling_port connected node [] port m = elim m [ ]
dangling_port connected node (d ∷ descs) port m =
    elim (Bool-cases (contains connected (port_key node d.name))) [
      | inl there ↦
          let (c, mc, e) = dangling_port connected node descs port (rw there at m) in (c, inr mc, e)
      | inr free ↦ elim (rw free at m) [
        | inl e ↦ (d, inl refl, e)
        | inr later ↦
            let (c, mc, e) = dangling_port connected node descs port later in (c, inr mc, e)
      ]
    ]

-- The port of a tensor on one side of a node of the list.
abbrev pub IsPortOf : Side → List Node → String → Type 0
IsPortOf side nodes port =
    (n : Node) × (d : Desc) × In n nodes × In d (side n) × (port ≡ port_key n.name d.name)

pub all_dangling-IsPortOf :
    (connected : List String) (side : Side) (nodes : List Node) (port : String)
    → In port (all_dangling side connected nodes)
    → IsPortOf side nodes port
unfolding all_dangling
all_dangling-IsPortOf connected side [] port m = elim m [ ]
all_dangling-IsPortOf connected side (n ∷ nodes) port m =
    elim (In-append_split port (dangling connected n.name (side n)) _ m) [
      | inl here ↦
          let (d, md, e) = dangling_port connected n.name (side n) port here in
          (n, d, inl refl, md, e)
      | inr there ↦
          let (k, d, mk, md, e) = all_dangling-IsPortOf connected side nodes port there in
          (k, d, inr mk, md, e)
    ]

-- The node of a title, where that title is one node's only.
pub title_map_gives :
    (k : String) (v : VisualNode) (nodes : List VisualNode) (named : Dict String VisualNode)
    → ((x : VisualNode) → In x nodes → x.title ≡ k → x ≡ v)
    → v.title ≡ k
    → (get k named ≡ some v) ⊎ In v nodes
    → get k (title_map nodes named) ≡ some v
unfolding title_map
title_map_gives k v [] named only titled (inl there) = there
title_map_gives k v [] named only titled (inr m) = elim m [ ]
title_map_gives k v (n ∷ nodes) named only titled h =
    title_map_gives k v nodes (put n.title n named) (λ x m. only x (inr m)) titled
      (elim (Bool-cases (n.title == k)) [
        | inl same ↦
            let is_v : n ≡ v = only n (inl refl) ((string_eq.beq_iff n.title k).0 same) in
            inl (get-put n.title k n named ∙ rw (same, is_v) refl)
        | inr other ↦ elim h [
          | inl there ↦ inl (get-put n.title k n named ∙ rw other there)
          | inr (inl e) ↦ absurd (
              cc (
                (string_eq.beq_iff n.title k).1 (ap (λ (x : VisualNode). x.title) (sym e) ∙ titled),
                other,
              ))
          | inr (inr later) ↦ inr later
        ]
      ])
