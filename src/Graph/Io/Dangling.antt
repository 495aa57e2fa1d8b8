-- ===== src/Graph/Io/Dangling.antt =====
-- A port is an external one of the graph exactly if no connection ends at it.
use leapp.Common.{
  ℕ, String, ◌≡◌, refl, sym, subst, ◌∙◌, some, List, [], ◌∷◌, false, arith, ◌↔◌, get_elem?,
  get_elem?-In, map, All, All-at, Distinct, Distinct-In, Distinct-index, In, In-append_left,
  In-append_right, In-append_split, inl, inr, contains, string_eq, In-of_contains, contains_of_In,
  Bool-cases, Option-cases, values,
}
use leapp.Common.Result.{ok, traverse, ok-injective, In-of_traverse, In-traverse}
use leapp.Common.Text.{has_slash, port_key, port_key_inj}
use leapp.Graph.{Desc, Node, Nodes, Endpoint}
use leapp.Graph.Ports.{Side, end_port}
use leapp.Graph.Io.{dangling, all_dangling}

-- Names tell nodes apart, have no slash, and tell the tensors on this side of a node apart.
pub record Names (side : Side) (nodes : Nodes) : Type 0 where
  pub slash_free : (n : Node) → In n (values nodes) → has_slash n.name ≡ false
  pub name_same : (m n : Node) → In m (values nodes) → In n (values nodes) → m.name ≡ n.name → m ≡ n
  pub desc_same :
      (n : Node) (i j : ℕ) (c d : Desc)
      → In n (values nodes)
      → get_elem? (side n) i ≡ some c
      → get_elem? (side n) j ≡ some d
      → c.name ≡ d.name
      → i ≡ j

pub Names-of_Distinct :
    (side : Side) (nodes : Nodes)
    → All (λ n. has_slash n.name ≡ false) (values nodes)
    → Distinct (map (λ n. n.name) (values nodes))
    → All (λ n. Distinct (map (λ d. d.name) (side n))) (values nodes)
    → Names side nodes
Names-of_Distinct side nodes slashes names descs = record {
  slash_free = λ n mn. All-at (λ n. has_slash n.name ≡ false) n (values nodes) slashes mn;
  name_same = λ m n mm mn e. Distinct-In (λ (n : Node). n.name) (values nodes) m n names mm mn e;
  desc_same = λ n i j c d mn ci dj e.
      Distinct-index (λ (d : Desc). d.name) (side n) i j c d
        (All-at (λ n. Distinct (map (λ d. d.name) (side n))) n (values nodes) descs mn) ci dj e;
}

-- The end lies on a tensor of a node of the graph.
abbrev pub IsPlaced : Side → Nodes → Endpoint → Type 0
IsPlaced side nodes e =
    In e.node (values nodes) × ((d : Desc) × (get_elem? (side e.node) e.idx ≡ some d))

module _ (connected : List String) where
  dangling_unconnected :
      (node : String) (descs : List Desc) (port : String)
      → In port (dangling connected node descs)
      → contains connected port ≡ false
  unfolding dangling
  dangling_unconnected node [] port m = elim m [ ]
  dangling_unconnected node (d ∷ descs) port m =
      ground (arith, dangling_unconnected node descs port)

  In-dangling :
      (node : String) (descs : List Desc) (d : Desc)
      → In d descs
      → contains connected (port_key node d.name) ≡ false
      → In (port_key node d.name) (dangling connected node descs)
  unfolding dangling
  In-dangling node [] d m h = elim m [ ]
  In-dangling node (c ∷ descs) d (inl e) h = ground arith
  In-dangling node (c ∷ descs) d (inr m) h = ground (arith, In-dangling node descs d m h)

  all_dangling_unconnected :
      (side : Side) (nodes : List Node) (port : String)
      → In port (all_dangling side connected nodes)
      → contains connected port ≡ false
  unfolding all_dangling
  all_dangling_unconnected side [] port m = elim m [ ]
  all_dangling_unconnected side (n ∷ nodes) port m =
      elim (In-append_split port (dangling connected n.name (side n)) _ m) [
        | inl here ↦ dangling_unconnected n.name (side n) port here
        | inr there ↦ all_dangling_unconnected side nodes port there
      ]

  In-all_dangling :
      (side : Side) (nodes : List Node) (n : Node) (d : Desc)
      → In n nodes
      → In d (side n)
      → contains connected (port_key n.name d.name) ≡ false
      → In (port_key n.name d.name) (all_dangling side connected nodes)
  unfolding all_dangling
  In-all_dangling side [] n d mn md h = elim mn [ ]
  In-all_dangling side (m ∷ nodes) n d (inl e) md h =
      In-append_left _ (dangling connected m.name (side m)) _ (
        subst (λ (k : Node). In (port_key n.name d.name) (dangling connected k.name (side k))) e
          (In-dangling n.name (side n) d md h))
  In-all_dangling side (m ∷ nodes) n d (inr mn) md h =
      In-append_right _ (dangling connected m.name (side m)) _
        (In-all_dangling side nodes n d mn md h)

module _ (side : Side) (nodes : Nodes) (names : Names side nodes) where
  end_port_inj :
      (a b : Endpoint) (port : String)
      → In a.node (values nodes)
      → In b.node (values nodes)
      → end_port side a ≡ ok port
      → end_port side b ≡ ok port
      → a ≡ b
  unfolding end_port
  end_port_inj a b port ma mb ha hb = elim (Option-cases (get_elem? (side a.node) a.idx)) [
    | inl missing ↦ cc (rw missing at ha)
    | inr (c, at_c) ↦ elim (Option-cases (get_elem? (side b.node) b.idx)) [
      | inl missing ↦ cc (rw missing at hb)
      | inr (d, at_d) ↦
          let (node_names, desc_names) =
            port_key_inj a.node.name b.node.name c.name d.name (names.slash_free a.node ma)
              (names.slash_free b.node mb)
              (ok-injective (rw at_c at ha) ∙ sym (ok-injective (rw at_d at hb))) in
          let same : a.node ≡ b.node = names.name_same a.node b.node ma mb node_names in
          let idx_same : a.idx ≡ b.idx =
            names.desc_same a.node a.idx b.idx c d ma at_c (rw same at_d) desc_names in
          ground arith
    ]
  ]

  -- Membership of a port's name among the ends' names is membership of the end among the ends.
  connected_iff :
      (ends : List Endpoint) {ports : List String} (n : Node) (i : ℕ) (d : Desc)
      → ((e : Endpoint) → In e ends → IsPlaced side nodes e)
      → traverse (end_port side) ends ≡ ok ports
      → In n (values nodes)
      → get_elem? (side n) i ≡ some d
      → In (port_key n.name d.name) ports ↔ In (record { node = n; idx = i }) ends
  unfolding end_port
  connected_iff ends n i d placed names_of mn at =
      let e : Endpoint = record { node = n; idx = i } in
      let own : end_port side e ≡ ok (port_key n.name d.name) = rw at refl in
      (
        λ m.
            let (t, mt, port_of_t) = In-of_traverse (end_port side) ends _ names_of m in
            subst (λ x. In x ends)
              (end_port_inj t e (port_key n.name d.name) (placed t mt).0 mn port_of_t own) mt,
        λ m. In-traverse (end_port side) ends e _ names_of m own,
      )

  -- What is left dangling, if `ports` are the names of the ends.
  pub all_dangling_iff :
      (ends : List Endpoint) {ports : List String} (n : Node) (i : ℕ) (d : Desc)
      → ((e : Endpoint) → In e ends → IsPlaced side nodes e)
      → traverse (end_port side) ends ≡ ok ports
      → In n (values nodes)
      → get_elem? (side n) i ≡ some d
      → In (port_key n.name d.name) (all_dangling side ports (values nodes))
        ↔ (¬ In (record { node = n; idx = i }) ends)
  all_dangling_iff ends {ports} n i d placed names_of mn at =
      let iff = connected_iff ends n i d placed names_of mn at in
      (
        λ m me. cc (
          all_dangling_unconnected ports side (values nodes) _ m,
          contains_of_In _ ports (iff.1 me),
        ),
        λ absent. elim (Bool-cases (contains ports (port_key n.name d.name))) [
          | inl here ↦ absurd (absent (iff.0 (In-of_contains _ ports here)))
          | inr missing ↦
              In-all_dangling ports side (values nodes) n d mn (get_elem?-In (side n) i d at)
                missing
        ],
      )
