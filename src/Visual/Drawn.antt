-- ===== src/Visual/Drawn.antt =====
-- The edges between the nodes of a picture (visualization_adapter.py).
use leapp.Common.{
  ℕ, suc, String, Option, none, string_eq, ◌≡◌, refl, sym, ap, ◌∙◌, some, List, [], ◌∷◌, ◌++◌, ◌==◌,
  length, length-append, arith, All, In, In-map, In-append_left, In-append_right, inl, inr,
  Bool-cases, get_elem?-In, get_elem?,
}
use leapp.Common.Result.{Result, ok}
use leapp.Graph.{Desc, Node, Endpoint, Connection}
use leapp.Graph.Ports.{Side, inputs_of, outputs_of, all_targets, all_sources}
use leapp.Graph.Pipeline.{count_targets}
use leapp.Visual.{PortSide, input_side, output_side, EdgeKind, VisualEdge}
use leapp.Visual.Adapter.{
  port_id, node_id, find_port_id, desc_names, target_edges, internal_edge, internal_edges,
  all_edges,
}

pub find_port_id-In :
    (node : String) (side : PortSide) (port : String) (names : List String)
    → In port names
    → find_port_id node side port names ≡ ok (port_id node side port)
unfolding find_port_id
find_port_id-In node side port [] m = elim m [ ]
find_port_id-In node side port (name ∷ names) m = elim (Bool-cases (name == port)) [
  | inl same ↦ rw (same, (string_eq.beq_iff name port).0 same) refl
  | inr other ↦ elim m [
    | inl e ↦ absurd (cc ((string_eq.beq_iff name port).1 (sym e), other))
    | inr later ↦ rw other (find_port_id-In node side port names later)
  ]
]

-- The identifiers of drawn things: of nodes and terminals, of ports, and of terminals.
pub record Things : Type 0 where
  pub visuals : List String
  pub ports : List String
  pub terminals : List String

-- An end of an edge has its anchor: at a port, or else at a terminal.
abbrev pub IsAnchored : Things → Option String → String → Type 0
IsAnchored ids none visual = In visual ids.terminals
IsAnchored ids (some port) visual = In port ids.ports

-- The edge joins two of the drawn things, each at its anchor.
abbrev pub Joins : Things → VisualEdge → Type 0
Joins ids e =
    (In e.source_id ids.visuals × IsAnchored ids e.source_port_id e.source_id)
    × (In e.target_id ids.visuals × IsAnchored ids e.target_port_id e.target_id)

pub All-append {ℓ} :
    {A : Type 0} (P : A → Type ℓ) (xs ys : List A) → All P xs → All P ys → All P (xs ++ ys)
All-append P [] ys h k = k
All-append P (x ∷ xs) ys h k = (h.0, All-append P xs ys h.1 k)

-- So many edges are drawn, each between two drawn things.
abbrev pub Draws : Things → ℕ → Result (List VisualEdge) → Type 0
Draws ids n m = (es : List VisualEdge) × (m ≡ ok es) × All (Joins ids) es × (length es ≡ n)

-- The end lies on a tensor of a drawn node, whose port is drawn.
abbrev pub Stands : Side → PortSide → Things → Endpoint → Type 0
Stands side port_side ids e =
    In (node_id e.node.name) ids.visuals
    × ((d : Desc) × (get_elem? (side e.node) e.idx ≡ some d)
        × In (port_id e.node.name port_side d.name) ids.ports)

module _ (ids : Things) where
  target_edges-Draws :
      (kind : EdgeKind) (source : Node) (s : Desc) (port : String) (i : ℕ) (targets : List Endpoint)
      → In (node_id source.name) ids.visuals
      → In port ids.ports
      → ((t : Endpoint) → In t targets → Stands inputs_of input_side ids t)
      → Draws ids (length targets) (target_edges kind source s port i targets)
  unfolding target_edges
  target_edges-Draws kind source s port i [] drawn anchored stands = ([], refl, tt, refl)
  target_edges-Draws kind source s port i (t ∷ targets) drawn anchored stands =
      let (target_drawn, (d, at, target_anchored)) = stands t (inl refl) in
      let found =
        find_port_id-In t.node.name input_side d.name (desc_names t.node.inputs)
          (In-map (λ (d : Desc). d.name) d t.node.inputs (get_elem?-In t.node.inputs t.idx d at)) in
      let (es, rest, joins, counted) =
        target_edges-Draws kind source s port (suc i) targets drawn anchored
          (λ t m. stands t (inr m)) in
      (
        internal_edge kind source s port i t.node d (port_id t.node.name input_side d.name) ∷ es,
        rw (at, found, rest) refl,
        (((drawn, anchored), (target_drawn, target_anchored)), joins),
        ap suc counted,
      )

  internal_edges-Draws :
      (kind : EdgeKind) (c : Connection)
      → Stands outputs_of output_side ids c.source
      → ((t : Endpoint) → In t c.targets → Stands inputs_of input_side ids t)
      → Draws ids (length c.targets) (internal_edges kind c)
  unfolding internal_edges
  internal_edges-Draws kind c (drawn, (d, at, anchored)) stands =
      let n = c.source.node in
      let found =
        find_port_id-In n.name output_side d.name (desc_names n.outputs)
          (In-map (λ (d : Desc). d.name) d n.outputs (get_elem?-In n.outputs c.source.idx d at)) in
      rw (at, found)
        (target_edges-Draws kind n d (port_id n.name output_side d.name) 0 c.targets drawn anchored
          stands)

  pub all_edges-Draws :
      (kind : EdgeKind) (cs : List Connection)
      → ((e : Endpoint) → In e (all_sources cs) → Stands outputs_of output_side ids e)
      → ((e : Endpoint) → In e (all_targets cs) → Stands inputs_of input_side ids e)
      → Draws ids (count_targets cs) (all_edges kind cs)
  unfolding all_edges
  all_edges-Draws kind [] sources targets = ([], refl, tt, refl)
  all_edges-Draws kind (c ∷ cs) sources targets =
      let (es, first, joins, counted) =
        internal_edges-Draws kind c (sources c.source (inl refl))
          (λ t m. targets t (In-append_left t c.targets (all_targets cs) m)) in
      let (rest, more, joins', counted') =
        all_edges-Draws kind cs (λ e m. sources e (inr m))
          (λ t m. targets t (In-append_right t c.targets (all_targets cs) m)) in
      (
        es ++ rest,
        rw (first, more) refl,
        All-append (Joins ids) es rest joins joins',
        length-append es rest ∙ omega (arith, counted, counted'),
      )
