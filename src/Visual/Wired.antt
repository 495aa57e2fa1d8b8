-- ===== src/Visual/Wired.antt =====
-- Which connection or external port each edge of a picture is drawn for
-- (visualization_adapter.py).
use leapp.Common.{
  ℕ, suc, String, string_eq, Option, none, some, ◌≡◌, refl, sym, ap, subst, ◌∙◌, List, [], ◌∷◌,
  ◌==◌, All, In, inl, inr, Bool-cases, get_elem?, values,
}
use leapp.Common.Result.{Result, ok, >>=-eq-ok, ok-injective}
use leapp.Common.Text.{port_key}
use leapp.Graph.{Desc, Node, Nodes, Endpoint, Connection}
use leapp.Graph.Ports.{Side, inputs_of, outputs_of, item, desc_at}
use leapp.Graph.Validate.{LeappGraph}
use leapp.Visual.{
  PortSide, input_side, output_side, EdgeKind, forward_edge, feedback_edge, graph_input_edge,
  graph_output_edge, VisualTerminal, VisualEdge,
}
use leapp.Visual.Adapter.{
  port_id, node_id, find_port_id, desc_names, target_edges, internal_edge, internal_edges,
  all_edges,
}
use leapp.Visual.Adapter.Terminals.{terminal_edges, edges_of}
use leapp.Visual.Drawn.{All-append}

-- The edge starts at the output `s` of `m`.
abbrev pub LeavesPort : Node → Desc → VisualEdge → Type 0
LeavesPort m s e =
    (e.source_id ≡ node_id m.name) × (e.source_port_id ≡ some (port_id m.name output_side s.name))

-- The edge ends at the input `d` of `n`.
abbrev pub EntersPort : Node → Desc → VisualEdge → Type 0
EntersPort n d e =
    (e.target_id ≡ node_id n.name) × (e.target_port_id ≡ some (port_id n.name input_side d.name))

-- The edge runs from the output that a connection of the list starts at to the input that one of
-- its targets is.
abbrev pub IsWire : List Connection → VisualEdge → Type 0
IsWire cs e =
    (c : Connection) × (t : Endpoint) × (s : Desc) × (d : Desc) × In c cs
    × In t c.targets
    × (get_elem? c.source.node.outputs c.source.idx ≡ some s)
    × (get_elem? t.node.inputs t.idx ≡ some d)
    × LeavesPort c.source.node s e
    × EntersPort t.node d e

-- The port is the input `d` or the output `d` of a node.
abbrev IsPort : Side → Nodes → List String → Node → Desc → Type 0
IsPort side nodes ports n d =
    In n (values nodes) × In d (side n) × In (port_key n.name d.name) ports

-- The edge runs from a terminal to the input that an external port of the list names.
abbrev pub IsEntry : Nodes → List String → VisualEdge → Type 0
IsEntry nodes ports e =
    (n : Node) × (d : Desc) × IsPort inputs_of nodes ports n d
    × (e.source_port_id ≡ none)
    × EntersPort n d e

-- The edge runs from the output that an external port of the list names to a terminal.
abbrev pub IsExit : Nodes → List String → VisualEdge → Type 0
IsExit nodes ports e =
    (n : Node) × (d : Desc) × IsPort outputs_of nodes ports n d
    × LeavesPort n d e
    × (e.target_port_id ≡ none)

-- What an edge of a kind has to be in the picture of a graph.
abbrev IsOfKind : Nodes → LeappGraph → EdgeKind → VisualEdge → Type 0
IsOfKind nodes g forward_edge e = IsWire g.connections.forward e
IsOfKind nodes g feedback_edge e = IsWire g.connections.feedback e
IsOfKind nodes g graph_input_edge e = IsEntry nodes g.io.graph_inputs e
IsOfKind nodes g graph_output_edge e = IsExit nodes g.io.graph_outputs e

abbrev pub IsDrawnFor : Nodes → LeappGraph → VisualEdge → Type 0
IsDrawnFor nodes g e = IsOfKind nodes g e.kind e

find_port_id_gives :
    (node : String) (side : PortSide) (port : String) (names : List String) {id : String}
    → find_port_id node side port names ≡ ok id
    → id ≡ port_id node side port
unfolding find_port_id
find_port_id_gives node side port [] h = cc
find_port_id_gives node side port (name ∷ names) h = elim (Bool-cases (name == port)) [
  | inl same ↦
      sym (ok-injective (rw same at h))
      ∙ ap (port_id node side) ((string_eq.beq_iff name port).0 same)
  | inr other ↦ find_port_id_gives node side port names (rw other at h)
]

item_gives : (found : Option Desc) {d : Desc} → item found ≡ ok d → found ≡ some d
item_gives none h = cc
item_gives (some d) h = ap some (ok-injective h)

-- An edge of the kind that runs from the given source to one of the targets.
abbrev IsWireTo : EdgeKind → Node → Desc → String → List Endpoint → VisualEdge → Type 0
IsWireTo kind m s port targets e =
    (t : Endpoint) × (d : Desc) × (e.kind ≡ kind)
    × In t targets
    × (get_elem? t.node.inputs t.idx ≡ some d)
    × ((e.source_id ≡ node_id m.name) × (e.source_port_id ≡ some port))
    × EntersPort t.node d e

All-imp :
    {A : Type 0} (P Q : A → Type 0) (xs : List A) → ((x : A) → P x → Q x) → All P xs → All Q xs
All-imp P Q [] f h = tt
All-imp P Q (x ∷ xs) f h = (f x h.0, All-imp P Q xs f h.1)

target_edges-AreWires :
    (kind : EdgeKind) (m : Node) (s : Desc) (port : String) (i : ℕ) (targets : List Endpoint)
    {es : List VisualEdge}
    → target_edges kind m s port i targets ≡ ok es
    → All (IsWireTo kind m s port targets) es
unfolding target_edges
target_edges-AreWires kind m s port i [] {es} h =
    subst (All (IsWireTo kind m s port [])) (ok-injective h) tt
target_edges-AreWires kind m s port i (t ∷ targets) {es} h =
    let (d, at, h₁) = >>=-eq-ok (desc_at inputs_of t) _ h in
    let (id, found, h₂) =
      >>=-eq-ok (find_port_id t.node.name input_side d.name (desc_names t.node.inputs)) _ h₁ in
    let (rest, more, h₃) = >>=-eq-ok (target_edges kind m s port (suc i) targets) _ h₂ in
    let wire : IsWireTo kind m s port (t ∷ targets) (internal_edge kind m s port i t.node d id) = (
      t,
      d,
      refl,
      inl refl,
      item_gives (get_elem? t.node.inputs t.idx) at,
      (refl, refl),
      (refl, ap some (find_port_id_gives t.node.name input_side d.name _ found)),
    ) in
    subst (All (IsWireTo kind m s port (t ∷ targets))) (ok-injective h₃) (
      wire,
      All-imp (IsWireTo kind m s port targets) (IsWireTo kind m s port (t ∷ targets)) rest
          (λ e (u, c, same, there, at, from, into). (u, c, same, inr there, at, from, into))
          (target_edges-AreWires kind m s port (suc i) targets more),
    )

-- An edge of the kind for one of the connections.
abbrev IsWireOf : EdgeKind → List Connection → VisualEdge → Type 0
IsWireOf kind cs e = (e.kind ≡ kind) × IsWire cs e

internal_edges-AreWires :
    (kind : EdgeKind) (c : Connection) (cs : List Connection) {es : List VisualEdge}
    → internal_edges kind c ≡ ok es
    → All (IsWireOf kind (c ∷ cs)) es
unfolding internal_edges
internal_edges-AreWires kind c cs {es} h =
    let n = c.source.node in
    let (s, at, h₁) = >>=-eq-ok (desc_at outputs_of c.source) _ h in
    let (id, found, h₂) =
      >>=-eq-ok (find_port_id n.name output_side s.name (desc_names n.outputs)) _ h₁ in
    let named = find_port_id_gives n.name output_side s.name _ found in
    All-imp (IsWireTo kind n s id c.targets) (IsWireOf kind (c ∷ cs)) es
      (λ e (t, d, same, there, at_t, (from, from_port), enters). (
        same,
        (
          c,
          t,
          s,
          d,
          inl refl,
          there,
          item_gives (get_elem? n.outputs c.source.idx) at,
          at_t,
          (from, from_port ∙ ap some named),
          enters,
        ),
      ))
      (target_edges-AreWires kind n s id 0 c.targets h₂)

pub all_edges-AreWires :
    (kind : EdgeKind) (cs : List Connection) {es : List VisualEdge}
    → all_edges kind cs ≡ ok es
    → All (IsWireOf kind cs) es
unfolding all_edges
all_edges-AreWires kind [] h = subst (All (IsWireOf kind [])) (ok-injective h) tt
all_edges-AreWires kind (c ∷ cs) h =
    let (edges, first, h₁) = >>=-eq-ok (internal_edges kind c) _ h in
    let (rest, more, h₂) = >>=-eq-ok (all_edges kind cs) _ h₁ in
    subst (All (IsWireOf kind (c ∷ cs))) (ok-injective h₂) (
      All-append (IsWireOf kind (c ∷ cs)) edges rest (internal_edges-AreWires kind c cs first) (
        All-imp (IsWireOf kind cs) (IsWireOf kind (c ∷ cs)) rest
          (λ e (same, (k, t, s, d, there, target, at, at', from, into)).
            (same, (k, t, s, d, inr there, target, at, at', from, into)))
          (all_edges-AreWires kind cs more)))

-- What holds of the edge that is built for each port holds of all the edges.
pub terminal_edges-All :
    (P : VisualEdge → Type 0) (build : ℕ → String → Result (VisualTerminal × VisualEdge)) (i : ℕ)
    (ports : List String) {ps : List (VisualTerminal × VisualEdge)}
    → terminal_edges build i ports ≡ ok ps
    → ((j : ℕ) (port : String) (p : VisualTerminal × VisualEdge)
        → In port ports
        → build j port ≡ ok p
        → P p.1)
    → All P (edges_of ps)
unfolding terminal_edges
terminal_edges-All P build i [] h each = subst (λ ps. All P (edges_of ps)) (ok-injective h) tt
terminal_edges-All P build i (port ∷ ports) h each =
    let (p, first, h₁) = >>=-eq-ok (build i port) _ h in
    let (rest, more, h₂) = >>=-eq-ok (terminal_edges build (suc i) ports) _ h₁ in
    subst (λ ps. All P (edges_of ps)) (ok-injective h₂)
      (
        each i port p (inl refl) first,
        terminal_edges-All P build (suc i) ports more (λ j port p m. each j port p (inr m)),
      )

-- The edges of a graph's kinds are drawn for what the graph has.
pub wires-AreDrawnFor :
    (nodes : Nodes) (g : LeappGraph) (kind : EdgeKind) (cs : List Connection) (es : List VisualEdge)
    → ((e : VisualEdge) → IsWire cs e → IsOfKind nodes g kind e)
    → all_edges kind cs ≡ ok es
    → All (IsDrawnFor nodes g) es
wires-AreDrawnFor nodes g kind cs es each h =
    All-imp (IsWireOf kind cs) (IsDrawnFor nodes g) es
      (λ e (same, wire). subst (λ k. IsOfKind nodes g k e) (sym same) (each e wire))
      (all_edges-AreWires kind cs h)
