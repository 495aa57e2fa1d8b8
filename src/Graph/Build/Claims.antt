-- ===== src/Graph/Build/Claims.antt =====
-- Which inputs the state pairs of a graph claim.
use leapp.Common.{
  ℕ, ◌≡◌, refl, ◌∙◌, none, some, List, [], ◌∷◌, ◌++◌, map, Bool, true, false, arith, nat_eq,
  if◌then◌else◌, ◌&&◌, ◌||◌, contains, contains-append, Option-cases, values, inl, inr,
}
use leapp.Graph.{Desc, Node, Nodes}
use leapp.Graph.Build.{
  index_of, StateWiring, wire_pair, wire_pairs, wire_states, build_state_connections,
}

abbrev idents : List Desc → List ℕ
idents descs = map (λ (d : Desc). d.ident) descs

-- Both halves of the pair are descriptions of the node.
abbrev pub is_registered : Node → Desc × Desc → Bool
is_registered node (input, output) =
    contains (idents node.inputs) input.ident && contains (idents node.outputs) output.ident

-- The inputs of the pairs whose halves are descriptions of the node.
abbrev pub pair_ids : Node → List (Desc × Desc) → List ℕ
pair_ids node [] = []
pair_ids node (p ∷ pairs) =
    let rest = pair_ids node pairs in if is_registered node p then p.0.ident ∷ rest else rest

abbrev pub state_ids : List Node → List ℕ
state_ids [] = []
state_ids (n ∷ nodes) = pair_ids n n.state_pairs ++ state_ids nodes

index_of-none :
    (descs : List Desc) (d : Desc)
    → index_of descs d ≡ none
    → contains (idents descs) d.ident ≡ false
unfolding index_of
index_of-none [] d h = refl
index_of-none (c ∷ descs) d h = elim (Option-cases (index_of descs d)) [
  | inl missing ↦ ground (
    arith,
    index_of-none descs d missing,
    nat_eq.beq_iff c.ident d.ident,
    nat_eq.beq_iff d.ident c.ident,
  )
  | inr (i, found) ↦ absurd (ground (arith, found))
]

index_of-some :
    (descs : List Desc) (d : Desc) (i : ℕ)
    → index_of descs d ≡ some i
    → contains (idents descs) d.ident ≡ true
unfolding index_of
index_of-some [] d i h = absurd (cc h)
index_of-some (c ∷ descs) d i h = elim (Option-cases (index_of descs d)) [
  | inl missing ↦
      ground (arith, missing, nat_eq.beq_iff c.ident d.ident, nat_eq.beq_iff d.ident c.ident)
  | inr (j, found) ↦ ground (arith, index_of-some descs d j found)
]

contains-wire_pair :
    (x : ℕ) (node : Node) (p : Desc × Desc) (pairs : List (Desc × Desc)) (w : StateWiring)
    → (contains (pair_ids node pairs) x || contains (wire_pair node p w).claimed x)
      ≡ (contains (pair_ids node (p ∷ pairs)) x || contains w.claimed x)
unfolding wire_pair
contains-wire_pair x node (input, output) pairs w =
    elim (Option-cases (index_of node.inputs input)) [
      | inl missing ↦ rw (missing, wire_pair, index_of-none node.inputs input missing) refl
      | inr (i, at) ↦ elim (Option-cases (index_of node.outputs output)) [
        | inl missing ↦
            rw
              (
                at,
                missing,
                wire_pair,
                index_of-some node.inputs input i at,
                index_of-none node.outputs output missing,
              )
              refl
        | inr (o, at_output) ↦
            rw
              (
                at,
                at_output,
                wire_pair,
                index_of-some node.inputs input i at,
                index_of-some node.outputs output o at_output,
              )
              (ground arith)
      ]
    ]

contains-wire_pairs :
    (x : ℕ) (node : Node) (pairs : List (Desc × Desc)) (w : StateWiring)
    → contains (wire_pairs node pairs w).claimed x
      ≡ (contains (pair_ids node pairs) x || contains w.claimed x)
unfolding wire_pairs
contains-wire_pairs x node [] w = refl
contains-wire_pairs x node (p ∷ pairs) w =
    contains-wire_pairs x node pairs (wire_pair node p w) ∙ contains-wire_pair x node p pairs w

contains-wire_states :
    (x : ℕ) (nodes : List Node) (w : StateWiring)
    → contains (wire_states nodes w).claimed x
      ≡ (contains (state_ids nodes) x || contains w.claimed x)
unfolding wire_states
contains-wire_states x [] w = refl
contains-wire_states x (n ∷ nodes) w =
    contains-wire_states x nodes (wire_pairs n n.state_pairs w)
    ∙ ground (
      arith,
      contains-wire_pairs x n n.state_pairs w,
      contains-append (pair_ids n n.state_pairs) (state_ids nodes) x,
    )

or_false : (b : Bool) → (b || false) ≡ b
or_false b = ground arith

pub contains-claimed :
    (nodes : Nodes) (x : ℕ)
    → contains (build_state_connections nodes).claimed x ≡ contains (state_ids (values nodes)) x
unfolding build_state_connections
contains-claimed nodes x =
    contains-wire_states x (values nodes) (record { claimed = []; feedback = [] }) ∙ or_false _
