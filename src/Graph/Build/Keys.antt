-- ===== src/Graph/Build/Keys.antt =====
-- What an endpoint's output produces and what an endpoint's input asks for, as bucket keys, and
-- how lookups, `resolve` and `index_of` relate to them.
use leapp.Common.{
  ℕ, String, ◌≡◌, Option, none, some, List, [], ◌∷◌, arith, ◌==◌, nat_eq, option_eq, string_eq,
  get_elem?, In, inl, inr, get, In-values, values, Bool-cases, Option-cases, refl, eq_of_beq,
}
use leapp.Graph.{NodeRef, Desc, Nodes, Endpoint, source_of}
use leapp.Graph.Build.{Key, find_output, resolve, index_of}

abbrev pub desc_key : ℕ → Option Desc → Option Key
desc_key ident none = none
desc_key ident (some o) = some (ident, o.port)

abbrev pub asked_key : Option (NodeRef × String) → Option Key
asked_key none = none
asked_key (some (s, port)) = some (s.ident, some port)

abbrev pub desc_asks : Option Desc → Option Key
desc_asks none = none
desc_asks (some d) = asked_key (source_of d)

-- The node object and port of the output at an endpoint.
abbrev pub output_key : Endpoint → Option Key
output_key e = desc_key e.node.ident (get_elem? e.node.outputs e.idx)

-- The node object and port that the input at an endpoint takes its value from.
abbrev pub input_key : Endpoint → Option Key
input_key e = desc_asks (get_elem? e.node.inputs e.idx)

pub find_output_at :
    (outputs : List Desc) (port : String) {o : ℕ}
    → find_output outputs port ≡ some o
    → (d : Desc) × (get_elem? outputs o ≡ some d) × (d.port ≡ some port)
unfolding find_output
find_output_at [] port h = ground arith
find_output_at (d ∷ outputs) port {o} h = elim (Bool-cases (d.port == some port)) [
  | inl here ↦ (d, ground arith, eq_of_beq d.port (some port) here)
  | inr not_here ↦ elim (Option-cases (find_output outputs port)) [
    | inl missing ↦ absurd (ground (arith, missing, not_here, h))
    | inr (o', found) ↦
        let (d', at, port_eq) = find_output_at outputs port found in
        (d', ground (arith, found, not_here, h, at), port_eq)
  ]
]

record Resolved (nodes : Nodes) (s : NodeRef) (port : String) (e : Endpoint) : Type 0 where
  found : get s.name nodes ≡ some e.node
  same : e.node.ident ≡ s.ident
  first : find_output e.node.outputs port ≡ some e.idx

resolve_inv :
    (nodes : Nodes) (s : NodeRef) (port : String) {e : Endpoint}
    → resolve nodes s port ≡ some e
    → Resolved nodes s port e
unfolding resolve
resolve_inv nodes s port h = record {
  found = ground arith;
  same = ground (arith, nat_eq.beq_iff);
  first = ground arith;
}

-- What `resolve` returns is an output of a node of the graph: the one that was asked for.
pub resolve_key :
    (nodes : Nodes) (s : NodeRef) (port : String) {e : Endpoint}
    → resolve nodes s port ≡ some e
    → (In e.node (values nodes)) × (output_key e ≡ some (s.ident, some port))
resolve_key nodes s port {e} h =
    let r = resolve_inv nodes s port h in
    let (d, at, port_eq) = find_output_at e.node.outputs port r.first in
    (In-values s.name e.node nodes r.found, ground (arith, at, port_eq, r.same))

pub index_of_at :
    (descs : List Desc) (d : Desc) {i : ℕ}
    → index_of descs d ≡ some i
    → (c : Desc) × (get_elem? descs i ≡ some c) × (In c descs) × (c.ident ≡ d.ident)
unfolding index_of
index_of_at [] d h = ground arith
index_of_at (c ∷ descs) d {i} h = elim (Bool-cases (c.ident == d.ident)) [
  | inl here ↦ (c, ground arith, inl refl, eq_of_beq c.ident d.ident here)
  | inr not_here ↦ elim (Option-cases (index_of descs d)) [
    | inl missing ↦ absurd (ground (arith, missing, not_here, h))
    | inr (i', found) ↦
        let (c', at, m, same) = index_of_at descs d found in
        (c', ground (arith, found, not_here, h, at), inr m, same)
  ]
]
