-- ===== src/Graph/Pipeline/Grouping.antt =====
-- The grouping of external ports by node can be read back.
use leapp.Common.{
  String, string_eq, ◌≡◌, refl, sym, ◌∙◌, List, [], ◌∷◌, ◌++◌, false, arith, ◌==◌, if◌then◌else◌,
  get, get-upsert, or_else, append_assoc, append-nil, Bool-cases, inl, inr, All, map,
}
use leapp.Common.Text.{has_slash, port_key, split_first-port_key}
use leapp.Graph.Pipeline.{Flow, upsert_field, group_port, group_from, group_by_node}

-- The fields that are listed for a node.
abbrev pub fields_at : String → Flow → List String
fields_at node flow = or_else (get node flow) []

-- The ports "node/field" of pairs, and the fields of the pairs of one node.
abbrev pub port_of : String × String → String
port_of (n, i) = port_key n i

pub fields_of : String → List (String × String) → List String
fields_of node [] = []
fields_of node ((n, i) ∷ pairs) =
    let rest = fields_of node pairs in if n == node then i ∷ rest else rest

abbrev pub IsSlashFree : String × String → Type 0
IsSlashFree (n, i) = has_slash n ≡ false

fields_at-upsert :
    (n node i : String) (flow : Flow)
    → fields_at node (upsert_field n i flow)
      ≡ (if n == node then fields_at node flow ++ i ∷ [] else fields_at node flow)
unfolding upsert_field
fields_at-upsert n node i flow = rw get-upsert (ground (arith, string_eq.beq_iff n node))

group_from-ports :
    (node : String) (pairs : List (String × String)) (flow : Flow)
    → All IsSlashFree pairs
    → fields_at node (group_from (map port_of pairs) flow)
      ≡ fields_at node flow ++ fields_of node pairs
unfolding group_from group_port fields_of
group_from-ports node [] flow h = sym (append-nil _)
group_from-ports node ((n, i) ∷ pairs) flow h =
    rw (split_first-port_key n i h.0, group_from, group_port)
      (group_from-ports node pairs (upsert_field n i flow) h.1 ∙ elim (Bool-cases (n == node)) [
        | inl same ↦
            rw same (rw fields_at-upsert (rw same (append_assoc (fields_at node flow) _ _)))
        | inr other ↦ rw other (rw fields_at-upsert (rw other refl))
      ])

-- For ports of nodes whose names have no slash, the grouping lists under each node exactly its
-- fields, in the order of the ports, whatever slashes the fields have.
pub group_by_node_fields :
    (node : String) (pairs : List (String × String))
    → All IsSlashFree pairs
    → fields_at node (group_by_node (map port_of pairs)) ≡ fields_of node pairs
unfolding group_by_node get
group_by_node_fields node pairs h = group_from-ports node pairs [] h
