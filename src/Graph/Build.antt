-- ===== src/Graph/Build.antt =====
-- `_resolve_source_output`, `_build_state_connections` and `_build_connections` of
-- leapp/leapp_graph/leapp_graph.py. Log lines are left out; `fatal` raises.
pub mod Keys
pub mod Sound
pub mod Order
pub mod Claims
pub mod Exact
pub mod Refusal
use leapp.Common.{
  ℕ, suc, String, Option, none, some, List, [], ◌∷◌, ◌++◌, Bool, true, false, ltb, ◌==◌, nat_eq,
  string_eq, option_eq, pair_eq, if◌then◌else◌, Eq, contains, select, Dict, get, values, upsert,
}
use leapp.Common.Result.{Result, ok, exception, ◌>>=◌, ◌>>◌, raise_if}
use leapp.Graph.{NodeRef, Desc, Node, Nodes, Endpoint, Connection, index_lt, source_of}

-- A bucket's key: the source node object and the port.
abbrev pub Key : Type 0
Key = ℕ × Option String

abbrev pub Bucket : Type 0
Bucket = Dict Key Connection

abbrev later : Option ℕ → Option ℕ
later none = none
later (some i) = some (suc i)

-- The index of the first output with this port.
unfoldable pub find_output : List Desc → String → Option ℕ
find_output [] port = none
find_output (o ∷ outputs) port =
    let rest = later (find_output outputs port) in if o.port == some port then some 0 else rest

-- `_resolve_source_output`: the source must be the very node that the graph has under its name.
unfoldable pub resolve : Nodes → NodeRef → String → Option Endpoint
unfolding find_output
resolve nodes s port = elim (get s.name nodes) [
  | none ↦ none
  | some m ↦
      if m.ident == s.ident
      then elim (find_output m.outputs port) [
        | none ↦ none
        | some o ↦ some (record { node = m; idx = o })
      ]
      else none
]

-- The index of the description object itself.
unfoldable pub index_of : List Desc → Desc → Option ℕ
index_of [] d = none
index_of (c ∷ descs) d =
    let rest = later (index_of descs d) in if c.ident == d.ident then some 0 else rest

-- `setdefault(key, {"source": source, "targets": []})["targets"].append(target)`
unfoldable pub add_target : Key → Endpoint → Endpoint → Bucket → Bucket
add_target key source target =
    upsert key (record { source = source; targets = [] })
      (λ c. record c { targets = c.targets ++ target ∷ [] })

-- The state that `_build_state_connections` changes: `claimed` holds `id`s of inputs.
pub record StateWiring : Type 0 where
  pub claimed : List ℕ
  pub feedback : Bucket

unfoldable pub wire_pair : Node → Desc × Desc → StateWiring → StateWiring
wire_pair node (input, output) w = elim (index_of node.inputs input) [
  | none ↦ w
  | some i ↦ elim (index_of node.outputs output) [
    | none ↦ w
    | some o ↦ record {
      claimed = input.ident ∷ w.claimed;
      feedback =
          add_target (node.ident, output.port) (record { node = node; idx = o })
            (record { node = node; idx = i }) w.feedback;
    }
  ]
]

unfoldable pub wire_pairs : Node → List (Desc × Desc) → StateWiring → StateWiring
wire_pairs node [] w = w
wire_pairs node (p ∷ pairs) w = wire_pairs node pairs (wire_pair node p w)

unfoldable pub wire_states : List Node → StateWiring → StateWiring
wire_states [] w = w
wire_states (n ∷ nodes) w = wire_states nodes (wire_pairs n n.state_pairs w)

-- `_build_state_connections`
unfoldable pub build_state_connections : Nodes → StateWiring
build_state_connections nodes = wire_states (values nodes) (record { claimed = []; feedback = [] })

pub record Buckets : Type 0 where
  pub forward : Bucket
  pub feedback : Bucket

-- The list comprehension `sources`.
unfoldable pub sources_of : List ℕ → List Desc → List (ℕ × String)
sources_of claimed [] = []
sources_of claimed (d ∷ inputs) =
    let rest = sources_of claimed inputs in
    elim (source_of d) [
      | none ↦ rest
      | some (s, port) ↦ if contains claimed d.ident then rest else (s.ident, port) ∷ rest
    ]

module _ {A : Type 0} ⦃e : Eq A⦄ where
  abbrev pub count : A → List A → ℕ
  count a [] = 0
  count a (x ∷ xs) = let n = count a xs in if a == x then suc n else n

  -- `{source for source, count in Counter(sources).items() if count > 1}`
  abbrev pub repeated : List A → List A
  repeated xs = select (λ a. ltb 1 (count a xs)) xs

abbrev pub nonempty : {A : Type 0} → List A → Bool
nonempty [] = false
nonempty (x ∷ xs) = true

-- The body of the loop over a node's inputs.
unfoldable pub wire_input : Nodes → List ℕ → Node → ℕ → Desc → Buckets → Buckets
wire_input nodes claimed node i d b = if contains claimed d.ident then b else elim (source_of d) [
  | none ↦ b
  | some (s, port) ↦ elim (resolve nodes s port) [
    | none ↦ b
    | some source ↦
        let target : Endpoint = record { node = node; idx = i } in
        if index_lt source.node.node_index node.node_index
        then record b { forward = add_target (s.ident, some port) source target b.forward }
        else record b { feedback = add_target (s.ident, some port) source target b.feedback }
  ]
]

unfoldable pub wire_inputs : Nodes → List ℕ → Node → ℕ → List Desc → Buckets → Buckets
wire_inputs nodes claimed node i [] b = b
wire_inputs nodes claimed node i (d ∷ inputs) b =
    wire_inputs nodes claimed node (suc i) inputs (wire_input nodes claimed node i d b)

-- The body of the loop over the nodes.
unfoldable pub wire_node : Nodes → List ℕ → Node → Buckets → Result Buckets
wire_node nodes claimed node b =
    raise_if (nonempty (repeated (sources_of claimed node.inputs))) exception
    >> ok (wire_inputs nodes claimed node 0 node.inputs b)

unfoldable pub wire_nodes : Nodes → List ℕ → List Node → Buckets → Result Buckets
wire_nodes nodes claimed [] b = ok b
wire_nodes nodes claimed (n ∷ rest) b = do
  b' ← wire_node nodes claimed n b
  wire_nodes nodes claimed rest b'

-- The two dictionaries that `_build_connections` fills.
unfoldable pub build_buckets : Nodes → Result Buckets
build_buckets nodes =
    let w = build_state_connections nodes in
    wire_nodes nodes w.claimed (values nodes) (record { forward = []; feedback = w.feedback })

pub record Connections : Type 0 where
  pub forward : List Connection
  pub feedback : List Connection

-- `_build_connections`
unfoldable pub build_connections : Nodes → Result Connections
build_connections nodes = do
  b ← build_buckets nodes
  ok (record { forward = values b.forward; feedback = values b.feedback })
