-- ===== src/Graph.antt =====
-- The objects that the graph of leapp/leapp_graph/leapp_graph.py is built from: nodes
-- (leapp_node.py), their tensor descriptions (utils/tensor_description.py), and connections.
-- Python compares nodes and descriptions by identity: `ident` is an object's `id`.
pub mod Samples
pub mod Build
pub mod Ports
pub mod Io
pub mod Validate
pub mod Pipeline
use leapp.Common.{ℕ, String, Option, none, some, List, Bool, true, false, ltb, Dict}

-- A reference to a node object, as a description holds it. A node's name never changes.
pub record NodeRef : Type 0 where
  pub ident : ℕ
  pub name : String

-- `value` is the sample tensor that the description holds, by its identity.
pub record Desc : Type 0 where
  pub ident : ℕ
  pub name : String
  pub port : Option String
  pub source_node : Option NodeRef
  pub shape : List ℕ
  pub dtype : String
  pub value : ℕ

-- The index is `none` for UNSET_NODE_INDEX, which is -1 and lies below every index that is given.
pub record Node : Type 0 where
  pub ident : ℕ
  pub name : String
  pub node_index : Option ℕ
  pub inputs : List Desc
  pub outputs : List Desc
  pub state_pairs : List (Desc × Desc)

-- `self.nodes`: a dictionary from names to nodes.
abbrev pub Nodes : Type 0
Nodes = Dict String Node

-- `{"node": node, "idx": idx}`: an output of a node, or an input.
pub record Endpoint : Type 0 where
  pub node : Node
  pub idx : ℕ

pub record Connection : Type 0 where
  pub source : Endpoint
  pub targets : List Endpoint

-- `a.node_index < b.node_index`
unfoldable pub index_lt : Option ℕ → Option ℕ → Bool
index_lt none none = false
index_lt none (some j) = true
index_lt (some i) none = false
index_lt (some i) (some j) = ltb i j

-- `has_source`, with the source that it is about.
unfoldable pub source_of : Desc → Option (NodeRef × String)
source_of d = elim d.source_node [
  | none ↦ none
  | some s ↦ elim d.port [ none ↦ none | some p ↦ some (s, p) ]
]
