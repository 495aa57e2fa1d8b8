-- ===== src/Visual.antt =====
-- The picture of a graph as data: packages/leapp-visualization/src/leapp_visualization/model.py.
pub mod Adapter
pub mod Floats
pub mod Layout
pub mod Geometry
pub mod Render
pub mod Drawn
pub mod Wired
pub mod Tied
pub mod Picture
mod Samples
use Prim.Native.Char.{Char, code}
use leapp.Common.{
  ℕ, String, nat_eq, Option, List, [], ◌∷◌, ◌++◌, map, Bool, true, false, ◌==◌, if◌then◌else◌,
}
use leapp.Common.Text.{concat}

pub data PortSide : Type 0 where
  input_side output_side : PortSide

pub data EdgeKind : Type 0 where
  forward_edge feedback_edge graph_input_edge graph_output_edge : EdgeKind

pub record VisualPort : Type 0 where
  pub id : String
  pub node_id : String
  pub side : PortSide
  pub name : String
  pub shape : List String
  pub dtype : String
  pub kind : Option String

pub record VisualNode : Type 0 where
  pub id : String
  pub title : String
  pub backend : Option String
  pub inputs : List VisualPort
  pub outputs : List VisualPort

-- The kind is "graph_input" for the input side, "graph_output" for the other.
pub record VisualTerminal : Type 0 where
  pub id : String
  pub kind : PortSide
  pub title : String
  pub node_id : String
  pub port_id : String

pub record VisualEdge : Type 0 where
  pub id : String
  pub kind : EdgeKind
  pub source_id : String
  pub target_id : String
  pub source_port_id : Option String
  pub target_port_id : Option String
  pub label : String

pub record VisualGraph : Type 0 where
  pub nodes : List VisualNode
  pub terminals : List VisualTerminal
  pub edges : List VisualEdge

-- `VisualGraph.visual_ids`
unfoldable pub visual_ids : VisualGraph → List String
visual_ids g =
    map (λ (n : VisualNode). n.id) g.nodes ++ map (λ (t : VisualTerminal). t.id) g.terminals

abbrev replaced : Char → Char
replaced c = if code c == 47 then ":" else if code c == 32 then "_" else c

-- `.replace("/", ":").replace(" ", "_")`
unfoldable pub normalized : String → String
normalized String.[] = ""
normalized (String.◌∷◌ c s) = String.◌∷◌ (replaced c) (normalized s)

-- `visual_id`, for parts that are texts already.
unfoldable pub visual_id : List String → String
visual_id [] = ""
visual_id (part ∷ []) = normalized part
visual_id (part ∷ next ∷ parts) = concat (normalized part) (concat ":" (visual_id (next ∷ parts)))
