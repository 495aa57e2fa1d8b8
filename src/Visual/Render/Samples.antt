-- ===== src/Visual/Render/Samples.antt =====
-- A picture of two nodes with an edge, an external input and feedback, laid out in fixed-point
-- numbers.
use leapp.Common.{
  ℕ, ◌+◌, ◌-◌, ◌*◌, nat_eq, String, string_eq, ◌≡◌, ◌⊎◌, inl, inr, refl, none, some, List, [], ◌∷◌,
  ltb, Dict, put, keys, upsert, get, In, In-keys-put, In-of_keys-put, arith, insert_by, sort_by,
  put_all,
}
use Prim.Native.Nat.{◌/◌}
use leapp.Common.Result.{ok, traverse}
use leapp.Graph.Samples.{
  nodes, nodes-Objects, input-Names, output-Names, init-nodes, accepted_graph,
}
use leapp.Visual.{
  input_side, forward_edge, feedback_edge, graph_input_edge, VisualPort, VisualNode, VisualGraph,
  visual_ids,
}
use leapp.Visual.Adapter.{Presentation, text_lt}
use leapp.Visual.Adapter.Terminals.{build_visual_graph}
use leapp.Visual.Picture.{IsClosed}
use leapp.Visual.Floats.{Floats, max_from, min_from}
use leapp.Visual.Layout.{
  LayoutResult, id_to_index, edge_pair, decode_one, decode_positions, normalize_points,
  place_missing_ids, add_missing, deterministic_grid, layered, layout_of, compute_layered_layout,
}
use leapp.Visual.Layout.Total.{compute_layered_layout-HasKeys}
use leapp.Visual.Layout.Indices.{HasKeys, IsSugiyama}
use leapp.Visual.Geometry.{GraphGeometry}
use leapp.Visual.Geometry.Measure.{text_length, text_take, truncate_text}
use leapp.Visual.Geometry.Resolve.{resolve_geometry}
use leapp.Visual.Geometry.Resolve.Total.{DrawsAll, resolve_geometry-DrawsAll}
use leapp.Visual.Render.{graph_geometry}
use leapp.Visual.Render.Accepted.{graph_geometry-build_visual_graph}

-- Tenths.
instance abbrev fixed_point : Floats ℕ
fixed_point = record {
  tenths = λ n. n;
  of_int = λ n. n * 10;
  add = λ a b. a + b;
  sub = λ a b. a - b;
  mul = λ a b. (a * b) / 10;
  div = λ a b. (a * 10) / b;
  lt = ltb;
  round_3 = λ a. a;
}

-- Each vertex on a diagonal.
abbrev diagonal : List (ℕ × ℕ) → Dict ℕ (ℕ × ℕ)
diagonal [] = []
diagonal ((i, j) ∷ pairs) = put i (i * 10, i * 10) (put j (j * 10, j * 10) (diagonal pairs))

diagonal_source : (pairs : List (ℕ × ℕ)) (p : ℕ × ℕ) → In p pairs → In p.0 (keys (diagonal pairs))
diagonal_source [] p m = absurd m
diagonal_source ((i, j) ∷ pairs) p (inl e) = In-keys-put i p.0 _ _ (inl (cc e))
diagonal_source ((i, j) ∷ pairs) p (inr m) =
    In-keys-put i p.0 _ _ (inr (In-keys-put j p.0 _ _ (inr (diagonal_source pairs p m))))

diagonal_target : (pairs : List (ℕ × ℕ)) (p : ℕ × ℕ) → In p pairs → In p.1 (keys (diagonal pairs))
diagonal_target [] p m = absurd m
diagonal_target ((i, j) ∷ pairs) p (inl e) =
    In-keys-put i p.1 _ _ (inr (In-keys-put j p.1 _ _ (inl (cc e))))
diagonal_target ((i, j) ∷ pairs) p (inr m) =
    In-keys-put i p.1 _ _ (inr (In-keys-put j p.1 _ _ (inr (diagonal_target pairs p m))))

diagonal_vertex :
    (pairs : List (ℕ × ℕ)) (i : ℕ)
    → In i (keys (diagonal pairs))
    → (p : ℕ × ℕ) × In p pairs × ((i ≡ p.0) ⊎ (i ≡ p.1))
diagonal_vertex [] i m = absurd m
diagonal_vertex ((s, t) ∷ pairs) i m = elim (In-of_keys-put s i _ _ m) [
  | inl e ↦ ((s, t), inl refl, inl e)
  | inr old ↦ elim (In-of_keys-put t i _ _ old) [
    | inl e ↦ ((s, t), inl refl, inr e)
    | inr rest ↦ let (p, mp, end) = diagonal_vertex pairs i rest in (p, inr mp, end)
  ]
]

diagonal-IsSugiyama : IsSugiyama diagonal
diagonal-IsSugiyama = record {
  places_source = diagonal_source;
  places_target = diagonal_target;
  only_vertices = diagonal_vertex;
}

abbrev port : String → String → VisualPort
port id node = record {
  id = id;
  node_id = node;
  side = input_side;
  name = "x";
  shape = "2" ∷ [];
  dtype = "float32";
  kind = none;
}

abbrev first_node : VisualNode
first_node = record {
  id = "a";
  title = "a";
  backend = none;
  inputs = port "a.in" "a" ∷ port "a.back" "a" ∷ [];
  outputs = port "a.out" "a" ∷ [];
}

abbrev second_node : VisualNode
second_node = record {
  id = "b";
  title = "b";
  backend = some "onnx";
  inputs = port "b.in" "b" ∷ [];
  outputs = port "b.out" "b" ∷ [];
}

abbrev picture : VisualGraph
picture = record {
  nodes = first_node ∷ second_node ∷ [];
  terminals =
      record { id = "t"; kind = input_side; title = "x"; node_id = "a"; port_id = "a.in" } ∷ [];
  edges =
      record {
        id = "e";
        kind = forward_edge;
        source_id = "a";
        target_id = "b";
        source_port_id = some "a.out";
        target_port_id = some "b.in";
        label = "x";
      }
      ∷ record {
        id = "f";
        kind = feedback_edge;
        source_id = "b";
        target_id = "a";
        source_port_id = some "b.out";
        target_port_id = some "a.back";
        label = "x";
      }
      ∷ record {
        id = "g";
        kind = graph_input_edge;
        source_id = "t";
        target_id = "a";
        source_port_id = none;
        target_port_id = some "a.in";
        label = "x";
      }
      ∷ [];
}

picture-IsClosed : IsClosed picture
unfolding visual_ids
picture-IsClosed = ground arith

abbrev placed : LayoutResult ℕ
placed = record {
  centers =
      ("a", record { x = 0; y = 0 })
      ∷ ("b", record { x = 2600; y = 0 })
      ∷ ("t", record { x = 0; y = 100 })
      ∷ [];
  forward_edge_ids = [];
}

placed-HasKeys : HasKeys (visual_ids picture) placed.centers
unfolding visual_ids
placed-HasKeys s = ((λ m. m), (λ m. m))

layout_program : Unit {0}
unfolding sort_by insert_by put get upsert put_all traverse visual_ids text_lt id_to_index edge_pair
    decode_one decode_positions normalize_points place_missing_ids add_missing deterministic_grid
    layered layout_of compute_layered_layout
layout_program = tt

-- The thing that lies highest comes last, and the edges of the feedback do not count.
lays_out :
    compute_layered_layout diagonal picture
    ≡ ok (record {
      centers =
          ("a", record { x = 52; y = 0 })
          ∷ ("t", record { x = 0; y = 36 })
          ∷ ("b", record { x = 26; y = 18 })
          ∷ [];
      forward_edge_ids = "e" ∷ "g" ∷ [];
    })
unfolding layout_program max_from min_from
lays_out = refl

text_program : Unit {0}
unfolding text_length text_take truncate_text
text_program = tt

truncates : truncate_text "position" 5 ≡ "posi..."
unfolding text_program
truncates = refl

keeps_short : truncate_text "posit" 5 ≡ "posit"
unfolding text_program
keeps_short = refl

compute_layered_layout-HasKeys_example :
    (l : LayoutResult ℕ) × (compute_layered_layout diagonal picture ≡ ok l)
    × HasKeys (visual_ids picture) l.centers
compute_layered_layout-HasKeys_example =
    compute_layered_layout-HasKeys diagonal diagonal-IsSugiyama picture picture-IsClosed

resolve_geometry-DrawsAll_example :
    (g : GraphGeometry ℕ) × (resolve_geometry picture placed "demo" ≡ ok g) × DrawsAll picture g
resolve_geometry-DrawsAll_example =
    resolve_geometry-DrawsAll picture placed "demo" picture-IsClosed placed-HasKeys

abbrev silent : Presentation
silent = record { backend_of = λ n. none; kind_of = λ d. none }

graph_geometry-build_visual_graph_example :
    (v : VisualGraph) × (build_visual_graph silent nodes accepted_graph ≡ ok v)
    × (drawing : GraphGeometry ℕ) × (graph_geometry diagonal v "demo" ≡ ok drawing)
    × DrawsAll v drawing
graph_geometry-build_visual_graph_example =
    graph_geometry-build_visual_graph diagonal diagonal-IsSugiyama silent nodes nodes-Objects
      input-Names output-Names init-nodes "demo"
