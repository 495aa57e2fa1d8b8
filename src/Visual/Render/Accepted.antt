-- ===== src/Visual/Render/Accepted.antt =====
-- From a graph that was built to its drawing.
use leapp.Common.{ℕ, String, Eq, ◌≡◌, Dict, List}
use leapp.Common.Result.{ok}
use leapp.Graph.{Nodes}
use leapp.Graph.Build.Sound.{Objects}
use leapp.Graph.Ports.{inputs_of, outputs_of}
use leapp.Graph.Io.Dangling.{Names}
use leapp.Graph.Validate.{LeappGraph, init}
use leapp.Visual.{VisualGraph}
use leapp.Visual.Adapter.{Presentation}
use leapp.Visual.Adapter.Terminals.{build_visual_graph}
use leapp.Visual.Picture.{build_visual_graph-IsPicture}
use leapp.Visual.Floats.{Floats}
use leapp.Visual.Layout.Total.{compute_layered_layout-HasKeys}
use leapp.Visual.Layout.Indices.{IsSugiyama}
use leapp.Visual.Geometry.{GraphGeometry}
use leapp.Visual.Geometry.Resolve.Total.{DrawsAll, resolve_geometry-DrawsAll}
use leapp.Visual.Render.{graph_geometry}

module _ {R : Type 0} ⦃F : Floats R⦄ ⦃e : Eq R⦄ (sugiyama : List (ℕ × ℕ) → Dict ℕ (R × R))
    (lawful : IsSugiyama sugiyama) where
  -- A graph that was built is drawn: its picture, the layout and the geometry end without an
  -- error, and the drawing has an entry for each node, terminal, port and edge of the picture, and
  -- no other.
  pub graph_geometry-build_visual_graph :
      (shown : Presentation) (nodes : Nodes)
      → Objects nodes
      → Names inputs_of nodes
      → Names outputs_of nodes
      → {g : LeappGraph} → init nodes ≡ ok g
      → (name : String)
      → (v : VisualGraph) × (build_visual_graph shown nodes g ≡ ok v)
        × (drawing : GraphGeometry R) × (graph_geometry sugiyama v name ≡ ok drawing)
        × DrawsAll v drawing
  unfolding graph_geometry
  graph_geometry-build_visual_graph shown nodes objects in_names out_names accepted name =
      let (v, built, (closed, _), _) =
        build_visual_graph-IsPicture shown nodes objects in_names out_names accepted in
      let (layout, placed, centered) = compute_layered_layout-HasKeys sugiyama lawful v closed in
      let (drawing, made, all) = resolve_geometry-DrawsAll v layout name closed centered in
      (v, built, drawing, rw placed made, all)
