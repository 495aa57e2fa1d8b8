-- ===== src/Visual/Render.antt =====
-- packages/leapp-visualization/src/leapp_visualization/render.py, up to the file: the layout of a
-- picture, then its geometry.
pub mod Accepted
mod Samples
use leapp.Common.{ℕ, String, Eq, Dict, List}
use leapp.Common.Result.{Result, ◌>>=◌}
use leapp.Visual.{VisualGraph}
use leapp.Visual.Floats.{Floats}
use leapp.Visual.Layout.{compute_layered_layout}
use leapp.Visual.Geometry.{GraphGeometry}
use leapp.Visual.Geometry.Resolve.{resolve_geometry}

-- `render_graph` before `write_png`.
unfoldable pub graph_geometry :
    {R : Type 0} ⦃F : Floats R⦄ ⦃e : Eq R⦄
    → (List (ℕ × ℕ) → Dict ℕ (R × R))
    → VisualGraph
    → String
    → Result (GraphGeometry R)
graph_geometry sugiyama v name = do
  layout ← compute_layered_layout sugiyama v
  resolve_geometry v layout name
