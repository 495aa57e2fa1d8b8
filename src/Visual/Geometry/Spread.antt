-- ===== src/Visual/Geometry/Spread.antt =====
-- geometry.py: `_expand_layout_centers`, which moves the layers and the things of a layer apart.
pub mod Layers
pub mod Placing
pub mod Total
use leapp.Common.{
  Eq, String, string_eq, Option, none, some, List, [], ◌∷◌, ◌++◌, Bool, ◌&&◌, ◌||◌, ◌==◌,
  if◌then◌else◌, Dict, keys, put, upsert, sort_by,
}
use leapp.Common.Result.{Result, ok, ◌>>=◌, traverse}
use leapp.Visual.Adapter.{text_lt}
use leapp.Visual.Floats.{Floats, Point, look, max_of, half}
use leapp.Visual.Geometry.{Size}

module _ {R : Type 0} ⦃F : Floats R⦄ ⦃e : Eq R⦄ where
  -- The things of each layer: those whose centers have the same `round(x, 3)`.
  unfoldable pub layers_of : Dict String (Point R) → Dict R (List String) → Dict R (List String)
  layers_of [] layers = layers
  layers_of ((id, center) ∷ centers) layers =
      layers_of centers (upsert (F.round_3 center.x) [] (λ ids. ids ++ (id ∷ [])) layers)

  unfoldable pub half_width_of : Dict String (Size R) → String → Result R
  half_width_of sizes id = do size ← look id sizes; ok (half size.width)

  abbrev pub next_center : Option R → R → R
  next_center none half_width = half_width
  next_center (some right) half_width = F.add (F.add right (F.tenths 880)) half_width

  -- The loop over `sorted(layer_ids)`, with `previous_right`.
  unfoldable pub place_layers :
      Dict String (Size R) → Dict R (List String) → List R → Option R → Dict R R → Result (Dict R R)
  place_layers sizes layers [] right placed = ok placed
  place_layers sizes layers (k ∷ ks) right placed = do
    ids ← look k layers
    widths ← traverse (half_width_of sizes) ids
    half_width ← max_of widths
    place_layers sizes layers ks (some (F.add (next_center right half_width) half_width))
        (put k (next_center right half_width) placed)

  unfoldable pub height_key : Dict String (Point R) → String → Result (R × String)
  height_key centers id = do center ← look id centers; ok (center.y, id)

  abbrev pub height_lt : R × String → R × String → Bool
  height_lt (y, a) (z, b) = F.lt y z || ((y == z) && text_lt a b)

  -- A thing that would reach into the gap below the previous one is moved down.
  abbrev pub moved_down : Option R → R → R → R
  moved_down none y half_height = y
  moved_down (some bottom) y half_height =
      if F.lt (F.sub y half_height) (F.add bottom (F.tenths 560))
      then F.add (F.add bottom (F.tenths 560)) half_height
      else y

  module _ (centers : Dict String (Point R)) (sizes : Dict String (Size R))
      (layer_x : Dict R R) where
    -- The loop over the sorted things of a layer, with `previous_bottom`.
    unfoldable pub stack_things :
        R → List (R × String) → Option R → Dict String (Point R) → Result (Dict String (Point R))
    stack_things layer [] bottom adjusted = ok adjusted
    stack_things layer ((_, id) ∷ things) bottom adjusted = do
      size ← look id sizes
      center ← look id centers
      x ← look layer layer_x
      let y = moved_down bottom center.y (half size.height)
      stack_things layer things (some (F.add y (half size.height)))
          (put id (record { x = x; y = y }) adjusted)

    unfoldable pub stack_layers :
        Dict R (List String) → Dict String (Point R) → Result (Dict String (Point R))
    stack_layers [] adjusted = ok adjusted
    stack_layers ((layer, ids) ∷ layers) adjusted = do
      keyed ← traverse (height_key centers) ids
      placed ← stack_things layer (sort_by height_lt keyed) none adjusted
      stack_layers layers placed

  -- `_expand_layout_centers`
  unfoldable pub expand_layout_centers :
      Dict String (Point R) → Dict String (Size R) → Result (Dict String (Point R))
  expand_layout_centers centers sizes = do
    layer_x ←
        place_layers sizes (layers_of centers []) (sort_by F.lt (keys (layers_of centers []))) none
          []
    stack_layers centers sizes layer_x (layers_of centers []) []
