-- ===== src/Visual/Geometry.antt =====
-- packages/leapp-visualization/src/leapp_visualization/geometry.py: the rectangles and the points
-- of a drawing, and the bounds and the shifts of them.
pub mod Measure
pub mod Spread
pub mod Order
pub mod Resolve
use leapp.Common.{String, Option, List, [], ◌∷◌, ◌++◌, map, Dict}
use leapp.Visual.{PortSide, EdgeKind}
use leapp.Visual.Floats.{Floats, Point, smaller, larger, max_from, min_from, max_or, min_or}

pub record Rect (R : Type 0) : Type 0 where
  pub x : R
  pub y : R
  pub width : R
  pub height : R

-- `_Size`
pub record Size (R : Type 0) : Type 0 where
  pub width : R
  pub height : R

pub record NodeGeometry (R : Type 0) : Type 0 where
  pub id : String
  pub title : String
  pub backend : Option String
  pub rect : Rect R
  pub header_rect : Rect R

pub record TerminalGeometry (R : Type 0) : Type 0 where
  pub id : String
  pub title : String
  pub kind : PortSide
  pub rect : Rect R
  pub anchor : Point R

pub record PortGeometry (R : Type 0) : Type 0 where
  pub id : String
  pub node_id : String
  pub side : PortSide
  pub name : String
  pub detail : String
  pub kind : Option String
  pub rect : Rect R
  pub anchor : Point R
  pub full_label : String

pub record EdgeGeometry (R : Type 0) : Type 0 where
  pub id : String
  pub kind : EdgeKind
  pub label : String
  pub points : List (Point R)

pub record GraphGeometry (R : Type 0) : Type 0 where
  pub graph_name : String
  pub width : R
  pub height : R
  pub content_bounds : Rect R
  pub nodes : Dict String (NodeGeometry R)
  pub terminals : Dict String (TerminalGeometry R)
  pub ports : Dict String (PortGeometry R)
  pub edges : Dict String (EdgeGeometry R)

module _ {R : Type 0} ⦃F : Floats R⦄ where
  -- `_shift_rect`
  abbrev pub shift_rect : R → R → Rect R → Rect R
  shift_rect dx dy r = record {
    x = F.add r.x dx;
    y = F.add r.y dy;
    width = r.width;
    height = r.height;
  }

  -- `_shift_point`
  abbrev pub shift_point : R → R → Point R → Point R
  shift_point dx dy p = record { x = F.add p.x dx; y = F.add p.y dy }

  -- `_clamp`
  abbrev pub clamp : R → R → R → R
  clamp value minimum maximum = larger minimum (smaller maximum value)

  abbrev pub right_of : Rect R → R
  right_of r = F.add r.x r.width

  abbrev pub bottom_of : Rect R → R
  bottom_of r = F.add r.y r.height

  abbrev lefts : List (Rect R) → List R
  lefts rs = map (λ (r : Rect R). r.x) rs

  abbrev tops : List (Rect R) → List R
  tops rs = map (λ (r : Rect R). r.y) rs

  -- `_bounds_from_rects`
  unfoldable pub bounds_from_rects : List (Rect R) → Rect R
  bounds_from_rects [] = record {
    x = F.tenths 0;
    y = F.tenths 0;
    width = F.tenths 0;
    height = F.tenths 0;
  }
  bounds_from_rects (r ∷ rs) =
      let min_x = min_from r.x (lefts rs) in
      let min_y = min_from r.y (tops rs) in
      record {
        x = min_x;
        y = min_y;
        width = F.sub (max_from (right_of r) (map right_of rs)) min_x;
        height = F.sub (max_from (bottom_of r) (map bottom_of rs)) min_y;
      }

  -- `_bounds_from_rects_and_points`
  unfoldable pub bounds_from_rects_and_points : List (Rect R) → List (Point R) → Rect R
  bounds_from_rects_and_points rs ps =
      let xs = (lefts rs ++ map right_of rs) ++ map (λ (p : Point R). p.x) ps in
      let ys = (tops rs ++ map bottom_of rs) ++ map (λ (p : Point R). p.y) ps in
      let min_x = min_or (F.tenths 0) xs in
      let min_y = min_or (F.tenths 0) ys in
      record {
        x = min_x;
        y = min_y;
        width = F.sub (max_or (F.tenths 0) xs) min_x;
        height = F.sub (max_or (F.tenths 0) ys) min_y;
      }

  abbrev pub shift_node : R → R → NodeGeometry R → NodeGeometry R
  shift_node dx dy g = record {
    id = g.id;
    title = g.title;
    backend = g.backend;
    rect = shift_rect dx dy g.rect;
    header_rect = shift_rect dx dy g.header_rect;
  }

  abbrev pub shift_terminal : R → R → TerminalGeometry R → TerminalGeometry R
  shift_terminal dx dy g = record {
    id = g.id;
    title = g.title;
    kind = g.kind;
    rect = shift_rect dx dy g.rect;
    anchor = shift_point dx dy g.anchor;
  }

  abbrev pub shift_port : R → R → PortGeometry R → PortGeometry R
  shift_port dx dy g = record {
    id = g.id;
    node_id = g.node_id;
    side = g.side;
    name = g.name;
    detail = g.detail;
    kind = g.kind;
    rect = shift_rect dx dy g.rect;
    anchor = shift_point dx dy g.anchor;
    full_label = g.full_label;
  }

  abbrev pub shift_edge : R → R → EdgeGeometry R → EdgeGeometry R
  shift_edge dx dy g = record {
    id = g.id;
    kind = g.kind;
    label = g.label;
    points = map (shift_point dx dy) g.points;
  }
