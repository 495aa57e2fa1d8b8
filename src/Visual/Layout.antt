-- ===== src/Visual/Layout.antt =====
-- packages/leapp-visualization/src/leapp_visualization/layout.py: the centers of the drawn things.
pub mod Indices
pub mod Total
use leapp.Common.{
  ℕ, zero, suc, nat_eq, String, string_eq, ◌≡◌, Option, none, some, List, [], ◌∷◌, ◌++◌, map, Bool,
  true, false, not, ◌&&◌, ◌||◌, ◌==◌, ltb, if◌then◌else◌, contains, Dict, get, put_all, keys,
  values, select, sort_by, get_elem?, In, ◌≢◌,
}
use leapp.Common.Result.{Result, ok, err, key_error, index_error, ◌>>=◌, traverse}
use leapp.Visual.{
  EdgeKind, forward_edge, feedback_edge, graph_input_edge, graph_output_edge, VisualEdge,
  VisualGraph, visual_ids,
}
use leapp.Visual.Adapter.{text_lt}
use leapp.Visual.Floats.{Floats, Point, look, max_of, min_of}

pub record LayoutResult (R : Type 0) : Type 0 where
  pub centers : Dict String (Point R)
  pub forward_edge_ids : List String

-- `_LAYOUT_EDGE_KINDS`
abbrev pub is_laid_out : EdgeKind → Bool
is_laid_out forward_edge = true
is_laid_out feedback_edge = false
is_laid_out graph_input_edge = true
is_laid_out graph_output_edge = true

-- `enumerate(xs, start)`
abbrev pub enumerate : {A : Type 0} → ℕ → List A → List (ℕ × A)
enumerate i [] = []
enumerate i (x ∷ xs) = (i, x) ∷ enumerate (suc i) xs

abbrev pub indices_from : ℕ → List String → List (String × ℕ)
indices_from i [] = []
indices_from i (s ∷ ids) = (s, i) ∷ indices_from (suc i) ids

-- `{visual_id: index for index, visual_id in enumerate(visual_ids)}`
unfoldable pub id_to_index : List String → Dict String ℕ
id_to_index ids = put_all (indices_from 0 ids) []

-- The order of pairs of numbers.
abbrev pub pair_lt : ℕ × ℕ → ℕ × ℕ → Bool
pair_lt (a, b) (c, d) = ltb a c || ((a == c) && ltb b d)

unfoldable pub edge_pair : Dict String ℕ → VisualEdge → Result (ℕ × ℕ)
edge_pair indices e = do
  source ← look e.source_id indices
  target ← look e.target_id indices
  ok (source, target)

abbrev pub or_index_error : Option String → Result String
or_index_error none = err index_error
or_index_error (some s) = ok s

abbrev pub edge_ids : List VisualEdge → List String
edge_ids es = map (λ (e : VisualEdge). e.id) es

module _ {R : Type 0} ⦃F : Floats R⦄ where
  abbrev pub grid_from : ℕ → List String → List (String × Point R)
  grid_from i [] = []
  grid_from i (s ∷ ids) =
      (s, record { x = F.mul (F.of_int i) (F.tenths 2600); y = F.tenths 0 }) ∷ grid_from (suc i) ids

  -- `_deterministic_grid`
  unfoldable pub deterministic_grid : List String → Dict String (Point R)
  deterministic_grid ids = put_all (grid_from 0 ids) []

  unfoldable pub decode_one : List String → R → ℕ × (R × R) → Result (String × Point R)
  decode_one ids max_y (index, (raw_x, raw_y)) = do
    id ← or_index_error (get_elem? ids index)
    ok (id, record { x = F.mul (F.sub max_y raw_y) (F.tenths 26); y = F.mul raw_x (F.tenths 18) })

  -- `_decode_positions`
  unfoldable pub decode_positions : List String → Dict ℕ (R × R) → Result (Dict String (Point R))
  decode_positions ids raw = do
    max_y ← max_of (map (λ (p : R × R). p.1) (values raw))
    points ← traverse (decode_one ids max_y) raw
    ok (put_all points [])

  abbrev pub xs_of : List (Point R) → List R
  xs_of ps = map (λ (p : Point R). p.x) ps

  abbrev pub ys_of : List (Point R) → List R
  ys_of ps = map (λ (p : Point R). p.y) ps

  abbrev pub shifted_back : R → R → Dict String (Point R) → Dict String (Point R)
  shifted_back min_x min_y [] = []
  shifted_back min_x min_y ((s, p) ∷ points) =
      (s, record { x = F.sub p.x min_x; y = F.sub p.y min_y }) ∷ shifted_back min_x min_y points

  -- `_normalize_points`
  unfoldable pub normalize_points : Dict String (Point R) → Result (Dict String (Point R))
  normalize_points points = do
    min_x ← min_of (xs_of (values points))
    min_y ← min_of (ys_of (values points))
    ok (shifted_back min_x min_y points)

  abbrev pub column_from : R → ℕ → List String → List (String × Point R)
  column_from x row [] = []
  column_from x row (s ∷ ids) =
      (s, record { x = x; y = F.mul (F.of_int row) (F.tenths 1400) }) ∷ column_from x (suc row) ids

  -- `_place_missing_ids`
  unfoldable pub place_missing_ids :
      Dict String (Point R) → List String → Result (List (String × Point R))
  place_missing_ids points missing = do
    max_x ← max_of (xs_of (values points))
    ok (column_from (F.add max_x (F.tenths 2600)) 0 (sort_by text_lt missing))

  -- The end of `compute_layered_layout`: the things without an edge get their places.
  unfoldable pub add_missing : List String → Dict String (Point R) → Result (Dict String (Point R))
  add_missing [] centers = ok centers
  add_missing (s ∷ missing) centers = do
    placed ← place_missing_ids centers (s ∷ missing)
    ok (put_all placed centers)

  -- `compute_layered_layout`, where `sugiyama` is `_compute_sugiyama_positions`: what the library
  -- fast_sugiyama makes of the pairs.
  unfoldable pub layered :
      (List (ℕ × ℕ) → Dict ℕ (R × R)) → List String → List VisualEdge → Result (LayoutResult R)
  layered sugiyama ids es = do
    pairs ← traverse (edge_pair (id_to_index ids)) es
    decoded ← decode_positions ids (sugiyama (sort_by pair_lt pairs))
    centers ← normalize_points decoded
    complete ← add_missing (select (λ s. not (contains (keys centers) s)) ids) centers
    ok (record { centers = complete; forward_edge_ids = edge_ids es })

  unfoldable pub layout_of :
      (List (ℕ × ℕ) → Dict ℕ (R × R)) → List String → List VisualEdge → Result (LayoutResult R)
  layout_of sugiyama [] es = ok (record { centers = []; forward_edge_ids = [] })
  layout_of sugiyama (s ∷ ids) [] =
      ok (record { centers = deterministic_grid (s ∷ ids); forward_edge_ids = [] })
  layout_of sugiyama (s ∷ ids) (e ∷ es) = layered sugiyama (s ∷ ids) (e ∷ es)

  unfoldable pub compute_layered_layout :
      (List (ℕ × ℕ) → Dict ℕ (R × R)) → VisualGraph → Result (LayoutResult R)
  compute_layered_layout sugiyama g =
      layout_of sugiyama (sort_by text_lt (visual_ids g))
        (select (λ (e : VisualEdge). is_laid_out e.kind) g.edges)
