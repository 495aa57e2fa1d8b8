-- ===== src/Visual/Geometry/Measure.antt =====
-- geometry.py: the sizes of the drawn things, from the lengths of their texts.
use leapp.Common.{
  ℕ, suc, ◌-◌, String, string_eq, Option, none, some, List, [], ◌∷◌, map, Bool, false, not, ◌==◌,
  leb, ltb, if◌then◌else◌, length, Dict, put_all, select,
}
use leapp.Common.Text.{concat}
use leapp.Structure.Packing.{join}
use leapp.Visual.{VisualPort, VisualNode, VisualTerminal, VisualGraph}
use leapp.Visual.Floats.{Floats, max_from}
use leapp.Visual.Geometry.{Size, clamp}

-- `len` of a text, and `text[:n]`.
unfoldable pub text_length : String → ℕ
text_length String.[] = 0
text_length (String.◌∷◌ c s) = suc (text_length s)

unfoldable pub text_take : ℕ → String → String
text_take n String.[] = ""
text_take n (String.◌∷◌ c s) =
    let rest = text_take (n - 1) s in if leb n 0 then "" else String.◌∷◌ c rest

unfoldable pub truncate_text : String → ℕ → String
truncate_text text max_chars =
    if leb (text_length text) max_chars then text else concat (text_take (max_chars - 1) text) "..."

-- `_shape_text`
unfoldable pub shape_text : List String → String
shape_text [] = "[]"
shape_text (d ∷ ds) = concat "[" (concat (join ", " (d ∷ ds)) "]")

-- `_port_detail_text`
abbrev pub port_detail_text : VisualPort → String
port_detail_text p = concat (shape_text p.shape) (concat " " p.dtype)

-- `None` and the empty text are false.
abbrev pub truthy : Option String → Bool
truthy none = false
truthy (some s) = not (s == "")

abbrev pub text_of : Option String → String
text_of none = ""
text_of (some s) = s

-- `_visible_port_kind`
unfoldable pub visible_port_kind : VisualPort → Option String
visible_port_kind p = if truthy p.kind then some (truncate_text (text_of p.kind) 24) else none

abbrev pub row_count : VisualNode → ℕ
row_count n = if ltb (length n.inputs) (length n.outputs) then length n.outputs else length n.inputs

module _ {R : Type 0} ⦃F : Floats R⦄ where
  abbrev pub times : ℕ → ℕ → R
  times n width = F.mul (F.of_int n) (F.tenths width)

  abbrev kind_widths : Option String → List R
  kind_widths none = []
  kind_widths (some s) = if s == "" then [] else times (text_length s) 70 ∷ []

  -- `_measure_port_content_width`
  unfoldable pub measure_port_content_width : VisualPort → R
  measure_port_content_width p = max_from (times (text_length (truncate_text p.name 24)) 70) (
      times (text_length (truncate_text (port_detail_text p) 32)) 62
      ∷ kind_widths (visible_port_kind p))

  -- `_measure_side_slot_width`
  unfoldable pub measure_side_slot_width : List VisualPort → R
  measure_side_slot_width [] = F.tenths 0
  measure_side_slot_width (p ∷ ps) =
      F.add (max_from (measure_port_content_width p) (map measure_port_content_width ps))
        (F.tenths 140)

  -- `_measure_terminal_width`
  unfoldable pub measure_terminal_width : VisualTerminal → R
  measure_terminal_width t =
      clamp (F.add (times (text_length t.title) 80) (F.mul (F.tenths 140) (F.tenths 20)))
        (F.tenths 1000) (F.tenths 2200)

  -- `_measure_node_header_width`
  unfoldable pub measure_node_header_width : VisualNode → R
  measure_node_header_width n =
      F.add
        (F.add
          (F.add (times (text_length n.title) 80)
            (if truthy n.backend then F.tenths 400 else F.tenths 0))
          (times (text_length (text_of n.backend)) 80))
        (F.mul (F.tenths 140) (F.tenths 20))

  -- The width of the columns of ports, of which those that are not positive do not count.
  abbrev pub columns_width : List R → R → R → R
  columns_width [] input_width output_width = F.tenths 0
  columns_width (w ∷ []) input_width output_width = F.add w (F.tenths 140)
  columns_width (w ∷ _ ∷ _) input_width output_width =
      F.add (F.add input_width (F.tenths 400)) output_width

  -- `_measure_node_size`
  unfoldable pub measure_node_size : VisualNode → Size R
  measure_node_size n =
      let input_width = measure_side_slot_width n.inputs in
      let output_width = measure_side_slot_width n.outputs in
      let positive = select (λ w. F.lt (F.tenths 0) w) (input_width ∷ output_width ∷ []) in
      record {
        width =
            max_from (F.tenths 2200)
              (measure_node_header_width n ∷ columns_width positive input_width output_width ∷ []);
        height =
            F.add (F.add (F.add (F.tenths 340) (F.tenths 140)) (times (row_count n) 620))
              (F.tenths 140);
      }

  abbrev pub terminal_size : VisualTerminal → Size R
  terminal_size t = record { width = measure_terminal_width t; height = F.tenths 340 }

  abbrev pub node_sizes : List VisualNode → List (String × Size R)
  node_sizes ns = map (λ (n : VisualNode). (n.id, measure_node_size n)) ns

  abbrev pub terminal_sizes : List VisualTerminal → List (String × Size R)
  terminal_sizes ts = map (λ (t : VisualTerminal). (t.id, terminal_size t)) ts

  -- `_measure_visual_sizes`
  unfoldable pub measure_visual_sizes : VisualGraph → Dict String (Size R)
  measure_visual_sizes g =
      put_all (put_all (terminal_sizes g.terminals) []) (put_all (node_sizes g.nodes) [])
