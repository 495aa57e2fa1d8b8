-- ===== src/Visual/Layout/Total.antt =====
-- The keys of the centers that `compute_layered_layout` (layout.py) returns.
use leapp.Common.{
  ℕ, suc, nat_eq, String, string_eq, ◌≡◌, ◌↔◌, ◌⊎◌, inl, inr, refl, sym, ap, subst, ◌∙◌, some, List,
  [], ◌∷◌, map, not, contains, Bool-cases, Dict, keys, values, put_all, select, sort_by, get_elem?,
  get_elem?-In, In, In-sort_by, In-of_sort_by, In-keys-put_all, In-of_keys-put_all, In-select,
  In-of_select, In-keys_of_entry, entry_of_key, In-of_contains, All-at,
}
use leapp.Common.Result.{Result, ok, ok-injective, traverse_total, In-traverse, In-of_traverse}
use leapp.Visual.{VisualEdge, VisualGraph, visual_ids}
use leapp.Visual.Adapter.{text_lt}
use leapp.Visual.Drawn.{Joins}
use leapp.Visual.Picture.{IsClosed, things_of}
use leapp.Visual.Floats.{Floats, Point, max_of, min_of}
use leapp.Visual.Layout.{
  LayoutResult, is_laid_out, pair_lt, grid_from, deterministic_grid, decode_one, decode_positions,
  shifted_back, normalize_points, column_from, place_missing_ids, add_missing, edge_ids, layered,
  layout_of, compute_layered_layout,
}
use leapp.Visual.Layout.Indices.{HasKeys, pairs_of_edges, IsSugiyama}

keys-grid_from :
    (R : Type 0) ⦃F : Floats R⦄ (i : ℕ) (ids : List String) → keys (grid_from {R = R} i ids) ≡ ids
keys-grid_from R i [] = refl
keys-grid_from R i (s ∷ ids) = ap (λ ks. s ∷ ks) (keys-grid_from R (suc i) ids)

deterministic_grid-HasKeys :
    (R : Type 0) ⦃F : Floats R⦄ (ids : List String) → HasKeys ids (deterministic_grid {R = R} ids)
unfolding deterministic_grid
deterministic_grid-HasKeys R ids s =
    let same = keys-grid_from R 0 ids in
    (
      (λ m. In-keys-put_all s (grid_from {R = R} 0 ids) [] (inl (subst (In s) (sym same) m))),
      (λ m. elim (In-of_keys-put_all s (grid_from {R = R} 0 ids) [] m) [
        | inl there ↦ subst (In s) same there
        | inr empty ↦ absurd empty
      ]),
    )

module _ {R : Type 0} ⦃F : Floats R⦄ where
  max_of_some :
      {K A : Type 0} (f : A → R) (k : K) (d : Dict K A)
      → In k (keys d)
      → (m : R) × (max_of (map f (values d)) ≡ ok m)
  max_of_some f k [] m = absurd m
  max_of_some f k ((j, a) ∷ d) m = (_, refl)

  min_of_some :
      {K A : Type 0} (f : A → R) (k : K) (d : Dict K A)
      → In k (keys d)
      → (m : R) × (min_of (map f (values d)) ≡ ok m)
  min_of_some f k [] m = absurd m
  min_of_some f k ((j, a) ∷ d) m = (_, refl)

  decode_one_total :
      (ids : List String) (max_y : R) (i : ℕ) (at : R × R)
      → ((s : String) × (get_elem? ids i ≡ some s))
      → (entry : String × Point R) × (decode_one ids max_y (i, at) ≡ ok entry) × In entry.0 ids
  unfolding decode_one
  decode_one_total ids max_y i (x, y) (s, found) = (
    (s, record { x = F.mul (F.sub max_y y) (F.tenths 26); y = F.mul x (F.tenths 18) }),
    rw found refl,
    get_elem?-In ids i s found,
  )

  -- Some things get a place, and nothing else does.
  abbrev Places : List String → Result (Dict String (Point R)) → Type 0
  Places ids m =
      (d : Dict String (Point R)) × (m ≡ ok d)
      × ((s : String) → In s (keys d) → In s ids)
      × ((s : String) × In s (keys d))

  decode_positions-Places :
      (ids : List String) (raw : Dict ℕ (R × R)) (i : ℕ)
      → In i (keys raw)
      → ((j : ℕ) → In j (keys raw) → (s : String) × (get_elem? ids j ≡ some s))
      → Places ids (decode_positions ids raw)
  unfolding decode_positions
  decode_positions-Places ids raw i m inside =
      let (max_y, found) = max_of_some (λ (p : R × R). p.1) i raw m in
      let one : (entry : ℕ × (R × R))
          → In entry raw
          → (p : String × Point R) × (decode_one ids max_y entry ≡ ok p) × In p.0 ids =
        λ entry me.
          decode_one_total ids max_y entry.0 entry.1
            (inside entry.0 (In-keys_of_entry entry.0 entry.1 raw me)) in
      let (points, made) =
        traverse_total (decode_one ids max_y) raw
          (λ entry me. let (p, at, _) = one entry me in (p, at)) in
      let (at, m_at) = entry_of_key i raw m in
      let (p, made_p, _) = one (i, at) m_at in
      let at_p = In-traverse (decode_one ids max_y) raw (i, at) p made m_at made_p in
      (
        put_all points [],
        rw (found, made) refl,
        (λ s ms. elim (In-of_keys-put_all s points [] ms) [
          | inl there ↦
              let (q, mq) = entry_of_key s points there in
              let (entry, me, at_e) = In-of_traverse (decode_one ids max_y) raw (s, q) made mq in
              let (r, at_r, in_r) = one entry me in
              subst (λ (p : String × Point R). In p.0 ids) (ok-injective (sym at_r ∙ at_e)) in_r
          | inr empty ↦ absurd empty
        ]),
        (p.0, In-keys-put_all p.0 points [] (inl (In-keys_of_entry p.0 p.1 points at_p))),
      )

  keys-shifted_back : (x y : R) (d : Dict String (Point R)) → keys (shifted_back x y d) ≡ keys d
  keys-shifted_back x y [] = refl
  keys-shifted_back x y ((s, p) ∷ d) = ap (λ ks. s ∷ ks) (keys-shifted_back x y d)

  normalize_points-Places :
      (ids : List String) (d : Dict String (Point R))
      → ((s : String) → In s (keys d) → In s ids)
      → (s : String) × In s (keys d)
      → Places ids (normalize_points d)
  unfolding normalize_points
  normalize_points-Places ids d inside (s, ms) =
      let (x, at_x) = min_of_some (λ (p : Point R). p.x) s d ms in
      let (y, at_y) = min_of_some (λ (p : Point R). p.y) s d ms in
      let same = keys-shifted_back x y d in
      (
        shifted_back x y d,
        rw (at_x, at_y) refl,
        (λ t mt. inside t (subst (In t) same mt)),
        (s, subst (In s) (sym same) ms),
      )

  keys-column_from : (x : R) (row : ℕ) (ids : List String) → keys (column_from x row ids) ≡ ids
  keys-column_from x row [] = refl
  keys-column_from x row (s ∷ ids) = ap (λ ks. s ∷ ks) (keys-column_from x (suc row) ids)

  -- What is written under the missing things.
  place_missing_ids-keys :
      (d : Dict String (Point R)) (missing : List String)
      → (s : String) × In s (keys d)
      → (placed : List (String × Point R)) × (place_missing_ids d missing ≡ ok placed)
        × (keys placed ≡ sort_by text_lt missing)
  unfolding place_missing_ids
  place_missing_ids-keys d missing (s, ms) =
      let (x, at) = max_of_some (λ (p : Point R). p.x) s d ms in
      let start = F.add x (F.tenths 2600) in
      (
        column_from start 0 (sort_by text_lt missing),
        rw at refl,
        keys-column_from start 0 (sort_by text_lt missing),
      )

  add_missing-keys :
      (d : Dict String (Point R)) (missing : List String)
      → (s : String) × In s (keys d)
      → (all : Dict String (Point R)) × (add_missing missing d ≡ ok all)
        × ((s : String) → (In s missing ⊎ In s (keys d)) ↔ In s (keys all))
  unfolding add_missing
  add_missing-keys d [] some_key =
      (d, refl, λ s. ((λ h. elim h [ inl empty ↦ absurd empty | inr m ↦ m ]), (λ m. inr m)))
  add_missing-keys d (t ∷ missing) some_key =
      let (placed, made, same) = place_missing_ids-keys d (t ∷ missing) some_key in
      (
        put_all placed d,
        rw made refl,
        λ s. (
          (λ h. In-keys-put_all s placed d (elim h [
            | inl m ↦ inl (subst (In s) (sym same) (In-sort_by text_lt s (t ∷ missing) m))
            | inr m ↦ inr m
          ])),
          (λ m. elim (In-of_keys-put_all s placed d m) [
            | inl there ↦ inl (In-of_sort_by text_lt s (t ∷ missing) (subst (In s) same there))
            | inr there ↦ inr there
          ]),
        ),
      )

  -- The things that have no center yet.
  abbrev missing_of : List String → Dict String (Point R) → List String
  missing_of ids d = select (λ s. not (contains (keys d) s)) ids

  placed_or_missing :
      (ids : List String) (d : Dict String (Point R)) (s : String)
      → In s ids
      → In s (missing_of ids d) ⊎ In s (keys d)
  placed_or_missing ids d s m = elim (Bool-cases (contains (keys d) s)) [
    | inl there ↦ inr (In-of_contains s (keys d) there)
    | inr absent ↦ inl (In-select (λ s. not (contains (keys d) s)) s ids m (ap not absent))
  ]

  add_missing-HasKeys :
      (ids : List String) (d : Dict String (Point R))
      → ((s : String) → In s (keys d) → In s ids)
      → (s : String) × In s (keys d)
      → (complete : Dict String (Point R)) × (add_missing (missing_of ids d) d ≡ ok complete)
        × HasKeys ids complete
  add_missing-HasKeys ids d inside some_key =
      let (all, done, same) = add_missing-keys d (missing_of ids d) some_key in
      (
        all,
        done,
        λ s. (
          (λ m. (same s).0 (placed_or_missing ids d s m)),
          (λ m. elim ((same s).1 m) [
            | inl gone ↦ In-of_select (λ s. not (contains (keys d) s)) s ids gone
            | inr there ↦ inside s there
          ]),
        ),
      )

  layered-HasKeys :
      (sugiyama : List (ℕ × ℕ) → Dict ℕ (R × R))
      → IsSugiyama sugiyama
      → (ids : List String) (e : VisualEdge) (es : List VisualEdge)
      → ((d : VisualEdge) → In d (e ∷ es) → In d.source_id ids × In d.target_id ids)
      → (l : LayoutResult R) × (layered sugiyama ids (e ∷ es) ≡ ok l) × HasKeys ids l.centers
  unfolding layered
  layered-HasKeys sugiyama lawful ids e es ends =
      let (pairs, made, inside, (p, mp)) = pairs_of_edges ids e es ends in
      let sorted = sort_by pair_lt pairs in
      let at_index : (i : ℕ)
          → In i (keys (sugiyama sorted))
          → (s : String) × (get_elem? ids i ≡ some s) =
        λ i m.
          let (q, mq, end) = lawful.only_vertices sorted i m in
          let (at_0, at_1) = inside q (In-of_sort_by pair_lt q pairs mq) in
          elim end [
            | inl e ↦ subst (λ i. (s : String) × (get_elem? ids i ≡ some s)) (sym e) at_0
            | inr e ↦ subst (λ i. (s : String) × (get_elem? ids i ≡ some s)) (sym e) at_1
          ] in
      let (decoded, at_d, in_d, some_d) =
        decode_positions-Places ids (sugiyama sorted) p.0
          (lawful.places_source sorted p (In-sort_by pair_lt p pairs mp)) at_index in
      let (centers, at_c, in_c, some_c) = normalize_points-Places ids decoded in_d some_d in
      let (complete, at_m, same) = add_missing-HasKeys ids centers in_c some_c in
      (
        record { centers = complete; forward_edge_ids = edge_ids (e ∷ es) },
        rw (made, at_d, at_c, at_m) refl,
        same,
      )

  layout_of-HasKeys :
      (sugiyama : List (ℕ × ℕ) → Dict ℕ (R × R))
      → IsSugiyama sugiyama
      → (ids : List String) (es : List VisualEdge)
      → ((d : VisualEdge) → In d es → In d.source_id ids × In d.target_id ids)
      → (l : LayoutResult R) × (layout_of sugiyama ids es ≡ ok l) × HasKeys ids l.centers
  unfolding layout_of
  layout_of-HasKeys sugiyama lawful [] es ends =
      (record { centers = []; forward_edge_ids = [] }, refl, λ s. ((λ m. m), (λ m. m)))
  layout_of-HasKeys sugiyama lawful (s ∷ ids) [] ends = (
    record { centers = deterministic_grid (s ∷ ids); forward_edge_ids = [] },
    refl,
    deterministic_grid-HasKeys R (s ∷ ids),
  )
  layout_of-HasKeys sugiyama lawful (s ∷ ids) (e ∷ es) ends =
      layered-HasKeys sugiyama lawful (s ∷ ids) e es ends

  -- The layout of a closed picture ends without an error, and has a center for each of its nodes
  -- and terminals and for nothing else.
  pub compute_layered_layout-HasKeys :
      (sugiyama : List (ℕ × ℕ) → Dict ℕ (R × R))
      → IsSugiyama sugiyama
      → (v : VisualGraph) → IsClosed v
      → (l : LayoutResult R) × (compute_layered_layout sugiyama v ≡ ok l)
        × HasKeys (visual_ids v) l.centers
  unfolding compute_layered_layout
  compute_layered_layout-HasKeys sugiyama lawful v closed =
      let sorted = sort_by text_lt (visual_ids v) in
      let drawn : (e : VisualEdge)
          → In e (select (λ (e : VisualEdge). is_laid_out e.kind) v.edges)
          → In e.source_id sorted × In e.target_id sorted =
        λ e m.
          let joins =
            All-at (Joins (things_of v)) e v.edges closed.0
              (In-of_select (λ (e : VisualEdge). is_laid_out e.kind) e v.edges m) in
          (
            In-sort_by text_lt e.source_id (visual_ids v) joins.0.0,
            In-sort_by text_lt e.target_id (visual_ids v) joins.1.0,
          ) in
      let (l, made, same) = layout_of-HasKeys sugiyama lawful sorted _ drawn in
      (
        l,
        made,
        λ s. (
          (λ m. (same s).0 (In-sort_by text_lt s (visual_ids v) m)),
          (λ m. In-of_sort_by text_lt s (visual_ids v) ((same s).1 m)),
        ),
      )
