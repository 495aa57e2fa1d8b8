-- ===== src/Trace/Segments.antt =====
-- Warp segments are captured in the order in which they were discovered.
use leapp.Common.{
  ℕ, nat_eq, ◌≡◌, ◌↔◌, refl, sym, ap, ◌∙◌, some, List, [], ◌∷◌, ◌++◌, map, append_assoc, map-append,
  Bool, true, false, not, ◌&&◌, ◌==◌, arith, Bool-cases, inl, inr, ◌⊎◌, beq_self,
}
use leapp.Common.Result.{Error, ok, raise_if, >>=-eq-ok, ok-injective}
use leapp.Trace.{
  Segment, TracedNode, new_node, reset_trace_state, prepare_warp_capture, acquire_warp_segment,
  add_warp_segment, pop_first, complete_warp_segment,
}

abbrev pub idents : List Segment → List ℕ
idents segments = map (λ (s : Segment). s.ident) segments

-- The nodes that discoveries and captures lead to, with the segments captured so far. The model of
-- a node is captured in between.
pub data Reachable : List ℕ → TracedNode → Type 0 where
  was_made : (exports : Bool) → Reachable [] (new_node exports)
  was_added :
      (ident : ℕ) (captured : List ℕ) (n : TracedNode)
      → Reachable captured n
      → Reachable captured (add_warp_segment ident n)
  was_captured :
      (captured : List ℕ) (n : TracedNode)
      → Reachable captured n
      → Reachable captured (record n { model_captured = true })
  was_prepared :
      (captured : List ℕ) (n : TracedNode)
      → Reachable captured n
      → Reachable captured (prepare_warp_capture n)
  was_completed :
      (ident : ℕ) (has_graph : Bool) (captured : List ℕ) (n m : TracedNode)
      → Reachable captured n
      → complete_warp_segment ident has_graph n ≡ ok m
      → Reachable (captured ++ ident ∷ []) m

List-cases : (is : List ℕ) → (is ≡ []) ⊎ ((i : ℕ) × (rest : List ℕ) × (is ≡ i ∷ rest))
List-cases [] = inl refl
List-cases (i ∷ rest) = inr (i, rest, refl)

some_inj : (i j : ℕ) → some i ≡ some j → i ≡ j
some_inj i j h = cc h

pop_first-ok :
    (ident : ℕ) (queue : List ℕ) {rest : List ℕ}
    → pop_first ident queue ≡ ok rest
    → queue ≡ ident ∷ rest
unfolding pop_first
pop_first-ok ident [] h = absurd (cc h)
pop_first-ok ident (i ∷ is) h = elim (Bool-cases (i == ident)) [
  | inl same ↦ cc ((nat_eq.beq_iff i ident).0 same, ok-injective (rw same at h))
  | inr other ↦ absurd (cc (rw other at h))
]

-- What a completion has found.
completed_first :
    (ident : ℕ) (has_graph : Bool) (n : TracedNode) {m : TracedNode}
    → complete_warp_segment ident has_graph n ≡ ok m
    → (n.pending ≡ ident ∷ m.pending) × (m.discovered ≡ n.discovered)
unfolding complete_warp_segment
completed_first ident has_graph n {m} h =
    let (rest, popped, h₁) = >>=-eq-ok (pop_first ident n.pending) _ h in
    let (_, _, h₂) = >>=-eq-ok (raise_if (n.exports_model && not has_graph) _) _ h₁ in
    let same = ok-injective h₂ in
    (
      pop_first-ok ident n.pending popped ∙ ap (λ (m : TracedNode). ident ∷ m.pending) same,
      ap (λ (m : TracedNode). m.discovered) (sym same),
    )

prepare_keeps :
    (n : TracedNode)
    → ((prepare_warp_capture n).discovered ≡ n.discovered)
      × ((prepare_warp_capture n).pending ≡ n.pending)
unfolding prepare_warp_capture reset_trace_state
prepare_keeps n = ground arith

-- The segments discovered are those captured so far, in the order of their captures, and then
-- those that wait.
pub Reachable-idents :
    (captured : List ℕ) (n : TracedNode)
    → Reachable captured n
    → idents n.discovered ≡ captured ++ n.pending
unfolding add_warp_segment
Reachable-idents captured n (was_made exports) = refl
Reachable-idents captured n (was_added ident captured₀ n₀ r) =
    map-append (λ (s : Segment). s.ident) n₀.discovered _
    ∙ ap (λ l. l ++ ident ∷ []) (Reachable-idents captured₀ n₀ r)
    ∙ append_assoc captured₀ n₀.pending (ident ∷ [])
Reachable-idents captured n (was_captured captured₀ n₀ r) = Reachable-idents captured₀ n₀ r
Reachable-idents captured n (was_prepared captured₀ n₀ r) =
    let (found, waits) = prepare_keeps n₀ in rw (found, waits) (Reachable-idents captured₀ n₀ r)
Reachable-idents captured n (was_completed ident has_graph captured₀ n₀ m r e) =
    let (first, kept) = completed_first ident has_graph n₀ e in
    ap idents kept
    ∙ Reachable-idents captured₀ n₀ r
    ∙ ap (λ l. captured₀ ++ l) first
    ∙ sym (append_assoc captured₀ (ident ∷ []) m.pending)

guarded : (b : Bool) (e : Error) {u : Unit {0}} → raise_if b e ≡ ok u → b ≡ false
guarded b e h = ground arith

first_of :
    (n : TracedNode) (ident : ℕ)
    → acquire_warp_segment n ≡ some ident
    → (rest : List ℕ) × (n.pending ≡ ident ∷ rest)
unfolding acquire_warp_segment
first_of n ident h = elim (List-cases n.pending) [
  | inl nothing ↦ absurd (cc (rw nothing at h))
  | inr (i, rest, waits) ↦ (rest, waits ∙ ap (λ j. j ∷ rest) (some_inj i ident (rw waits at h)))
]

-- A capture is accepted exactly for the first segment that waits, with a graph where the node
-- exports a model.
pub complete_warp_segment-ok_iff :
    (ident : ℕ) (has_graph : Bool) (n : TracedNode)
    → ((m : TracedNode) × (complete_warp_segment ident has_graph n ≡ ok m))
      ↔ ((acquire_warp_segment n ≡ some ident) × ((n.exports_model && not has_graph) ≡ false))
unfolding complete_warp_segment acquire_warp_segment pop_first
complete_warp_segment-ok_iff ident has_graph n = (
  λ (m, h).
      let (first, _) = completed_first ident has_graph n h in
      let (rest, _, h₁) = >>=-eq-ok (pop_first ident n.pending) _ h in
      let (_, passed, _) = >>=-eq-ok (raise_if (n.exports_model && not has_graph) _) _ h₁ in
      (rw first refl, guarded _ _ passed),
  λ (h, exported).
      let (rest, waits) = first_of n ident h in
      (record n { pending = rest }, rw (waits, beq_self ident, exported) refl),
)
