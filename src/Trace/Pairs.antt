-- ===== src/Trace/Pairs.antt =====
-- The pairs that a node feeds back into itself.
use leapp.Common.{
  String, ◌≡◌, ◌↔◌, refl, sym, ap, subst, ◌∙◌, some, [], ◌∷◌, In, In-append_left, In-append_right,
  In-append_split, inl, inr, Option-cases, Dict, values,
}
use leapp.Graph.{Desc}
use leapp.Trace.{StateInfo, pair_of, state_feedback_pairs}

-- A state both of whose halves are described.
abbrev pub IsPaired : Desc × Desc → StateInfo → Type 0
IsPaired p info = (info.input_desc ≡ some p.0) × (info.output_desc ≡ some p.1)

In-pair_of : (p : Desc × Desc) (info : StateInfo) → In p (pair_of info) → IsPaired p info
In-pair_of p info m = elim (Option-cases info.input_desc) [
  | inl absent ↦ absurd (rw absent at m)
  | inr (i, there) ↦ elim (Option-cases info.output_desc) [
    | inl absent ↦ absurd (rw (there, absent) at m)
    | inr (o, here) ↦ elim (rw (there, here) at m) [
      | inl e ↦ (
        there ∙ ap (λ (q : Desc × Desc). some q.0) (sym e),
        here ∙ ap (λ (q : Desc × Desc). some q.1) (sym e),
      )
      | inr later ↦ absurd later
    ]
  ]
]

pair_of-In : (p : Desc × Desc) (info : StateInfo) → IsPaired p info → In p (pair_of info)
pair_of-In p info (i, o) = rw (i, o) (inl refl)

-- The pairs that are fed back are the described halves of the states that have both.
pub In-state_feedback_pairs_iff :
    (p : Desc × Desc) (states : Dict String StateInfo)
    → In p (state_feedback_pairs states)
      ↔ ((info : StateInfo) × In info (values states) × IsPaired p info)
unfolding state_feedback_pairs
In-state_feedback_pairs_iff p [] = (λ m. absurd m, λ (info, m, h). absurd m)
In-state_feedback_pairs_iff p ((name, info) ∷ states) = (
  λ m. elim (In-append_split p (pair_of info) (state_feedback_pairs states) m) [
    | inl here ↦ (info, inl refl, In-pair_of p info here)
    | inr there ↦ let (i, mi, h) = (In-state_feedback_pairs_iff p states).0 there in (i, inr mi, h)
  ],
  λ (i, mi, h). elim mi [
    | inl e ↦
        In-append_left p (pair_of info) (state_feedback_pairs states)
          (pair_of-In p info (subst (IsPaired p) e h))
    | inr later ↦
        In-append_right p (pair_of info) (state_feedback_pairs states)
          ((In-state_feedback_pairs_iff p states).1 (i, later, h))
  ],
)
