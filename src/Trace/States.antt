-- ===== src/Trace/States.antt =====
-- Declared states: what updates leave, and what is fed back.
use leapp.Common.{
  ℕ, nat_eq, String, string_eq, ◌≡◌, refl, sym, ap, subst, ◌∙◌, Option, none, some, List, [], ◌∷◌,
  false, not, ◌==◌, arith, Bool-cases, Option-cases, inl, inr, if◌then◌else◌, Dict, get, put,
  get-put, keys, contains, Distinct, Distinct-keys-upsert, eq_of_beq, contains_of_entry, In-of_get,
}
use leapp.Common.Result.{ok, exception, ◌>>◌, raise_if, >>=-eq-ok, ok-injective, Result-cases}
use leapp.Compat.{shape_eq}
use leapp.Trace.{
  Carrier, StateInfo, TracedNode, state_at, update_state, update_states, active_states,
  state_outputs, get_state_outputs,
}

-- The output of a state, where it has one, has the shape and the data type of its input.
abbrev pub IsLike : Carrier → Option Carrier → Type 0
IsLike i none = Unit
IsLike i (some v) = (i.shape ≡ v.shape) × (i.dtype ≡ v.dtype)

abbrev pub AllMatch : Dict String StateInfo → Type 0
AllMatch states =
    (name : String) (info : StateInfo) → get name states ≡ some info → IsLike info.input info.output

-- The last value that the updates have for a name, or else the one before.
abbrev pub latest : String → List (String × Carrier) → Option Carrier → Option Carrier
latest name [] before = before
latest name ((k, v) ∷ values) before = latest name values (if k == name then some v else before)

matches :
    (a b : List ℕ) (c d : String) (states : Dict String StateInfo) {after : Dict String StateInfo}
    → (raise_if (not (a == b)) exception >> (raise_if (not (c == d)) exception >> ok states))
      ≡ ok after
    → (a ≡ b) × (c ≡ d) × (states ≡ after)
matches a b c d states h = ground (arith, shape_eq.beq_iff a b, string_eq.beq_iff c d)

-- What one update has found, and what it leaves.
abbrev Updated : String → Carrier → Dict String StateInfo → Dict String StateInfo → Type 0
Updated k v states after =
    (info : StateInfo) × (get k states ≡ some info)
    × (IsLike info.input (some v))
    × (put k (record info { output = some v }) states ≡ after)

some_same : (a b : StateInfo) → some a ≡ some b → a ≡ b
some_same a b h = cc h

state_found : (o : Option StateInfo) (info : StateInfo) → state_at o ≡ ok info → o ≡ some info
state_found none info h = absurd (cc h)
state_found (some i) info h = ap some (ok-injective h)

update_state-Updated :
    (k : String) (v : Carrier) (states : Dict String StateInfo) {after : Dict String StateInfo}
    → update_state k v states ≡ ok after
    → Updated k v states after
unfolding update_state
update_state-Updated k v states h =
    let (info, found, h₁) = >>=-eq-ok (state_at (get k states)) _ h in
    let (shapes, dtypes, left) =
      matches info.input.shape v.shape info.input.dtype v.dtype
        (put k (record info { output = some v }) states) h₁ in
    (info, state_found (get k states) info found, (shapes, dtypes), left)

update_state-get :
    (k name : String) (v : Carrier) (states : Dict String StateInfo) (info : StateInfo)
    {after : Dict String StateInfo}
    → update_state k v states ≡ ok after
    → get name states ≡ some info
    → get name after ≡ some (record info { output = if k == name then some v else info.output })
update_state-get k name v states info h there =
    let (own, found, _, left) = update_state-Updated k v states h in
    ap (get name) (sym left)
    ∙ get-put k name (record own { output = some v }) states
    ∙ elim (Bool-cases (k == name)) [
      | inl same ↦
          let e : k ≡ name = eq_of_beq k name same in
          let is_own : own ≡ info =
            some_same own info (sym found ∙ ap (λ n. get n states) e ∙ there) in
          rw (same, is_own) refl
      | inr other ↦ rw other there
    ]

update_state-AllMatch :
    (k : String) (v : Carrier) (states : Dict String StateInfo) {after : Dict String StateInfo}
    → update_state k v states ≡ ok after
    → AllMatch states
    → AllMatch after
update_state-AllMatch k v states h all name info there =
    let (own, found, like, left) = update_state-Updated k v states h in
    let now =
      sym (get-put k name (record own { output = some v }) states) ∙ ap (get name) left ∙ there in
    elim (Bool-cases (k == name)) [
      | inl same ↦
          subst (λ (i : StateInfo). IsLike i.input i.output)
            (some_same (record own { output = some v }) info (rw same at now)) like
      | inr other ↦ all name info (rw other at now)
    ]

-- Each state's output keeps the shape and the data type of the state's input, also where an update
-- is refused on the way.
pub update_states-AllMatch :
    (values : List (String × Carrier)) (states : Dict String StateInfo)
    → AllMatch states
    → AllMatch (update_states values states).0
unfolding update_states
update_states-AllMatch [] states all = all
update_states-AllMatch ((k, v) ∷ values) states all =
    elim (Result-cases (update_state k v states)) [
      | inl (after, updated) ↦
          rw (updated, update_states)
            (update_states-AllMatch values after (update_state-AllMatch k v states updated all))
      | inr (e, refused) ↦ rw (refused, update_states) all
    ]

update_states-get :
    (values : List (String × Carrier)) (states : Dict String StateInfo) (name : String)
    (info : StateInfo)
    → (update_states values states).1 ≡ ok tt
    → get name states ≡ some info
    → get name (update_states values states).0
      ≡ some (record info { output = latest name values info.output })
unfolding update_states
update_states-get [] states name info h there = there
update_states-get ((k, v) ∷ values) states name info h there =
    elim (Result-cases (update_state k v states)) [
      | inl (after, updated) ↦
          rw (updated, update_states)
            (update_states-get values after name
              (record info { output = if k == name then some v else info.output })
              (rw (updated, update_states) at h)
              (update_state-get k name v states info updated there))
      | inr (e, refused) ↦ absurd (cc (rw (refused, update_states) at h))
    ]

update_states-Distinct :
    (values : List (String × Carrier)) (states : Dict String StateInfo)
    → Distinct (keys states)
    → Distinct (keys (update_states values states).0)
unfolding update_states put
update_states-Distinct [] states h = h
update_states-Distinct ((k, v) ∷ values) states h = elim (Result-cases (update_state k v states)) [
  | inl (after, updated) ↦
      let (own, _, _, left) = update_state-Updated k v states updated in
      rw (updated, update_states)
        (update_states-Distinct values after (
          subst (λ d. Distinct (keys d)) left
            (Distinct-keys-upsert k (record own { output = some v })
              (λ _. record own { output = some v }) states h)))
  | inr (e, refused) ↦ rw (refused, update_states) h
]

get_of_absent :
    (k : String) (states : Dict String StateInfo)
    → contains (keys states) k ≡ false
    → get k states ≡ none
get_of_absent k states h = elim (Option-cases (get k states)) [
  | inl nothing ↦ nothing
  | inr (info, there) ↦
      absurd (cc (contains_of_entry k info states (In-of_get k info states there), h))
]

-- The output of what is found under a name.
abbrev pub output_of : Option StateInfo → Option Carrier
output_of none = none
output_of (some info) = info.output

state_outputs-get :
    (states : Dict String StateInfo) (name : String)
    → Distinct (keys states)
    → get name (state_outputs (active_states states)) ≡ output_of (get name states)
unfolding state_outputs active_states get
state_outputs-get [] name h = refl
state_outputs-get ((k, info) ∷ states) name h =
    let later = state_outputs-get states name h.1 in
    elim (Option-cases info.output) [
      | inl idle ↦ elim (Bool-cases (k == name)) [
        | inl same ↦
            let e : k ≡ name = eq_of_beq k name same in
            rw (idle, same)
              (later ∙ ap output_of (ap (λ n. get n states) (sym e) ∙ get_of_absent k states h.0))
        | inr other ↦ rw (idle, other) later
      ]
      | inr (v, updated) ↦ elim (Bool-cases (k == name)) [
        | inl same ↦ rw (updated, same) (rw (updated, same) refl)
        | inr other ↦ rw (updated, other) (rw (updated, other) later)
      ]
    ]

-- After updates that are accepted, what is fed back for a declared state is its last update, or
-- what an earlier update has set; nothing, where there was none.
pub get_state_outputs-latest :
    (values : List (String × Carrier)) (n : TracedNode) (name : String) (info : StateInfo)
    → Distinct (keys n.states)
    → get name n.states ≡ some info
    → (update_states values n.states).1 ≡ ok tt
    → get name (get_state_outputs (record n { states = (update_states values n.states).0 })).1
      ≡ latest name values info.output
unfolding get_state_outputs
get_state_outputs-latest values n name info distinct there accepted =
    state_outputs-get (update_states values n.states).0 name
      (update_states-Distinct values n.states distinct)
    ∙ ap output_of (update_states-get values n.states name info accepted there)
