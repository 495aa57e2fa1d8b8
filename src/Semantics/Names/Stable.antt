-- ===== src/Semantics/Names/Stable.antt =====
-- Names that were normalised are not changed by another normalisation.
use leapp.Common.{
  String, string_eq, ◌≡◌, refl, sym, ap, subst, ◌∙◌, Option, none, some, List, [], ◌∷◌, ◌++◌, Bool,
  true, false, ◌||◌, ◌==◌, map, arith, Bool-cases, Option-cases, inl, inr, append_assoc, append-nil,
  ◌⊎◌,
}
use leapp.Common.Result.{ok, >>=-eq-ok, ok-injective}
use leapp.Semantics.{
  Period, Child, text_child, Item, text, temporal, nested, nothing, foreign, ElementNames, bare,
  listed, opaque,
}
use leapp.Semantics.Names.{
  sentinel, any_temporal, any_sentinel, Scan, Scanned, finished, mixed, push, scan_item, scan_items,
  empty_scan, children_of, conclude, normalize,
}

-- What the loop appends for an item.
abbrev plain : Item → Item
plain (temporal p) = text sentinel
plain (text s) = text s
plain (nested children) = nested children
plain nothing = nothing
plain (foreign n) = foreign n

-- An item that describes an axis.
abbrev describes : Item → Bool
describes (temporal p) = true
describes (text s) = s == sentinel
describes (nested children) = true
describes nothing = true
describes (foreign n) = true

-- The loop on a first run: what it collects.
step_collects :
    (allow : Bool) (i : Item) (st st' : Scan)
    → scan_item allow i st ≡ ok (some st')
    → (st'.normalized ≡ st.normalized ++ plain i ∷ [])
      × (st'.has_axis ≡ (st.has_axis || describes i))
unfolding scan_item
step_collects allow (temporal p) st st' h = ground arith
step_collects allow (text s) st st' h = ground arith
step_collects allow (nested children) st st' h = ground arith
step_collects allow nothing st st' h = ground arith
step_collects allow (foreign n) st st' h = ground arith

-- A second run, on what was collected.
step_again :
    (allow again : Bool) (i : Item) (st st' st₂ : Scan)
    → scan_item allow i st ≡ ok (some st')
    → (allow ≡ true → again ≡ true)
    → (st'.has_temporal ≡ true → again ≡ true)
    → scan_item again (plain i) st₂ ≡ ok (some (push (plain i) (describes i) st₂))
unfolding scan_item
step_again allow again (temporal p) st st' st₂ h a b = ground (arith, a, b)
step_again allow again (text s) st st' st₂ h a b = ground (arith, a, b)
step_again allow again (nested children) st st' st₂ h a b = ground (arith, a, b)
step_again allow again nothing st st' st₂ h a b = ground arith
step_again allow again (foreign n) st st' st₂ h a b = ground arith

step_monotone :
    (allow : Bool) (i : Item) (st st' : Scan)
    → scan_item allow i st ≡ ok (some st')
    → st.has_temporal ≡ true
    → st'.has_temporal ≡ true
unfolding scan_item
step_monotone allow (temporal p) st st' h t = ground arith
step_monotone allow (text s) st st' h t = ground arith
step_monotone allow (nested children) st st' h t = ground arith
step_monotone allow nothing st st' h t = ground arith
step_monotone allow (foreign n) st st' h t = ground arith

abbrev pub is_some : {A : Type 0} → Option A → Bool
is_some none = false
is_some (some a) = true

-- A temporal axis that was seen left its period.
abbrev HasPeriod : Scan → Type 0
HasPeriod st = st.has_temporal ≡ true → is_some st.period ≡ true

step-HasPeriod :
    (allow : Bool) (i : Item) (st st' : Scan)
    → scan_item allow i st ≡ ok (some st')
    → HasPeriod st
    → HasPeriod st'
unfolding scan_item
step-HasPeriod allow (temporal p) st st' h t u = ground arith
step-HasPeriod allow (text s) st st' h t u = ground (arith, t)
step-HasPeriod allow (nested children) st st' h t u = ground (arith, t)
step-HasPeriod allow nothing st st' h t u = ground (arith, t)
step-HasPeriod allow (foreign n) st st' h t u = ground arith

step_more :
    (allow again : Bool) (i : Item) (st : Scan) {r : Option Scan}
    → scan_item allow i st ≡ ok r
    → (allow ≡ true → again ≡ true)
    → scan_item again i st ≡ ok r
unfolding scan_item
step_more allow again (temporal p) st h a = h
step_more allow again (text s) st h a = ground (arith, a)
step_more allow again (nested children) st h a = h
step_more allow again nothing st h a = h
step_more allow again (foreign n) st h a = h

abbrev any_describes : List Item → Bool
any_describes [] = false
any_describes (i ∷ items) = describes i || any_describes items

or_assoc : (a b c : Bool) → ((a || b) || c) ≡ (a || (b || c))
or_assoc a b c = ground arith

or_nil : (a : Bool) → a ≡ (a || false)
or_nil a = ground arith

with_eq :
    (st : Scan) {n m : List Item} {b c : Bool}
    → n ≡ m
    → b ≡ c
    → (record st { normalized = n; has_axis = b }) ≡ (record st { normalized = m; has_axis = c })
with_eq st p q = cc (p, q)

-- The first step of a loop that goes past it.
first_step :
    (allow : Bool) (i : Item) (items : List Item) (st : Scan) {final : Scan}
    → scan_items allow (i ∷ items) st ≡ ok (finished final)
    → (st' : Scan) × (scan_item allow i st ≡ ok (some st'))
      × (scan_items allow items st' ≡ ok (finished final))
unfolding scan_items
first_step allow i items st h =
    let (r, stepped, h₁) = >>=-eq-ok (scan_item allow i st) _ h in
    elim (Option-cases r) [
      | inl early ↦ absurd (cc (rw early at h₁))
      | inr (st', on) ↦ (st', stepped ∙ ap ok on, rw on at h₁)
    ]

scan_collects :
    (allow : Bool) (items : List Item) (st final : Scan)
    → scan_items allow items st ≡ ok (finished final)
    → (final.normalized ≡ st.normalized ++ map plain items)
      × (final.has_axis ≡ (st.has_axis || any_describes items))
unfolding scan_items
scan_collects allow [] st final h =
    let e : st ≡ final = cc (ok-injective h) in
    (ap (λ (s : Scan). s.normalized) (sym e) ∙ sym (append-nil st.normalized), ground arith)
scan_collects allow (i ∷ items) st final h =
    let (st', stepped, rest) = first_step allow i items st h in
    let (n, a) = step_collects allow i st st' stepped in
    let (n', a') = scan_collects allow items st' final rest in
    (
      n'
          ∙ ap (λ l. l ++ map plain items) n
          ∙ append_assoc st.normalized (plain i ∷ []) (map plain items),
      a'
          ∙ ap (λ b. b || any_describes items) a
          ∙ or_assoc st.has_axis (describes i) (any_describes items),
    )

scan_monotone :
    (allow : Bool) (items : List Item) (st final : Scan)
    → scan_items allow items st ≡ ok (finished final)
    → st.has_temporal ≡ true
    → final.has_temporal ≡ true
unfolding scan_items
scan_monotone allow [] st final h t =
    let e : st ≡ final = cc (ok-injective h) in ap (λ (s : Scan). s.has_temporal) (sym e) ∙ t
scan_monotone allow (i ∷ items) st final h t =
    let (st', stepped, rest) = first_step allow i items st h in
    scan_monotone allow items st' final rest (step_monotone allow i st st' stepped t)

scan-HasPeriod :
    (allow : Bool) (items : List Item) (st final : Scan)
    → scan_items allow items st ≡ ok (finished final)
    → HasPeriod st
    → HasPeriod final
unfolding scan_items
scan-HasPeriod allow [] st final h t =
    let e : st ≡ final = cc (ok-injective h) in subst HasPeriod e t
scan-HasPeriod allow (i ∷ items) st final h t =
    let (st', stepped, rest) = first_step allow i items st h in
    scan-HasPeriod allow items st' final rest (step-HasPeriod allow i st st' stepped t)

abbrev after : List Item → Bool → Scan → Scan
after items descriptor st = record st {
  normalized = st.normalized ++ items;
  has_axis = st.has_axis || descriptor;
}

scan_again :
    (allow again : Bool) (items : List Item) (st final st₂ : Scan)
    → scan_items allow items st ≡ ok (finished final)
    → (allow ≡ true → again ≡ true)
    → (final.has_temporal ≡ true → again ≡ true)
    → scan_items again (map plain items) st₂
      ≡ ok (finished (after (map plain items) (any_describes items) st₂))
unfolding scan_items
scan_again allow again [] st final st₂ h a b =
    ap (λ s. ok (finished s)) (with_eq st₂ (sym (append-nil st₂.normalized)) (or_nil st₂.has_axis))
scan_again allow again (i ∷ items) st final st₂ h a b =
    let (st', stepped, rest) = first_step allow i items st h in
    let once =
      step_again allow again i st st' st₂ stepped a
        (λ t. b (scan_monotone allow items st' final rest t)) in
    rw once (
      scan_again allow again items st' final (push (plain i) (describes i) st₂) rest a b
      ∙ ap (λ s. ok (finished s))
          (with_eq st₂ (append_assoc st₂.normalized (plain i ∷ []) (map plain items))
            (or_assoc st₂.has_axis (describes i) (any_describes items))))

scan_more :
    (allow again : Bool) (items : List Item) (st : Scan) {r : Scanned}
    → scan_items allow items st ≡ ok r
    → (allow ≡ true → again ≡ true)
    → scan_items again items st ≡ ok r
unfolding scan_items
scan_more allow again [] st h a = h
scan_more allow again (i ∷ items) st h a =
    let (r', stepped, h₁) = >>=-eq-ok (scan_item allow i st) _ h in
    rw (step_more allow again i st stepped a) (elim (Option-cases r') [
      | inl early ↦ rw early (rw early at h₁)
      | inr (st', on) ↦ rw on (scan_more allow again items st' (rw on at h₁) a)
    ])

-- Names without a descriptor are names only.
only_names :
    (items : List Item)
    → any_describes items ≡ false
    → (any_temporal (children_of (map plain items)) ≡ false)
      × (any_sentinel (children_of (map plain items)) ≡ false)
only_names [] h = (refl, refl)
only_names (text s ∷ items) h = ground (arith, only_names items)
only_names (temporal p ∷ items) h = absurd (cc h)
only_names (nested children ∷ items) h = absurd (cc h)
only_names (nothing ∷ items) h = absurd (cc h)
only_names (foreign n ∷ items) h = absurd (cc h)

nested_again :
    (again : Bool) (children : List Child)
    → any_temporal children ≡ false
    → any_sentinel children ≡ false
    → normalize again (listed (nested children ∷ [])) ≡ ok (listed (nested children ∷ []), none)
unfolding normalize scan_items scan_item
nested_again again children t s = rw (t, s) refl

-- The names of the result are kept, and no other period is found.
abbrev pub IsKept : Bool → ElementNames × Option Period → Type 0
IsKept again r =
    (q : Option Period) × (normalize again r.0 ≡ ok (r.0, q)) × ((q ≡ none) ⊎ (q ≡ r.1))

conclude-IsKept :
    (allow again : Bool) (items : List Item) (r : Scanned)
    → scan_items allow items empty_scan ≡ ok r
    → (allow ≡ true → again ≡ true)
    → (is_some (conclude items r).1 ≡ true → again ≡ true)
    → IsKept again (conclude items r)
unfolding normalize
conclude-IsKept allow again items (mixed p) h a b =
    (p, rw (scan_more allow again items empty_scan h a) refl, inr refl)
conclude-IsKept allow again items (finished final) h a b =
    let (collected, axes) = scan_collects allow items empty_scan final h in
    elim (Bool-cases final.has_axis) [
      | inl some_axis ↦
          let seen = scan-HasPeriod allow items empty_scan final h (λ t. absurd (cc t)) in
          let twice =
            scan_again allow again items empty_scan final empty_scan h a
              (λ t. b (rw some_axis (seen t))) in
          let described : any_describes items ≡ true = sym axes ∙ some_axis in
          rw (some_axis, collected) (none, rw (twice, described) refl, inl refl)
      | inr no_axis ↦
          let (t, s) = only_names items (sym axes ∙ no_axis) in
          rw (no_axis, collected)
            (none, nested_again again (children_of (map plain items)) t s, inl refl)
    ]

bare-IsKept :
    (allow again : Bool) (s : String) {r : ElementNames × Option Period}
    → normalize allow (bare s) ≡ ok r
    → (allow ≡ true → again ≡ true)
    → IsKept again r
unfolding normalize scan_items scan_item
bare-IsKept allow again s h a = elim (Bool-cases (s == sentinel)) [
  | inl is_sentinel ↦ elim (Bool-cases allow) [
    | inl allowed ↦
        subst (IsKept again) (ok-injective (rw allowed at (rw is_sentinel at h)))
          (none, rw (is_sentinel, a allowed) refl, inl refl)
    | inr refused ↦ absurd (cc (rw refused at (rw is_sentinel at h)))
  ]
  | inr is_name ↦
      subst (IsKept again) (ok-injective (rw is_name at h))
        (none, nested_again again (text_child s ∷ []) refl (rw is_name refl), inl refl)
]

-- A normalisation of what a normalisation returned changes nothing, and finds no other period,
-- where the sentinel is allowed if it was allowed before or if a period was found.
pub normalize-IsKept :
    (allow again : Bool) (names : ElementNames) (r : ElementNames × Option Period)
    → normalize allow names ≡ ok r
    → (allow ≡ true → again ≡ true)
    → (is_some r.1 ≡ true → again ≡ true)
    → IsKept again r
unfolding normalize
normalize-IsKept allow again (bare s) r h a b = bare-IsKept allow again s h a
normalize-IsKept allow again (opaque n) r h a b =
    subst (IsKept again) (ok-injective h) (none, refl, inl refl)
normalize-IsKept allow again (listed items) r h a b =
    let (scanned, at, h₁) = >>=-eq-ok (scan_items allow items empty_scan) _ h in
    let e : conclude items scanned ≡ r = ok-injective h₁ in
    subst (IsKept again) e (
      conclude-IsKept allow again items scanned at a (λ t. b (subst (λ x. is_some x.1 ≡ true) e t)))
