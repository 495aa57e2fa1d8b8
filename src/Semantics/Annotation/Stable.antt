-- ===== src/Semantics/Annotation/Stable.antt =====
-- What the checks have accepted they accept again, unchanged; and what they guarantee.
use leapp.Common.{
  ℕ, string_eq, ◌≡◌, refl, sym, ap, subst, ◌∙◌, Option, none, some, List, true, false, ◌⊎◌, inl,
  inr, arith, Option-cases, Bool-cases, if◌then◌else◌,
}
use leapp.Common.Result.{Result, ok, >>=-eq-ok, ok-injective}
use leapp.Semantics.{Period, ElementNames}
use leapp.Semantics.Names.{normalize}
use leapp.Semantics.Names.Stable.{is_some, normalize-IsKept}
use leapp.Semantics.Axes.{check_axes}
use leapp.Semantics.Axes.Fit.{IsAxes, check_axes_iff}
use leapp.Semantics.Annotation.{
  Annotation, given, or_period, condition_names, uses_experimental, check_experimental, shape_of,
  post_init, clashes,
}

again_given : (r t : Option Period) → given t ≡ true → given (or_period r t) ≡ true
again_given none t h = h
again_given (some p) t h = refl

found_given : (r t : Option Period) → is_some r ≡ true → given (or_period r t) ≡ true
found_given none t h = absurd (cc h)
found_given (some p) t h = refl

same_period :
    (q r t : Option Period) → (q ≡ none) ⊎ (q ≡ r) → or_period q (or_period r t) ≡ or_period r t
same_period q r t (inl e) = rw e refl
same_period none none t (inr e) = refl
same_period none (some p) t (inr e) = refl
same_period (some q) none t (inr e) = absurd (cc e)
same_period (some q) (some p) t (inr e) = cc e

-- The annotation with other names and another period.
abbrev renamed : Annotation → Option ElementNames → Option Period → Annotation
renamed a names p = record a { element_names = names; temporal_period_ms = p }

keeps_names :
    (a : Annotation) {b : Annotation}
    → a.element_names ≡ none
    → condition_names a ≡ ok b
    → renamed a a.element_names none ≡ b
unfolding condition_names
keeps_names a absent h = ground arith

conditioned :
    (a : Annotation) {b : Annotation}
    → condition_names a ≡ ok b
    → ((names : Option ElementNames) × (p : Option Period) × (b ≡ renamed a names p))
      × (condition_names b ≡ ok b)
unfolding condition_names
conditioned a {b} h = elim (Option-cases a.element_names) [
  | inl absent ↦
      let bare = renamed a none none in
      let e : bare ≡ b = ap (λ n. renamed a n none) (sym absent) ∙ keeps_names a absent h in
      ((none, none, sym e), subst (λ c. condition_names c ≡ ok c) e refl)
  | inr (names, there) ↦
      let (r, normalized, h₁) =
        >>=-eq-ok (normalize (given a.temporal_period_ms) names) _ (rw there at h) in
      let p = or_period r.1 a.temporal_period_ms in
      let e : renamed a (some r.0) p ≡ b = ok-injective h₁ in
      let (q, again, which) =
        normalize-IsKept (given a.temporal_period_ms) (given p) names r normalized
          (again_given r.1 a.temporal_period_ms) (found_given r.1 a.temporal_period_ms) in
      (
        (some r.0, p, sym e),
        subst (λ c. condition_names c ≡ ok c) e
            (rw again (
              ap (λ x. ok (renamed a (some r.0) x))
                (same_period q r.1 a.temporal_period_ms which))),
      )
]

unit_ok : (m : Result (Unit {0})) (u : Unit {0}) → m ≡ ok u → m ≡ ok tt
unit_ok m u h = h

-- What `__post_init__` accepts, and what it leaves.
pub record Accepted (a b : Annotation) : Type 0 where
  pub shape : List ℕ
  pub shape_eq : shape_of b.ref ≡ ok shape
  pub names_eq : condition_names b ≡ ok b
  pub checked : (if uses_experimental b then check_experimental shape b else ok tt) ≡ ok tt

pub post_init-Accepted : (a : Annotation) {b : Annotation} → post_init a ≡ ok b → Accepted a b
unfolding post_init
post_init-Accepted a {b} h =
    let (shape, traced, h₁) = >>=-eq-ok (shape_of a.ref) _ h in
    let (c, conditioned_ok, h₂) = >>=-eq-ok (condition_names a) _ h₁ in
    let (_, checked, h₃) =
      >>=-eq-ok (if uses_experimental c then check_experimental shape c else ok tt) _ h₂ in
    let ((names, p, shaped), again) = conditioned a conditioned_ok in
    subst (Accepted a) (ok-injective h₃) (record {
      shape = shape;
      shape_eq = ap (λ (x : Annotation). shape_of x.ref) shaped ∙ traced;
      names_eq = again;
      checked = checked;
    })

-- An annotation that `__post_init__` has left is accepted again, and left as it is: an update with
-- nothing to change changes nothing.
pub post_init-stable : (a : Annotation) {b : Annotation} → post_init a ≡ ok b → post_init b ≡ ok b
unfolding post_init
post_init-stable a {b} h =
    let c = post_init-Accepted a h in rw (c.shape_eq, c.names_eq, c.checked) refl

-- What the last checks have found.
pub experimental_passed :
    (shape : List ℕ) (b : Annotation)
    → check_experimental shape b ≡ ok tt
    → (clashes b.extra ≡ false) × (check_axes shape b.axes ≡ ok tt)
unfolding check_experimental
experimental_passed shape b h = ground arith

no_axes : (b : Annotation) → uses_experimental b ≡ false → given b.axes ≡ false
no_axes b h = ground arith

axes_checked :
    (shape : List ℕ) (b : Annotation)
    → (if uses_experimental b then check_experimental shape b else ok tt) ≡ ok tt
    → check_axes shape b.axes ≡ ok tt
unfolding check_axes
axes_checked shape b h = elim (Bool-cases (uses_experimental b)) [
  | inl uses ↦ (experimental_passed shape b (rw uses at h)).1
  | inr plain ↦ elim (Option-cases b.axes) [
    | inl absent ↦ rw absent refl
    | inr (v, there) ↦ let none_given = no_axes b plain in absurd (cc (rw there at none_given))
  ]
]

-- The axes of an annotation that was accepted fit the tensor: one entry for each dimension, labels
-- as many as the dimension is long, at most one time axis.
pub post_init-IsAxes :
    (a : Annotation) (shape : List ℕ) {b : Annotation}
    → post_init a ≡ ok b
    → b.ref ≡ some shape
    → IsAxes shape b.axes
unfolding check_axes
post_init-IsAxes a shape {b} h traced =
    let c = post_init-Accepted a h in
    let e : c.shape ≡ shape = ok-injective (sym c.shape_eq ∙ ap shape_of traced) in
    (check_axes_iff shape b.axes).0
      (subst (λ s. check_axes s b.axes ≡ ok tt) e (axes_checked c.shape b c.checked))
