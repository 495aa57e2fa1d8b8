-- ===== src/Common/Sorting.antt =====
-- Python's `sorted`: equal elements keep their order. What the sorted list holds.
use mathlib.Core.Path.{◌≡◌, refl, ap, ◌∙◌}
use mathlib.Core.Logic.{◌⊎◌, inl, inr}
use mathlib.Core.Bool.{Bool}
use mathlib.Core.List.{List, [], ◌∷◌}
use Prim.Native.Nat.{suc}
use leapp.Common.Tests.{if◌then◌else◌, Bool-cases}
use leapp.Common.Lists.{In, length}

module _ {A : Type 0} (less : A → A → Bool) where
  unfoldable pub insert_by : A → List A → List A
  insert_by x [] = x ∷ []
  insert_by x (y ∷ ys) = let rest = insert_by x ys in if less y x then y ∷ rest else x ∷ y ∷ ys

  unfoldable pub sort_by : List A → List A
  sort_by [] = []
  sort_by (x ∷ xs) = insert_by x (sort_by xs)

  In-insert_by : (z x : A) (xs : List A) → (z ≡ x) ⊎ In z xs → In z (insert_by x xs)
  unfolding insert_by
  In-insert_by z x [] h = h
  In-insert_by z x (y ∷ ys) h = elim (Bool-cases (less y x)) [
    | inl before ↦ rw before (elim h [
      | inl e ↦ inr (In-insert_by z x ys (inl e))
      | inr (inl e) ↦ inl e
      | inr (inr later) ↦ inr (In-insert_by z x ys (inr later))
    ])
    | inr after ↦ rw after h
  ]

  In-of_insert_by : (z x : A) (xs : List A) → In z (insert_by x xs) → (z ≡ x) ⊎ In z xs
  unfolding insert_by
  In-of_insert_by z x [] h = h
  In-of_insert_by z x (y ∷ ys) h = elim (Bool-cases (less y x)) [
    | inl before ↦ elim (rw before at h) [
      | inl e ↦ inr (inl e)
      | inr later ↦ elim (In-of_insert_by z x ys later) [ inl e ↦ inl e | inr k ↦ inr (inr k) ]
    ]
    | inr after ↦ rw after at h
  ]

  pub In-sort_by : (z : A) (xs : List A) → In z xs → In z (sort_by xs)
  unfolding sort_by
  In-sort_by z [] h = h
  In-sort_by z (x ∷ xs) h =
      In-insert_by z x (sort_by xs)
        (elim h [ inl e ↦ inl e | inr later ↦ inr (In-sort_by z xs later) ])

  pub In-of_sort_by : (z : A) (xs : List A) → In z (sort_by xs) → In z xs
  unfolding sort_by
  In-of_sort_by z [] h = h
  In-of_sort_by z (x ∷ xs) h = elim (In-of_insert_by z x (sort_by xs) h) [
    | inl e ↦ inl e
    | inr later ↦ inr (In-of_sort_by z xs later)
  ]

  length-insert_by : (x : A) (xs : List A) → length (insert_by x xs) ≡ suc (length xs)
  unfolding insert_by
  length-insert_by x [] = refl
  length-insert_by x (y ∷ ys) = elim (Bool-cases (less y x)) [
    | inl before ↦ rw before (ap suc (length-insert_by x ys))
    | inr after ↦ rw after refl
  ]

  pub length-sort_by : (xs : List A) → length (sort_by xs) ≡ length xs
  unfolding sort_by
  length-sort_by [] = refl
  length-sort_by (x ∷ xs) = length-insert_by x (sort_by xs) ∙ ap suc (length-sort_by xs)
