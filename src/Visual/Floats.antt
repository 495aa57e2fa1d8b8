-- ===== src/Visual/Floats.antt =====
-- What the layout and the geometry of leapp_visualization do with Python's floats, and the lookups
-- and the extrema that they share. The numbers are a parameter: nothing is asked of the operations.
use leapp.Common.{
  ℕ, Eq, string_eq, ◌≡◌, refl, Option, none, some, List, [], ◌∷◌, Bool, if◌then◌else◌, Dict, get,
  keys, In, get_of_key,
}
use leapp.Common.Result.{Result, ok, err, key_error, value_error}

-- `tenths n` is the literal n/10, `of_int` the conversion of an integer.
pub record Floats (R : Type 0) : Type 0 where
  pub tenths : ℕ → R
  pub of_int : ℕ → R
  pub add : R → R → R
  pub sub : R → R → R
  pub mul : R → R → R
  pub div : R → R → R
  pub lt : R → R → Bool
  -- `round(x, 3)`
  pub round_3 : R → R

pub record Point (R : Type 0) : Type 0 where
  pub x : R
  pub y : R

-- `d[k]`
abbrev pub or_raise : {A : Type 0} → Option A → Result A
or_raise none = err key_error
or_raise (some a) = ok a

abbrev pub look : {K A : Type 0} ⦃e : Eq K⦄ → K → Dict K A → Result A
look k d = or_raise (get k d)

pub look_total :
    {K A : Type 0} ⦃e : Eq K⦄ (k : K) (d : Dict K A) → In k (keys d) → (a : A) × (look k d ≡ ok a)
look_total k d m = let (a, found) = get_of_key k d m in (a, rw found refl)

module _ {R : Type 0} ⦃F : Floats R⦄ where
  -- `max` and `min` keep the first of equal values.
  abbrev pub larger : R → R → R
  larger a b = if F.lt a b then b else a

  abbrev pub smaller : R → R → R
  smaller a b = if F.lt b a then b else a

  unfoldable pub max_from : R → List R → R
  max_from a [] = a
  max_from a (b ∷ bs) = max_from (larger a b) bs

  unfoldable pub min_from : R → List R → R
  min_from a [] = a
  min_from a (b ∷ bs) = min_from (smaller a b) bs

  -- `max(xs)`, and `min(xs)`.
  abbrev pub max_of : List R → Result R
  max_of [] = err value_error
  max_of (a ∷ bs) = ok (max_from a bs)

  abbrev pub min_of : List R → Result R
  min_of [] = err value_error
  min_of (a ∷ bs) = ok (min_from a bs)

  -- `value / 2.0`
  abbrev pub half : R → R
  half a = F.div a (F.tenths 20)

  -- `max(xs, default=d)`, and `min(xs, default=d)`.
  abbrev pub max_or : R → List R → R
  max_or d [] = d
  max_or d (a ∷ bs) = max_from a bs

  abbrev pub min_or : R → List R → R
  min_or d [] = d
  min_or d (a ∷ bs) = min_from a bs
