-- ===== src/Compat.antt =====
-- `validate_connection_compatibility` of leapp/utils/tensor_description.py.
use leapp.Common.{ℕ, ◌≡◌, ◌↔◌, List, [], ◌∷◌, Bool, true, false, not, ◌&&◌, arith, Eq, nat_eq, ◌==◌}
use leapp.Common.Result.{Result, ok, value_error, ◌>>◌, raise_if}

abbrev pub shape_beq : List ℕ → List ℕ → Bool
shape_beq [] [] = true
shape_beq [] (y ∷ ys) = false
shape_beq (x ∷ xs) [] = false
shape_beq (x ∷ xs) (y ∷ ys) = (x == y) && shape_beq xs ys

pub shape_beq_iff : (a b : List ℕ) → (shape_beq a b ≡ true) ↔ (a ≡ b)
shape_beq_iff [] [] = ground arith
shape_beq_iff [] (y ∷ ys) = ground arith
shape_beq_iff (x ∷ xs) [] = ground arith
shape_beq_iff (x ∷ xs) (y ∷ ys) = ground (arith, nat_eq.beq_iff x y, shape_beq_iff xs ys)

instance abbrev pub shape_eq : Eq (List ℕ)
shape_eq = record { beq = shape_beq; beq_iff = shape_beq_iff }

module _ {D : Type 0} ⦃e : Eq D⦄ where
  -- The shapes are compared first. The data types are names, or torch's objects.
  unfoldable pub validate_edge : List ℕ → D → List ℕ → D → Result (Unit {0})
  validate_edge source_shape source_dtype target_shape target_dtype = do
    raise_if (not (source_shape == target_shape)) value_error
    raise_if (not (target_dtype == source_dtype)) value_error

  pub validate_edge-ok_iff :
      (s : List ℕ) (d : D) (s' : List ℕ) (d' : D)
      → (validate_edge s d s' d' ≡ ok tt) ↔ ((s ≡ s') × (d ≡ d'))
  unfolding validate_edge
  validate_edge-ok_iff s d s' d' = ground (arith, shape_eq.beq_iff s s', e.beq_iff d' d)
