-- ===== src/Common/Result.antt =====
-- Python code that may raise: the exception's class, without its message.
use mathlib.Core.Path.{◌≡◌, refl, sym, ap, subst, ◌∙◌}
use mathlib.Core.Bool.{Bool, true, false}
use mathlib.Core.Logic.{◌⊎◌, inl, inr}
use mathlib.Core.List.{List, [], ◌∷◌, ◌++◌}
use leapp.Common.Lists.{In}

-- The exception classes that `fatal` and the interpreter raise.
pub data Error : Type 0 where
  exception value_error type_error key_error index_error file_not_found runtime_error : Error

pub data Result {ℓ} (A : Type ℓ) : Type ℓ where
  ok : (value : A) → Result A
  err : (raised : Error) → Result A

-- `if bad: fatal(...)`
abbrev pub raise_if : Bool → Error → Result (Unit {0})
raise_if true raised = err raised
raise_if false raised = ok tt

-- What follows a call sees its value, and is skipped by an exception.
infixl 5 ◌>>=◌ ◌>>◌
abbrev pub ◌>>=◌ {ℓ κ} : {A : Type ℓ} {B : Type κ} → Result A → (A → Result B) → Result B
err raised >>= k = err raised
ok value >>= k = k value

abbrev pub ◌>>◌ {ℓ} : {A : Type ℓ} → Result (Unit {0}) → Result A → Result A
call >> k = call >>= λ _. k

-- To split on an outcome and keep the equation.
pub Result-cases {ℓ} :
    {A : Type ℓ} (m : Result A) → ((a : A) × (m ≡ ok a)) ⊎ ((e : Error) × (m ≡ err e))
Result-cases (ok a) = inl (a, refl)
Result-cases (err e) = inr (e, refl)

-- Inversion of a bind that returned.
pub >>=-eq-ok {ℓ κ} :
    {A : Type ℓ} {B : Type κ} (call : Result A) (k : A → Result B) {answer : B}
    → (call >>= k) ≡ ok answer
    → (value : A) × (call ≡ ok value) × (k value ≡ ok answer)
>>=-eq-ok (err raised) k h = cc
>>=-eq-ok (ok value) k h = (value, refl, h)

pub ok-injective {ℓ} : {A : Type ℓ} {a b : A} → ok a ≡ ok b → a ≡ b
ok-injective h = cc

-- Calls that may raise, one for each element, in order.
unfoldable pub traverse : {A B : Type 0} → (A → Result B) → List A → Result (List B)
traverse f [] = ok []
traverse f (x ∷ xs) = do y ← f x; ys ← traverse f xs; ok (y ∷ ys)

module _ {A B : Type 0} (f : A → Result B) where
  pub traverse-cons :
      (x : A) (xs : List A) {ys : List B}
      → traverse f (x ∷ xs) ≡ ok ys
      → (y : B) × (rest : List B) × (f x ≡ ok y) × (traverse f xs ≡ ok rest) × (ys ≡ y ∷ rest)
  unfolding traverse
  traverse-cons x xs h =
      let (y, at_x, h') = >>=-eq-ok (f x) (λ y. traverse f xs >>= λ ys. ok (y ∷ ys)) h in
      let (rest, at_xs, h'') = >>=-eq-ok (traverse f xs) (λ ys. ok (y ∷ ys)) h' in
      (y, rest, at_x, at_xs, sym (ok-injective h''))

  -- Every answer is the answer of a call.
  pub In-of_traverse :
      (xs : List A) {ys : List B} (y : B)
      → traverse f xs ≡ ok ys
      → In y ys
      → (x : A) × (In x xs) × (f x ≡ ok y)
  unfolding traverse
  In-of_traverse [] y h m = elim (subst (In y) (sym (ok-injective h)) m) [ ]
  In-of_traverse (x ∷ xs) y h m =
      let (y', rest, at_x, at_xs, e) = traverse-cons x xs h in
      elim (subst (In y) e m) [
        | inl here ↦ (x, inl refl, at_x ∙ ap ok (sym here))
        | inr there ↦ let (z, mz, at_z) = In-of_traverse xs y at_xs there in (z, inr mz, at_z)
      ]

  -- Every call has its answer among the answers.
  pub In-traverse :
      (xs : List A) {ys : List B} (x : A) (y : B)
      → traverse f xs ≡ ok ys
      → In x xs
      → f x ≡ ok y
      → In y ys
  In-traverse [] x y h m at = elim m [ ]
  In-traverse (z ∷ xs) x y h m at =
      let (y', rest, at_z, at_xs, e) = traverse-cons z xs h in
      subst (In y) (sym e) (elim m [
        | inl here ↦ inl (ok-injective (sym at ∙ ap f here ∙ at_z))
        | inr there ↦ inr (In-traverse xs x y at_xs there at)
      ])

  -- If no call raises, the whole does not.
  pub traverse_total :
      (xs : List A)
      → ((x : A) → In x xs → (y : B) × (f x ≡ ok y))
      → (ys : List B) × (traverse f xs ≡ ok ys)
  unfolding traverse
  traverse_total [] h = ([], refl)
  traverse_total (x ∷ xs) h =
      let (y, at_x) = h x (inl refl) in
      let (ys, at_xs) = traverse_total xs (λ z m. h z (inr m)) in (y ∷ ys, rw (at_x, at_xs) refl)

  pub traverse-append :
      (xs ys : List A) {us ws : List B}
      → traverse f xs ≡ ok us
      → traverse f ys ≡ ok ws
      → traverse f (xs ++ ys) ≡ ok (us ++ ws)
  unfolding traverse
  traverse-append [] ys {us} {ws} hx hy =
      subst (λ zs. traverse f ys ≡ ok (zs ++ ws)) (ok-injective hx) hy
  traverse-append (x ∷ xs) ys {us} {ws} hx hy =
      let (y, rest, at_x, at_xs, e) = traverse-cons x xs hx in
      subst (λ zs. traverse f (x ∷ (xs ++ ys)) ≡ ok (zs ++ ws)) (sym e)
        (rw (at_x, traverse-append xs ys at_xs hy) refl)

-- A pure step does not raise.
pub map-eq-err {ℓ κ} :
    {A : Type ℓ} {B : Type κ} (m : Result A) (f : A → B) {e : Error}
    → (m >>= λ a. ok (f a)) ≡ err e
    → m ≡ err e
map-eq-err (ok a) f h = absurd (cc h)
map-eq-err {A} (err d) f h = cc
