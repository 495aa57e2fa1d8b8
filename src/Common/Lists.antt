-- ===== src/Common/Lists.antt =====
-- Lists measured and indexed by native numbers, membership by recursion, and Python's `in`.
use Prim.Native.Nat.{ℕ, zero, suc, ◌+◌}
use mathlib.Core.Path.{◌≡◌, refl, ap, sym, subst, ◌∙◌}
use mathlib.Core.Logic.{◌⊎◌, inl, inr}
use mathlib.Core.Bool.{Bool, true, false, ◌||◌}
use mathlib.Core.List.{List, [], ◌∷◌, ◌++◌, map}
use mathlib.Core.Option.{Option, none, some, some-injective}
use native.Mathlib.Omega.{arith}
use leapp.Common.Tests.{Bool-cases, Eq, ◌==◌, if◌then◌else◌}

module _ {ℓ} {A : Type ℓ} where
  abbrev pub length : List A → ℕ
  length [] = 0
  length (x ∷ xs) = suc (length xs)

  abbrev pub get_elem? : List A → ℕ → Option A
  get_elem? [] i = none
  get_elem? (x ∷ xs) zero = some x
  get_elem? (x ∷ xs) (suc i) = get_elem? xs i

  pub length-append : (xs ys : List A) → length (xs ++ ys) ≡ length xs + length ys
  length-append [] ys = omega arith
  length-append (x ∷ xs) ys = omega (arith, length-append xs ys)

module _ {A : Type 0} where
  -- Membership, by recursion: the tactics take it apart.
  abbrev pub In : A → List A → Type 0
  In a [] = ⊥
  In a (x ∷ xs) = (a ≡ x) ⊎ In a xs

  pub In-append_left : (a : A) (xs ys : List A) → In a xs → In a (xs ++ ys)
  In-append_left a [] ys h = elim h [ ]
  In-append_left a (x ∷ xs) ys (inl e) = inl e
  In-append_left a (x ∷ xs) ys (inr m) = inr (In-append_left a xs ys m)

  pub In-append_right : (a : A) (xs ys : List A) → In a ys → In a (xs ++ ys)
  In-append_right a [] ys h = h
  In-append_right a (x ∷ xs) ys h = inr (In-append_right a xs ys h)

  pub In-append_split : (a : A) (xs ys : List A) → In a (xs ++ ys) → In a xs ⊎ In a ys
  In-append_split a [] ys h = inr h
  In-append_split a (x ∷ xs) ys (inl e) = inl (inl e)
  In-append_split a (x ∷ xs) ys (inr m) = elim (In-append_split a xs ys m) [
    | inl l ↦ inl (inr l)
    | inr r ↦ inr r
  ]

module _ {A : Type 0} where
  pub get_elem?-In : (xs : List A) (i : ℕ) (a : A) → get_elem? xs i ≡ some a → In a xs
  get_elem?-In [] i a h = ground arith
  get_elem?-In (x ∷ xs) zero a h = ground arith
  get_elem?-In (x ∷ xs) (suc i) a h = inr (get_elem?-In xs i a h)

  -- A predicate on every element.
  abbrev pub All {κ} : (A → Type κ) → List A → Type κ
  All P [] = Unit
  All P (x ∷ xs) = P x × All P xs

  pub All-at {κ} : (P : A → Type κ) (a : A) (xs : List A) → All P xs → In a xs → P a
  All-at P a [] h m = elim m [ ]
  All-at P a (x ∷ xs) h (inl e) = subst P (sym e) h.0
  All-at P a (x ∷ xs) h (inr m) = All-at P a xs h.1 m

  pub All_of {κ} : (P : A → Type κ) (xs : List A) → ((a : A) → In a xs → P a) → All P xs
  All_of P [] h = tt
  All_of P (x ∷ xs) h = (h x (inl refl), All_of P xs (λ a m. h a (inr m)))

  -- The elements of a list that pass a Boolean test.
  abbrev pub select : (A → Bool) → List A → List A
  select p [] = []
  select p (x ∷ xs) = let rest = select p xs in if p x then x ∷ rest else rest

pub In-map :
    {A : Type 0} {B : Type 0} (f : A → B) (a : A) (xs : List A) → In a xs → In (f a) (map f xs)
In-map f a [] h = elim h [ ]
In-map f a (x ∷ xs) (inl e) = inl (ap f e)
In-map f a (x ∷ xs) (inr m) = inr (In-map f a xs m)

pub In-of_map :
    {A : Type 0} {B : Type 0} (f : A → B) (b : B) (xs : List A)
    → In b (map f xs)
    → (a : A) × In a xs × (b ≡ f a)
In-of_map f b [] h = elim h [ ]
In-of_map f b (x ∷ xs) (inl e) = (x, inl refl, e)
In-of_map f b (x ∷ xs) (inr m) = let (a, i, e) = In-of_map f b xs m in (a, inr i, e)

module _ {A : Type 0} ⦃e : Eq A⦄ where
  -- `a in xs`
  abbrev pub contains : List A → A → Bool
  contains [] a = false
  contains (x ∷ xs) a = (a == x) || contains xs a

  pub In-of_contains : (a : A) (xs : List A) → contains xs a ≡ true → In a xs
  In-of_contains a [] h = ground arith
  In-of_contains a (x ∷ xs) h = ground (arith, e.beq_iff a x, In-of_contains a xs)

  pub contains_of_In : (a : A) (xs : List A) → In a xs → contains xs a ≡ true
  contains_of_In a [] h = elim h [ ]
  contains_of_In a (x ∷ xs) (inl p) = ground (arith, (e.beq_iff a x).1 p)
  contains_of_In a (x ∷ xs) (inr m) = ground (arith, contains_of_In a xs m)

module _ {A : Type 0} ⦃e : Eq A⦄ where
  pub absent-cons :
      (a x : A) (xs : List A)
      → contains (x ∷ xs) a ≡ false
      → ((x == a) ≡ false) × (contains xs a ≡ false)
  absent-cons a x xs h = ground (arith, e.beq_iff a x, e.beq_iff x a)

  pub contains-append :
      (xs ys : List A) (a : A) → contains (xs ++ ys) a ≡ (contains xs a || contains ys a)
  contains-append [] ys a = refl
  contains-append (x ∷ xs) ys a = ground (arith, contains-append xs ys a)

  -- No element occurs twice.
  abbrev pub Distinct : List A → Type 0
  Distinct [] = Unit
  Distinct (x ∷ xs) = (contains xs x ≡ false) × Distinct xs

-- Where the images under `f` are distinct, `f` tells the elements and the places apart.
module _ {A B : Type 0} ⦃e : Eq B⦄ (f : A → B) where
  contains-map_at :
      (xs : List A) (i : ℕ) (a : A) → get_elem? xs i ≡ some a → contains (map f xs) (f a) ≡ true
  contains-map_at xs i a h = contains_of_In (f a) (map f xs) (In-map f a xs (get_elem?-In xs i a h))

  pub Distinct-index :
      (xs : List A) (i j : ℕ) (a b : A)
      → Distinct (map f xs)
      → get_elem? xs i ≡ some a
      → get_elem? xs j ≡ some b
      → f a ≡ f b
      → i ≡ j
  Distinct-index [] i j a b h p q r = ground arith
  Distinct-index (x ∷ xs) zero zero a b h p q r = refl
  Distinct-index (x ∷ xs) zero (suc j) a b h p q r =
      ground (arith, contains-map_at xs j b q, some-injective p, h.0, r)
  Distinct-index (x ∷ xs) (suc i) zero a b h p q r =
      ground (arith, contains-map_at xs i a p, some-injective q, h.0, r)
  Distinct-index (x ∷ xs) (suc i) (suc j) a b h p q r = ap suc (Distinct-index xs i j a b h.1 p q r)

  pub Distinct-In :
      (xs : List A) (a b : A) → Distinct (map f xs) → In a xs → In b xs → f a ≡ f b → a ≡ b
  Distinct-In [] a b h ma mb r = elim ma [ ]
  Distinct-In (x ∷ xs) a b h (inl p) (inl q) r = p ∙ sym q
  Distinct-In (x ∷ xs) a b h (inl p) (inr q) r =
      ground (arith, contains_of_In (f b) (map f xs) (In-map f b xs q))
  Distinct-In (x ∷ xs) a b h (inr p) (inl q) r =
      ground (arith, contains_of_In (f a) (map f xs) (In-map f a xs p))
  Distinct-In (x ∷ xs) a b h (inr p) (inr q) r = Distinct-In xs a b h.1 p q r

module _ {A : Type 0} (p : A → Bool) where
  pub In-select : (a : A) (xs : List A) → In a xs → p a ≡ true → In a (select p xs)
  In-select a [] m h = m
  In-select a (x ∷ xs) (inl e) h = rw (ap p (sym e) ∙ h) (inl e)
  In-select a (x ∷ xs) (inr m) h = elim (Bool-cases (p x)) [
    | inl passes ↦ rw passes (inr (In-select a xs m h))
    | inr fails ↦ rw fails (In-select a xs m h)
  ]

  pub In-of_select : (a : A) (xs : List A) → In a (select p xs) → In a xs
  In-of_select a [] m = m
  In-of_select a (x ∷ xs) m = elim (Bool-cases (p x)) [
    | inl passes ↦ elim (rw passes at m) [
      | inl e ↦ inl e
      | inr later ↦ inr (In-of_select a xs later)
    ]
    | inr fails ↦ inr (In-of_select a xs (rw fails at m))
  ]
