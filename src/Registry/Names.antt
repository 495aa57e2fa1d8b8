-- ===== src/Registry/Names.antt =====
-- The names of a node's inputs are distinct, and so are those of its outputs.
use leapp.Common.{
  nat_eq, String, string_eq, ◌≡◌, refl, ap, subst, List, [], ◌∷◌, false, arith, contains, Distinct,
  map, ◌==◌, Bool-cases, inl, inr,
}
use leapp.Common.Result.{ok, ok-injective}
use leapp.Registry.{Port, names_of, rename, change_name}

rename_absent :
    (old new a : String) (io : List Port)
    → contains (names_of io) a ≡ false
    → (new == a) ≡ false
    → contains (names_of (map (rename old new) io)) a ≡ false
rename_absent old new a [] h k = refl
rename_absent old new a (d ∷ io) h k = elim (Bool-cases (d.name == old)) [
  | inl named ↦
      rw named (
        ground
          (arith, rename_absent old new a io, string_eq.beq_iff new a, string_eq.beq_iff a new))
  | inr other ↦ rw other (ground (arith, rename_absent old new a io))
]

-- Without the old name, a renaming changes nothing.
rename_none :
    (old new : String) (io : List Port)
    → contains (names_of io) old ≡ false
    → map (rename old new) io ≡ io
rename_none old new [] h = refl
rename_none old new (d ∷ io) h = elim (Bool-cases (d.name == old)) [
  | inl named ↦ absurd (ground (arith, string_eq.beq_iff d.name old, string_eq.beq_iff old d.name))
  | inr other ↦ rw other (ap (λ l. d ∷ l) (rename_none old new io (ground arith)))
]

rename-Distinct :
    (old new : String) (io : List Port)
    → Distinct (names_of io)
    → contains (names_of io) new ≡ false
    → Distinct (names_of (map (rename old new) io))
rename-Distinct old new [] h k = tt
rename-Distinct old new (d ∷ io) h k =
    let rest : contains (names_of io) new ≡ false = ground arith in
    elim (Bool-cases (d.name == old)) [
      | inl named ↦
          let e : d.name ≡ old = (string_eq.beq_iff d.name old).0 named in
          let gone : contains (names_of io) old ≡ false =
            subst (λ n. contains (names_of io) n ≡ false) e h.0 in
          rw (named, rename_none old new io gone) (rest, h.1)
      | inr other ↦ rw other (
        rename_absent old new d.name io h.0 (ground (arith, string_eq.beq_iff new d.name)),
        rename-Distinct old new io h.1 rest,
      )
    ]

-- A renaming that is accepted keeps the names distinct.
pub change_name-Distinct :
    (old new : String) (io : List Port) {io' : List Port}
    → Distinct (names_of io)
    → change_name old new io ≡ ok io'
    → Distinct (names_of io')
unfolding change_name
change_name-Distinct old new io d h = elim (Bool-cases (old == new)) [
  | inl same ↦ subst (λ l. Distinct (names_of l)) (ok-injective (rw same at h)) d
  | inr other ↦ elim (Bool-cases (contains (names_of io) new)) [
    | inl taken ↦ absurd (cc (rw taken at (rw other at h)))
    | inr free ↦
        subst (λ l. Distinct (names_of l)) (ok-injective (rw free at (rw other at h)))
          (rename-Distinct old new io d free)
  ]
]
