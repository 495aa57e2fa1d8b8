-- ===== src/Registry/Reentry/Kept.antt =====
-- What another pass keeps of a node's descriptions, and what it has checked.
use leapp.Common.{
  ℕ, nat_eq, ◌==◌, Dict, Option, some, get, either_branch, String, string_eq, ◌≡◌, refl, sym, ap,
  subst, ◌∙◌, List, [], ◌∷◌, Bool, true, false, not, ◌&&◌, contains, ltb, arith, inl, inr, ◌⊎◌, In,
  All,
}
use leapp.Common.Result.{Result, ok, err, exception, ◌>>◌, raise_if, >>=-eq-ok, ok-injective}
use leapp.Registry.Reentry.{
  Registered, Fresh, Cache, has_source, take_source, same_value, agree, set_elem, write_cache,
  kept_or, revisit, visit, and_then, visit_all,
}

-- The description kept its names and its facts, and a source that it had; an output also keeps
-- having none.
pub record Keeps (inputs : Bool) (r r' : Registered) : Type 0 where
  pub aliases : r'.aliases ≡ r.aliases
  pub facts : r'.facts ≡ r.facts
  pub source :
      (inputs ≡ false) ⊎ (has_source r ≡ true)
      → (r'.source_node ≡ r.source_node) × (r'.port ≡ r.port)

abbrev pub AllKeep : Bool → List Registered → List Registered → Type 0
AllKeep inputs [] [] = Unit
AllKeep inputs [] (r' ∷ io') = ⊥
AllKeep inputs (r ∷ io) [] = ⊥
AllKeep inputs (r ∷ io) (r' ∷ io') = Keeps inputs r r' × AllKeep inputs io io'

Keeps-self : (inputs : Bool) (r : Registered) → Keeps inputs r r
Keeps-self inputs r = record { aliases = refl; facts = refl; source = λ h. (refl, refl) }

AllKeep-self : (inputs : Bool) (io : List Registered) → AllKeep inputs io io
AllKeep-self inputs [] = tt
AllKeep-self inputs (r ∷ io) = (Keeps-self inputs r, AllKeep-self inputs io)

still_has :
    (inputs : Bool) (a b : Registered)
    → b.source_node ≡ a.source_node
    → b.port ≡ a.port
    → (inputs ≡ false) ⊎ (has_source a ≡ true)
    → (inputs ≡ false) ⊎ (has_source b ≡ true)
still_has inputs a b s p (inl e) = inl e
still_has inputs a b s p (inr e) = inr (rw (s, p) e)

Keeps-trans :
    (inputs : Bool) (a b c : Registered) → Keeps inputs a b → Keeps inputs b c → Keeps inputs a c
Keeps-trans inputs a b c h k = record {
  aliases = k.aliases ∙ h.aliases;
  facts = k.facts ∙ h.facts;
  source = λ w.
      let (s, p) = h.source w in
      let (s', p') = k.source (still_has inputs a b s p w) in (s' ∙ s, p' ∙ p);
}

AllKeep-trans :
    (inputs : Bool) (a b c : List Registered)
    → AllKeep inputs a b
    → AllKeep inputs b c
    → AllKeep inputs a c
AllKeep-trans inputs [] [] [] h k = tt
AllKeep-trans inputs [] [] (z ∷ c) h k = absurd k
AllKeep-trans inputs [] (y ∷ b) c h k = absurd h
AllKeep-trans inputs (x ∷ a) [] c h k = absurd h
AllKeep-trans inputs (x ∷ a) (y ∷ b) [] h k = absurd k
AllKeep-trans inputs (x ∷ a) (y ∷ b) (z ∷ c) h k =
    (Keeps-trans inputs x y z h.0 k.0, AllKeep-trans inputs a b c h.1 k.1)

not_dangling :
    (inputs has : Bool) → (inputs ≡ false) ⊎ (has ≡ true) → (inputs && not has) ≡ true → ⊥
not_dangling inputs has w h = ground arith

take_source-Keeps :
    (inputs : Bool) (d : Fresh) (r : Registered) → Keeps inputs r (take_source inputs d r)
unfolding take_source
take_source-Keeps inputs d r =
    either_branch (Keeps inputs r) (inputs && not (has_source r)) _ _
      (λ dangling. record {
        aliases = refl;
        facts = refl;
        source = λ w. absurd (not_dangling inputs (has_source r) w dangling);
      })
      (λ other. Keeps-self inputs r)

write_cache-Keeps :
    (inputs : Bool) (c : Cache) (d : Fresh) (r : Registered) {r' : Registered}
    → write_cache c d r ≡ ok r'
    → Keeps inputs r r'
unfolding write_cache
write_cache-Keeps inputs c d r {r'} h =
    either_branch (λ (m : Result Registered). m ≡ ok r' → Keeps inputs r r')
      (ltb c.write_idx c.max_cached_io) _ _
      (λ early e.
        let (vs, _, left) = >>=-eq-ok (set_elem c.write_idx d.value r.cached_values) _ e in
        subst (Keeps inputs r) (ok-injective left)
          (record { aliases = refl; facts = refl; source = λ w. (refl, refl) }))
      (λ late e. subst (Keeps inputs r) (ok-injective e) (Keeps-self inputs r)) h

kept_or-Keeps :
    (inputs : Bool) (r : Registered) (m : Result Registered)
    → ((r' : Registered) → m ≡ ok r' → Keeps inputs r r')
    → Keeps inputs r (kept_or r m).0
kept_or-Keeps inputs r (ok r') h = h r' refl
kept_or-Keeps inputs r (err e) h = Keeps-self inputs r

after_guard :
    (b : Bool) (m : Result Registered) {r : Registered}
    → (raise_if b exception >> m) ≡ ok r
    → m ≡ ok r
after_guard b m h = ground arith

revisit-Keeps :
    (inputs : Bool) (c : Cache) (d : Fresh) (r : Registered)
    → Keeps inputs r (revisit inputs c d r).0
unfolding revisit
revisit-Keeps inputs c d r =
    let r₁ = take_source inputs d r in
    Keeps-trans inputs r r₁ _ (take_source-Keeps inputs d r) (
      kept_or-Keeps inputs r₁
        (raise_if (not (agree r₁.facts d.facts)) exception >> write_cache c d r₁)
        (λ r' h.
          write_cache-Keeps inputs c d r₁
            (after_guard (not (agree r₁.facts d.facts)) (write_cache c d r₁) h)))

visit-AllKeep :
    (inputs : Bool) (c : Cache) (d : Fresh) (io : List Registered)
    → AllKeep inputs io (visit inputs c d io).0
unfolding visit
visit-AllKeep inputs c d [] = tt
visit-AllKeep inputs c d (r ∷ io) =
    either_branch (λ (m : List Registered × Result (Unit {0})). AllKeep inputs (r ∷ io) m.0)
      (contains r.aliases d.name_str) _ _
      (λ named. (revisit-Keeps inputs c d r, AllKeep-self inputs io))
      (λ other. (Keeps-self inputs r, visit-AllKeep inputs c d io))

and_then-AllKeep :
    (inputs : Bool) (io : List Registered) (m : List Registered × Result (Unit {0}))
    (k : List Registered → List Registered × Result (Unit {0}))
    → AllKeep inputs io m.0
    → ((io' : List Registered) → AllKeep inputs io' (k io').0)
    → AllKeep inputs io (and_then m k).0
and_then-AllKeep inputs io (io', ok tt) k h next = AllKeep-trans inputs io io' _ h (next io')
and_then-AllKeep inputs io (io', err e) k h next = h

-- A pass, accepted or refused, keeps the descriptions in their order, with their names and their
-- facts. A description that has a source keeps it; an output's source never changes.
pub visit_all-AllKeep :
    (inputs : Bool) (c : Cache) (trimmed : List String) (pass : List Fresh) (io : List Registered)
    → AllKeep inputs io (visit_all inputs c trimmed pass io).0
unfolding visit_all
visit_all-AllKeep inputs c trimmed [] io = AllKeep-self inputs io
visit_all-AllKeep inputs c trimmed (d ∷ pass) io =
    either_branch (λ (m : List Registered × Result (Unit {0})). AllKeep inputs io m.0)
      (contains trimmed d.name_str) _ _ (λ unused. visit_all-AllKeep inputs c trimmed pass io)
      (λ used.
        and_then-AllKeep inputs io (visit inputs c d io) (visit_all inputs c trimmed pass)
          (visit-AllKeep inputs c d io) (λ io'. visit_all-AllKeep inputs c trimmed pass io'))

-- Where both have a fact, they have the same value for it.
abbrev pub SameFacts : Dict String ℕ → Dict String ℕ → Type 0
SameFacts existing current =
    (k : String) (v w : ℕ) → In (k, v) existing → get k current ≡ some w → v ≡ w

first_agrees :
    (u w : ℕ) (o : Option ℕ) (rest : Bool)
    → o ≡ some w
    → (same_value u o && rest) ≡ true
    → (u == w) ≡ true
first_agrees u w o rest there h = ground arith

rest_agrees : (u : ℕ) (o : Option ℕ) (rest : Bool) → (same_value u o && rest) ≡ true → rest ≡ true
rest_agrees u o rest h = ground arith

agree-SameFacts :
    (existing current : Dict String ℕ) → agree existing current ≡ true → SameFacts existing current
unfolding agree
agree-SameFacts [] current h k v w m there = absurd m
agree-SameFacts ((j, u) ∷ existing) current h k v w (inl e) there =
    let same_key : k ≡ j = ap (λ (p : String × ℕ). p.0) e in
    let same_one : v ≡ u = ap (λ (p : String × ℕ). p.1) e in
    let there' : get j current ≡ some w = subst (λ k. get k current ≡ some w) same_key there in
    same_one ∙ (nat_eq.beq_iff u w).0 (first_agrees u w (get j current) _ there' h)
agree-SameFacts ((j, u) ∷ existing) current h k v w (inr m) there =
    agree-SameFacts existing current (rest_agrees u (get j current) _ h) k v w m there

-- A description of the node has the name, and the same facts where both have them.
abbrev pub IsKnown : List Registered → Fresh → Type 0
IsKnown io d =
    (r : Registered) × In r io × (contains r.aliases d.name_str ≡ true) × SameFacts r.facts d.facts

IsKnown-before :
    (inputs : Bool) (io io' : List Registered) (d : Fresh)
    → AllKeep inputs io io'
    → IsKnown io' d
    → IsKnown io d
IsKnown-before inputs [] [] d h (r, m, named, agrees) = absurd m
IsKnown-before inputs [] (r' ∷ io') d h known = absurd h
IsKnown-before inputs (r ∷ io) [] d h known = absurd h
IsKnown-before inputs (r ∷ io) (r' ∷ io') d h (x, inl e, named, agrees) =
    let k = h.0 in
    let same_names : x.aliases ≡ r.aliases = ap (λ (x : Registered). x.aliases) e ∙ k.aliases in
    let same_facts : x.facts ≡ r.facts = ap (λ (x : Registered). x.facts) e ∙ k.facts in
    (r, inl refl, rw same_names at named, subst (λ f. SameFacts f d.facts) same_facts agrees)
IsKnown-before inputs (r ∷ io) (r' ∷ io') d h (x, inr m, named, agrees) =
    let (y, my, known, same) = IsKnown-before inputs io io' d h.1 (x, m, named, agrees) in
    (y, inr my, known, same)

kept_or-ok :
    (r : Registered) (m : Result Registered)
    → (kept_or r m).1 ≡ ok tt
    → (r' : Registered) × (m ≡ ok r')
kept_or-ok r (ok r') h = (r', refl)
kept_or-ok r (err e) h = absurd (cc h)

guard_passed :
    (b : Bool) (m : Result Registered) {r : Registered}
    → (raise_if (not b) exception >> m) ≡ ok r
    → b ≡ true
guard_passed b m h = ground arith

revisit_agrees :
    (inputs : Bool) (c : Cache) (d : Fresh) (r : Registered)
    → (revisit inputs c d r).1 ≡ ok tt
    → agree r.facts d.facts ≡ true
unfolding revisit
revisit_agrees inputs c d r h =
    let r₁ = take_source inputs d r in
    let (r', passed) = kept_or-ok r₁ _ h in
    let same : r₁.facts ≡ r.facts = (take_source-Keeps inputs d r).facts in
    ap (λ f. agree f d.facts) (sym same)
    ∙ guard_passed (agree r₁.facts d.facts) (write_cache c d r₁) passed

visit-IsKnown :
    (inputs : Bool) (c : Cache) (d : Fresh) (io : List Registered)
    → (visit inputs c d io).1 ≡ ok tt
    → IsKnown io d
unfolding visit
visit-IsKnown inputs c d [] h = absurd (cc h)
visit-IsKnown inputs c d (r ∷ io) h =
    either_branch (λ (m : List Registered × Result (Unit {0})). m.1 ≡ ok tt → IsKnown (r ∷ io) d)
      (contains r.aliases d.name_str) _ _
      (λ named e.
        (r, inl refl, named, agree-SameFacts r.facts d.facts (revisit_agrees inputs c d r e)))
      (λ other e.
        let (x, m, named, agrees) = visit-IsKnown inputs c d io e in (x, inr m, named, agrees))
      h

and_then-ok :
    (m : List Registered × Result (Unit {0}))
    (k : List Registered → List Registered × Result (Unit {0}))
    → (and_then m k).1 ≡ ok tt
    → (m.1 ≡ ok tt) × ((k m.0).1 ≡ ok tt)
and_then-ok (io, ok tt) k h = (refl, h)
and_then-ok (io, err e) k h = absurd (cc h)

All_map :
    {A : Type 0} (P Q : A → Type 0) (xs : List A) → ((x : A) → P x → Q x) → All P xs → All Q xs
All_map P Q [] f h = tt
All_map P Q (x ∷ xs) f h = (f x h.0, All_map P Q xs f h.1)

-- A pass that is accepted has brought no input or output that the node does not know: each one that
-- is not trimmed has a description of the node by one of its names, with the same facts where both
-- have them.
pub visit_all-IsKnown :
    (inputs : Bool) (c : Cache) (trimmed : List String) (pass : List Fresh) (io : List Registered)
    → (visit_all inputs c trimmed pass io).1 ≡ ok tt
    → All (λ d. (contains trimmed d.name_str ≡ true) ⊎ IsKnown io d) pass
unfolding visit_all
visit_all-IsKnown inputs c trimmed [] io h = tt
visit_all-IsKnown inputs c trimmed (d ∷ pass) io h =
    either_branch
      (λ (m : List Registered × Result (Unit {0})).
        m.1 ≡ ok tt → All (λ d. (contains trimmed d.name_str ≡ true) ⊎ IsKnown io d) (d ∷ pass))
      (contains trimmed d.name_str) _ _
      (λ unused e. (inl unused, visit_all-IsKnown inputs c trimmed pass io e))
      (λ used e.
        let (first, rest) = and_then-ok (visit inputs c d io) (visit_all inputs c trimmed pass) e in
        let io' = (visit inputs c d io).0 in
        (
          inr (visit-IsKnown inputs c d io first),
          All_map _ _ pass
              (λ x known. elim known [
                | inl skipped ↦ inl skipped
                | inr there ↦
                    inr (IsKnown-before inputs io io' x (visit-AllKeep inputs c d io) there)
              ])
              (visit_all-IsKnown inputs c trimmed pass io' rest),
        ))
      h
