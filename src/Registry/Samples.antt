-- ===== src/Registry/Samples.antt =====
-- The outputs of a node, and each property at them.
use leapp.Common.{
  ℕ, String, ◌≡◌, refl, none, some, List, [], ◌∷◌, ◌++◌, Distinct, get, contains, true, All, ◌⊎◌,
  nat_eq, string_eq,
}
use leapp.Common.Result.{ok, err, exception}
use leapp.Registry.{Port, names_of, validate_and_add, stamp, add_output, change_name}
use leapp.Registry.Names.{change_name-Distinct}
use leapp.Registry.Reentry.{
  Registered, Fresh, Cache, take_source, agree, set_elem, write_cache, revisit, visit, visit_all,
}
use leapp.Registry.Reentry.Kept.{AllKeep, visit_all-AllKeep, IsKnown, visit_all-IsKnown}

program : Unit {0}
unfolding validate_and_add add_output change_name get take_source agree set_elem write_cache revisit
    visit visit_all
program = tt

abbrev fresh : ℕ → String → Port
fresh ident name = record { ident = ident; name = name; source_node = none; port = none }

abbrev outputs : List Port
outputs = stamp "policy" (fresh 1 "action") ∷ []

outputs-Distinct : Distinct (names_of outputs)
outputs-Distinct = (refl, tt)

-- The second name is refused, and the first one stays.
refuses_action :
    validate_and_add (fresh 2 "value" ∷ fresh 3 "action" ∷ []) outputs
    ≡ (outputs ++ fresh 2 "value" ∷ [], err exception)
unfolding program
refuses_action = refl

renames_action :
    change_name "action" "command" outputs
    ≡ ok (
        record { ident = 1; name = "command"; source_node = some "policy"; port = some "action" }
        ∷ [])
unfolding program
renames_action = refl

-- A renamed output keeps its port, so that another output can come to have the same one.
ports_clash :
    (add_output "policy" (fresh 2 "action" ∷ []) (
      record { ident = 1; name = "command"; source_node = some "policy"; port = some "action" }
      ∷ []))
    ≡ (
      record { ident = 1; name = "command"; source_node = some "policy"; port = some "action" }
          ∷ record { ident = 2; name = "action"; source_node = some "policy"; port = some "action" }
          ∷ [],
      ok tt,
    )
unfolding program
ports_clash = refl

change_name-Distinct_example : Distinct (
    names_of (
      record { ident = 1; name = "command"; source_node = some "policy"; port = some "action" }
      ∷ []))
change_name-Distinct_example =
    change_name-Distinct "action" "command" outputs outputs-Distinct renames_action

-- A second pass over an input "h" that was dangling, with the source that the pass has found.
abbrev dangling_h : Registered
dangling_h = record {
  aliases = "h" ∷ "hidden" ∷ [];
  source_node = none;
  port = none;
  facts = ("shape", 4) ∷ ("dtype", 1) ∷ [];
  cached_values = 0 ∷ 0 ∷ [];
}

abbrev second_h : Fresh
second_h = record {
  name_str = "hidden";
  source_node = some "policy";
  port = some "h_out";
  facts = ("shape", 4) ∷ ("dtype", 1) ∷ [];
  value = 9;
}

abbrev cache : Cache
cache = record { write_idx = 0; max_cached_io = 2 }

finds_source : visit_all true cache [] (second_h ∷ []) (dangling_h ∷ []) ≡ (
  record dangling_h { source_node = some "policy"; port = some "h_out"; cached_values = 9 ∷ 0 ∷ [] }
      ∷ [],
  ok tt,
)
unfolding program
finds_source = refl

pass_accepted : (visit_all true cache [] (second_h ∷ []) (dangling_h ∷ [])).1 ≡ ok tt
unfolding program
pass_accepted = refl

-- Another shape is refused.
refuses_shape :
    (visit_all true cache []
      (record second_h { facts = ("shape", 5) ∷ [] } ∷ [])
      (dangling_h ∷ [])).1
    ≡ err exception
unfolding program
refuses_shape = refl

visit_all-AllKeep_example :
    AllKeep true (dangling_h ∷ []) (visit_all true cache [] (second_h ∷ []) (dangling_h ∷ [])).0
visit_all-AllKeep_example = visit_all-AllKeep true cache [] (second_h ∷ []) (dangling_h ∷ [])

visit_all-IsKnown_example :
    All
      (λ (d : Fresh). (contains [] d.name_str ≡ true) ⊎ IsKnown (dangling_h ∷ []) d)
      (second_h ∷ [])
visit_all-IsKnown_example =
    visit_all-IsKnown true cache [] (second_h ∷ []) (dangling_h ∷ []) pass_accepted
