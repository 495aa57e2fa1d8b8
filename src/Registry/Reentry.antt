-- ===== src/Registry/Reentry.antt =====
-- Another pass over a node: `validate_io_and_update_sources` and `increment_cache_idx` of
-- leapp/leapp_graph/leapp_node.py, after `describe_io` has described the values of the pass.
pub mod Kept
use leapp.Common.{
  ℕ, zero, suc, nat_eq, String, string_eq, Option, none, some, List, [], ◌∷◌, Bool, true, false,
  not, ◌&&◌, ◌||◌, ◌==◌, contains, Dict, get, ltb, if◌then◌else◌,
}
use leapp.Common.Result.{Result, ok, err, exception, index_error, ◌>>=◌, ◌>>◌, raise_if}

-- A description in the list of a node. `facts` is what `dict()` has but the name, and values are
-- told apart by numbers. The first alias is the name.
pub record Registered : Type 0 where
  pub aliases : List String
  pub source_node : Option String
  pub port : Option String
  pub facts : Dict String ℕ
  pub cached_values : List ℕ

-- A description of the present pass.
pub record Fresh : Type 0 where
  pub name_str : String
  pub source_node : Option String
  pub port : Option String
  pub facts : Dict String ℕ
  pub value : ℕ

abbrev pub both : Option String → Option String → Bool
both none p = false
both (some s) none = false
both (some s) (some p) = true

-- `has_source`
abbrev pub has_source : Registered → Bool
has_source r = both r.source_node r.port

-- A dangling input takes the source of the pass.
unfoldable pub take_source : Bool → Fresh → Registered → Registered
take_source inputs d r =
    if inputs && not (has_source r)
    then record r { source_node = d.source_node; port = d.port }
    else r

abbrev pub same_value : ℕ → Option ℕ → Bool
same_value v none = true
same_value v (some w) = v == w

-- The comparison over the common keys.
unfoldable pub agree : Dict String ℕ → Dict String ℕ → Bool
agree [] current = true
agree ((k, v) ∷ existing) current = same_value v (get k current) && agree existing current

-- `cached_values[i] = value`
unfoldable pub set_elem : ℕ → ℕ → List ℕ → Result (List ℕ)
set_elem i value [] = err index_error
set_elem zero value (v ∷ vs) = ok (value ∷ vs)
set_elem (suc i) value (v ∷ vs) = set_elem i value vs >>= λ rest. ok (v ∷ rest)

-- The number of the pass, and of those that are cached.
pub record Cache : Type 0 where
  pub write_idx : ℕ
  pub max_cached_io : ℕ

unfoldable pub write_cache : Cache → Fresh → Registered → Result Registered
write_cache c d r =
    if ltb c.write_idx c.max_cached_io
    then (set_elem c.write_idx d.value r.cached_values >>= λ vs.
        ok (record r { cached_values = vs }))
    else ok r

-- What is left of the description, and whether the pass goes on.
abbrev pub kept_or : Registered → Result Registered → Registered × Result (Unit {0})
kept_or r (ok r') = (r', ok tt)
kept_or r (err e) = (r, err e)

unfoldable pub revisit : Bool → Cache → Fresh → Registered → Registered × Result (Unit {0})
revisit inputs c d r =
    let r' = take_source inputs d r in
    kept_or r' (raise_if (not (agree r'.facts d.facts)) exception >> write_cache c d r')

abbrev pub front :
    Registered × Result (Unit {0}) → List Registered → List Registered × Result (Unit {0})
front (r, m) io = (r ∷ io, m)

abbrev pub behind :
    Registered → List Registered × Result (Unit {0}) → List Registered × Result (Unit {0})
behind r (io, m) = (r ∷ io, m)

-- The description that has the name, in its place; an exception where none has it.
unfoldable pub visit : Bool → Cache → Fresh → List Registered → List Registered × Result (Unit {0})
visit inputs c d [] = ([], err exception)
visit inputs c d (r ∷ io) =
    let later = visit inputs c d io in
    if contains r.aliases d.name_str then front (revisit inputs c d r) io else behind r later

abbrev pub and_then :
    List Registered × Result (Unit {0})
    → (List Registered → List Registered × Result (Unit {0}))
    → List Registered × Result (Unit {0})
and_then (io, ok tt) k = k io
and_then (io, err e) k = (io, err e)

-- The loop of `validate_io_and_update_sources`; trimmed inputs are left out.
unfoldable pub visit_all :
    Bool → Cache → List String → List Fresh → List Registered → List Registered × Result (Unit {0})
visit_all inputs c trimmed [] io = (io, ok tt)
visit_all inputs c trimmed (d ∷ pass) io =
    if contains trimmed d.name_str
    then visit_all inputs c trimmed pass io
    else and_then (visit inputs c d io) (visit_all inputs c trimmed pass)

-- `increment_cache_idx`
unfoldable pub increment_cache_idx : Cache → Cache
increment_cache_idx c =
    if ltb c.write_idx c.max_cached_io then record c { write_idx = suc c.write_idx } else c
