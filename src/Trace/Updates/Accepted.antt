-- ===== src/Trace/Updates/Accepted.antt =====
-- What a call of `update_state` leaves.
use leapp.Common.{
  nat_eq, String, string_eq, ◌≡◌, ◌⊎◌, inl, inr, refl, sym, ap, subst, ◌∙◌, Option, none, some,
  List, [], ◌∷◌, Bool, true, not, ◌==◌, contains, In, In-of_contains, Bool-cases, either_branch,
  if◌then◌else◌, Distinct, Dict, get, get-put_self, put, keys, All, All-upsert, arith,
}
use leapp.Common.Result.{Result, ok, err, exception, >>=-eq-ok, ◌>>◌, raise_if}
use leapp.Trace.{StateInfo, is_tracing, update_states, get_state_outputs}
use leapp.Trace.States.{AllMatch, latest, update_states-AllMatch, get_state_outputs-latest}
use leapp.Trace.Updates.{
  Tensor, Given, raw, traced, untraceable, TracingNode, Entry, tracing_node, method_node, Api,
  Passed, validate_flat, all_traced, context_names, is_only, validate_initial, carriers, with_node,
  Call, checked, updated, outside, first_pass, later_pass, on_node, on_entry, annotate_update_state,
}

abbrev pub StatesMatch : String × Entry → Type 0
StatesMatch (k, tracing_node n) = AllMatch n.trace.states
StatesMatch (k, method_node) = Unit {0}

abbrev pub Matches : Api → Type 0
Matches a = All StatesMatch a.nodes

with_node-Matches :
    (a : Api) (key : String) (n : TracingNode)
    → AllMatch n.trace.states
    → Matches a
    → Matches (with_node key n a)
unfolding put
with_node-Matches a key n own all =
    All-upsert StatesMatch key (tracing_node n) (λ _. tracing_node n) a.nodes own (λ _ _. own) all

checked-Matches :
    (a : Api) (m : Result (Unit {0})) (call : Call)
    → Matches a
    → Matches call.0
    → Matches (checked a m call).0
checked-Matches a (err e) call all after = all
checked-Matches a (ok u) call all after = after

on_node-Matches :
    (a : Api) (key : String) (n : TracingNode) (tensors : Dict String Given)
    → AllMatch n.trace.states
    → Matches a
    → Matches (on_node a key n tensors).0
unfolding on_node first_pass later_pass
on_node-Matches a key n tensors own all = checked-Matches a (validate_flat tensors) _ all (
    either_branch (λ (c : Call). Matches c.0) (is_tracing n.trace) (first_pass a key n tensors)
      (later_pass a key n tensors)
      (λ first. checked-Matches a (validate_initial n.name tensors) _ all (
        with_node-Matches a key _ (update_states-AllMatch (carriers tensors) n.trace.states own)
          all))
      (λ later. with_node-Matches a key _ own all))

entry-AllMatch :
    (key : String) (n : TracingNode) (nodes : Dict String Entry)
    → get key nodes ≡ some (tracing_node n)
    → All StatesMatch nodes
    → AllMatch n.trace.states
unfolding get
entry-AllMatch key n [] h all = absurd (cc h)
entry-AllMatch key n ((k, entry) ∷ nodes) h all = elim (Bool-cases (k == key)) [
  | inl same ↦
      let e : entry ≡ tracing_node n = cc (rw same at h) in
      subst (λ (x : Entry). StatesMatch (k, x)) e all.0
  | inr other ↦ entry-AllMatch key n nodes (rw other at h) all.1
]

on_entry-Matches :
    (a : Api) (key : String) (found : Option Entry) (tensors : Dict String Given)
    → ((n : TracingNode) → found ≡ some (tracing_node n) → AllMatch n.trace.states)
    → Matches a
    → Matches (on_entry a key found tensors).0
unfolding on_entry
on_entry-Matches a key none tensors own all = all
on_entry-Matches a key (some method_node) tensors own all = all
on_entry-Matches a key (some (tracing_node n)) tensors own all =
    on_node-Matches a key n tensors (own n refl) all

-- Whatever a call of `update_state` is given, and whether it is accepted or refused: where each
-- state's output has the shape and the data type of the state's input at every node, they have them
-- after the call.
pub annotate_update_state-Matches :
    (a : Api) (key : String) (tensors : Dict String Given)
    → Matches a
    → Matches (annotate_update_state a key tensors).0
unfolding annotate_update_state
annotate_update_state-Matches a key tensors all =
    either_branch (λ (c : Call). Matches c.0) a.interpret _ _
      (λ running.
        on_entry-Matches a key (get key a.nodes) tensors
          (λ n found. entry-AllMatch key n a.nodes found all) all)
      (λ stopped. all)

-- The value is a tensor that the node with the name traces.
abbrev pub IsTracedBy : String → String × Given → Type 0
IsTracedBy name (k, raw t) = none ≡ some name
IsTracedBy name (k, traced c t) = c ≡ name
IsTracedBy name (k, untraceable) = none ≡ some name

abbrev Only : String → List String → Type 0
Only name cs = (c : String) → In c cs → c ≡ name

is_only-Only : (name : String) (cs : List String) → is_only name cs ≡ true → Only name cs
is_only-Only name [] h c m = absurd m
is_only-Only name (d ∷ []) h c (inl e) = e ∙ (string_eq.beq_iff d name).0 h
is_only-Only name (d ∷ []) h c (inr m) = absurd m
is_only-Only name (d ∷ f ∷ cs) h c m = absurd (cc h)

In-context_names :
    (c d : String) (k : String) (t : Tensor) (tensors : Dict String Given)
    → (c ≡ d) ⊎ In c (context_names tensors)
    → In c (context_names ((k, traced d t) ∷ tensors))
unfolding context_names
In-context_names c d k t tensors h =
    either_branch (In c) (contains (context_names tensors) d) (context_names tensors)
      (d ∷ context_names tensors)
      (λ there. elim h [
        | inl e ↦
            subst (λ x. In x (context_names tensors)) (sym e)
              (In-of_contains d (context_names tensors) there)
        | inr m ↦ m
      ])
      (λ absent. h)

all_traced-IsTracedBy :
    (name : String) (tensors : Dict String Given)
    → all_traced tensors ≡ true
    → Only name (context_names tensors)
    → All (IsTracedBy name) tensors
unfolding all_traced
all_traced-IsTracedBy name [] all h = tt
all_traced-IsTracedBy name ((k, raw t) ∷ tensors) all h = absurd (cc all)
all_traced-IsTracedBy name ((k, untraceable) ∷ tensors) all h = absurd (cc all)
all_traced-IsTracedBy name ((k, traced c t) ∷ tensors) all h = (
  h c (In-context_names c c k t tensors (inl refl)),
  all_traced-IsTracedBy name tensors all (λ d m. h d (In-context_names d c k t tensors (inr m))),
)

both_passed :
    (x y : Bool)
    → (raise_if (not x) exception >> raise_if (not y) exception) ≡ ok tt
    → (x ≡ true) × (y ≡ true)
both_passed x y h = ground arith

validate_initial-IsTracedBy :
    (name : String) (tensors : Dict String Given)
    → validate_initial name tensors ≡ ok tt
    → All (IsTracedBy name) tensors
unfolding validate_initial
validate_initial-IsTracedBy name tensors h =
    let (all, one) = both_passed (all_traced tensors) (is_only name (context_names tensors)) h in
    all_traced-IsTracedBy name tensors all (is_only-Only name (context_names tensors) one)

checked-ok :
    (a : Api) (m : Result (Unit {0})) (call : Call) (p : Passed)
    → (checked a m call).1 ≡ ok p
    → (m ≡ ok tt) × (checked a m call ≡ call)
checked-ok a (err e) call p h = absurd (cc h)
checked-ok a (ok u) call p h = (refl, refl)

-- A call for a node that traces.
while_tracing :
    (a : Api) (key : String) (n : TracingNode) (tensors : Dict String Given)
    → a.interpret ≡ true
    → get key a.nodes ≡ some (tracing_node n)
    → is_tracing n.trace ≡ true
    → annotate_update_state a key tensors
      ≡ checked a
          (validate_flat tensors)
          (checked a (validate_initial n.name tensors) (updated a key n tensors))
unfolding annotate_update_state on_entry on_node first_pass
while_tracing a key n tensors running found tracing =
    ap (λ b. if b then on_entry a key (get key a.nodes) tensors else outside a tensors) running
    ∙ ap (λ f. on_entry a key f tensors) found
    ∙ ap
        (λ b.
          checked a (validate_flat tensors)
            (if b then first_pass a key n tensors else later_pass a key n tensors))
        tracing

-- Where `update_state` is accepted for a node that traces and whose states have distinct names:
-- each value that it was given is a tensor that this node traces, and what the node then feeds back
-- for a declared state is the last value given for it, or else what was set before.
pub annotate_update_state-latest :
    (a : Api) (key : String) (n : TracingNode) (tensors : Dict String Given) (p : Passed)
    (name : String) (info : StateInfo)
    → a.interpret ≡ true
    → get key a.nodes ≡ some (tracing_node n)
    → is_tracing n.trace ≡ true
    → Distinct (keys n.trace.states)
    → get name n.trace.states ≡ some info
    → (annotate_update_state a key tensors).1 ≡ ok p
    → (m : TracingNode) × (get key (annotate_update_state a key tensors).0.nodes
        ≡ some (tracing_node m))
      × (get name (get_state_outputs m.trace).1 ≡ latest name (carriers tensors) info.output)
      × All (IsTracedBy n.name) tensors
annotate_update_state-latest a key n tensors p name info running found tracing distinct there h =
    let first = checked a (validate_initial n.name tensors) (updated a key n tensors) in
    let opened = while_tracing a key n tensors running found tracing in
    let (_, passed_flat) =
      checked-ok a (validate_flat tensors) first p (ap (λ (c : Call). c.1) (sym opened) ∙ h) in
    let whole = opened ∙ passed_flat in
    let (valid, passed) =
      checked-ok a (validate_initial n.name tensors) (updated a key n tensors) p
        (ap (λ (c : Call). c.1) (sym whole) ∙ h) in
    let last = whole ∙ passed in
    let after = update_states (carriers tensors) n.trace.states in
    let (_, accepted, _) = >>=-eq-ok after.1 _ (ap (λ (c : Call). c.1) (sym last) ∙ h) in
    let m : TracingNode = record n { trace = record n.trace { states = after.0 } } in
    (
      m,
      ap (λ (c : Call). get key c.0.nodes) last ∙ get-put_self key (tracing_node m) a.nodes,
      get_state_outputs-latest (carriers tensors) n.trace name info distinct there accepted,
      validate_initial-IsTracedBy n.name tensors valid,
    )
