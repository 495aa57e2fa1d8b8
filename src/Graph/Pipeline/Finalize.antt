-- ===== src/Graph/Pipeline/Finalize.antt =====
-- What a finalised flow lists under the port of each source.
use leapp.Common.{
  String, string_eq, ◌≡◌, refl, sym, ap, ◌∙◌, some, List, [], ◌∷◌, false, Distinct, In, inl, inr,
  contains, get, put, get-put, beq_self, absent-cons, subst,
}
use leapp.Common.Result.{Result, ok, >>=-eq-ok, ok-injective, traverse, traverse-cons}
use leapp.Graph.{Connection}
use leapp.Graph.Ports.{inputs_of, outputs_of, end_port}
use leapp.Graph.Pipeline.{Flow, finalize_from, finalize_connections}

-- The port of a connection's source.
abbrev pub source_port : Connection → Result String
source_port c = end_port outputs_of c.source

-- The flow lists the ports of the connection's targets, in their order, under its source's port.
pub record IsListed (flow : Flow) (c : Connection) : Type 0 where
  pub source : String
  pub targets : List String
  pub source_eq : source_port c ≡ ok source
  pub targets_eq : traverse (end_port inputs_of) c.targets ≡ ok targets
  pub listed : get source flow ≡ some targets

finalize_from-other :
    (cs : List Connection) (flow : Flow) (key : String) {ports : List String} {flow' : Flow}
    → traverse source_port cs ≡ ok ports
    → contains ports key ≡ false
    → finalize_from cs flow ≡ ok flow'
    → get key flow' ≡ get key flow
unfolding finalize_from
finalize_from-other [] flow key named absent h = ap (get key) (sym (ok-injective h))
finalize_from-other (c ∷ cs) flow key named absent h =
    let (port, ports, at, at_cs, e) = traverse-cons source_port c cs named in
    let (source, source_eq, h₁) = >>=-eq-ok (end_port outputs_of c.source) _ h in
    let (targets, _, h₂) = >>=-eq-ok (traverse (end_port inputs_of) c.targets) _ h₁ in
    let same : port ≡ source = ok-injective (sym at ∙ source_eq) in
    let (other, rest) = absent-cons key port ports (subst (λ l. contains l key ≡ false) e absent) in
    finalize_from-other cs (put source targets flow) key at_cs rest h₂
    ∙ get-put source key targets flow
    ∙ rw (← same) (rw other refl)

finalize_from-IsListed :
    (cs : List Connection) (flow : Flow) (c : Connection) {ports : List String} {flow' : Flow}
    → traverse source_port cs ≡ ok ports
    → Distinct ports
    → finalize_from cs flow ≡ ok flow'
    → In c cs
    → IsListed flow' c
unfolding finalize_from
finalize_from-IsListed [] flow c named distinct h m = elim m [ ]
finalize_from-IsListed (d ∷ cs) flow c named distinct h m =
    let (port, ports, at, at_cs, e) = traverse-cons source_port d cs named in
    let (source, source_eq, h₁) = >>=-eq-ok (end_port outputs_of d.source) _ h in
    let (targets, targets_eq, h₂) = >>=-eq-ok (traverse (end_port inputs_of) d.targets) _ h₁ in
    let same : port ≡ source = ok-injective (sym at ∙ source_eq) in
    let (fresh, rest) = subst Distinct e distinct in
    elim m [
      | inl is_d ↦ record {
        source = source;
        targets = targets;
        source_eq = ap source_port is_d ∙ source_eq;
        targets_eq =
            ap (λ (x : Connection). traverse (end_port inputs_of) x.targets) is_d ∙ targets_eq;
        listed =
            finalize_from-other cs (put source targets flow) source at_cs
              (subst (λ k. contains ports k ≡ false) same fresh) h₂
            ∙ get-put source source targets flow
            ∙ rw (beq_self source) refl;
      }
      | inr later ↦ finalize_from-IsListed cs (put source targets flow) c at_cs rest h₂ later
    ]

-- Where the ports of the sources are distinct, a finalised flow lists, under the port of every
-- connection's source, exactly the ports of its targets, in the order of the connection.
pub finalize_connections-IsListed :
    (cs : List Connection) (c : Connection) {ports : List String} {flow : Flow}
    → traverse source_port cs ≡ ok ports
    → Distinct ports
    → finalize_connections cs ≡ ok flow
    → In c cs
    → IsListed flow c
unfolding finalize_connections
finalize_connections-IsListed cs c named distinct h m =
    finalize_from-IsListed cs [] c named distinct h m
