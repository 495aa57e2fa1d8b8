-- ===== src/Graph/Validate.antt =====
-- `LeappGraph._validate_connection_compatibility` and `LeappGraph.__init__` of
-- leapp/leapp_graph/leapp_graph.py.
use leapp.Common.{string_eq, ◌≡◌, ◌↔◌, List, [], ◌∷◌, ◌++◌, All, arith}
use leapp.Common.Result.{Result, ok, ◌>>=◌, ◌>>◌, >>=-eq-ok}
use leapp.Compat.{validate_edge, validate_edge-ok_iff}
use leapp.Graph.{Desc, Nodes, Endpoint, Connection}
use leapp.Graph.Build.{Connections, build_connections}
use leapp.Graph.Ports.{inputs_of, outputs_of, desc_at}
use leapp.Graph.Io.{GraphIo, compile_graph_io}

unfoldable pub validate_targets : Desc → List Endpoint → Result (Unit {0})
validate_targets s [] = ok tt
validate_targets s (t ∷ targets) = do
  d ← desc_at inputs_of t
  validate_edge s.shape s.dtype d.shape d.dtype
  validate_targets s targets

unfoldable pub validate_connections : List Connection → Result (Unit {0})
validate_connections [] = ok tt
validate_connections (c ∷ cs) = do
  s ← desc_at outputs_of c.source
  validate_targets s c.targets
  validate_connections cs

pub record LeappGraph : Type 0 where
  pub connections : Connections
  pub io : GraphIo

-- `LeappGraph.__init__`
unfoldable pub init : Nodes → Result LeappGraph
init nodes = do
  r ← build_connections nodes
  io ← compile_graph_io nodes r.forward r.feedback
  validate_connections (r.forward ++ r.feedback)
  ok (record { connections = r; io = io })

-- The tensor at `t` has the shape and the data type of `s`.
abbrev pub Matches : Desc → Endpoint → Type 0
Matches s t = (d : Desc) × (desc_at inputs_of t ≡ ok d) × (s.shape ≡ d.shape) × (s.dtype ≡ d.dtype)

abbrev pub IsCompatible : Connection → Type 0
IsCompatible c = (s : Desc) × (desc_at outputs_of c.source ≡ ok s) × All (Matches s) c.targets

bind-unit : (m k : Result (Unit {0})) → ((m >> k) ≡ ok tt) ↔ ((m ≡ ok tt) × (k ≡ ok tt))
bind-unit m k = ground arith

bind-desc :
    (m : Result Desc) (k : Desc → Result (Unit {0}))
    → ((m >>= k) ≡ ok tt) ↔ ((d : Desc) × (m ≡ ok d) × (k d ≡ ok tt))
bind-desc m k = (>>=-eq-ok m k, λ (d, e, h). rw e h)

validate_targets-ok_iff :
    (s : Desc) (targets : List Endpoint)
    → (validate_targets s targets ≡ ok tt) ↔ All (Matches s) targets
unfolding validate_targets
validate_targets-ok_iff s [] = ground arith
validate_targets-ok_iff s (t ∷ targets) = (
  λ h.
      let (d, at, h') = (bind-desc (desc_at inputs_of t) _).0 h in
      let (edge, rest) = (bind-unit (validate_edge s.shape s.dtype d.shape d.dtype) _).0 h' in
      let (shapes, dtypes) = (validate_edge-ok_iff s.shape s.dtype d.shape d.dtype).0 edge in
      ((d, at, shapes, dtypes), (validate_targets-ok_iff s targets).0 rest),
  λ ((d, at, shapes, dtypes), rest). (bind-desc (desc_at inputs_of t) _).1 (
    d,
    at,
    (bind-unit (validate_edge s.shape s.dtype d.shape d.dtype) _).1 (
      (validate_edge-ok_iff s.shape s.dtype d.shape d.dtype).1 (shapes, dtypes),
      (validate_targets-ok_iff s targets).1 rest,
    ),
  ),
)

-- The validation passes exactly if each target of each connection has the shape and the data
-- type of its source.
pub validate_connections-ok_iff :
    (cs : List Connection) → (validate_connections cs ≡ ok tt) ↔ All IsCompatible cs
unfolding validate_connections
validate_connections-ok_iff [] = ground arith
validate_connections-ok_iff (c ∷ cs) = (
  λ h.
      let (s, at, h') = (bind-desc (desc_at outputs_of c.source) _).0 h in
      let (targets, rest) = (bind-unit (validate_targets s c.targets) _).0 h' in
      (
        (s, at, (validate_targets-ok_iff s c.targets).0 targets),
        (validate_connections-ok_iff cs).0 rest,
      ),
  λ ((s, at, targets), rest). (bind-desc (desc_at outputs_of c.source) _).1 (
    s,
    at,
    (bind-unit (validate_targets s c.targets) _).1
        ((validate_targets-ok_iff s c.targets).1 targets, (validate_connections-ok_iff cs).1 rest),
  ),
)
