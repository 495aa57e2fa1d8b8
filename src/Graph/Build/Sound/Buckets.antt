-- ===== src/Graph/Build/Sound/Buckets.antt =====
-- An invariant of the buckets, kept by each append of a target.
use leapp.Common.{
  ℕ, ◌≡◌, refl, sym, ◌∙◌, ap, Option, none, some, List, [], ◌∷◌, ◌++◌, arith, ◌==◌, get_elem?, map,
  All-at, Distinct, Distinct-In, Distinct-index, In, inl, inr, All, values, Bool-cases, upsert,
  pair_eq, nat_eq, option_eq, string_eq, eq_of_beq,
}
use leapp.Graph.{Desc, Node, Nodes, Endpoint, Connection}
use leapp.Graph.Build.{Key, Bucket, add_target}
use leapp.Graph.Build.Keys.{output_key, desc_key}

-- Values with one `ident` are one object, as Python's `is` has it, and a node gives each of its
-- outputs a port of its own.
pub record Objects (nodes : Nodes) : Type 0 where
  pub node_same :
      (m n : Node) → In m (values nodes) → In n (values nodes) → m.ident ≡ n.ident → m ≡ n
  pub port_same :
      (n : Node) (i j : ℕ) (c d : Desc)
      → In n (values nodes)
      → get_elem? n.outputs i ≡ some c
      → get_elem? n.outputs j ≡ some d
      → c.port ≡ d.port
      → i ≡ j
  pub input_same :
      (n : Node) (p : Desc × Desc) (c : Desc)
      → In n (values nodes)
      → In p n.state_pairs
      → In c n.inputs
      → c.ident ≡ p.0.ident
      → c ≡ p.0
  pub output_same :
      (n : Node) (p : Desc × Desc) (c : Desc)
      → In n (values nodes)
      → In p n.state_pairs
      → In c n.outputs
      → c.ident ≡ p.1.ident
      → c ≡ p.1

-- The conditions as they are checked on given nodes: each list of identities and ports is free of
-- repetitions, and a declared pair's halves are on the node.
pub Objects-of_Distinct :
    (nodes : Nodes)
    → Distinct (map (λ n. n.ident) (values nodes))
    → All (λ n. Distinct (map (λ d. d.port) n.outputs)) (values nodes)
    → All (λ n. Distinct (map (λ d. d.ident) n.inputs)) (values nodes)
    → All (λ n. Distinct (map (λ d. d.ident) n.outputs)) (values nodes)
    → All (λ n. All (λ p. In p.0 n.inputs × In p.1 n.outputs) n.state_pairs) (values nodes)
    → Objects nodes
Objects-of_Distinct nodes idents ports ins outs pairs = record {
  node_same = λ m n mm mn e. Distinct-In (λ (n : Node). n.ident) (values nodes) m n idents mm mn e;
  port_same = λ n i j c d mn ci dj e.
      Distinct-index (λ (d : Desc). d.port) n.outputs i j c d
        (All-at (λ n. Distinct (map (λ d. d.port) n.outputs)) n (values nodes) ports mn) ci dj e;
  input_same = λ n p c mn mp mc e.
      Distinct-In (λ (d : Desc). d.ident) n.inputs c p.0
        (All-at (λ n. Distinct (map (λ d. d.ident) n.inputs)) n (values nodes) ins mn) mc
        (halves n p mn mp).0 e;
  output_same = λ n p c mn mp mc e.
      Distinct-In (λ (d : Desc). d.ident) n.outputs c p.1
        (All-at (λ n. Distinct (map (λ d. d.ident) n.outputs)) n (values nodes) outs mn) mc
        (halves n p mn mp).1 e;
}
  where
    halves :
        (n : Node) (p : Desc × Desc)
        → In n (values nodes)
        → In p n.state_pairs
        → In p.0 n.inputs × In p.1 n.outputs
    halves n p mn mp =
        All-at (λ p. In p.0 n.inputs × In p.1 n.outputs) p n.state_pairs
          (All-at (λ n. All (λ p. In p.0 n.inputs × In p.1 n.outputs) n.state_pairs) n
            (values nodes) pairs mn)
          mp

module _ (nodes : Nodes) (Fed : Endpoint → Endpoint → Type 0) where
  -- An entry of a bucket: its key is the key of its source, which feeds each target.
  pub record IsEntry (key : Key) (c : Connection) : Type 0 where
    pub source_in : In c.source.node (values nodes)
    pub source_key : output_key c.source ≡ some key
    pub fed : All (Fed c.source) c.targets

  abbrev pub IsBucket : Bucket → Type 0
  IsBucket b = All (λ e. IsEntry e.0 e.1) b

desc_key_inv :
    (ident : ℕ) (o : Option Desc) (key : Key)
    → desc_key ident o ≡ some key
    → (ident ≡ key.0) × (d : Desc) × (o ≡ some d) × (d.port ≡ key.1)
desc_key_inv ident none key h = ground arith
desc_key_inv ident (some d) key h = (ground arith, d, refl, ground arith)

-- One output, one endpoint.
endpoint_unique :
    (nodes : Nodes) (objects : Objects nodes) (key : Key) (a b : Endpoint)
    → In a.node (values nodes)
    → In b.node (values nodes)
    → output_key a ≡ some key
    → output_key b ≡ some key
    → a ≡ b
endpoint_unique nodes objects key a b ma mb ha hb =
    let (ia, c, at_c, pc) = desc_key_inv a.node.ident (get_elem? a.node.outputs a.idx) key ha in
    let (ib, d, at_d, pd) = desc_key_inv b.node.ident (get_elem? b.node.outputs b.idx) key hb in
    let same : a.node ≡ b.node = objects.node_same a.node b.node ma mb (ia ∙ sym ib) in
    let idx_same : a.idx ≡ b.idx =
      objects.port_same a.node a.idx b.idx c d ma at_c (rw same at_d) (pc ∙ sym pd) in
    ground arith

All_snoc :
    {A : Type 0} (P : A → Type 0) (xs : List A) (x : A) → All P xs → P x → All P (xs ++ x ∷ [])
All_snoc P [] x h p = (p, tt)
All_snoc P (y ∷ xs) x h p = (h.0, All_snoc P xs x h.1 p)

module _ (nodes : Nodes) (objects : Objects nodes) (Fed : Endpoint → Endpoint → Type 0) where
  pub add_target-IsBucket :
      (key : Key) (source target : Endpoint) (b : Bucket)
      → In source.node (values nodes)
      → output_key source ≡ some key
      → Fed source target
      → IsBucket nodes Fed b
      → IsBucket nodes Fed (add_target key source target b)
  unfolding add_target upsert
  add_target-IsBucket key source target [] m k f h =
      (record { source_in = m; source_key = k; fed = (f, tt) }, tt)
  add_target-IsBucket key source target ((j, c) ∷ b) m k f h = elim (Bool-cases (j == key)) [
    | inl here ↦
        let same : j ≡ key = eq_of_beq j key here in
        let one : source ≡ c.source =
          endpoint_unique nodes objects key source c.source m h.0.source_in k
            (h.0.source_key ∙ ap some same) in
        rw here (
          record {
            source_in = h.0.source_in;
            source_key = h.0.source_key;
            fed = All_snoc (Fed c.source) c.targets target h.0.fed (rw one at f);
          },
          h.1,
        )
    | inr other ↦ rw other (h.0, add_target-IsBucket key source target b m k f h.1)
  ]
