-- ===== src/Export/Order.antt =====
-- Completion gives each node an index once, in the order of completion.
use leapp.Common.{
  ℕ, suc, ◌<◌, String, string_eq, ◌≡◌, refl, sym, ap, subst, ◌∙◌, Option, none, some, List, Bool,
  false, Dict, get, put, get-put, has, arith, Bool-cases, Option-cases, inl, inr, ◌==◌,
  if◌then◌else◌, eq_of_beq, beq_self, contains_of_entry, In-of_get,
}
use leapp.Common.Result.{ok, ok-injective}
use leapp.Export.{
  TraceNode, Manager, set_node_index, assign_completion_index, setup_new_node, mark_pending,
  reset_nodes, set_dry_run_and_non_traced,
}

abbrev pub given_index : Option TraceNode → Option ℕ
given_index none = none
given_index (some n) = n.node_index

-- The index of the node under a name.
abbrev pub index_at : String → Manager → Option ℕ
index_at name m = given_index (get name m.nodes)

-- What a step does to the indices: nothing, or it gives the next one to a node without one.
pub data Change (m m' : Manager) : Type 0 where
  same : ((k : String) → index_at k m' ≡ index_at k m) → m'.next_index ≡ m.next_index → Change m m'
  completed :
      (name : String)
      → index_at name m ≡ none
      → ((k : String) → index_at k m' ≡ (if name == k then some m.next_index else index_at k m))
      → m'.next_index ≡ suc m.next_index
      → Change m m'

put_index :
    (name : String) (n : TraceNode) (nodes : Dict String TraceNode) (k : String)
    → given_index (get k (put name n nodes))
      ≡ (if name == k then n.node_index else given_index (get k nodes))
put_index name n nodes k = elim (Bool-cases (name == k)) [
  | inl here ↦ ap given_index (get-put name k n nodes) ∙ rw (here, given_index) refl
  | inr other ↦ ap given_index (get-put name k n nodes) ∙ rw (other, given_index) refl
]

keep_index :
    (name k : String) (nodes : Dict String TraceNode) (i : Option ℕ)
    → given_index (get name nodes) ≡ i
    → (if name == k then i else given_index (get k nodes)) ≡ given_index (get k nodes)
keep_index name k nodes i h = elim (Bool-cases (name == k)) [
  | inl here ↦
      let e : name ≡ k = eq_of_beq name k here in
      rw here (sym h ∙ ap (λ x. given_index (get x nodes)) e)
  | inr other ↦ rw other refl
]

get_of_absent :
    (name : String) (nodes : Dict String TraceNode) → has name nodes ≡ false → get name nodes ≡ none
get_of_absent name nodes h = elim (Option-cases (get name nodes)) [
  | inl none_there ↦ none_there
  | inr (n, there) ↦ absurd (cc (contains_of_entry name n nodes (In-of_get name n nodes there), h))
]

is_next : (next i : ℕ) → some next ≡ some i → i < suc next
is_next next i h = ground arith

is_old : (next i : ℕ) → i < next → i < suc next
is_old next i h = ground arith

not_both : (next i : ℕ) → some next ≡ some i → i < next → ⊥
not_both next i h k = ground arith

-- A completion of a node without an index gives it the next one, and changes no other.
completes :
    (name : String) (m : Manager) {m' : Manager}
    → assign_completion_index name m ≡ ok m'
    → index_at name m ≡ none
    → (k : String) → index_at k m' ≡ (if name == k then some m.next_index else index_at k m)
unfolding assign_completion_index set_node_index
completes name m h unset = elim (Option-cases (get name m.nodes)) [
  | inl missing ↦ absurd (cc (rw missing at h))
  | inr (n, there) ↦
      let clear : n.node_index ≡ none = sym (ap given_index there) ∙ unset in
      subst
        (λ (m' : Manager).
          (k : String) → index_at k m' ≡ (if name == k then some m.next_index else index_at k m))
        (ok-injective (rw clear at (rw there at h)))
        (put_index name (record n { node_index = some m.next_index }) m.nodes)
]

assign-Change :
    (name : String) (m : Manager) {m' : Manager}
    → assign_completion_index name m ≡ ok m'
    → Change m m'
unfolding assign_completion_index set_node_index
assign-Change name m h = elim (Option-cases (get name m.nodes)) [
  | inl missing ↦ absurd (cc (rw missing at h))
  | inr (n, there) ↦ elim (Option-cases n.node_index) [
    | inl unset ↦ subst (Change m) (ok-injective (rw unset at (rw there at h))) (
        completed name (ap given_index there ∙ unset)
          (put_index name (record n { node_index = some m.next_index }) m.nodes) refl)
    | inr (i, set) ↦
        subst (Change m) (ok-injective (rw set at (rw there at h))) (same (λ k. refl) refl)
  ]
]

setup-Change :
    (name : String) (pending : Bool) (m : Manager) {m' : Manager}
    → setup_new_node name pending m ≡ ok m'
    → Change m m'
unfolding setup_new_node
setup-Change name pending m h = elim (Bool-cases (has name m.nodes)) [
  | inl taken ↦ absurd (cc (rw taken at h))
  | inr free ↦
      let n : TraceNode = record { node_index = none; pending_warp = pending } in
      subst (Change m) (ok-injective (rw free at h)) (
        same
          (λ k.
            put_index name n m.nodes k
            ∙ keep_index name k m.nodes none (ap given_index (get_of_absent name m.nodes free)))
          refl)
]

mark-Change :
    (name : String) (pending : Bool) (m : Manager) {m' : Manager}
    → mark_pending name pending m ≡ ok m'
    → Change m m'
unfolding mark_pending
mark-Change name pending m h = elim (Option-cases (get name m.nodes)) [
  | inl missing ↦ absurd (cc (rw missing at h))
  | inr (n, there) ↦ subst (Change m) (ok-injective (rw there at h)) (
      same
        (λ k.
          put_index name (record n { pending_warp = pending }) m.nodes k
          ∙ keep_index name k m.nodes n.node_index (ap given_index there))
        refl)
]

-- The nodes that completed have distinct indices, all below the next one.
pub record IsOrdered (m : Manager) : Type 0 where
  pub below : (k : String) (i : ℕ) → index_at k m ≡ some i → i < m.next_index
  pub apart : (k l : String) (i : ℕ) → index_at k m ≡ some i → index_at l m ≡ some i → k ≡ l

Change-IsOrdered : {m m' : Manager} → Change m m' → IsOrdered m → IsOrdered m'
Change-IsOrdered {m} {m'} (same e next) o = record {
  below = λ k i h. subst (λ b. i < b) (sym next) (o.below k i (sym (e k) ∙ h));
  apart = λ k l i h h'. o.apart k l i (sym (e k) ∙ h) (sym (e l) ∙ h');
}
Change-IsOrdered {m} {m'} (completed name unset e next) o = record {
  below = λ k i h.
      subst (λ b. i < b) (sym next)
        (elim (Bool-cases (name == k)) [
          | inl here ↦ is_next m.next_index i (sym (rw here at (e k)) ∙ h)
          | inr other ↦ is_old m.next_index i (o.below k i (sym (rw other at (e k)) ∙ h))
        ]);
  apart = λ k l i h h'. elim (Bool-cases (name == k)) [
    | inl k_here ↦ elim (Bool-cases (name == l)) [
      | inl l_here ↦ sym (eq_of_beq name k k_here) ∙ eq_of_beq name l l_here
      | inr l_other ↦ absurd (
          not_both m.next_index i (sym (rw k_here at (e k)) ∙ h)
            (o.below l i (sym (rw l_other at (e l)) ∙ h')))
    ]
    | inr k_other ↦ elim (Bool-cases (name == l)) [
      | inl l_here ↦ absurd (
          not_both m.next_index i (sym (rw l_here at (e l)) ∙ h')
            (o.below k i (sym (rw k_other at (e k)) ∙ h)))
      | inr l_other ↦ o.apart k l i (sym (rw k_other at (e k)) ∙ h) (sym (rw l_other at (e l)) ∙ h')
    ]
  ];
}

-- The states that an export can reach after its nodes were reset.
pub data Reachable : Manager → Type 0 where
  was_reset : (m : Manager) → Reachable (reset_nodes m)
  was_configured :
      (dry : Bool) (names : List String) (m : Manager)
      → Reachable m
      → Reachable (set_dry_run_and_non_traced dry names m)
  was_set_up :
      (name : String) (pending : Bool) (m m' : Manager)
      → Reachable m
      → setup_new_node name pending m ≡ ok m'
      → Reachable m'
  was_marked :
      (name : String) (pending : Bool) (m m' : Manager)
      → Reachable m
      → mark_pending name pending m ≡ ok m'
      → Reachable m'
  was_completed :
      (name : String) (m m' : Manager)
      → Reachable m
      → assign_completion_index name m ≡ ok m'
      → Reachable m'

-- In every state that an export can reach, the nodes that completed have distinct indices, all
-- below the next one.
pub Reachable-IsOrdered : (m : Manager) → Reachable m → IsOrdered m
unfolding reset_nodes set_dry_run_and_non_traced get
Reachable-IsOrdered m (was_reset m₀) = record {
  below = λ k i h. absurd (cc h);
  apart = λ k l i h h'. absurd (cc h);
}
Reachable-IsOrdered m (was_configured dry names m₀ r) =
    let o = Reachable-IsOrdered m₀ r in record { below = o.below; apart = o.apart }
Reachable-IsOrdered m (was_set_up name pending m₀ m₁ r h) =
    Change-IsOrdered (setup-Change name pending m₀ h) (Reachable-IsOrdered m₀ r)
Reachable-IsOrdered m (was_marked name pending m₀ m₁ r h) =
    Change-IsOrdered (mark-Change name pending m₀ h) (Reachable-IsOrdered m₀ r)
Reachable-IsOrdered m (was_completed name m₀ m₁ r h) =
    Change-IsOrdered (assign-Change name m₀ h) (Reachable-IsOrdered m₀ r)

-- A node that completes in a reachable state comes after every node that completed before it,
-- and those keep their indices.
pub completion_order :
    (name k : String) (m : Manager) {m' : Manager} {i : ℕ}
    → Reachable m
    → assign_completion_index name m ≡ ok m'
    → index_at name m ≡ none
    → index_at k m ≡ some i
    → (j : ℕ) × (index_at name m' ≡ some j) × (i < j) × (index_at k m' ≡ some i)
completion_order name k m {m'} {i} r h unset earlier =
    let lower = (Reachable-IsOrdered m r).below k i earlier in
    let e = completes name m h unset in
    (
      m.next_index,
      e name ∙ rw (beq_self name) refl,
      lower,
      e k ∙ elim (Bool-cases (name == k)) [
        | inl here ↦
            absurd (cc (sym unset ∙ ap (λ x. index_at x m) (eq_of_beq name k here) ∙ earlier))
        | inr other ↦ rw other earlier
      ],
    )
