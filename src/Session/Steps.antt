-- ===== src/Session/Steps.antt =====
-- What a session can come to, whatever is called and whatever is refused.
use leapp.Common.{
  either_branch, String, string_eq, ◌≡◌, refl, Option, none, some, [], Bool, true, false, arith,
  Bool-cases, inl, inr,
}
use leapp.Common.Result.{Error, ok, Result-cases}
use leapp.Export.{
  Manager, reset_nodes, set_dry_run_and_non_traced, setup_new_node, mark_pending,
  assign_completion_index,
}
use leapp.Export.Order
use leapp.Session.{
  Session, Outcome, acquire, release, reset_tracing_lock, install, uninstall, set_max_cached_io,
  Paths, StartArgs, graph_path, name_session, open_session, abandon, patch, prepare, after_restore,
  start, stop, enter_function, initial,
}

-- The sessions that calls lead to, refused ones included. Nodes change while a session runs.
-- `restores` says that no `stop` failed to restore the buffers of modules.
pub data Reachable (paths : Paths) (restores : Bool) : Session → Type 0 where
  was_initial : Reachable paths restores initial
  was_started :
      (unprepared refusal : Option Error) (args : StartArgs) (s : Session)
      → Reachable paths restores s
      → Reachable paths restores (start paths unprepared refusal args s).0
  was_stopped :
      (unrestored : Option Error) (s : Session)
      → Reachable paths restores s
      → (restores ≡ true → unrestored ≡ none)
      → Reachable paths restores (stop unrestored s).0
  was_entered :
      (s : Session) → Reachable paths restores s → Reachable paths restores (enter_function s).0
  was_left : (s : Session) → Reachable paths restores s → Reachable paths restores (release s)
  was_set_up :
      (name : String) (pending : Bool) (s : Session) (m : Manager)
      → Reachable paths restores s
      → s.interpret ≡ true
      → setup_new_node name pending s.manager ≡ ok m
      → Reachable paths restores (record s { manager = m })
  was_marked :
      (name : String) (pending : Bool) (s : Session) (m : Manager)
      → Reachable paths restores s
      → s.interpret ≡ true
      → mark_pending name pending s.manager ≡ ok m
      → Reachable paths restores (record s { manager = m })
  was_completed :
      (name : String) (s : Session) (m : Manager)
      → Reachable paths restores s
      → s.interpret ≡ true
      → assign_completion_index name s.manager ≡ ok m
      → Reachable paths restores (record s { manager = m })

-- The lock belongs to a session that runs, and so do the patches, unless a restoration failed. The
-- nodes are those of an export.
pub record IsSound (restores : Bool) (s : Session) : Type 0 where
  pub locked_runs : s.locked ≡ true → s.interpret ≡ true
  pub patched_runs : restores ≡ true → s.installed ≡ true → s.interpret ≡ true
  pub exported : Order.Reachable s.manager

-- A session that was opened runs, is not locked, and has no nodes.
pub record IsOpen (s : Session) : Type 0 where
  pub runs : s.interpret ≡ true
  pub unlocked : s.locked ≡ false
  pub empty : s.manager.nodes ≡ []

module _ (restores : Bool) where
  with_manager :
      (s : Session) (m : Manager)
      → IsSound restores s
      → Order.Reachable m
      → IsSound restores (record s { manager = m })
  with_manager s m h r = record {
    locked_runs = h.locked_runs;
    patched_runs = h.patched_runs;
    exported = r;
  }

  pub name_session-IsSound :
      (paths : Paths) (args : StartArgs) (parts : String × String) (s : Session)
      → IsSound restores s
      → IsSound restores (name_session paths args parts s)
  unfolding name_session
  name_session-IsSound paths args parts s h = record {
    locked_runs = h.locked_runs;
    patched_runs = h.patched_runs;
    exported = h.exported;
  }

  pub open_session-IsOpen :
      (args : StartArgs) (s : Session) → IsSound restores s → IsOpen (open_session args s)
  unfolding open_session set_max_cached_io reset_tracing_lock reset_nodes set_dry_run_and_non_traced
  open_session-IsOpen args s h = elim (Bool-cases s.interpret) [
    | inl runs ↦ rw runs (record { runs = refl; unlocked = refl; empty = refl })
    | inr idle ↦
        rw idle (record { runs = refl; unlocked = ground (arith, h.locked_runs); empty = refl })
  ]

  open_session-IsSound : (args : StartArgs) (s : Session) → IsSound restores (open_session args s)
  unfolding open_session set_max_cached_io reset_tracing_lock
  open_session-IsSound args s = record {
    locked_runs = λ l. refl;
    patched_runs = λ r l. refl;
    exported = Order.was_reset _;
  }

  abbrev LeavesSound : Outcome → Type 0
  LeavesSound r = IsSound restores r.0

  patch-IsSound :
      (on : Bool) (refusal : Option Error) (s : Session)
      → IsSound restores s
      → s.interpret ≡ true
      → s.locked ≡ false
      → IsSound restores (patch on refusal s).0
  unfolding patch install
  patch-IsSound false refusal s h runs unlocked = h
  patch-IsSound true none s h runs unlocked =
      either_branch (λ r. IsSound restores (abandon r).0) s.installed (s, none)
        (record s { installed = true }, none) (λ there. h)
        (λ absent. record {
          locked_runs = λ l. runs;
          patched_runs = λ r l. runs;
          exported = h.exported;
        })
  patch-IsSound true (some e) s h runs unlocked =
      either_branch (λ r. IsSound restores (abandon r).0) s.installed (s, none) (s, some e)
        (λ there. h)
        (λ absent. record {
          locked_runs = λ l. absurd (cc (l, unlocked));
          patched_runs = λ r l. absurd (cc (l, absent));
          exported = h.exported;
        })

  prepare-IsSound :
      (unprepared refusal : Option Error) (args : StartArgs) (s : Session)
      → IsSound restores s
      → IsSound restores (prepare unprepared refusal args s).0
  unfolding prepare
  prepare-IsSound (some e) refusal args s h = h
  prepare-IsSound none refusal args s h =
      let o = open_session-IsOpen args s h in
      patch-IsSound args.global_patching refusal (open_session args s) (open_session-IsSound args s)
        o.runs o.unlocked

  start-IsSound :
      (paths : Paths) (unprepared refusal : Option Error) (args : StartArgs) (s : Session)
      → IsSound restores s
      → IsSound restores (start paths unprepared refusal args s).0
  unfolding start
  start-IsSound paths unprepared refusal args s h =
      elim (Result-cases (graph_path paths args.name)) [
        | inl (parts, named) ↦
            rw (named, start)
              (prepare-IsSound unprepared refusal args (name_session paths args parts s)
                (name_session-IsSound paths args parts s h))
        | inr (e, refused) ↦ rw (refused, start) h
      ]

  after_restore-IsSound :
      (unrestored : Option Error) (s : Session)
      → IsSound restores s
      → s.locked ≡ false
      → (restores ≡ true → unrestored ≡ none)
      → IsSound restores (after_restore unrestored (record s { interpret = false })).0
  unfolding after_restore uninstall
  after_restore-IsSound none s h unlocked clean =
      either_branch (IsSound restores) s.installed _ _
        (λ there. record {
          locked_runs = λ l. absurd (cc (l, unlocked));
          patched_runs = λ r l. absurd (cc l);
          exported = h.exported;
        })
        (λ absent. record {
          locked_runs = λ l. absurd (cc (l, unlocked));
          patched_runs = λ r l. absurd (cc (l, absent));
          exported = h.exported;
        })
  after_restore-IsSound (some e) s h unlocked clean = record {
    locked_runs = λ l. absurd (cc (l, unlocked));
    patched_runs = λ r l. absurd (cc (clean r));
    exported = h.exported;
  }

  stop-IsSound :
      (unrestored : Option Error) (s : Session)
      → IsSound restores s
      → (restores ≡ true → unrestored ≡ none)
      → IsSound restores (stop unrestored s).0
  unfolding stop
  stop-IsSound unrestored s h clean =
      either_branch LeavesSound s.locked _ _ (λ locked. h)
        (λ unlocked.
          either_branch LeavesSound s.interpret _ _
            (λ runs. after_restore-IsSound unrestored s h unlocked clean) (λ idle. h))

  enter_function-IsSound :
      (s : Session) → IsSound restores s → IsSound restores (enter_function s).0
  unfolding enter_function acquire
  enter_function-IsSound s h =
      either_branch LeavesSound s.interpret _ _
        (λ runs.
          either_branch LeavesSound s.locked _ _ (λ locked. h)
            (λ unlocked. record {
              locked_runs = λ l. runs;
              patched_runs = h.patched_runs;
              exported = h.exported;
            }))
        (λ idle. h)

-- In every session that calls lead to, refused ones included, the lock is taken only while the
-- session runs, and the nodes are those that an export can reach. Where no `stop` failed to restore
-- the buffers of modules, the patches are installed only while the session runs.
pub Reachable-IsSound :
    (paths : Paths) (restores : Bool) (s : Session)
    → Reachable paths restores s
    → IsSound restores s
unfolding release reset_nodes
Reachable-IsSound paths restores s was_initial = record {
  locked_runs = λ l. absurd (cc l);
  patched_runs = λ r l. absurd (cc l);
  exported = Order.was_reset initial.manager;
}
Reachable-IsSound paths restores s (was_started unprepared refusal args s₀ r) =
    start-IsSound restores paths unprepared refusal args s₀ (Reachable-IsSound paths restores s₀ r)
Reachable-IsSound paths restores s (was_stopped unrestored s₀ r clean) =
    stop-IsSound restores unrestored s₀ (Reachable-IsSound paths restores s₀ r) clean
Reachable-IsSound paths restores s (was_entered s₀ r) =
    enter_function-IsSound restores s₀ (Reachable-IsSound paths restores s₀ r)
Reachable-IsSound paths restores s (was_left s₀ r) =
    let h = Reachable-IsSound paths restores s₀ r in
    record {
      locked_runs = λ l. absurd (cc l);
      patched_runs = h.patched_runs;
      exported = h.exported;
    }
Reachable-IsSound paths restores s (was_set_up name pending s₀ m r runs e) =
    let h = Reachable-IsSound paths restores s₀ r in
    with_manager restores s₀ m h (Order.was_set_up name pending s₀.manager m h.exported e)
Reachable-IsSound paths restores s (was_marked name pending s₀ m r runs e) =
    let h = Reachable-IsSound paths restores s₀ r in
    with_manager restores s₀ m h (Order.was_marked name pending s₀.manager m h.exported e)
Reachable-IsSound paths restores s (was_completed name s₀ m r runs e) =
    let h = Reachable-IsSound paths restores s₀ r in
    with_manager restores s₀ m h (Order.was_completed name s₀.manager m h.exported e)
