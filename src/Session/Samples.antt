-- ===== src/Session/Samples.antt =====
-- A session of one node, and each property at it.
use leapp.Common.{
  ℕ, String, string_eq, ◌≡◌, ◌↔◌, refl, none, some, List, [], ◌∷◌, true, false, get, put, upsert,
  All, values,
}
use leapp.Common.Result.{ok, exception, value_error}
use leapp.Export.{
  reset_nodes, set_dry_run_and_non_traced, setup_new_node, set_node_index, assign_completion_index,
  validate_nodes_ready_for_compile, TraceNode,
}
use leapp.Export.Readiness.{IsComplete}
use leapp.Session.{
  Session, acquire, release, reset_tracing_lock, install, uninstall, set_max_cached_io, Paths,
  StartArgs, graph_path, name_session, open_session, patch, prepare, after_restore, start, stop,
  check_compile, enter_function, initial,
}
use leapp.Session.Steps.{
  Reachable, was_initial, was_started, was_set_up, was_entered, was_completed, was_left, IsSound,
  IsOpen, Reachable-IsSound,
}
use leapp.Session.Lifecycle.{start-IsOpen, check_compile_iff}

program : Unit {0}
unfolding get put upsert reset_nodes set_dry_run_and_non_traced setup_new_node set_node_index
    assign_completion_index validate_nodes_ready_for_compile acquire release reset_tracing_lock
    install uninstall set_max_cached_io graph_path name_session open_session patch prepare
    after_restore start stop check_compile enter_function
program = tt

-- Paths of one component.
abbrev flat : Paths
flat = record { normalize = λ s. s; split = λ s. ("", s); join = λ a b c. c }

abbrev args : StartArgs
args = record {
  name = some "walk";
  save_path = ".";
  dry_run = false;
  non_traced = [];
  max_cached_io = 5;
  global_patching = true;
}

abbrev session : List (String × TraceNode) → ℕ → Session
session nodes next = record {
  graph_name = "walk";
  save_path = some "walk";
  interpret = true;
  locked = false;
  installed = true;
  max_cached_io = 4;
  manager = record { nodes = nodes; next_index = next; dry_run = false; non_traced = [] };
}

starts : start flat none none args initial ≡ (session [] 0, none)
unfolding program
starts = refl

refuses_dot :
    start flat none none (record args { name = some "." }) initial ≡ (initial, some value_error)
unfolding program
refuses_dot = refl

walk_named : graph_path flat (some "walk") ≡ ok ("", "walk")
unfolding program
walk_named = refl

-- A failure of the patches leaves the session closed.
failing_patches :
    start flat none (some exception) args initial
    ≡ (record (session [] 0) { interpret = false; installed = false }, some exception)
unfolding program
failing_patches = refl

abbrev step : TraceNode
step = record { node_index = none; pending_warp = false }

abbrev with_step : Session
with_step = session (("step", step) ∷ []) 0

abbrev done : Session
done = session (("step", record step { node_index = some 0 }) ∷ []) 1

done-Reachable : Reachable flat true done
unfolding program
done-Reachable =
    was_left (record done { locked = true })
      (was_completed "step" (record with_step { locked = true }) done.manager
        (was_entered with_step (
          was_set_up "step" false (session [] 0) with_step.manager
            (was_started none none args initial was_initial) refl refl))
        refl refl)

Reachable-IsSound_example : IsSound true done
Reachable-IsSound_example = Reachable-IsSound flat true done done-Reachable

start-IsOpen_example :
    ((start flat none none args done).1 ≡ none) × IsOpen (start flat none none args done).0
start-IsOpen_example = start-IsOpen flat true args ("", "walk") done done-Reachable walk_named

check_compile_iff_example :
    (check_compile done ≡ ok tt)
    ↔ ((done.interpret ≡ false) × All IsComplete (values done.manager.nodes))
check_compile_iff_example = check_compile_iff done

-- A failure to restore the buffers leaves the patches installed, without a session.
failing_restore : stop (some exception) done ≡ (record done { interpret = false }, some exception)
unfolding program
failing_restore = refl

failing_directory :
    start flat (some exception) none args initial
    ≡ (record initial { graph_name = "walk"; save_path = some "walk" }, some exception)
unfolding program
failing_directory = refl
