-- ===== src/Session.antt =====
-- The session of an export: `start`, `stop` and the guards of `compile_graph` of leapp/leapp.py,
-- the lock of leapp/utils/tracing_lock.py, the switch and the settings of leapp/export_manager.py,
-- and whether the patches of leapp/leapp_graph/datatypes/patching.py are installed.
pub mod Steps
pub mod Lifecycle
mod Samples
use leapp.Common.{
  ℕ, ◌-◌, String, string_eq, Option, none, some, List, [], ◌∷◌, Bool, true, false, ◌||◌, ◌==◌,
  contains, if◌then◌else◌,
}
use leapp.Common.Result.{
  Error, Result, ok, err, exception, type_error, value_error, ◌>>=◌, ◌>>◌, raise_if,
}
use leapp.Export.{
  Manager, reset_nodes, set_dry_run_and_non_traced, is_dry_run, validate_nodes_ready_for_compile,
}

-- `interpret` is `_interpret_graph`, `locked` the flag of the lock, `installed` that of the patcher.
-- A cache of -1 values, for a maximum of 0, is not told apart from one of 0 values: neither
-- records a value.
pub record Session : Type 0 where
  pub graph_name : String
  pub save_path : Option String
  pub interpret : Bool
  pub locked : Bool
  pub installed : Bool
  pub max_cached_io : ℕ
  pub manager : Manager

-- What a call leaves, and what it raises.
abbrev pub Outcome : Type 0
Outcome = Session × Option Error

-- `TracingLock.acquire`, `release` and `reset`.
unfoldable pub acquire : Session → Outcome
acquire s = if s.locked then (s, some exception) else (record s { locked = true }, none)

unfoldable pub release : Session → Session
release s = record s { locked = false }

unfoldable pub reset_tracing_lock : Session → Session
reset_tracing_lock s = record s { locked = false }

-- `TracingPatcher.install`, where the installation of the patches raises the given exception, if
-- any; it removes the patches again in that case.
unfoldable pub install : Option Error → Session → Outcome
install refusal s =
    if s.installed
    then (s, none)
    else elim refusal [ none ↦ (record s { installed = true }, none) | some e ↦ (s, some e) ]

-- `uninstall`
unfoldable pub uninstall : Session → Session
uninstall s = if s.installed then record s { installed = false } else s

-- `set_max_cached_io`
unfoldable pub set_max_cached_io : ℕ → Session → Session
set_max_cached_io n s = record s { max_cached_io = n - 1 }

-- What `start` uses of `os.path`: `normpath` after `expanduser`, `split`, and `join`.
pub record Paths : Type 0 where
  pub normalize : String → String
  pub split : String → String × String
  pub join : String → String → String → String

-- The arguments of `start`. The name is absent if it is not a text.
pub record StartArgs : Type 0 where
  pub name : Option String
  pub save_path : String
  pub dry_run : Bool
  pub non_traced : List String
  pub max_cached_io : ℕ
  pub global_patching : Bool

-- The name of the graph, and the directory before it.
unfoldable pub graph_path : Paths → Option String → Result (String × String)
graph_path paths none = err type_error
graph_path paths (some name) =
    let normalized = paths.normalize name in
    do
      raise_if (contains ("" ∷ "." ∷ "/" ∷ []) normalized) value_error
      raise_if ((paths.split normalized).1 == "") value_error
      ok (paths.split normalized)

-- `set_graph_name` and `set_save_path`.
unfoldable pub name_session : Paths → StartArgs → String × String → Session → Session
name_session paths args parts s = record s {
  graph_name = parts.1;
  save_path = some (paths.join args.save_path parts.0 parts.1);
}

-- What follows, up to the patches.
unfoldable pub open_session : StartArgs → Session → Session
open_session args s =
    let unlocked = if s.interpret then reset_tracing_lock s else s in
    let managed = record unlocked {
      manager =
          reset_nodes (set_dry_run_and_non_traced args.dry_run args.non_traced unlocked.manager);
    } in
    record (set_max_cached_io args.max_cached_io managed) { interpret = true }

-- The handler of an exception of the installation.
abbrev pub abandon : Outcome → Outcome
abandon (s, none) = (s, none)
abandon (s, some e) = (record s { interpret = false }, some e)

-- The patches, and what a failure of theirs leaves.
unfoldable pub patch : Bool → Option Error → Session → Outcome
patch false refusal s = (s, none)
patch true refusal s = abandon (install refusal s)

-- `ensure_save_path_exists` and `configure_logger` write to the disk, and raise the given exception,
-- if any.
unfoldable pub prepare : Option Error → Option Error → StartArgs → Session → Outcome
prepare (some e) refusal args s = (s, some e)
prepare none refusal args s = patch args.global_patching refusal (open_session args s)

-- `start`
unfoldable pub start : Paths → Option Error → Option Error → StartArgs → Session → Outcome
start paths unprepared refusal args s = elim (graph_path paths args.name) [
  | ok parts ↦ prepare unprepared refusal args (name_session paths args parts s)
  | err e ↦ (s, some e)
]

-- The end of `stop`, after `restore_pending_buffer_trackers`: it writes the buffers of modules,
-- which are torch's, and raises the given exception, if any.
unfoldable pub after_restore : Option Error → Session → Outcome
after_restore none s = (uninstall s, none)
after_restore (some e) s = (s, some e)

-- `stop`
unfoldable pub stop : Option Error → Session → Outcome
stop unrestored s =
    if s.locked
    then (s, some exception)
    else if s.interpret
    then after_restore unrestored (record s { interpret = false })
    else (s, some exception)

-- The checks of `compile_graph` before anything is compiled.
unfoldable pub check_compile : Session → Result (Unit {0})
check_compile s = do raise_if s.interpret exception; validate_nodes_ready_for_compile s.manager

-- The wrapper of a traced function takes the lock around the function's run.
unfoldable pub enter_function : Session → Outcome
enter_function s = if s.interpret then acquire s else (s, none)

-- `ExportManager.__init__`, with the lock and the patcher that are made with it.
abbrev pub initial : Session
initial = record {
  graph_name = "my_graph";
  save_path = none;
  interpret = false;
  locked = false;
  installed = false;
  max_cached_io = 0;
  manager = record { nodes = []; next_index = 0; dry_run = false; non_traced = [] };
}
