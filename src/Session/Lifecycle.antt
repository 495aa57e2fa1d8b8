-- ===== src/Session/Lifecycle.antt =====
-- What `start` and the checks of `compile_graph` accept.
use leapp.Common.{
  either_branch, ◌≡◌, ◌↔◌, refl, String, none, Bool, true, false, All, values, arith,
}
use leapp.Common.Result.{ok}
use leapp.Export.Readiness.{IsComplete, validate_nodes_ready_for_compile-ok_iff}
use leapp.Session.{
  Session, Outcome, install, abandon, Paths, StartArgs, graph_path, name_session, open_session,
  patch, prepare, start, check_compile,
}
use leapp.Session.Steps.{
  Reachable, IsOpen, Reachable-IsSound, name_session-IsSound, open_session-IsOpen,
}

patches :
    (on : Bool) (s : Session) → IsOpen s → ((patch on none s).1 ≡ none) × IsOpen (patch on none s).0
unfolding patch install
patches false s h = (refl, h)
patches true s h =
    either_branch (λ (r : Outcome). ((abandon r).1 ≡ none) × IsOpen (abandon r).0) s.installed
      (s, none) (record s { installed = true }, none) (λ there. (refl, h))
      (λ absent. (refl, record { runs = h.runs; unlocked = h.unlocked; empty = h.empty }))

-- Whatever was called before, a start with a usable name, whose directory and logger can be set up
-- and whose patches can be installed, is accepted: the session runs, its lock is free, and it has no
-- nodes.
pub start-IsOpen :
    (paths : Paths) (restores : Bool) (args : StartArgs) (parts : String × String) (s : Session)
    → Reachable paths restores s
    → graph_path paths args.name ≡ ok parts
    → ((start paths none none args s).1 ≡ none) × IsOpen (start paths none none args s).0
unfolding start prepare
start-IsOpen paths restores args parts s r named =
    let sound =
      name_session-IsSound restores paths args parts s (Reachable-IsSound paths restores s r) in
    let t = name_session paths args parts s in
    rw (named, start)
      (patches args.global_patching (open_session args t)
        (open_session-IsOpen restores args t sound))

-- The checks of a compilation pass exactly if no session runs, every node has completed, and none
-- has segments to be captured.
pub check_compile_iff :
    (s : Session)
    → (check_compile s ≡ ok tt) ↔ ((s.interpret ≡ false) × All IsComplete (values s.manager.nodes))
unfolding check_compile
check_compile_iff s = ground (arith, validate_nodes_ready_for_compile-ok_iff s.manager)
