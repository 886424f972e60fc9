-- ===== src/Supervisor/Runtime/Ending.antt =====
-- internal/supervisor/supervisor.go: `Remove` and `Shutdown`.
--
-- `Shutdown` goes over the agents that are in the map when it starts.
pub mod Removal
pub mod Locks
use ac_cli.Prelude.{
  ℕ, String, Bool, true, false, not, ◌&&◌, Option, none, some, List, [], ◌∷◌, ◌==◌, ◌!=◌, string_eq,
  if◌then◌else◌, lookup, delete, is_some, map,
}
use ac_cli.Supervisor.Types.{attached, kind_eq, headless, mode_eq, RunState, Definition, Managed}
use ac_cli.Supervisor.World.{Env, World, put, save, release}
use ac_cli.Supervisor.Sessions.{Window}
use ac_cli.Supervisor.Lifecycle.Stop.{stop}
use ac_cli.Supervisor.Lifecycle
use ac_cli.Supervisor.Runtime.Outside.{not_saved, not_stopped, not_killed, Outcome, Outside}

-- How a removal fails. `nil_agent` is the read through a nil pointer, at which the daemon ends.
pub data RemoveError : Type 0 where
  not_down not_removed nil_agent : RemoveError

-- What `Remove` meets: in its `Stop`, between that and its own part, and at the files.
pub record Removing : Type 0 where
  pub env : Env
  pub window : Window
  pub driver_stopped : Lifecycle.Outcome
  pub killed : Bool
  pub between : Window
  pub definition_gone : Bool
  pub delivered_gone : Bool
  pub brief_gone : Bool

abbrev pub no_file : String → World → World
no_file id w = record w { disk = λ j. if j == id then none else w.disk j }

-- The files are gone: so is the agent.
unfoldable pub forget : String → ℕ → World → World
forget name p w =
    let w' = record w {
      agents = delete name w.agents;
      pending_desired = delete name w.pending_desired;
    } in
    if (w.objects p).def.kind == attached then release p w' else w'

unfoldable pub remove_files : Removing → String → ℕ → World → Option RemoveError × World
remove_files o name p w =
    let w' = no_file (w.objects p).def.agent_id w in
    if not o.definition_gone
    then (some not_removed, w)
    else if not (o.delivered_gone && o.brief_gone)
    then (some not_removed, w')
    else (none, forget name p w')

-- Manager.Remove
unfoldable pub remove : Removing → String → World → Option RemoveError × World
remove o name w =
    let (e, w1) = stop o.env o.window o.driver_stopped o.killed name w in
    let w2 = o.between.others w1 in
    elim e [
      | some f ↦ (some not_down, w1)
      | none ↦ elim (lookup name w2.agents) [
        | none ↦ (some nil_agent, w2)
        | some p ↦ remove_files o name p w2
      ]
    ]

unfoldable pub drop_driver : ℕ → World → World
drop_driver p w = put p (record (w.objects p) { driver = none }) w

unfoldable pub forget_pi : Env → ℕ → World → Bool × World
forget_pi env p w =
    let a = w.objects p in save env p (put p (record a { def = record a.def { pi = none } }) w)

-- The end of one agent's driver.
unfoldable pub end_driver : Outside → ℕ → World → Outcome × World
end_driver o p w =
    let w' = o.stopping.others (drop_driver p w) in
    let (saved, w'') = forget_pi o.stopping.env p w' in
    if not (is_some (w.objects p).driver)
    then (none, w)
    else if not o.driver_stopped
    then (some not_stopped, w')
    else if saved
    then (none, w'')
    else (some not_saved, w'')

unfoldable pub mark_stopped : Env → ℕ → World → Bool × World
mark_stopped env p w =
    let a = w.objects p in
    save env p (put p (record a { def = record a.def { state = RunState.stopped } }) w)

unfoldable pub end_agent : Outside → Bool → ℕ → World → Outcome × World
end_agent o stops p w =
    let (saved, w') = mark_stopped o.after p w in
    if not stops
    then (none, w)
    else if (w.objects p).def.mode != headless && not o.killed
    then (some not_killed, w)
    else if saved
    then (none, w')
    else (some not_saved, w')

unfoldable pub end_own : Outside → Bool → ℕ → World → Outcome × World
end_own o stops p w =
    let (e, w1) = end_driver o p w in
    let (f, w2) = end_agent o stops p w1 in
    elim e [
      | some g ↦ (some g, w1)
      | none ↦ elim f [ some g ↦ (some g, w2) | none ↦ (none, release p w2) ]
    ]

unfoldable pub shutdown_one : Outside → Bool → ℕ → World → Outcome × World
shutdown_one o stops p w =
    if (w.objects p).def.kind == attached then (none, release p w) else end_own o stops p w

unfoldable pub shutdown_all : (ℕ → Outside) → Bool → List (String × ℕ) → World → Outcome × World
shutdown_all outside stops [] w = (none, w)
shutdown_all outside stops ((name, p) ∷ rest) w =
    let (e, w') = shutdown_one (outside p) stops p w in
    let later = shutdown_all outside stops rest w' in
    elim e [ some f ↦ (some f, w') | none ↦ later ]

-- Manager.Shutdown
unfoldable pub shutdown : (ℕ → Outside) → Bool → World → Outcome × World
shutdown outside stops w = shutdown_all outside stops w.agents w
