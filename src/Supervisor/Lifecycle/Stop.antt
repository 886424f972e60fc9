-- ===== src/Supervisor/Lifecycle/Stop.antt =====
-- `Stop` (supervisor.go). The end of a driver's process is `driver_stopped`, met after the `Window` in
-- which the mutex is free; `tmux_killed` is the outcome of `Tmux.Kill`, which is called under the mutex.
use ac_cli.Prelude.{
  ℕ, String, ◌≡◌, ◌≢◌, Bool, false, none, some, ◌⊎◌, ◌==◌, ◌!=◌, if◌then◌else◌, nat_eq, lookup, [],
  not, is_some,
}
use ac_cli.Presence.Types.{dashboard_stop}
use ac_cli.Supervisor.Types.{attached, kind_eq, headless, mode_eq, Desired, RunState}
use ac_cli.Supervisor.World.{Env, World, put, save, release, emit_attached}
use ac_cli.Supervisor.Sessions.{Window}
use ac_cli.Supervisor.Lifecycle.{
  Outcome, not_exist, not_saved, agent_taken_over, stop_failed, is_taken_over,
}

-- An attached session: its process and its lock stay.
unfoldable pub stop_attached : Env → ℕ → World → Outcome × World
stop_attached env p w =
    let a = w.objects p in
    let told = emit_attached env p dashboard_stop "stopped locally" (
      put p
        (record a { def = record a.def { state = RunState.stopped; reason = "stopped locally" } })
        w) in
    let (saved, w') = save env p told in if saved then (none, w') else (some not_saved, w')

-- After the process: the record is cleared and written, and the lock is released either way.
unfoldable pub stop_finish : Env → ℕ → Outcome → World → Outcome × World
stop_finish env p failure w =
    let a = w.objects p in
    let (saved, w') =
      save env p (put p (record a { def = record a.def { pi = none }; pending_wakes = [] }) w) in
    if saved then (failure, release p w') else (some not_saved, release p w')

-- From the first save on.
unfoldable pub stop_process : Env → Window → Outcome → Bool → ℕ → World → Outcome × World
stop_process env window driver_stopped tmux_killed p w =
    let a = w.objects p in
    if is_some a.driver
    then stop_finish window.env p driver_stopped
        (window.others (put p (record a { driver = none }) w))
    else if a.def.mode != headless
    then (if tmux_killed then stop_finish env p none w else (some stop_failed, w))
    else stop_finish env p none w

abbrev pub halted : ℕ → World → World
halted p w =
    let a = w.objects p in
    put p
      (record a {
        def = record a.def { desired = Desired.stopped; state = RunState.stopped };
        next_start = 0;
      })
      w

unfoldable pub stop_managed : Env → Window → Outcome → Bool → ℕ → World → Outcome × World
stop_managed env window driver_stopped tmux_killed p w =
    let (saved, w') = save env p (halted p w) in
    if not saved
    then (some not_saved, w')
    else stop_process env window driver_stopped tmux_killed p w'

unfoldable pub stop_at : Env → Window → Outcome → Bool → ℕ → World → Outcome × World
stop_at env window driver_stopped tmux_killed p w =
    if (w.objects p).def.kind == attached
    then stop_attached env p w
    else if is_taken_over (w.objects p)
    then (some agent_taken_over, w)
    else stop_managed env window driver_stopped tmux_killed p w

-- Manager.Stop
unfoldable pub stop : Env → Window → Outcome → Bool → String → World → Outcome × World
stop env window driver_stopped tmux_killed name w = elim (lookup name w.agents) [
  | none ↦ (some not_exist, w)
  | some p ↦ stop_at env window driver_stopped tmux_killed p w
]

-- A managed agent is down: its lock is free, no process is recorded, no wake waits, and its file says
-- what the memory says.
pub record IsDown (p : ℕ) (v : World) : Type 0 where
  pub locked : (v.objects p).locked ≡ false
  pub process : (v.objects p).def.pi ≡ none
  pub wakes : (v.objects p).pending_wakes ≡ []
  pub saved : v.disk (v.objects p).def.agent_id ≡ some (v.objects p).def

-- An attached session is marked as stopped and keeps its lock.
pub record IsMarked (p : ℕ) (w v : World) : Type 0 where
  pub locks : v.locks ≡ w.locks
  pub locked : (v.objects p).locked ≡ (w.objects p).locked
  pub state : (v.objects p).def.state ≡ RunState.stopped
  pub saved : v.disk (v.objects p).def.agent_id ≡ some (v.objects p).def

-- By the kind of the agent that is stopped.
abbrev pub IsStopped : ℕ → World → World → Type 0
IsStopped p w v =
    (((w.objects p).def.kind ≢ attached) × IsDown p v)
    ⊎ (((w.objects p).def.kind ≡ attached) × IsMarked p w v)
