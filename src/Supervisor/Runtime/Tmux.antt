-- ===== src/Supervisor/Runtime/Tmux.antt =====
-- internal/supervisor/supervisor.go: `launch` and `watch` of an agent under tmux.
--
-- The command line that `launch` gives to tmux changes nothing of the manager, and is left out.
use ac_cli.Prelude.{ℕ, ◌+◌, not, ◌||◌, Option, none, some, ◌==◌, if◌then◌else◌, is_none, length}
use ac_cli.Presence.Clock.{Time}
use ac_cli.Supervisor.Types.{RunState, run_state_eq, Exit, Definition, Managed}
use ac_cli.Supervisor.World.{Env, World, put, save}
use ac_cli.Supervisor.Crash.{backoff, note_exit}
use ac_cli.Supervisor.Runtime.Outside.{
  not_inspected, not_killed, not_started, Outcome, Pane, Outside, saved_as,
}

abbrev pub now_running : Env → Outside → Managed → Managed
now_running env o a = record a {
  def = record a.def {
    session_migrated = a.def.session_migrated || (not a.legacy_session || o.session_exists);
    state = RunState.running;
    session_started_at = some env.now;
  };
  next_start = 0;
  next_poll = env.now;
}

-- Manager.launch, in mode tmux.
unfoldable pub launch_tmux : Outside → ℕ → World → Outcome × World
launch_tmux o p w =
    if not o.killed
    then (some not_killed, w)
    else if not o.tmux_started
    then (some not_started, w)
    else saved_as (save o.env p (put p (record (now_running o.env o (w.objects p)) { pid = 0 }) w))

-- A pane that lives.
abbrev pub seen_running : Time → Pane → Managed → Managed
seen_running now pane a = record a {
  pid = pane.pid;
  def = record a.def {
    state = RunState.running;
    session_started_at =
        if is_none a.def.session_started_at then some now else a.def.session_started_at;
  };
  next_poll = now;
}

-- The exit that a restart of the daemon finds counted already: its time, if it is known.
abbrev pub exit_time : Option Exit → Option Time
exit_time none = none
exit_time (some e) = e.at

abbrev pub counted_at : Definition → Option Time
counted_at def = if def.state == RunState.starting then exit_time def.last_exit else none

-- A pane whose program has exited.
unfoldable pub watch_dead : Env → Pane → ℕ → World → Outcome × World
watch_dead env pane p w =
    let a = w.objects p in
    elim (counted_at a.def) [
      | some at ↦ (none, put p (record a { next_start = at + backoff (length a.def.crashes) }) w)
      | none ↦ saved_as (save env p (put p (note_exit env.now pane.exit_code pane.signal a) w))
    ]

-- Manager.watch, in mode tmux.
unfoldable pub watch_pane : Outside → Pane → ℕ → World → Outcome × World
watch_pane o pane p w =
    if not pane.exists
    then launch_tmux o p w
    else if pane.dead
    then watch_dead o.env pane p w
    else saved_as (save o.env p (put p (seen_running o.env.now pane (w.objects p)) w))

unfoldable pub watch_tmux : Outside → ℕ → World → Outcome × World
watch_tmux o p w = elim o.pane [
  | none ↦ (some not_inspected, w)
  | some pane ↦ watch_pane o pane p w
]
