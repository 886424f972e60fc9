-- ===== src/Supervisor/Runtime/Ticks.antt =====
-- internal/supervisor: `Tick` and `tickAgent` (supervisor.go), `tickAttached` (attached.go).
--
-- The end of the daemon's own context, at which a failing tick returns, is left out.
pub mod Life
pub mod Watching
pub mod Moving
use ac_cli.Prelude.{
  ℕ, ◌+◌, suc, String, Bool, true, false, not, ◌&&◌, ◌||◌, Option, none, some, List, [], ◌∷◌, map,
  ltb, ◌==◌, ◌!=◌, string_eq, nat_eq, if◌then◌else◌,
}
use ac_cli.Presence.Clock.{is_zero}
use ac_cli.Supervisor.Types.{
  attached, kind_eq, headless, mode_eq, Desired, desired_eq, RunState, stopped_by_dashboard,
  run_state_eq, Definition, Managed,
}
use ac_cli.Supervisor.World.{World, put, set_def, save, acquire}
use ac_cli.Supervisor.Sessions.{Result, ok, err}
use ac_cli.Supervisor.Attached.{seconds, still_here, tick_process}
use ac_cli.Supervisor.Crash.{backoff}
use ac_cli.Supervisor.Takeover.{cleanup_dead_takeover}
use ac_cli.Supervisor.Runtime.Outside.{
  not_saved, not_locked, not_inspected, not_placed, takeover_unclear, Outcome, Pane, Outside,
}
use ac_cli.Supervisor.Runtime.Polling.{poll}
use ac_cli.Supervisor.Runtime.Tmux.{launch_tmux, watch_tmux}
use ac_cli.Supervisor.Runtime.Headless.{is_due, note_session, tick_headless}
use ac_cli.Supervisor.Runtime.Progress.{Pass, still_named, progress_presence}

abbrev poll_if_due : Outside → ℕ → World → Outcome × World
poll_if_due o p w = if is_due o (w.objects p) then poll o p w else (none, w)

-- An agent under tmux, once its pane was seen. `watch` looks at the pane again.
unfoldable pub tick_pane : Outside → Pane → ℕ → World → Outcome × World
tick_pane o pane p w =
    let a = w.objects p in
    let again = record o { pane = o.pane_again } in
    let (e, w') = note_session o p (put p (record a { pid = pane.pid }) w) in
    if pane.exists && (pane.dead && is_zero a.next_start)
    then watch_tmux again p w
    else if not (is_zero a.next_start)
    then (if ltb o.env.now a.next_start then (none, w) else launch_tmux o p w)
    else if not pane.exists
    then watch_tmux again p w
    else elim e [ some f ↦ (some f, w') | none ↦ poll_if_due o p w' ]

unfoldable pub tick_tmux : Outside → ℕ → World → Outcome × World
tick_tmux o p w = elim o.pane [ none ↦ (some not_inspected, w) | some pane ↦ tick_pane o pane p w ]

-- A headless agent that a person took over.
unfoldable pub tick_fenced : Outside → ℕ → World → Outcome × World
tick_fenced o p w =
    let (e, w') = cleanup_dead_takeover o.env o.inspecting o.refenced p w in
    if (w.objects p).takeover_connected then poll_if_due o p w else elim e [
      | some f ↦ (some takeover_unclear, w')
      | none ↦ if (w'.objects p).taken_over then poll_if_due o p w' else (none, w')
    ]

-- With the lock held.
unfoldable pub tick_locked : Outside → ℕ → World → Outcome × World
tick_locked o p w =
    let a = w.objects p in
    if a.def.mode == headless
    then (if a.taken_over then tick_fenced o p w else tick_headless o p w)
    else tick_tmux o p w

-- Manager.tickAgent
unfoldable pub tick_agent : Outside → ℕ → World → Outcome × World
tick_agent o p w =
    let (locked, w') = acquire o.env p w in
    if locked then tick_locked o p w' else (some not_locked, w')

-- The placement of an attached session that has no workstream: whether the tick ends there, and how.
abbrev in_place : Definition → String → String → Definition
in_place def org ws = record def { organization = org; workstream = ws }

abbrev same_process : Definition → Definition → Bool
same_process d e = d.session_pid == e.session_pid && d.session_start == e.session_start

unfoldable pub place_in :
    Outside → Definition → String × String → ℕ → World → Option Outcome × World
place_in o previous (org, ws) p w =
    let a = w.objects p in
    let placed =
      put p (record a { def = in_place a.def org ws; next_poll = o.placing.env.now }) w in
    let (saved, w') = save o.placing.env p placed in
    if org == "" || ws == ""
    then (none, w)
    else if saved
    then (none, w')
    else (some (some not_saved), set_def p previous w')

unfoldable pub place : Outside → ℕ → World → Option Outcome × World
place o p w =
    let a = w.objects p in
    let w' = o.placing.others (put p (record a { next_placement = o.after.now + seconds 5 }) w) in
    let b = w'.objects p in
    if not (still_named b.def.name p w')
      || (not (same_process b.def a.def) || b.def.workstream != "")
    then (some none, w')
    else elim o.placed [
      | none ↦ (some (some not_placed), w')
      | some named ↦ place_in o a.def named p w'
    ]

unfoldable pub tick_placed : Outside → ℕ → World → Outcome × World
tick_placed o p w =
    let a = w.objects p in
    let (end, w') =
      if a.def.workstream == "" && (o.places && not (ltb o.after.now a.next_placement))
      then place o p w
      else (none, w) in
    elim end [
      | some r ↦ (r, w')
      | none ↦ if (w'.objects p).def.workstream != "" then poll_if_due o p w' else (none, w')
    ]

-- Manager.tickAttached
unfoldable pub tick_attached : Outside → ℕ → World → Outcome × World
tick_attached o p w =
    let (r, w') = tick_process o.env o.inspecting p w in
    let looked = not (ltb o.env.now (w.objects p).next_start) in
    elim r [
      | err e ↦ (some not_saved, w')
      | ok done ↦ if looked && not (still_here p w') then (none, w') else tick_placed o p w'
    ]

-- The body of the loop of `Tick`, for an agent of the daemon.
abbrev pub is_skipped : Outside → Managed → Bool
is_skipped o a =
    a.def.desired != Desired.running
    || (a.def.state == RunState.crashed
        || (a.def.state == stopped_by_dashboard || ltb o.env.now a.next_retry))

abbrev pub note_failure : Outside → Managed → Managed
note_failure o a =
    let failures = suc a.inspect_failures in
    record a { inspect_failures = failures; next_retry = o.after.now + backoff failures }

unfoldable pub tick_own : Outside → Pass → ℕ → World → World
tick_own o pass p w =
    let (e, w') = tick_agent o p w in
    if is_skipped o (w.objects p) then progress_presence pass p w else elim e [
      | some f ↦ put p (note_failure o (w'.objects p)) w'
      | none ↦
          progress_presence pass p
            (put p (record (w'.objects p) { inspect_failures = 0; next_retry = 0 }) w')
    ]

-- While the machine stops, takeovers are watched and nothing is started.
unfoldable pub tick_held : Outside → Pass → ℕ → World → Outcome × World
tick_held o pass p w =
    let a = w.objects p in
    let (e, w') = cleanup_dead_takeover o.env o.inspecting o.refenced p w in
    if a.taken_over && not a.takeover_connected
    then elim e [
      | some f ↦ (some takeover_unclear, w')
      | none ↦ (none, progress_presence pass p w')
    ]
    else (none, progress_presence pass p w)

unfoldable pub tick_one : (held : Bool) → Outside → Pass → ℕ → World → Outcome × World
tick_one held o pass p w =
    if (w.objects p).def.kind == attached
    then (none, progress_presence pass p (tick_attached o p w).1)
    else if held
    then tick_held o pass p w
    else (none, tick_own o pass p w)

unfoldable pub tick_all :
    (held : Bool) → (ℕ → Outside) → (ℕ → Pass) → List ℕ → World → Outcome × World
tick_all held outside pass [] w = (none, w)
tick_all held outside pass (p ∷ ps) w =
    let (e, w') = tick_one held (outside p) (pass p) p w in
    let rest = tick_all held outside pass ps w' in elim e [ some f ↦ (some f, w') | none ↦ rest ]

-- Manager.Tick: the agents and the hold are read at its start.
unfoldable pub tick : (ℕ → Outside) → (ℕ → Pass) → World → Outcome × World
tick outside pass w =
    tick_all w.stopping_hold outside pass (map (λ (entry : String × ℕ). entry.1) w.agents) w
