-- ===== src/Supervisor/Runtime/Progress.antt =====
-- internal/supervisor/presence.go: `progressPresence`, the presence of an agent at each tick.
use ac_cli.Prelude.{
  ℕ, ◌+◌, String, Bool, true, false, not, ◌&&◌, ◌||◌, Option, none, some, List, [], ◌∷◌, ltb, ◌==◌,
  ◌!=◌, string_eq, nat_eq, if◌then◌else◌, lookup, is_none,
}
use ac_cli.Presence
use ac_cli.Presence.Clock.{Time, is_zero}
use ac_cli.Presence.Types.{
  Physical, physical_eq, EventKind, session_alive, session_exited, dashboard_stop, machine_stopping,
  crashed, tick, approval_clear, approval_pending, task_clear, task_blocked, task_in_flight,
  no_logical, State, Nudge, nudge_in_flight,
}
use ac_cli.Supervisor.Types.{
  attached, kind_eq, Desired, desired_eq, RunState, stopped_by_dashboard, run_state_eq, Definition,
  Managed,
}
use ac_cli.Supervisor.World.{Env, World, put, start_presence, step_presence, emit_agent_event}
use ac_cli.Supervisor.Sessions.{Window}
use ac_cli.Supervisor.Attached.{seconds, send_attached_signal}

-- What `PresenceTasks` answers.
pub record TaskSignals : Type 0 where
  pub approval : String
  pub blocked : String
  pub in_flight : String

-- What the pass meets: whether the poller can tell the tasks (`asks`), its answer, the answer of the
-- server to the report, and the windows of the three calls.
pub record Pass : Type 0 where
  pub env : Env
  pub asks : Bool
  pub asking : Window
  pub tasks : Option TaskSignals
  pub nudging : Window
  pub reporting : Window
  pub reported : Bool

abbrev event_at : Time → EventKind → String → String → ℕ → World → World
event_at now kind reason task p w =
    emit_agent_event p
      (record {
        agent_id = (w.objects p).def.agent_id;
        event = record {
          kind = kind;
          at = now;
          logical = no_logical;
          reason = reason;
          task_number = task;
        };
      })
      w

abbrev pub is_held : Managed → World → Bool
is_held a w = w.stopping_hold && a.machine_stopped

abbrev pub is_alive : Managed → World → Bool
is_alive a w =
    a.def.state == RunState.running && (a.def.desired == Desired.running && not (is_held a w))

-- Why an agent is not alive.
abbrev exit_kind : Managed → World → EventKind
exit_kind a w =
    if is_held a w
    then machine_stopping
    else if a.def.state == stopped_by_dashboard
    then dashboard_stop
    else if a.def.state == RunState.crashed
    then crashed
    else session_exited

abbrev exit_reason : Managed → World → String
exit_reason a w = if is_held a w then "machine stopping" else a.def.reason

-- The start of the engine, and the change between alive and not.
unfoldable pub follow_life : Time → ℕ → World → World
follow_life now p w =
    let a = w.objects p in
    let b = record a { presence = start_presence a.def.program now a.presence } in
    let w' = put p b w in
    let shown = b.presence.state.physical == Physical.running in
    if is_alive a w && not shown
    then event_at now session_alive "" "" p w'
    else if not (is_alive a w) && shown
    then event_at now (exit_kind a w) (exit_reason a w) "" p w'
    else w'

-- Manager.stepTaskSignal
unfoldable pub step_task_signal : Time → EventKind → String → ℕ → World → World
step_task_signal now kind task p w =
    if is_zero (w.objects p).presence.state.since then w else event_at now kind "" task p w

unfoldable pub signal_tasks : Time → TaskSignals → ℕ → World → World
signal_tasks now t p w =
    let before = (w.objects p).presence in
    let w' =
      if before.approval != t.approval
      then step_task_signal now (if t.approval != "" then approval_pending else approval_clear)
          t.approval p w
      else w in
    if before.blocked != t.blocked || before.in_flight != t.in_flight
    then (if t.blocked != ""
        then step_task_signal now task_blocked t.blocked p w'
        else if t.in_flight != ""
        then step_task_signal now task_in_flight t.in_flight p w'
        else step_task_signal now task_clear "" p w')
    else w'

-- Manager.refreshPresenceTasks
abbrev pub still_named : String → ℕ → World → Bool
still_named name p w = elim (lookup name w.agents) [ none ↦ false | some q ↦ q == p ]

unfoldable pub refresh_tasks : Pass → ℕ → World → World
refresh_tasks o p w =
    let a = w.objects p in
    let w' = o.asking.others (put p (record a { next_task_check = o.env.now + seconds 30 }) w) in
    if not o.asks
    then w
    else if not (still_named a.def.name p w') || (w'.objects p).def.workstream != a.def.workstream
    then w'
    else elim o.tasks [ none ↦ w' | some t ↦ signal_tasks o.asking.env.now t p w' ]

-- Manager.sendPresenceNudge
abbrev nudge_text : Nudge → String
nudge_text nudge_in_flight =
    "You have been waiting on an in-flight task for 15 minutes. Continue it or report what is blocking you."
nudge_text _ =
    "You have not made progress in this run for 15 minutes. Continue or report what is blocking you."

unfoldable pub send_nudge : Pass → Nudge → ℕ → World → World
send_nudge o n p w =
    let a = w.objects p in
    if a.def.kind == attached
    then put p (send_attached_signal a (record { type = "nudge"; text = nudge_text n })) w
    else if is_none a.driver
    then w
    else o.nudging.others w

unfoldable pub send_nudges : Pass → List Nudge → ℕ → World → World
send_nudges o [] p w = w
send_nudges o (n ∷ ns) p w = send_nudges o ns p (send_nudge o n p w)

-- The steps before the report: `alive` is read once, at the start.
unfoldable pub step_pass : Pass → ℕ → World → World
step_pass o p w =
    let a = w.objects p in
    let alive = is_alive a w in
    let w1 = follow_life o.env.now p w in
    let b = w1.objects p in
    let w2 =
      if alive
        && (not b.presence.in_run
            && (b.def.workstream != "" && not (ltb o.env.now b.next_task_check)))
      then refresh_tasks o p w1
      else w1 in
    let w3 =
      step_presence p
        (record {
          kind = tick;
          at = o.env.now;
          logical = no_logical;
          reason = "";
          task_number = "";
        })
        w2 in
    let w4 = if alive then send_nudges o (w3.objects p).pending_presence_nudges p w3 else w3 in
    put p (record (w4.objects p) { pending_presence_nudges = [] }) w4

-- Whether a report is sent.
abbrev pub must_report : Time → Managed → Bool
must_report now a =
    not (a.def.state == stopped_by_dashboard && a.dashboard_stop_reported)
    && (a.def.workstream != ""
        && (not (ltb now a.next_presence_retry)
            && Presence.due a.presence_reported a.presence.state a.last_presence_report now))

abbrev pub clear_dashboard : Managed → Managed
clear_dashboard a =
    if a.def.state != stopped_by_dashboard then record a { dashboard_stop_reported = false } else a

-- After the report of the state `current` of the definition `def`.
abbrev pub note_report : Time → Bool → State → Definition → Managed → Managed
note_report now reported current def a =
    let b =
      if def.state == stopped_by_dashboard
      then record a { dashboard_stop_reported = true }
      else a in
    if reported
    then record b {
      presence_reported = current;
      last_presence_report = now;
      next_presence_retry = 0;
    }
    else record b { next_presence_retry = now + seconds 30 }

unfoldable pub send_report : Pass → ℕ → World → World
send_report o p w =
    let a = w.objects p in
    let w' = o.reporting.others w in
    put p (note_report o.reporting.env.now o.reported a.presence.state a.def (w'.objects p)) w'

-- The time that a report carries: not before the state's own.
unfoldable pub report_time : Time → State → Time
report_time now s = if ltb now s.since then s.since else now

-- Manager.progressPresence
unfoldable pub progress_presence : Pass → ℕ → World → World
progress_presence o p w =
    let w1 = step_pass o p w in
    let a = clear_dashboard (w1.objects p) in
    let w2 = put p a w1 in
    if not w.state_report then w else if must_report o.env.now a then send_report o p w2 else w2
