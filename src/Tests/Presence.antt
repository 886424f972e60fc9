-- ===== src/Tests/Presence.antt =====
-- Runs of the presence engine (internal/agentstate).
use ac_cli.Prelude.{
  ◌+◌, ◌*◌, ◌≤◌, ◌≡◌, refl, ◌⊎◌, ◌↔◌, Bool, true, false, none, some, List, [], ◌∷◌, if◌then◌else◌,
  arith, itoa,
}
use ac_cli.Presence.{
  step, new, apply_kind, settle, nudge_waiting, nudge_quiet, clear_gate, stamp, keep_label, derive,
  apply_stop, running_view,
}
use ac_cli.Presence.Clock.{Time, minute, quiet_after, nudge_after}
use ac_cli.Presence.Types.{
  running, no_logical, EventKind, session_alive, run_start, tick, task_in_flight, Event, no_nudge,
  nudge_no_activity, nudge_in_flight,
}
use ac_cli.Presence.Report.{check_values}
use ac_cli.Presence.Since.{Differs, step-since}
use ac_cli.Presence.Trace.{run, nudges, since_monotone}
use ac_cli.Presence.Shape.{run-check_values}
use ac_cli.Presence.Nudges.{quiet_nudge_late, quiet_nudge_once, count_quiet}
use ac_cli.Presence.Machine.{
  MachineAgent, busy, machine_idle, machine_idle_marker, agents_stopped, agents_stopped_iff,
  AllStopped,
}

abbrev event : EventKind → Time → Event
event kind at = record {
  kind = kind;
  at = at;
  logical = no_logical;
  reason = "";
  task_number = "7";
}

abbrev started : List Event
started = event session_alive minute ∷ event run_start (2 * minute) ∷ []

abbrev quiet : List Event
quiet = event session_alive minute ∷ event run_start (2 * minute) ∷ event tick (17 * minute) ∷ []

abbrev waits : List Event
waits =
    event session_alive minute
    ∷ event task_in_flight (2 * minute)
    ∷ event tick (10 * minute)
    ∷ event tick (17 * minute)
    ∷ event tick (40 * minute)
    ∷ []

quiet_label : (run (new "pi" 1) quiet).state.reason ≡ "no activity 15m"
unfolding run new step apply_kind settle nudge_waiting nudge_quiet clear_gate stamp keep_label
    derive apply_stop running_view itoa
quiet_label = refl

nudged_at_32 : (step (run (new "pi" 1) quiet) (event tick (32 * minute))).1 ≡ nudge_no_activity
unfolding run new step apply_kind settle nudge_waiting nudge_quiet clear_gate stamp keep_label
    derive apply_stop running_view itoa
nudged_at_32 = refl

waits-nudges :
    nudges (new "pi" 1) waits ≡ no_nudge ∷ no_nudge ∷ no_nudge ∷ nudge_in_flight ∷ no_nudge ∷ []
unfolding nudges new step apply_kind settle nudge_waiting nudge_quiet clear_gate stamp keep_label
    derive apply_stop running_view itoa
waits-nudges = refl

quiet_nudge_late_example :
    let s = (step (run (new "pi" 1) quiet) (event tick (32 * minute))).0 in
    (s.state.since + nudge_after ≤ 32 * minute)
    × (s.last_activity + (quiet_after + nudge_after) ≤ 32 * minute)
quiet_nudge_late_example = quiet_nudge_late 1 quiet (event tick (32 * minute)) nudged_at_32

abbrev ticks : List Event
ticks = event tick (32 * minute) ∷ event tick (33 * minute) ∷ event tick (60 * minute) ∷ []

quiet_nudge_once_example : count_quiet (nudges (run (new "pi" 1) quiet) ticks) ≤ 1
quiet_nudge_once_example =
    quiet_nudge_once (run (new "pi" 1) quiet) ticks (refl, (refl, (refl, tt)))

since_monotone_example : (new "pi" 1).state.since ≤ (run (new "pi" 1) waits).state.since
since_monotone_example = since_monotone (new "pi" 1) waits

run-check_values_example : check_values (run (new "other" 5) started).state ≡ none
run-check_values_example = run-check_values "other" 5 started

step-since_example :
    let s = run (new "pi" 1) started in
    let t = (step s (event tick (17 * minute))).0 in
    (t.state ≡ s.state)
    ⊎ (Differs s.state t.state × (t.state.since ≡ 17 * minute) × (s.state.since ≤ 17 * minute))
step-since_example = step-since (run (new "pi" 1) started) (event tick (17 * minute))

abbrev idle_agents : List MachineAgent
idle_agents =
    record {
      attached = true;
      physical = running;
      in_run = false;
      streaming = false;
      takeover = false;
      desired_running = true;
      machine_stopped = false;
    }
    ∷ []

machine_idle_marker_example :
    let (idle, marker) = machine_idle 100 40 60 idle_agents false in
    (40 ≤ marker) × (marker ≤ 100) × (idle ≡ (if busy idle_agents false then none else some marker))
machine_idle_marker_example = machine_idle_marker 100 40 60 idle_agents false (omega arith)

agents_stopped_iff_example :
    (agents_stopped true idle_agents ≡ true) ↔ (◌≡◌ {A = Bool} true true × AllStopped idle_agents)
agents_stopped_iff_example = agents_stopped_iff true idle_agents
