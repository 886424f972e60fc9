-- ===== src/Presence.antt =====
-- internal/agentstate/state.go: the state an agent shows, derived from local session events.
--
-- Texts that the code compares with fixed values (`Physical`, `Logical`, `Event.Kind`, `Nudge`) are
-- data types with one constructor for each value that the code names and, where any other text may
-- arrive, one for the rest. A `time.Time` is a number of nanoseconds, and `IsZero` is "equal to 0".
-- The function `step` is `Step`, in the pieces of its body: the tests at the top, the switch on the
-- kind, the effect of a stop, the derived state, its label and time, and the nudges.
pub mod Clock
pub mod Types
pub mod Since
pub mod Trace
pub mod Report
pub mod Shape
pub mod Quiet
pub mod Nudges
pub mod Machine
use Prim.Native.String.{◌++◌}
use ac_cli.Prelude.{
  ℕ, ◌+◌, ◌/◌, String, Bool, true, false, not, ◌&&◌, ◌||◌, Option, none, some, leb, ltb, ◌==◌, ◌!=◌,
  if◌then◌else◌, string_eq, nat_eq, itoa,
}
use Clock.{Time, is_zero, sub_time, minute, quiet_after, nudge_after, report_every}
use Types.{
  Physical, running, stopped, Logical, no_logical, working, idle, waiting, no_activity, unknown,
  other_logical, physical_eq, logical_eq, State, EventKind, session_alive, session_exited,
  no_listener, crashed, machine_stopping, dashboard_stop, run_start, turn, tool_start, tool_end,
  rpc, run_end, approval_pending, approval_clear, task_blocked, task_in_flight, task_clear,
  explicit_state, tick, other_kind, Event, Snapshot, Nudge, no_nudge, nudge_no_activity,
  nudge_in_flight, state_eq,
}

-- New
unfoldable pub new : String → Time → Snapshot
new program now = record {
  state = record {
    physical = stopped;
    logical = no_logical;
    reason = if program != "pi" then "no listener" else "pi closed";
    since = now;
  };
  program = program;
  in_run = false;
  last_activity = 0;
  approval = "";
  blocked = "";
  in_flight = "";
  explicit = no_logical;
  explicit_reason = "";
  nudged_no_activity = false;
  nudged_in_flight = false;
}

unfoldable pub valid_logical : Logical → Bool
valid_logical no_logical = false
valid_logical (other_logical t) = false
valid_logical _ = true

-- `turn`, `tool_start`, `tool_end` and `rpc`
abbrev activity : Time → Snapshot → Snapshot
activity now s =
    if s.in_run then record s { last_activity = now; nudged_no_activity = false } else s

-- The switch on `event.Kind`: the changed snapshot with the text `stop`, or `none` where the source
-- returns the previous snapshot.
unfoldable pub apply_kind : EventKind → Event → Time → Snapshot → Option (Snapshot × String)
unfolding valid_logical
apply_kind session_alive e now s =
    some (record s { state = record s.state { physical = running; reason = "" } }, "")
apply_kind session_exited e now s = some (s, "pi closed")
apply_kind no_listener e now s = some (s, "no listener")
apply_kind crashed e now s = some (s, "crashed")
apply_kind machine_stopping e now s = some (s, "machine stopping")
apply_kind dashboard_stop e now s = some (s, "stopped from the dashboard")
apply_kind run_start e now s =
    some (record s { in_run = true; last_activity = now; nudged_no_activity = false }, "")
apply_kind turn e now s = some (activity now s, "")
apply_kind tool_start e now s = some (activity now s, "")
apply_kind tool_end e now s = some (activity now s, "")
apply_kind rpc e now s = some (activity now s, "")
apply_kind run_end e now s = some (record s { in_run = false; nudged_no_activity = false }, "")
apply_kind approval_pending e now s = some (record s { approval = e.task_number }, "")
apply_kind approval_clear e now s = some (record s { approval = "" }, "")
apply_kind task_blocked e now s =
    some (record s { blocked = e.task_number; in_flight = ""; nudged_in_flight = false }, "")
apply_kind task_in_flight e now s = some (
  record s {
    blocked = "";
    in_flight = e.task_number;
    nudged_in_flight = if s.in_flight != e.task_number then false else s.nudged_in_flight;
  },
  "",
)
apply_kind task_clear e now s =
    some (record s { blocked = ""; in_flight = ""; nudged_in_flight = false }, "")
apply_kind explicit_state e now s =
    if not (valid_logical e.logical)
    then none
    else some (record s { explicit = e.logical; explicit_reason = e.reason }, "")
apply_kind tick e now s = some (s, "")
apply_kind (other_kind t) e now s = none

-- `if stop != ""`
unfoldable pub apply_stop : Event → String → Snapshot → Snapshot
apply_stop e stop s =
    if stop != ""
    then record s {
      state = record s.state {
        physical = stopped;
        logical = no_logical;
        reason = if e.reason != "" then e.reason else stop;
      };
      in_run = false;
    }
    else s

-- The state of a running agent: the inner switch, with the logical value and the reason it sets.
unfoldable pub running_view : Snapshot → Time → Logical × String
running_view s now =
    if s.program != "pi" && s.explicit != no_logical
    then (s.explicit, s.explicit_reason)
    else if s.program != "pi"
    then (unknown, "")
    else if s.in_run
        && (not (is_zero s.last_activity) && leb quiet_after (sub_time now s.last_activity))
    then (no_activity, "no activity " ++ (itoa (sub_time now s.last_activity / minute) ++ "m"))
    else if s.in_run
    then (working, "")
    else if s.approval != ""
    then (waiting, "approval for #" ++ s.approval)
    else if s.blocked != ""
    then (waiting, "#" ++ (s.blocked ++ " blocked"))
    else if s.in_flight != ""
    then (waiting, "#" ++ (s.in_flight ++ " in flight"))
    else (idle, "")

unfoldable pub derive : Snapshot → Time → State
derive s now =
    if s.state.physical == running
    then record s.state { logical = (running_view s now).0; reason = (running_view s now).1 }
    else s.state

-- The reason of a no-activity episode stays as it was at its start.
unfoldable pub keep_label : State → State → State
keep_label previous st =
    if st.logical == no_activity && previous.logical == no_activity
    then record st { reason = previous.reason }
    else st

-- `Since` moves only with the physical value, the logical value or the reason.
unfoldable pub stamp : State → Time → State → State
stamp previous now st =
    if st.physical != previous.physical
      || (st.logical != previous.logical || st.reason != previous.reason)
    then record st { since = now }
    else record st { since = previous.since }

-- Waiting on a task in flight, and on nothing else.
abbrev pub waits_in_flight : Snapshot → Bool
waits_in_flight s =
    s.state.logical == waiting && (s.approval == "" && (s.blocked == "" && s.in_flight != ""))

unfoldable pub clear_gate : Snapshot → Snapshot
clear_gate s =
    if s.state.logical != waiting || (s.approval != "" || (s.blocked != "" || s.in_flight == ""))
    then record s { nudged_in_flight = false }
    else s

unfoldable pub nudge_quiet : Time → Snapshot → Snapshot × Nudge
nudge_quiet now s =
    if s.state.physical == running
      && (s.state.logical == no_activity
          && (not s.nudged_no_activity && leb nudge_after (sub_time now s.state.since)))
    then (record s { nudged_no_activity = true }, nudge_no_activity)
    else (s, no_nudge)

unfoldable pub nudge_waiting : Time → Snapshot × Nudge → Snapshot × Nudge
nudge_waiting now (s, nudge) =
    if s.state.physical == running
      && (waits_in_flight s
          && (not s.nudged_in_flight && leb nudge_after (sub_time now s.state.since)))
    then (record s { nudged_in_flight = true }, nudge_in_flight)
    else (s, nudge)

-- The rest of `Step` after the switch and the stop.
unfoldable pub settle : State → Time → Snapshot → Snapshot × Nudge
settle previous now s =
    let st = stamp previous now (keep_label previous (derive s now)) in
    nudge_waiting now (nudge_quiet now (clear_gate (record s { state = st })))

-- Step
unfoldable pub step : Snapshot → Event → Snapshot × Nudge
step previous e =
    if is_zero e.at
    then (previous, no_nudge)
    else if not (is_zero previous.state.since) && ltb e.at previous.state.since
    then (previous, no_nudge)
    else elim (apply_kind e.kind e e.at previous) [
      | none ↦ (previous, no_nudge)
      | some (s, stop) ↦ settle previous.state e.at (apply_stop e stop s)
    ]

-- Due
unfoldable pub due : State → State → Time → Time → Bool
due previous current last_reported now =
    previous != current || (is_zero last_reported || not (ltb now (last_reported + report_every)))
