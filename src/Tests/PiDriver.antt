-- ===== src/Tests/PiDriver.antt =====
-- Runs of the pi driver: an interrupt that is sent while a prompt waits in pi's queue.
use Prim.Native.Nat.{ℕ}
use ac_cli.Prelude.{
  ℕ, ◌+◌, String, ◌≡◌, refl, Bool, true, none, some, List, [], ◌∷◌, ◌++◌, arith, codes, lookup,
  insert, delete, false,
}
use ac_cli.Supervisor.Delivery.{regular, urgent, interrupt, Urgency, Outgoing}
use ac_cli.PiDriver.Types.{
  Line, Driver, get_state, prompt, clear_queue, abort, find_id, remove_id, with_prefix, is_prefix,
}
use ac_cli.PiDriver.Commands.{
  command, send, read_line, emit, dispatch, dispatch_prompt, dispatch_interrupt,
}
use ac_cli.PiDriver.Handle.{
  Os, handle, handle_line, answer, answer_history, answer_rest, answer_prompt, answer_state,
  observe, compaction, dialog, stamp_event, follow,
}
use ac_cli.PiDriver.Run.{
  new_driver, Boot, start_driver, next_line, next_send, send_outgoing, remaining,
}
use ac_cli.PiDriver.Interrupts.{cleared, aborted, advance_phase, advance_interrupt}
use ac_cli.PiDriver.Tools.{IsShown, Nested, Restored, follow-Restored}
use ac_cli.PiDriver.Drain.{Drained, send_outgoing-Drained}
use ac_cli.PiDriver.Version.{validate_version, serves, too_old, number, AtLeast, IsBefore}
use ac_cli.PiDriver.Version.Written.{Written, version_text, validate_version_lem}
use ac_cli.PiDriver.Ledger.Ids.{tally}
use ac_cli.PiDriver.Actions.{
  Action, boot, give, arrive, send_next, handle_next, perform, perform_all,
}
use ac_cli.PiDriver.Ledger.Runs.{over, accepted, settled, restored, doubled, perform_all-remaining}

abbrev booted : Boot
booted = record { version_ok = true; process = some (7, "100") }

abbrev noon : Os
noon = record { now = 12; cmdline = "pi" ∷ [] }

abbrev message : Urgency → String → Outgoing
message kind text = record { text = text; kind = kind; source = "" }

abbrev good : ℕ → String → List String → Line
good id command queued = record {
  kind = "response";
  id = some id;
  success = some true;
  error = "";
  command = command;
  entries = [];
  queued = queued;
  streaming = none;
  method = "";
  dialog = "";
  tool_call = "";
  tool_name = "";
  parent_call = "";
}

-- A prompt is answered, and then an interrupt takes it back from pi's queue and waits for its own answer.
abbrev session : List Action
session =
    boot booted
    ∷ arrive (some (good 1 "get_state" []))
    ∷ handle_next noon
    ∷ give (message regular "build")
    ∷ give (message interrupt "stop")
    ∷ send_next
    ∷ arrive (some (good 2 "prompt" []))
    ∷ handle_next noon
    ∷ send_next
    ∷ arrive (some (good 3 "clear_queue" ("[AirCommand] build" ∷ [])))
    ∷ handle_next noon
    ∷ arrive (some (good 4 "abort" []))
    ∷ handle_next noon
    ∷ []

-- What pi is sent in that session.
session_writes :
    (perform_all session new_driver).writes
    ≡ get_state 1
      ∷ prompt 2 "[AirCommand] build" false
      ∷ clear_queue 3
      ∷ abort 4
      ∷ prompt 5 "[AirCommand] stop" true
      ∷ []
unfolding perform_all perform start_driver command send read_line next_line handle handle_line
    answer answer_history answer_rest answer_prompt answer_state observe compaction dialog
    stamp_event follow emit advance_interrupt advance_phase cleared aborted next_send dispatch
    dispatch_prompt dispatch_interrupt find_id remove_id with_prefix is_prefix lookup insert delete
session_writes = refl

abbrev every : Outgoing → Bool
every msg = true

perform_all-remaining_example :
    let d = perform_all session new_driver in
    tally every (remaining d) + tally every (over settled session new_driver)
    ≡ (tally every (over accepted session new_driver)
        + tally every (over restored session new_driver))
      + tally every (doubled d.interrupt_phase d.interrupt_msg)
perform_all-remaining_example = perform_all-remaining every session

abbrev two_waiting : Driver
two_waiting = record new_driver {
  state = record new_driver.state { ready = true };
  outgoing = message urgent "look" ∷ message interrupt "stop" ∷ message regular "go on" ∷ [];
}

send_outgoing-Drained_example : Drained two_waiting (send_outgoing 3 two_waiting)
send_outgoing-Drained_example = send_outgoing-Drained 3 two_waiting (omega arith) refl

version_text-Written :
    Written (codes "pi v") (codes "0") (codes "87") (codes "1") (codes " (linux)")
version_text-Written = record {
  before_it = (refl, (refl, (refl, (refl, tt))));
  major_digits = (refl, tt);
  minor_digits = (refl, (refl, tt));
  patch_digits = (refl, tt);
  has_major = refl;
  has_minor = refl;
  has_patch = refl;
  after_it = refl;
}

validate_version_lem_example :
    let a = number (codes "0") in
    let b = number (codes "87") in
    let c = number (codes "1") in
    let verdict =
      validate_version
        (codes "pi v" ++ version_text (codes "0") (codes "87") (codes "1") (codes " (linux)")) in
    (AtLeast a b c → verdict ≡ serves) × (IsBefore a b c → verdict ≡ too_old)
validate_version_lem_example =
    validate_version_lem (codes "pi v") (codes "0") (codes "87") (codes "1") (codes " (linux)")
      version_text-Written

abbrev calling : Driver
calling = record new_driver {
  tools = ("a", record { name = "task"; parent = "" }) ∷ [];
  current_tool_id = "a";
  state = record new_driver.state { current_tool = "task" };
}

abbrev tool_line : String → Line
tool_line kind = record (good 0 "" []) {
  kind = kind;
  id = none;
  tool_call = "b";
  tool_name = "bash";
  parent_call = "a";
}

abbrev first_line : Line
first_line = tool_line "tool_execution_start"

abbrev second_line : Line
second_line = tool_line "tool_execution_end"

calling-IsShown : IsShown calling
unfolding lookup
calling-IsShown = record { shown_name = refl; shown_parent = refl }

calling-Nested : Nested first_line second_line calling
unfolding lookup
calling-Nested = record {
  starts = refl;
  ends = refl;
  same_call = refl;
  new_call = refl;
  within = refl;
}

follow-Restored_example : Restored calling (follow second_line (follow first_line calling))
follow-Restored_example =
    follow-Restored first_line second_line calling calling-IsShown calling-Nested
