-- ===== src/PiDriver/Run.antt =====
-- internal/pidriver/rpc.go: `New`, `Start`, the loop of `run`, the exit of pi, `reportUndelivered`
-- and `Stop`.
--
-- A loop that empties a queue takes as fuel what the queue holds when it starts; what arrives later
-- wakes the loop again.
use ac_cli.Prelude.{
  ℕ, zero, suc, String, Bool, true, false, not, ◌&&◌, ◌||◌, Option, none, some, List, [], ◌∷◌, ◌++◌,
  map, length, leb, ◌≡◌, arith, ◌==◌, string_eq, if◌then◌else◌,
}
use ac_cli.Supervisor.Delivery.{regular, Outgoing}
use ac_cli.PiDriver.Types.{
  HistoryRequest, get_state, get_entries, RpcEvent, undelivered, no_phase, PiState, Driver,
  is_no_phase,
}
use ac_cli.PiDriver.Commands.{command, emit, dispatch}
use ac_cli.PiDriver.Handle.{Os, handle}

abbrev new_state : PiState
new_state = record {
  ready = false;
  streaming = false;
  settled = false;
  current_tool = "";
  parent_call = "";
  last_event = 0;
  pid = 0;
  start_time = "";
  cmdline = [];
}

-- `New`
abbrev pub new_driver : Driver
new_driver = record {
  launched = false;
  starting = false;
  state = new_state;
  closed = false;
  stopping = false;
  compacting = false;
  seq = 0;
  stdin = [];
  writes = [];
  lines = [];
  outgoing = [];
  pending = [];
  history_requests = [];
  pending_history = [];
  history_replies = [];
  tools = [];
  current_tool_id = "";
  interrupt_id = 0;
  interrupt_phase = no_phase;
  interrupt_msg = record { text = ""; kind = regular; source = "" };
  restore = [];
  events = [];
}

-- The start of `History`: whether the request waits now. It does not if no entry is asked for or pi has
-- exited.
unfoldable pub request_history : ℕ → HistoryRequest → Driver → Bool × Driver
request_history limit request d =
    if leb limit 0 || d.closed
    then (false, d)
    else (true, record d { history_requests = d.history_requests ++ request ∷ [] })

pub record LaunchSpec : Type 0 where
  pub session_id : String
  pub fork_from : String
  pub args : List String

unfoldable pub launch_args : LaunchSpec → List String
launch_args spec =
    "--mode"
    ∷ "rpc"
    ∷ "--session-id"
    ∷ spec.session_id
    ∷ (if spec.fork_from == "" then spec.args else "--fork" ∷ spec.fork_from ∷ spec.args)

-- How the start went: whether the version of pi serves, and the process that was started.
pub record Boot : Type 0 where
  pub version_ok : Bool
  pub process : Option (ℕ × String)

-- `Start`. The flag `starting` is set while the version is read, and cleared at the end.
unfoldable pub start_driver : Boot → Driver → Bool × Driver
unfolding command
start_driver boot d =
    if d.launched || (d.closed || d.starting)
    then (false, d)
    else if not boot.version_ok
    then (false, d)
    else elim boot.process [
      | none ↦ (false, d)
      | some (pid, start_time) ↦
          let d' = record d {
            launched = true;
            state = record d.state { pid = pid; start_time = start_time };
          } in
          (true, (command get_state d').1)
    ]

-- One round of each loop of `run`.
unfoldable pub next_line : Os → Driver → Driver
next_line os d = elim d.lines [ [] ↦ d | line ∷ rest ↦ handle os line (record d { lines = rest }) ]

abbrev pub may_ask : Driver → Bool
may_ask d = d.state.ready && not d.closed

abbrev ask : ℕ → String → Driver → Driver
ask reply_to since d =
    let (id, d') = command (λ n. get_entries n since) d in
    record d' { pending_history = d'.pending_history ++ (id, reply_to) ∷ [] }

unfoldable pub next_history : Driver → Driver
unfolding command
next_history d = elim d.history_requests [
  | [] ↦ d
  | request ∷ rest ↦
      if may_ask d
      then ask request.reply_to request.since (record d { history_requests = rest })
      else d
]

abbrev pub may_send : Driver → Bool
may_send d = d.state.ready && (not d.compacting && (is_no_phase d.interrupt_phase && not d.closed))

unfoldable pub next_send : Driver → Driver
next_send d = elim d.outgoing [
  | [] ↦ d
  | msg ∷ rest ↦ if may_send d then dispatch msg (record d { outgoing = rest }) else d
]

pub next_send_empty : (d : Driver) → d.outgoing ≡ [] → next_send d ≡ d
unfolding next_send
next_send_empty d e = ground arith

pub next_send_held : (d : Driver) → may_send d ≡ false → next_send d ≡ d
unfolding next_send
next_send_held d e = ground arith

pub next_send_first :
    (d : Driver) (msg : Outgoing) (rest : List Outgoing)
    → d.outgoing ≡ msg ∷ rest
    → may_send d ≡ true
    → next_send d ≡ dispatch msg (record d { outgoing = rest })
unfolding next_send
next_send_first d msg rest waiting free = ground arith

-- The loops. A round that does nothing is where the code leaves the loop.
unfoldable pub handle_lines : ℕ → Os → Driver → Driver
handle_lines zero os d = d
handle_lines (suc n) os d = handle_lines n os (next_line os d)

unfoldable pub ask_history : ℕ → Driver → Driver
ask_history zero d = d
ask_history (suc n) d = ask_history n (next_history d)

unfoldable pub send_outgoing : ℕ → Driver → Driver
send_outgoing zero d = d
send_outgoing (suc n) d = send_outgoing n (next_send d)

-- What `run` does when it is woken.
unfoldable pub wake_up : Os → Driver → Driver
wake_up os d =
    let handled = handle_lines (length d.lines) os d in
    let asked = ask_history (length handled.history_requests) handled in
    send_outgoing (length asked.outgoing) asked

-- `reportUndelivered`
unfoldable pub remaining : Driver → List Outgoing
remaining d =
    d.outgoing
    ++ (map (λ (entry : ℕ × Outgoing). entry.1) d.pending
        ++ (if is_no_phase d.interrupt_phase then [] else d.interrupt_msg ∷ []))

unfoldable pub emit_all : List RpcEvent → Driver → Driver
unfolding emit
emit_all [] d = d
emit_all (e ∷ es) d = emit_all es (emit e d)

unfoldable pub report_undelivered : ℕ → Driver → Driver
report_undelivered now d = emit_all (map (λ (msg : Outgoing). undelivered msg now) (remaining d)) d

-- The end of the process: the last lines are handled, then what did not arrive is reported.
unfoldable pub exit_driver : Os → Driver → Driver
exit_driver os d = report_undelivered os.now (wake_up os (record d { closed = true }))

pub data KillSignal : Type 0 where
  sig_term sig_kill : KillSignal

-- `Stop`: whether it succeeded, and the signals that it sent. `ends` says at which waits pi ends: after
-- stdin is closed (within 5 seconds), after SIGTERM (3) and after SIGKILL (2).
unfoldable pub stop_signals : Bool → Bool → Bool → Bool × List KillSignal
stop_signals at_close at_term at_kill =
    if at_close
    then (true, [])
    else if at_term
    then (true, sig_term ∷ [])
    else (at_kill, sig_term ∷ sig_kill ∷ [])

unfoldable pub stop_driver : Bool → Bool → Bool → Driver → (Bool × List KillSignal) × Driver
unfolding stop_signals
stop_driver at_close at_term at_kill d =
    let result : Bool × List KillSignal =
      if d.launched then stop_signals at_close at_term at_kill else (true, []) in
    (result, record d { stopping = true })
