-- ===== src/PiDriver/Handle.antt =====
-- internal/pidriver/rpc.go: `handle`, what the run loop does with one line of pi.
use ac_cli.Prelude.{
  ℕ, String, Bool, true, false, not, ◌&&◌, ◌||◌, Option, none, some, List, [], ◌∷◌, ◌++◌, ◌==◌,
  nat_eq, string_eq, lookup, insert, delete, if◌then◌else◌,
}
use ac_cli.PiDriver.Types.{
  cancel_dialog, Line, ToolCall, from_line, HistoryReply, PiState, Driver, find_id, remove_id,
  is_no_phase, succeeded, has_failed, mentions_compact,
}
use ac_cli.PiDriver.Commands.{command, emit}
use ac_cli.PiDriver.Interrupts.{advance_interrupt}

-- The clock, and what /proc says of the process.
pub record Os : Type 0 where
  pub now : ℕ
  pub cmdline : List String

abbrev reply_of : ℕ → Line → HistoryReply
reply_of r v = record {
  reply_to = r;
  entries = if succeeded v then v.entries else [];
  failed = not (succeeded v);
}

-- A response to `get_entries`.
unfoldable pub answer_history : ℕ → Line → Driver → Driver
answer_history id v d = elim (find_id id d.pending_history) [
  | none ↦ d
  | some r ↦ record d {
    pending_history = remove_id id d.pending_history;
    history_replies = d.history_replies ++ reply_of r v ∷ [];
  }
]

-- `interruptResponse`
abbrev pub answers_interrupt : ℕ → Driver → Bool
answers_interrupt id d = not (is_no_phase d.interrupt_phase) && id == d.interrupt_id

-- A response to a prompt: refused during compaction, the message goes back to the front.
unfoldable pub answer_prompt : ℕ → Line → Driver → Driver
answer_prompt id v d = elim (find_id id d.pending) [
  | none ↦ d
  | some msg ↦
      if has_failed v && mentions_compact v.error
      then record d {
        pending = remove_id id d.pending;
        outgoing = msg ∷ d.outgoing;
        compacting = true;
      }
      else record d { pending = remove_id id d.pending }
]

abbrev ready_state : Os → Line → PiState → PiState
ready_state os v s = record s {
  cmdline = os.cmdline;
  ready = true;
  streaming = elim v.streaming [ none ↦ s.streaming | some b ↦ b ];
  settled = elim v.streaming [ none ↦ s.settled | some b ↦ not b ];
}

-- A response to `get_state`: the first one makes the driver ready.
unfoldable pub answer_state : Os → Line → Driver → Driver
answer_state os v d =
    if v.command == "get_state" && (succeeded v && not d.state.ready)
    then record d { state = ready_state os v d.state }
    else d

-- The tool calls, as they start and end.
unfoldable pub tool_started : Line → Driver → Driver
tool_started v d = record d {
  tools = insert v.tool_call (record { name = v.tool_name; parent = v.parent_call }) d.tools;
  current_tool_id = v.tool_call;
  state = record d.state { current_tool = v.tool_name; parent_call = v.parent_call };
}

abbrev show_tool : Option ToolCall → PiState → PiState
show_tool none s = record s { current_tool = ""; parent_call = "" }
show_tool (some call) s = record s { current_tool = call.name; parent_call = call.parent }

abbrev parent_of : Option ToolCall → String
parent_of none = ""
parent_of (some call) = call.parent

unfoldable pub tool_ended : Line → Driver → Driver
tool_ended v d =
    let parent = parent_of (lookup v.tool_call d.tools) in
    let left = delete v.tool_call d.tools in
    if v.tool_call == d.current_tool_id
    then record d {
      tools = left;
      current_tool_id = parent;
      state = show_tool (lookup parent left) d.state;
    }
    else record d { tools = left }

abbrev set_streaming : Bool → Driver → Driver
set_streaming on d = record d { state = record d.state { streaming = on; settled = not on } }

-- The switch on the kind.
unfoldable pub follow : Line → Driver → Driver
unfolding tool_started tool_ended
follow v d =
    if v.kind == "agent_start"
    then set_streaming true d
    else if v.kind == "agent_settled"
    then set_streaming false d
    else if v.kind == "tool_execution_start"
    then tool_started v d
    else if v.kind == "tool_execution_end"
    then tool_ended v d
    else d

abbrev is_dialog : Line → Bool
is_dialog v =
    v.kind == "extension_ui_request"
    && (v.method == "select"
        || (v.method == "confirm" || (v.method == "input" || v.method == "editor")))

unfoldable pub compaction : Line → Driver → Driver
compaction v d =
    if v.kind == "compaction_start"
    then record d { compacting = true }
    else if v.kind == "compaction_end"
    then record d { compacting = false }
    else d

-- A dialog is cancelled at once; the command's number is used up though the line has the dialog's ID.
unfoldable pub dialog : Line → Driver → Driver
unfolding command
dialog v d = if is_dialog v then (command (λ _. cancel_dialog v.dialog) d).1 else d

unfoldable pub stamp_event : Os → Driver → Driver
stamp_event os d = record d { state = record d.state { last_event = os.now } }

-- The end of `handle`, for every line that does not end an interrupt.
unfoldable pub observe : Os → Line → Driver → Driver
observe os v d =
    let d' = dialog v (compaction v d) in
    let seen = if is_dialog v then "dialog_cancelled" else v.kind in
    emit (from_line seen v os.now) (follow v (stamp_event os d'))

-- A response, after its part in an interrupt.
unfoldable pub answer_rest : Os → ℕ → Line → Driver → Driver
answer_rest os id v d = observe os v (answer_state os v (answer_prompt id v d))

-- A refused step of an interrupt ends the handler.
unfoldable pub answer_refused : Os → ℕ → Line → Driver → Driver
answer_refused os id v d =
    advance_interrupt os.now v (record d { pending = remove_id id d.pending })

unfoldable pub answer : Os → ℕ → Line → Driver → Driver
answer os id v d =
    let d' = answer_history id v d in
    if answers_interrupt id d'
    then if succeeded v
      then answer_rest os id v (advance_interrupt os.now v d')
      else answer_refused os id v d'
    else answer_rest os id v d'

unfoldable pub handle_line : Os → Line → Driver → Driver
handle_line os v d = elim v.id [
  | none ↦ observe os v d
  | some id ↦ if v.kind == "response" then answer os id v d else observe os v d
]

-- A line that is not a JSON object is skipped.
unfoldable pub handle : Os → Option Line → Driver → Driver
handle os none d = d
handle os (some v) d = handle_line os v d
