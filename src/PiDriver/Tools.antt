-- ===== src/PiDriver/Tools.antt =====
-- The tool that the driver shows, over nested tool calls.
use ac_cli.Prelude.{
  String, ◌≡◌, refl, sym, ap, List, beq_self, ◌∙◌, true, Option, none, some, arith, ◌==◌, string_eq,
  eq_iff, lookup, insert, delete, lookup-insert, lookup-delete,
}
use ac_cli.PiDriver.Types.{Line, ToolCall, Driver}
use ac_cli.PiDriver.Handle.{tool_started, tool_ended, follow}

abbrev pub name_of : Option ToolCall → String
name_of none = ""
name_of (some call) = call.name

abbrev pub caller_of : Option ToolCall → String
caller_of none = ""
caller_of (some call) = call.parent

-- The state names the current call and the call that it stands in.
pub record IsShown (d : Driver) : Type 0 where
  pub shown_name : d.state.current_tool ≡ name_of (lookup d.current_tool_id d.tools)
  pub shown_parent : d.state.parent_call ≡ caller_of (lookup d.current_tool_id d.tools)

-- A call that starts within the current one, and ends.
pub record Nested (v w : Line) (d : Driver) : Type 0 where
  pub starts : v.kind ≡ "tool_execution_start"
  pub ends : w.kind ≡ "tool_execution_end"
  pub same_call : w.tool_call ≡ v.tool_call
  pub new_call : lookup v.tool_call d.tools ≡ none
  pub within : v.parent_call ≡ d.current_tool_id

pub record Restored (d d' : Driver) : Type 0 where
  pub same_id : d'.current_tool_id ≡ d.current_tool_id
  pub same_name : d'.state.current_tool ≡ d.state.current_tool
  pub same_parent : d'.state.parent_call ≡ d.state.parent_call
  pub same_tools : (id : String) → lookup id d'.tools ≡ lookup id d.tools

abbrev call_of : Line → ToolCall
call_of v = record { name = v.tool_name; parent = v.parent_call }

ended_current :
    (w : Line) (d : Driver) (call : ToolCall)
    → lookup w.tool_call d.tools ≡ some call
    → (w.tool_call == d.current_tool_id) ≡ true
    → let d' = tool_ended w d in
      let shown = lookup call.parent (delete w.tool_call d.tools) in
      (d'.current_tool_id ≡ call.parent)
      × (d'.tools ≡ delete w.tool_call d.tools)
      × (d'.state.current_tool ≡ name_of shown)
      × (d'.state.parent_call ≡ caller_of shown)
unfolding tool_ended
ended_current w d call e f =
    let shown = lookup call.parent (delete w.tool_call d.tools) in
    (ground arith, ground arith, ground arith, ground arith)

tools_back :
    (c id : String) (call : ToolCall) (tools : List (String × ToolCall))
    → lookup c tools ≡ none
    → lookup id (delete c (insert c call tools)) ≡ lookup id tools
tools_back c id call tools h =
    ground
      (arith, eq_iff c id, lookup-delete c id (insert c call tools), lookup-insert c id call tools)

found_first :
    (c : String) (call : ToolCall) (tools : List (String × ToolCall))
    → lookup c (insert c call tools) ≡ some call
found_first c call tools = lookup-insert c c call tools ∙ (rw (beq_self c) refl)

started_back :
    (v w : Line) (d : Driver)
    → IsShown d
    → Nested v w d
    → Restored d (tool_ended w (tool_started v d))
unfolding tool_started
started_back v w d s n =
    let d' = tool_started v d in
    let found = found_first v.tool_call (call_of v) d.tools in
    let e =
      ended_current w d' (call_of v) (rw n.same_call found)
        (rw n.same_call (beq_self v.tool_call)) in
    let known = λ (id : String). tools_back v.tool_call id (call_of v) d.tools n.new_call in
    let parent = v.parent_call in
    record {
      same_id = e.0 ∙ n.within;
      same_name =
          e.2
          ∙ (rw n.same_call (ap name_of (known parent)))
          ∙ ap (λ (id : String). name_of (lookup id d.tools)) n.within
          ∙ sym s.shown_name;
      same_parent =
          e.3
          ∙ (rw n.same_call (ap caller_of (known parent)))
          ∙ ap (λ (id : String). caller_of (lookup id d.tools)) n.within
          ∙ sym s.shown_parent;
      same_tools = λ id. ap (lookup id) e.1 ∙ (rw n.same_call (known id));
    }

follow-started :
    (v : Line) (d : Driver) → v.kind ≡ "tool_execution_start" → follow v d ≡ tool_started v d
unfolding follow
follow-started v d e = rw e refl

follow-ended : (v : Line) (d : Driver) → v.kind ≡ "tool_execution_end" → follow v d ≡ tool_ended v d
unfolding follow
follow-ended v d e = rw e refl

-- Where the driver shows the tool of its current call, or none if there is none, and a call that it
-- does not know starts within the current one and ends, then afterwards it shows the same tool for the
-- same calls, and knows the same calls.
pub follow-Restored :
    (v w : Line) (d : Driver) → IsShown d → Nested v w d → Restored d (follow w (follow v d))
follow-Restored v w d s n =
    rw (follow-started v d n.starts, follow-ended w (tool_started v d) n.ends)
      (started_back v w d s n)
