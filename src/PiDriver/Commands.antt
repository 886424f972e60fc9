-- ===== src/PiDriver/Commands.antt =====
-- internal/pidriver/rpc.go: `command`, `Send`, `dispatch`, `emit`, `read`, `write` and `History`.
use ac_cli.Prelude.{
  ℕ, ◌+◌, ◌-◌, String, Bool, true, false, ◌||◌, Option, List, [], ◌∷◌, ◌++◌, ltb, leb, length, drop,
  if◌then◌else◌,
}
use ac_cli.Supervisor.Delivery.{urgent, interrupt, Outgoing}
use ac_cli.PiDriver.Types.{
  Command, clear_queue, prompt, Entry, Line, RpcEvent, HistoryReply, clearing, Driver, with_prefix,
}

-- `command`: the next number, and the line for the writer unless pi has exited.
unfoldable pub command : (ℕ → Command) → Driver → ℕ × Driver
command line d =
    let id = d.seq + 1 in
    (id, record d { seq = id; writes = if d.closed then d.writes else d.writes ++ line id ∷ [] })

-- One round of `write`: the oldest waiting line goes to pi.
unfoldable pub write : Driver → Driver
write d = elim d.writes [
  | [] ↦ d
  | line ∷ rest ↦ if d.closed then d else record d { writes = rest; stdin = d.stdin ++ line ∷ [] }
]

-- One round of `read`: a whole line of pi, which is `none` if it is not a JSON object.
unfoldable pub read_line : Option Line → Driver → Driver
read_line line d = record d { lines = d.lines ++ line ∷ [] }

-- `Send`
unfoldable pub send : Outgoing → Driver → Bool × Driver
send msg d =
    if d.closed || d.stopping
    then (false, d)
    else (true, record d { outgoing = d.outgoing ++ msg ∷ [] })

-- `emit`: a full channel loses its oldest event.
unfoldable pub emit : RpcEvent → Driver → Driver
emit e d = record d {
  events = (if leb 256 (length d.events) then drop 1 d.events else d.events) ++ e ∷ [];
}

-- `dispatch` of a message that is no interrupt.
unfoldable pub dispatch_prompt : Bool → Outgoing → Driver → Driver
unfolding command
dispatch_prompt steers msg d =
    let (id, d') = command (λ n. prompt n (with_prefix msg.text) steers) d in
    record d' { pending = d'.pending ++ (id, msg) ∷ [] }

unfoldable pub dispatch_interrupt : Outgoing → Driver → Driver
unfolding command
dispatch_interrupt msg d =
    let (id, d') = command clear_queue d in
    record d' { interrupt_id = id; interrupt_phase = clearing; interrupt_msg = msg }

abbrev pub is_interrupt : Outgoing → Bool
is_interrupt msg = elim msg.kind [ interrupt ↦ true | _ ↦ false ]

abbrev pub is_urgent : Outgoing → Bool
is_urgent msg = elim msg.kind [ urgent ↦ true | _ ↦ false ]

unfoldable pub dispatch : Outgoing → Driver → Driver
unfolding dispatch_prompt dispatch_interrupt
dispatch msg d =
    if is_interrupt msg then dispatch_interrupt msg d else dispatch_prompt (is_urgent msg) msg d

-- The end of `History`: the last `limit` entries, and the ID of the last one.
last_id : List Entry → String
last_id [] = ""
last_id (e ∷ []) = e.id
last_id (e ∷ f ∷ es) = last_id (f ∷ es)

unfoldable pub trim_history : ℕ → HistoryReply → List Entry × String × Bool
unfolding last_id
trim_history limit r =
    let kept =
      if ltb limit (length r.entries)
      then drop (length r.entries - limit) r.entries
      else r.entries in
    (kept, last_id kept, r.failed)
