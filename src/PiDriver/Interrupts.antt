-- ===== src/PiDriver/Interrupts.antt =====
-- internal/pidriver/rpc.go: `advanceInterrupt`, what follows pi's answer to a step of an interrupt.
--
-- An interrupt takes pi's queue back (`clear_queue`), stops its turn (`abort`), and sends its own text
-- (`prompt`); only then do the texts of the queue go out again, before all that waits.
use ac_cli.Prelude.{ℕ, ◌+◌, true, ◌||◌, [], ◌∷◌, ◌++◌, map, String, if◌then◌else◌}
use ac_cli.Supervisor.Delivery.{regular, Outgoing}
use ac_cli.PiDriver.Types.{
  Line, abort, from_line, no_phase, clearing, aborting, prompting, Phase, Driver, succeeded,
  mentions_compact,
}
use ac_cli.PiDriver.Commands.{command, emit, dispatch_prompt}

-- A text that pi gave back, as a message.
abbrev pub as_regular : String → Outgoing
as_regular text = record { text = text; kind = regular; source = "" }

-- The branch of a refusal: during compaction the interrupt itself waits again.
unfoldable pub give_up : ℕ → Line → Driver → Driver
unfolding emit
give_up now v d =
    let compact = mentions_compact v.error in
    let texts = map as_regular d.restore ++ d.outgoing in
    let d' = record d {
      outgoing = if compact then d.interrupt_msg ∷ texts else texts;
      restore = [];
      interrupt_phase = no_phase;
      compacting = d.compacting || compact;
    } in
    if compact then d' else emit (from_line "rpc_error" v now) d'

-- The case "clear_queue".
unfoldable pub cleared : Line → Driver → Driver
unfolding command
cleared v d =
    let (id, d') = command abort (record d { restore = d.restore ++ v.queued }) in
    record d' { interrupt_id = id; interrupt_phase = aborting }

-- The case "abort": the prompt has the next number.
unfoldable pub aborted : Driver → Driver
unfolding dispatch_prompt
aborted d = record (dispatch_prompt true d.interrupt_msg d) {
  interrupt_id = d.seq + 1;
  interrupt_phase = prompting;
}

-- The case "prompt".
unfoldable pub prompted : Driver → Driver
prompted d = record d {
  outgoing = map as_regular d.restore ++ d.outgoing;
  restore = [];
  interrupt_phase = no_phase;
}

unfoldable pub advance_phase : Phase → Line → Driver → Driver
advance_phase no_phase v d = d
advance_phase clearing v d = cleared v d
advance_phase aborting v d = aborted d
advance_phase prompting v d = prompted d

unfoldable pub advance_interrupt : ℕ → Line → Driver → Driver
advance_interrupt now v d =
    if succeeded v then advance_phase d.interrupt_phase v d else give_up now v d
