-- ===== src/Supervisor/Feed.antt =====
-- internal/supervisor: the loop of `poll` over a feed (supervisor.go) and `Wake` (wake.go).
--
-- Each file write and each call of the poller for a message has an outcome, `Io`, by the message's ID.
-- The delivery of a message that was spooled changes nothing of an inbox; what other calls receive for
-- the agent while a delivery has the mutex free stands in the list of messages as one more entry.
pub mod Known
pub mod Growing
pub mod Once
use ac_cli.Prelude.{
  ℕ, ◌-◌, String, Bool, true, false, not, ◌&&◌, ◌||◌, Option, none, some, List, [], ◌∷◌, ◌++◌, ltb,
  ◌==◌, ◌!=◌, if◌then◌else◌, string_eq, length, drop, any,
}
use ac_cli.Supervisor.Types.{
  Notification, Desired, desired_eq, RunState, stopped_by_dashboard, crashed, run_state_eq,
  Definition,
}

-- How `AppendNotification` ends: the line is written and on the disk; the line is written, but the file
-- could not be synced or closed, which is an error; a part of the line is written; or nothing is.
pub data Append : Type 0 where
  synced unsynced torn lost : Append

pub record Io : Type 0 where
  pub fetched : String → Bool
  pub appended : String → Append
  pub recorded : String → Bool

-- What stands in a spool file, by the message: its line, or a part of it.
pub data Piece : Type 0 where
  whole part : String → Piece

-- The parts of an agent that the loop changes: its spool file, `a.delivered`, and the IDs in
-- `delivered.json`.
pub record Inbox : Type 0 where
  pub spool : List Piece
  pub delivered : List String
  pub saved : List String

pub data Error : Type 0 where
  not_fetched not_appended not_recorded invalid_wake : Error

-- `if len(xs) > 500 { xs = xs[len(xs)-500:] }`
unfoldable pub keep_recent : List String → List String
keep_recent ids = if ltb 500 (length ids) then drop (length ids - 500) ids else ids

abbrev pub is_delivered : String → Inbox → Bool
is_delivered id b = any (λ j. j == id) b.delivered

abbrev pub spooled : Piece → Inbox → Inbox
spooled piece b = record b { spool = b.spool ++ piece ∷ [] }

-- After the line is on the disk: the message is added to `a.delivered`, which is written.
unfoldable pub record_delivered : Io → String → Inbox → (Option Error × Bool) × Inbox
unfolding keep_recent
record_delivered io id b =
    let ids = keep_recent (b.delivered ++ id ∷ []) in
    let b' = record b { delivered = ids } in
    if not (io.recorded id)
    then ((some not_recorded, false), b')
    else ((none, true), record b' { saved = ids })

-- A message that is not in `a.delivered`. The flag tells whether it came to the delivery.
unfoldable pub receive_new : Io → String → Inbox → (Option Error × Bool) × Inbox
unfolding record_delivered
receive_new io id b =
    if not (io.fetched id) then ((some not_fetched, false), b) else elim (io.appended id) [
      | lost ↦ ((some not_appended, false), b)
      | torn ↦ ((some not_appended, false), spooled (part id) b)
      | unsynced ↦ ((some not_appended, false), spooled (whole id) b)
      | synced ↦ record_delivered io id (spooled (whole id) b)
    ]

-- The body of the loop, and of `Wake` for the agent.
unfoldable pub receive : Io → String → Inbox → (Option Error × Bool) × Inbox
receive io id b = if is_delivered id b then ((none, false), b) else receive_new io id b

-- The loop of `poll`: the first error ends it. It also gives the messages to deliver, in their order.
unfoldable pub receive_all : Io → List String → Inbox → Option Error × List String × Inbox
receive_all io [] b = (none, [], b)
receive_all io (id ∷ ids) b =
    let ((e, now), b') = receive io id b in
    let (e', later, b'') = receive_all io ids b' in
    elim e [ some f ↦ (some f, [], b') | none ↦ (e', if now then id ∷ later else later, b'') ]

-- Manager.Wake, on the agent with the ID.
unfoldable pub wake : Io → Definition → Notification → Inbox → (Option Error × Bool) × Inbox
wake io def n b =
    if n.type != "message.received" || (n.message_id == "" || n.sender_id == "")
    then ((some invalid_wake, false), b)
    else if def.desired != Desired.running
        || (def.state == stopped_by_dashboard || def.state == crashed)
    then ((none, false), b)
    else receive io n.message_id b
