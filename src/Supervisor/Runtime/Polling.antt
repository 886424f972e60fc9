-- ===== src/Supervisor/Runtime/Polling.antt =====
-- internal/supervisor/supervisor.go: `poll`, one reading of an agent's feed.
--
-- `Supervisor.Feed` has the spool and `delivered.json`, which the loop writes too; here a message is
-- received by the same function, of which the agent keeps the delivered IDs. Wakes are left out.
pub mod Tmux
use ac_cli.Prelude.{
  ℕ, ◌+◌, suc, String, Bool, true, false, not, ◌&&◌, ◌||◌, Option, none, some, List, [], ◌∷◌, ◌==◌,
  ◌!=◌, string_eq, nat_eq, if◌then◌else◌, is_none, is_some,
}
use ac_cli.Presence.Clock.{Time, is_zero}
use ac_cli.Presence.Types.{session_exited, dashboard_stop}
use ac_cli.Supervisor.Types.{
  attached, kind_eq, headless, mode_eq, RunState, stopped_by_dashboard, run_state_eq, Notification,
  Managed,
}
use ac_cli.Supervisor.World.{Env, World, put, save, release, emit_attached}
use ac_cli.Supervisor.Attached.{seconds}
use ac_cli.Supervisor.Crash.{backoff}
use ac_cli.Supervisor.Feed.{Inbox, receive}
use ac_cli.Supervisor.Delivery.{deliver}
use ac_cli.Supervisor.Runtime.Outside.{
  not_saved, not_killed, not_stopped, no_credential, no_cursor, no_message, Outcome, Fetched,
  fetch_failed, agent_stopped, feed, Outside, saved_as,
}

abbrev in_state : RunState → String → Managed → Managed
in_state state reason a = record a { def = record a.def { state = state; reason = reason } }

abbrev poll_later : Time → ℕ → World → World
poll_later at p w = put p (record (w.objects p) { next_poll = at }) w

-- The credential is gone.
unfoldable pub poll_unknown : Env → ℕ → World → Outcome × World
poll_unknown env p w =
    let a = w.objects p in
    let left =
      emit_attached env p session_exited "left the workstream"
        (put p (in_state RunState.stopped "left the workstream" a) w) in
    let w' = if a.def.state == RunState.running then (save env p left).1 else w in
    if a.def.kind != attached
    then (some no_credential, w)
    else (none, poll_later (env.now + seconds 30) p w')

-- `ErrAgentStopped` for an attached session: its process is left alone.
unfoldable pub poll_stopped_attached : Env → ℕ → World → Outcome × World
poll_stopped_attached env p w =
    let a = w.objects p in
    let parked =
      poll_later (env.now + seconds 30) p
        (put p (in_state stopped_by_dashboard "stopped from the dashboard" a) w) in
    saved_as (
      save env p (
        if a.def.state != stopped_by_dashboard
        then emit_attached env p dashboard_stop "stopped from the dashboard" parked
        else parked))

-- The end of the other branch.
abbrev pub let_go : ℕ → World → Outcome × World
let_go p w = (none, release p (put p (record (w.objects p) { pending_wakes = [] }) w))

unfoldable pub poll_stopped_driver : Outside → ℕ → World → Outcome × World
poll_stopped_driver o p w =
    let w' = o.stopping.others (put p (record (w.objects p) { driver = none }) w) in
    if not o.driver_stopped
    then (some not_stopped, w')
    else let a = w'.objects p in
      let (saved, w'') =
        save o.stopping.env p (put p (record a { def = record a.def { pi = none } }) w') in
      if saved then let_go p w'' else (some not_saved, w'')

unfoldable pub mark_dashboard : Env → ℕ → World → Bool × World
mark_dashboard env p w =
    let a = w.objects p in
    save env p (put p (record a { def = record a.def { state = stopped_by_dashboard } }) w)

-- `ErrAgentStopped` for an agent of the daemon.
unfoldable pub poll_stopped : Outside → ℕ → World → Outcome × World
poll_stopped o p w =
    let (saved, w') = mark_dashboard o.env p w in
    if not saved
    then (some not_saved, w')
    else if is_some (w.objects p).driver
    then poll_stopped_driver o p w'
    else if (w.objects p).def.mode != headless && not o.killed
    then (some not_killed, w')
    else let_go p w'

abbrev inbox_of : Managed → Inbox
inbox_of a = record { spool = []; delivered = a.delivered; saved = [] }

abbrev poll_fault {ℓ} : {A : Type ℓ} → Option A → Outcome
poll_fault none = none
poll_fault (some e) = some no_message

-- One notification: it is received, and delivered if it is new. A failed one is not delivered.
unfoldable pub take_one : Outside → ℕ → Notification → World → Outcome × World
take_one o p n w =
    let a = w.objects p in
    let ((e, now), b) = receive o.io n.message_id (inbox_of a) in
    let w' = put p (record a { delivered = b.delivered }) w in
    let m = o.mail n in
    (
      poll_fault e,
      if now then (deliver o.env m.window o.guidance m.answer m.taken p n w').1 else w',
    )

-- The loop over the notifications.
unfoldable pub take_mail : Outside → ℕ → List Notification → World → Outcome × World
take_mail o p [] w = (none, w)
take_mail o p (n ∷ ns) w =
    let (e, w') = take_one o p n w in
    let rest = take_mail o p ns w' in elim e [ some f ↦ (some f, w') | none ↦ rest ]

abbrev pub next_poll_at : Time → Time → Time
next_poll_at now wait = now + (if is_zero wait then seconds 30 else wait)

-- `!has || cursor != feed.Cursor`
abbrev has_moved : Option String → String → Bool
has_moved none cursor = true
has_moved (some old) cursor = old != cursor

-- The cursor, and the time of the next poll.
unfoldable pub poll_done : Outside → Option String → String → Time → ℕ → World → Outcome × World
poll_done o seen cursor wait p w =
    let moved = has_moved seen cursor in
    if moved && not o.cursor_saved
    then (some no_cursor, w)
    else (none, poll_later (next_poll_at o.after.now wait) p w)

unfoldable pub poll_feed :
    Outside → Option String → List Notification → String → Time → ℕ → World → Outcome × World
poll_feed o seen ns cursor wait p w =
    let (e, w') = if is_some seen then take_mail o p ns w else (none, w) in
    elim e [ some f ↦ (some f, w') | none ↦ poll_done o seen cursor wait p w' ]

unfoldable pub poll_fetched : Outside → Option String → Fetched → ℕ → World → Outcome × World
poll_fetched o seen agent_stopped p w =
    if (w.objects p).def.kind == attached
    then poll_stopped_attached o.env p w
    else poll_stopped o p w
poll_fetched o seen fetch_failed p w =
    let a = w.objects p in
    let failures = suc a.failures in
    (none, put p (record a { failures = failures; next_poll = o.env.now + backoff failures }) w)
poll_fetched o seen (feed ns cursor wait) p w =
    poll_feed o seen ns cursor wait p (put p (record (w.objects p) { failures = 0 }) w)

-- Manager.poll
unfoldable pub poll : Outside → ℕ → World → Outcome × World
poll o p w =
    let def = (w.objects p).def in
    if not (o.env.has_credential def.workstream def.agent_id)
    then poll_unknown o.env p w
    else elim o.cursor [
      | none ↦ (some no_cursor, w)
      | some seen ↦ poll_fetched o seen o.fetched p w
    ]
