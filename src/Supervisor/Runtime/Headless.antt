-- ===== src/Supervisor/Runtime/Headless.antt =====
-- internal/supervisor/headless.go: an agent whose pi process has no terminal.
--
-- Left out: the log file, the channel of the driver's events, and the arguments of the launch.
pub mod Exits
use ac_cli.Prelude.{
  ℕ, String, Bool, true, false, not, ◌&&◌, ◌||◌, none, some, List, [], ◌∷◌, ltb, ◌!=◌, nat_eq,
  if◌then◌else◌, is_none,
}
use ac_cli.Presence.Clock.{is_zero}
use ac_cli.Supervisor.Types.{Desired, desired_eq, RunState, Notification, PiProcess, Managed}
use ac_cli.Supervisor.World.{Env, World, put, save}
use ac_cli.Supervisor.Crash.{note_exit}
use ac_cli.Supervisor.Delivery.{deliver, same_driver}
use ac_cli.Supervisor.Runtime.Outside.{
  not_saved, not_started, no_adapter, no_pi, no_driver, stopped_meanwhile, not_taken, Outcome,
  Outside, saved_as,
}
use ac_cli.Supervisor.Runtime.Tmux.{now_running}
use ac_cli.Supervisor.Runtime.Polling.{poll}

-- Manager.drainPending
unfoldable pub deliver_pending : Outside → ℕ → List Notification → World → World
deliver_pending o p [] w = w
deliver_pending o p (n ∷ ns) w =
    let m = o.mail n in
    deliver_pending o p ns (deliver o.env m.window o.guidance m.answer m.taken p n w).1

unfoldable pub drain_pending : Outside → ℕ → World → World
drain_pending o p w =
    let a = w.objects p in
    if is_none a.driver || not a.startup_sent
    then w
    else deliver_pending o p a.pending_wakes (put p (record a { pending_wakes = [] }) w)

abbrev pub is_driver : ℕ → Managed → Bool
is_driver d a = same_driver a.driver (some d)

abbrev pub lose_driver : ℕ → Managed → Managed
lose_driver d a = if is_driver d a then record a { driver = none } else a

-- Manager.discardLaunch
unfoldable pub discard_launch : Outside → ℕ → ℕ → World → World
discard_launch o d p w =
    let w' = o.stopping.others w in
    let a = w'.objects p in
    if is_driver d a
    then put p (record a { driver = none; def = record a.def { pi = none } }) w'
    else w'

-- The startup prompt, which is the first that the driver gets.
unfoldable pub send_startup : Outside → ℕ → ℕ → World → Outcome × World
send_startup o d p w =
    let w' = o.sending.others w in
    if not o.startup_taken
    then (some not_taken, discard_launch o d p w')
    else (none, drain_pending o p (put p (record (w'.objects p) { startup_sent = true }) w'))

-- The process has started, and the agent is to run still.
unfoldable pub keep_launch : Outside → ℕ → PiProcess → ℕ → World → Outcome × World
keep_launch o d pi p w =
    let a = now_running o.starting.env o (w.objects p) in
    let (saved, w') =
      save o.starting.env p (put p (record a { def = record a.def { pi = some pi } }) w) in
    if saved then send_startup o d p w' else (some not_saved, discard_launch o d p w')

-- After `Start` of the driver.
unfoldable pub finish_launch : Outside → ℕ → ℕ → World → Outcome × World
finish_launch o d p w =
    let a = w.objects p in
    let w' = o.stopping.others w in
    elim o.pi [
      | none ↦ (some not_started, put p (lose_driver d a) w)
      | some pi ↦
          if not (is_driver d a) || a.def.desired != Desired.running
          then (some stopped_meanwhile, put p (lose_driver d (w'.objects p)) w')
          else keep_launch o d pi p w
    ]

unfoldable pub start_launch : Outside → ℕ → ℕ → World → Outcome × World
start_launch o d p w =
    finish_launch o d p
      (o.starting.others (put p (record (w.objects p) { driver = some d; startup_sent = false }) w))

-- The adapter of pi is damaged: the agent is parked.
unfoldable pub park_launch : Outside → String → ℕ → World → Outcome × World
park_launch o reason p w =
    let a = w.objects p in
    (
      some no_adapter,
      (save o.env p (
          put p (record a { def = record a.def { state = RunState.crashed; reason = reason } })
            w)).1,
    )

-- Manager.launchHeadless
unfoldable pub launch_headless : Outside → ℕ → World → Outcome × World
launch_headless o p w = elim o.adapter [
  | some reason ↦ park_launch o reason p w
  | none ↦
      if not o.pi_found
      then (some no_pi, w)
      else elim o.new_driver [ none ↦ (some no_driver, w) | some d ↦ start_launch o d p w ]
]

-- The driver's process has exited.
unfoldable pub note_driver_exit : Env → ℕ × String → ℕ → World → Outcome × World
note_driver_exit env exit p w =
    let a = w.objects p in
    saved_as (
      save env p (
        put p
          (note_exit env.now exit.0 exit.1
            (record a { driver = none; def = record a.def { pi = none } }))
          w))

abbrev pub is_due : Outside → Managed → Bool
is_due o a = o.polls && not (ltb o.after.now a.next_poll)

-- `if !a.def.SessionMigrated && fixedSessionExists(…)`: whether the world may go on, and the world.
unfoldable pub note_session : Outside → ℕ → World → Outcome × World
note_session o p w =
    let a = w.objects p in
    if not a.def.session_migrated && o.session_exists
    then saved_as
        (save o.env p (put p (record a { def = record a.def { session_migrated = true } }) w))
    else (none, w)

unfoldable pub tick_driver : Outside → ℕ → World → Outcome × World
tick_driver o p w =
    let (e, w') = note_session o p w in
    let w'' = drain_pending o p w' in
    elim e [
      | some f ↦ (some f, w')
      | none ↦ if is_due o (w''.objects p) then poll o p w'' else (none, w'')
    ]

-- Manager.tickHeadless
unfoldable pub tick_headless : Outside → ℕ → World → Outcome × World
tick_headless o p w =
    let a = w.objects p in
    if is_none a.driver
    then (if not (is_zero a.next_start) && ltb o.env.now a.next_start
        then (none, w)
        else launch_headless o p w)
    else elim o.exited [ some exit ↦ note_driver_exit o.env exit p w | none ↦ tick_driver o p w ]
