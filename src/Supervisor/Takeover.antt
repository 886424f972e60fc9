-- ===== src/Supervisor/Takeover.antt =====
-- internal/supervisor/takeover.go: a person takes a headless agent over in the foreground.
--
-- The mutex is free while a process is inspected and while a driver stops: that time is the `Window`.
-- Fences are compared by identity: `refenced` says that another call set another fence meanwhile. The
-- CLI's notice writer and what the CLI is given to run are left out.
pub mod Fenced
use ac_cli.Prelude.{
  ℕ, ◌-◌, String, Bool, true, false, not, ◌&&◌, ◌||◌, Option, none, some, ltb, ◌==◌, ◌!=◌,
  if◌then◌else◌, string_eq, nat_eq, lookup, is_none,
}
use ac_cli.Presence.Clock.{Time}
use ac_cli.Supervisor.Types.{
  headless, mode_eq, Desired, desired_eq, starting, taken_over, run_state_eq, Process, Definition,
  Managed,
}
use ac_cli.Supervisor.World.{Env, World, put, save}
use ac_cli.Supervisor.Sessions.{Window}
use ac_cli.Supervisor.Attached.{seconds}

pub data Error : Type 0 where
  machine_stopping not_running not_stopped stopped_meanwhile not_saved : Error
  invalid_pid not_taken_over still_running not_exist : Error

-- takeoverGraceActive
unfoldable pub grace_active : Option Time → Time → Bool
grace_active none now = false
grace_active (some since) now = ltb (now - since) (seconds 30)

abbrev is_alive : Env → Option Process → Bool
is_alive env none = false
is_alive env (some q) = env.process_alive q.pid q.start_time

abbrev saved_as : Bool × World → Option Error × World
saved_as (true, w) = (none, w)
saved_as (false, w) = (some not_saved, w)

-- The agent without its fence.
abbrev pub unfenced : Managed → Managed
unfenced a = record a {
  taken_over = false;
  def = record a.def { takeover = none; takeover_since = none };
}

abbrev pub hold_stops : World → Managed → Managed
hold_stops w a = if w.stopping_hold then record a { machine_stopped = true } else a

abbrev pub back_to_start : Managed → Managed
back_to_start a =
    if a.def.state == taken_over then record a { def = record a.def { state = starting } } else a

unfoldable pub clear_takeover : Env → ℕ → World → Option Error × World
clear_takeover env p w =
    saved_as (save env p (put p (hold_stops w (back_to_start (unfenced (w.objects p)))) w))

-- Manager.cleanupDeadTakeover
unfoldable pub cleanup_dead_takeover : Env → Window → Bool → ℕ → World → Option Error × World
cleanup_dead_takeover env window refenced p w =
    let def = (w.objects p).def in
    if is_none def.takeover
    then (if grace_active def.takeover_since env.now then (none, w) else clear_takeover env p w)
    else let w' = window.others w in
      if refenced || is_alive env def.takeover then (none, w') else clear_takeover window.env p w'

-- The tests of `Takeover`.
abbrev pub can_take_over : Managed → Bool
can_take_over a =
    a.def.mode == headless
    && (a.def.desired == Desired.running && (not (is_none a.driver) && not a.taken_over))

abbrev pub released : Managed → Managed
released a = record a { taken_over = false; takeover_connected = false }

-- After the driver stopped.
unfoldable pub finish_takeover : Env → ℕ → World → Option Error × World
finish_takeover env p w =
    let a = w.objects p in
    let idle = record a { def = record a.def { pi = none } } in
    if a.def.desired != Desired.running
    then (some stopped_meanwhile, (save env p (put p (released idle) w)).1)
    else let fenced = record idle {
      def = record idle.def { state = taken_over; takeover_since = some env.now };
      next_poll = env.now;
    } in
      let (saved, w') = save env p (put p fenced w) in
      if saved then (none, w') else (
        some not_saved,
        put p
            (record (released fenced) {
              def = record fenced.def { state = starting; takeover_since = none };
            })
            w',
      )

abbrev pub taken : Managed → Managed
taken a = record a { taken_over = true; takeover_connected = true; driver = none }

unfoldable pub takeover_at : Window → Bool → ℕ → World → Option Error × World
takeover_at window driver_stopped p w =
    let a = w.objects p in
    if not (can_take_over a)
    then (some not_running, w)
    else let w' = window.others (put p (taken a) w) in
      if not driver_stopped
      then (some not_stopped, put p (record (released (w'.objects p)) { driver = a.driver }) w')
      else finish_takeover window.env p w'

-- Manager.Takeover
unfoldable pub take_over : Window → Bool → String → World → Option Error × World
take_over window driver_stopped name w =
    if w.stopping_hold then (some machine_stopping, w) else elim (lookup name w.agents) [
      | none ↦ (some not_running, w)
      | some p ↦ takeover_at window driver_stopped p w
    ]

unfoldable pub record_at : Env → ℕ → String → ℕ → World → Option Error × World
record_at env pid start p w =
    let a = w.objects p in
    if not a.taken_over || not a.takeover_connected
    then (some not_taken_over, w)
    else let fence : Process = record { pid = pid; start_time = start } in
      saved_as (save env p (put p (record a { def = record a.def { takeover = some fence } }) w))

-- Manager.RecordTakeover
unfoldable pub record_takeover : Env → String → ℕ → World → Option Error × World
record_takeover env name pid w =
    let start = env.process_start pid in
    if pid == 0 || start == "" then (some invalid_pid, w) else elim (lookup name w.agents) [
      | none ↦ (some not_taken_over, w)
      | some p ↦ record_at env pid start p w
    ]

-- After the foreground process was found dead.
unfoldable pub resume_dead : Env → ℕ → World → Option Error × World
resume_dead env p w =
    let a = hold_stops w (unfenced (w.objects p)) in
    let v = put p a (record w { last_busy = env.now }) in
    if a.def.desired == Desired.running && a.def.state == taken_over
    then saved_as (
        save env p (put p (record a { def = record a.def { state = starting }; next_start = 0 }) v))
    else (none, v)

unfoldable pub resume_at : Env → Window → Bool → ℕ → World → Option Error × World
resume_at env window refenced p w =
    let a = w.objects p in
    if not a.taken_over
    then (none, w)
    else let w' = window.others (put p (record a { takeover_connected = false }) w) in
      if refenced || is_alive env a.def.takeover
      then (some still_running, w')
      else resume_dead window.env p w'

-- Manager.ResumeTakeover
unfoldable pub resume_takeover : Env → Window → Bool → String → World → Option Error × World
resume_takeover env window refenced name w = elim (lookup name w.agents) [
  | none ↦ (some not_exist, w)
  | some p ↦ resume_at env window refenced p w
]
