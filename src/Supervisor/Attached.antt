-- ===== src/Supervisor/Attached.antt =====
-- internal/supervisor/attached.go: the calls on an attached session, and its tick.
pub mod Acks
pub mod Signals
use ac_cli.Prelude.{
  ℕ, suc, ◌+◌, ◌*◌, String, Bool, true, false, not, ◌&&◌, Option, none, some, List, [], ◌∷◌, ◌++◌,
  ltb, ◌==◌, ◌!=◌, if◌then◌else◌, string_eq, nat_eq, lookup, length, drop,
}
use ac_cli.Presence.Types.{EventKind, session_alive, session_exited, Logical}
use ac_cli.Supervisor.Types.{attached, kind_eq, RunState, run_state_eq, Definition, Managed, Signal}
use ac_cli.Supervisor.World.{Env, World, put, set_def, save, emit_attached, emit_agent_event}
use ac_cli.Supervisor.Sessions.{
  not_saved, not_exist, session_stopped, dashboard_stopped, offset_backwards, offset_beyond,
  stat_failed, Result, ok, err, Window,
}

abbrev pub seconds : ℕ → ℕ
seconds n = n * 1_000_000_000

-- `for _, a := range m.agents { if a.def.AgentID == id && a.def.Kind == "attached" … }`
unfoldable pub find_attached : (ℕ → Managed) → String → List (String × ℕ) → Option ℕ
find_attached objects id [] = none
find_attached objects id ((name, p) ∷ rest) =
    let other = find_attached objects id rest in
    if (objects p).def.agent_id == id && (objects p).def.kind == attached then some p else other

-- Save, or stop with the error.
abbrev pub saving : Env → ℕ → World → (World → World) → Result (Unit {0}) × World
saving env p w done =
    let (saved, w') = save env p w in if saved then (ok tt, done w') else (err not_saved, w')

connected_at : Env → ℕ → World → Result (Unit {0}) × World
connected_at env p w =
    let a = w.objects p in
    if a.def.state == RunState.stopped_by_dashboard
    then (err dashboard_stopped, w)
    else if a.def.program != "other"
    then (if a.def.state != RunState.running then (err session_stopped, w) else (ok tt, w))
    else saving env p
        (put p
          (record a {
            attached_connected = true;
            def = record a.def { state = RunState.running; reason = "" };
          })
          w)
        (emit_attached env p session_alive "")

-- Manager.SessionConnected
unfoldable pub session_connected : Env → String → World → Result (Unit {0}) × World
unfolding find_attached connected_at save emit_attached
session_connected env id w = elim (find_attached w.objects id w.agents) [
  | none ↦ (err not_exist, w)
  | some p ↦ connected_at env p w
]

detach_at : Env → ℕ → String → World → Result (Unit {0}) × World
detach_at env p reason w =
    let a = w.objects p in
    saving env p
      (put p
        (record a {
          attached_connected = false;
          def = record a.def { state = RunState.stopped; reason = reason };
        })
        w)
      (emit_attached env p session_exited reason)

-- Manager.Detach
unfoldable pub detach : Env → String → String → World → Result (Unit {0}) × World
unfolding find_attached detach_at save emit_attached
detach env id reason w = elim (find_attached w.objects id w.agents) [
  | none ↦ (err not_exist, w)
  | some p ↦ detach_at env p reason w
]

-- What `os.Stat` says of a spool file.
pub data Stat : Type 0 where
  missing failed : Stat
  size : ℕ → Stat

-- The part of an offset that exceeds the spool, as the code tests it.
abbrev pub beyond : Stat → ℕ → Bool
beyond missing offset = offset != 0
beyond failed offset = offset != 0
beyond (size n) offset = ltb n offset

abbrev pub is_failed : Stat → Bool
is_failed failed = true
is_failed _ = false

unfoldable pub ack_at : Env → Stat → ℕ → ℕ → World → Result (Unit {0}) × World
ack_at env stat p offset w =
    let def = (w.objects p).def in
    if ltb offset def.offset
    then (err offset_backwards, w)
    else if is_failed stat
    then (err stat_failed, w)
    else if beyond stat offset
    then (err offset_beyond, w)
    else if offset == def.offset
    then (ok tt, w)
    else let (saved, w') = save env p (set_def p (record def { offset = offset }) w) in
      if saved then (ok tt, w') else (err not_saved, set_def p def w')

-- Manager.SessionAck
unfoldable pub session_ack : Env → Stat → String → ℕ → World → Result (Unit {0}) × World
unfolding ack_at find_attached
session_ack env stat id offset w = elim (find_attached w.objects id w.agents) [
  | none ↦ (err not_exist, w)
  | some p ↦ ack_at env stat p offset w
]

-- Manager.SessionEvent: the client's time is replaced by the daemon's.
unfoldable pub find_running : (ℕ → Managed) → String → List (String × ℕ) → Option ℕ
find_running objects id [] = none
find_running objects id ((name, p) ∷ rest) =
    let other = find_running objects id rest in
    let def = (objects p).def in
    if def.agent_id == id && (def.kind == attached && def.state == RunState.running)
    then some p
    else other

unfoldable pub session_event :
    Env → String → EventKind → Logical → World → Result (Unit {0}) × World
unfolding find_running emit_agent_event
session_event env id kind logical w = elim (find_running w.objects id w.agents) [
  | none ↦ (err not_exist, w)
  | some p ↦ (
    ok tt,
    emit_agent_event p
        (record {
          agent_id = (w.objects p).def.agent_id;
          event = record {
            kind = kind;
            at = env.now;
            logical = logical;
            reason = "";
            task_number = "";
          };
        })
        w,
  )
]

-- Manager.sendAttachedSignal: with no listener the last 32 signals are kept.
unfoldable pub send_attached_signal : Managed → Signal → Managed
send_attached_signal a s =
    if a.signal_listeners == 0
    then record a {
      pending_signals =
          (if length a.pending_signals == 32 then drop 1 a.pending_signals else a.pending_signals)
          ++ s ∷ [];
    }
    else a

-- Manager.SubscribeSignals: the new listener is sent what was kept, as its channel's content.
unfoldable pub subscribe_signals : Managed → List Signal × Managed
subscribe_signals a = (
  a.pending_signals,
  record a { signal_listeners = suc a.signal_listeners; pending_signals = [] },
)

-- Manager.tickAttached, its first part: the check of the process, at most every 5 seconds. `window`
-- is the time of the process inspection.
unfoldable pub still_here : ℕ → World → Bool
still_here p w =
    let def = (w.objects p).def in
    def.kind == attached && elim (lookup def.name w.agents) [ none ↦ false | some q ↦ q == p ]

tick_exited : Env → ℕ → Bool → World → Result (Unit {0}) × World
tick_exited env p alive w =
    let def = (w.objects p).def in
    let reason = if def.program == "other" then "no listener" else "pi closed" in
    if not alive && def.state == RunState.running
    then saving env p (set_def p (record def { state = RunState.stopped; reason = reason }) w)
        (emit_attached env p session_exited reason)
    else (ok tt, w)

unfoldable pub tick_process : Env → Window → ℕ → World → Result (Unit {0}) × World
unfolding still_here tick_exited save emit_attached
tick_process env window p w =
    let a = w.objects p in
    let alive = env.process_alive a.def.session_pid a.def.session_start in
    let w' = window.others (put p (record a { next_start = env.now + seconds 5 }) w) in
    if ltb env.now a.next_start
    then (ok tt, w)
    else if not (still_here p w')
    then (ok tt, w')
    else tick_exited window.env p alive w'

-- Manager.SessionLookup and Attached
unfoldable pub find_session : (ℕ → Managed) → String → List (String × ℕ) → Option Definition
find_session objects session [] = none
find_session objects session ((name, p) ∷ rest) =
    let other = find_session objects session rest in
    if (objects p).def.kind == attached && (objects p).def.session_id == session
    then some (objects p).def
    else other

unfoldable pub session_lookup : String → World → Option Definition
unfolding find_session
session_lookup session w = if session == "" then none else find_session w.objects session w.agents
