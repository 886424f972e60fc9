-- ===== src/Supervisor/World.antt =====
-- The manager's state and its elementary steps (internal/supervisor/supervisor.go, presence.go,
-- attached.go; internal/agentlock/lock.go).
--
-- Managed agents are objects behind pointers, since a call keeps its pointer while it releases
-- `Manager.mu`: `agents` maps names to pointers and `objects` holds what they point at. `locks` lists
-- the agents whose file lock this process holds, `disk` the saved `daemon.json` of each agent.
-- The world outside (the clock, the file system, process inspection) is the record `Env`.
pub mod Frame
use Prim.Native.String.{◌++◌ as text_append, count}
use ac_cli.Prelude.{
  ℕ, zero, suc, String, Bool, true, false, not, ◌&&◌, ◌||◌, Option, none, some, List, [], ◌∷◌, ◌++◌,
  leb, ltb, ◌==◌, ◌!=◌, if◌then◌else◌, string_eq, nat_eq, lookup, insert, delete, any,
}
use ac_cli.Presence
use ac_cli.Presence.Clock.{Time, is_zero}
use ac_cli.Presence.Types.{
  EventKind, Event, State, Snapshot, Nudge, no_nudge, Logical, no_logical, no_physical,
}
use ac_cli.Supervisor.Types.{
  Kind, no_kind, Mode, no_mode, Desired, RunState, no_state, Definition, Managed, Process,
}

-- What a call meets outside the manager. `write_ok n` is the outcome of the n-th attempt to replace a
-- file; a failed attempt leaves the old file. `lock_free` says that the agent's lock file can be
-- opened and no other process holds its lock.
pub record Env : Type 0 where
  pub now : Time
  pub write_ok : ℕ → Bool
  pub lock_free : String → Bool
  pub process_start : ℕ → String
  pub process_alive : ℕ → String → Bool
  pub descendant : ℕ → ℕ → Bool
  pub has_credential : String → String → Bool

-- AgentEvent
pub record AgentEvent : Type 0 where
  pub agent_id : String
  pub event : Event

-- Claim; `ticket` is the identity of the claim object and `reused` its field. A claim that is not
-- reused holds the agent's lock.
pub record Claim : Type 0 where
  pub ticket : ℕ
  pub agent_id : String
  pub workstream : String
  pub peer_pid : ℕ
  pub reused : Bool
  pub expires : Time

-- Manager
pub record World : Type 0 where
  pub objects : ℕ → Managed
  pub next_object : ℕ
  pub agents : List (String × ℕ)
  pub claims : List (String × Claim)
  pub next_ticket : ℕ
  pub locks : List String
  pub disk : String → Option Definition
  pub writes : ℕ
  pub stopping_hold : Bool
  pub run_finishing : Bool
  pub last_busy : Time
  pub pending_desired : List (String × Bool)
  pub state_report : Bool
  pub emitted : List AgentEvent

-- `&managed{}`
abbrev pub zero_state : State
zero_state = record { physical = no_physical; logical = no_logical; reason = ""; since = 0 }

abbrev pub zero_snapshot : Snapshot
zero_snapshot = record {
  state = zero_state;
  program = "";
  in_run = false;
  last_activity = 0;
  approval = "";
  blocked = "";
  in_flight = "";
  explicit = no_logical;
  explicit_reason = "";
  nudged_no_activity = false;
  nudged_in_flight = false;
}

abbrev pub zero_definition : Definition
zero_definition = record {
  kind = no_kind;
  session_pid = 0;
  session_start = "";
  program = "";
  session_id = "";
  offset = 0;
  revision = 0;
  agent_id = "";
  name = "";
  organization = "";
  workstream = "";
  work_folder = "";
  repos = [];
  harness = "";
  mode = no_mode;
  desired = Desired.no_desired;
  state = no_state;
  reason = "";
  crashes = [];
  last_exit = none;
  pi = none;
  takeover = none;
  takeover_since = none;
  session_migrated = false;
  session_started_at = none;
}

abbrev pub zero_managed : Managed
zero_managed = record {
  def = zero_definition;
  locked = false;
  next_start = 0;
  next_poll = 0;
  next_retry = 0;
  failures = 0;
  inspect_failures = 0;
  pid = 0;
  driver = none;
  taken_over = false;
  takeover_connected = false;
  machine_stopped = false;
  startup_sent = false;
  legacy_session = false;
  pending_wakes = [];
  interrupt_failures = [];
  delivered = [];
  signal_listeners = 0;
  pending_signals = [];
  attached_connected = false;
  next_placement = 0;
  presence = zero_snapshot;
  presence_reported = zero_state;
  last_presence_report = 0;
  dashboard_stop_reported = false;
  next_presence_retry = 0;
  pending_presence_nudges = [];
  next_task_check = 0;
}

-- A write through a pointer.
abbrev pub update {ℓ} : {A : Type ℓ} → (ℕ → A) → ℕ → A → ℕ → A
update f p v q = if q == p then v else f q

abbrev pub put : ℕ → Managed → World → World
put p a w = record w { objects = update w.objects p a }

abbrev pub set_def : ℕ → Definition → World → World
set_def p d w = put p (record (w.objects p) { def = d }) w

-- `for _, a := range m.agents { if a.def.AgentID == id … }`: the first agent with the ID.
unfoldable pub find_agent : (ℕ → Managed) → String → List (String × ℕ) → Option ℕ
find_agent objects id [] = none
find_agent objects id ((name, p) ∷ rest) =
    if (objects p).def.agent_id == id then some p else find_agent objects id rest

-- Manager.save: whether the definition was written, and the world after the attempt.
abbrev pub write_disk {ℓ} : {A : Type ℓ} → (String → Option A) → String → A → String → Option A
write_disk f k v j = if j == k then some v else f j

unfoldable pub save : Env → ℕ → World → Bool × World
save env p w =
    if env.write_ok w.writes
    then (
      true,
      record w {
        writes = suc w.writes;
        disk = write_disk w.disk (w.objects p).def.agent_id (w.objects p).def;
      },
    )
    else (false, record w { writes = suc w.writes })

-- agentlock.Acquire: a lock file that this process or another holds is refused.
unfoldable pub lock_free_here : Env → String → World → Bool
lock_free_here env id w = env.lock_free id && not (any (λ j. j == id) w.locks)

unfoldable pub drop_lock : String → List String → List String
drop_lock id [] = []
drop_lock id (j ∷ js) = let rest = drop_lock id js in if j == id then rest else j ∷ rest

-- Manager.acquire
unfoldable pub acquire : Env → ℕ → World → Bool × World
unfolding lock_free_here
acquire env p w =
    let a = w.objects p in
    if a.locked
    then (true, w)
    else if lock_free_here env a.def.agent_id w
    then (true, put p (record a { locked = true }) (record w { locks = a.def.agent_id ∷ w.locks }))
    else (false, w)

-- Manager.release
unfoldable pub release : ℕ → World → World
unfolding drop_lock
release p w =
    let a = w.objects p in
    if a.locked
    then put p (record a { locked = false }) (record w { locks = drop_lock a.def.agent_id w.locks })
    else w

-- The first `n` characters of a text.
unfoldable pub take_text : ℕ → String → String
take_text zero s = ""
take_text (suc n) String.[] = ""
take_text (suc n) (String.◌∷◌ c s) = String.◌∷◌ c (take_text n s)

-- Manager.stepPresence
unfoldable pub start_presence : String → Time → Snapshot → Snapshot
start_presence program now s =
    if is_zero s.state.since then Presence.new (if program == "" then "pi" else program) now else s

abbrev pub with_nudge : List Nudge → Nudge → List Nudge
with_nudge ns no_nudge = ns
with_nudge ns n = ns ++ n ∷ []

unfoldable pub step_presence : ℕ → Event → World → World
unfolding start_presence take_text
step_presence p e w =
    if not w.state_report
    then w
    else let a = w.objects p in
      let short = record e { reason = take_text 120 e.reason } in
      let (s, nudge) = Presence.step (start_presence a.def.program e.at a.presence) short in
      put p
        (record a {
          presence = s;
          pending_presence_nudges = with_nudge a.pending_presence_nudges nudge;
        })
        w

-- Manager.emitAgentEvent and emitAttached: the engine steps, and the subscribers get the event.
unfoldable pub emit_agent_event : ℕ → AgentEvent → World → World
unfolding step_presence
emit_agent_event p e w =
    let w' = step_presence p e.event w in record w' { emitted = w'.emitted ++ e ∷ [] }

unfoldable pub emit_attached : Env → ℕ → EventKind → String → World → World
unfolding emit_agent_event
emit_attached env p kind reason w =
    emit_agent_event p
      (record {
        agent_id = (w.objects p).def.agent_id;
        event = record {
          kind = kind;
          at = env.now;
          logical = no_logical;
          reason = reason;
          task_number = "";
        };
      })
      w
