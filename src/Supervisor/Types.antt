-- ===== src/Supervisor/Types.antt =====
-- The data of internal/supervisor (api.go, supervisor.go, attached.go).
--
-- A text that the code compares with fixed values is a data type with one constructor for each value
-- and one for any other text. A time written as text is `some t`, or `none` where the text does not
-- parse. A process ID that is not positive is 0.
use ac_cli.Prelude.{
  ℕ, String, ◌≡◌, ◌↔◌, Bool, true, false, List, Option, arith, ◌==◌, Comparable, string_eq, eq_iff,
}
use ac_cli.Presence.Clock.{Time}
use ac_cli.Presence.Types.{Snapshot, State, Nudge}

pub data Kind : Type 0 where
  no_kind started attached : Kind
  other_kind : String → Kind

pub data Mode : Type 0 where
  no_mode tmux headless attached_mode : Mode
  other_mode : String → Mode

pub data Desired : Type 0 where
  no_desired running stopped : Desired
  other_desired : String → Desired

-- AgentDefinition.State
pub data RunState : Type 0 where
  no_state running stopped starting crashed taken_over stopped_by_dashboard : RunState
  other_state : String → RunState

abbrev kind_beq : Kind → Kind → Bool
kind_beq no_kind no_kind = true
kind_beq started started = true
kind_beq attached attached = true
kind_beq (other_kind s) (other_kind t) = s == t
kind_beq _ _ = false

pub kind_beq_iff : (a b : Kind) → (kind_beq a b ≡ true) ↔ (a ≡ b)
kind_beq_iff (other_kind s) (other_kind t) = ground (arith, eq_iff s t)
kind_beq_iff (other_kind s) _ = ground arith
kind_beq_iff no_kind b = ground arith
kind_beq_iff _ b = ground arith

instance abbrev pub kind_eq : Comparable Kind
kind_eq = record { equal = kind_beq; equal_iff = kind_beq_iff }

abbrev mode_beq : Mode → Mode → Bool
mode_beq no_mode no_mode = true
mode_beq tmux tmux = true
mode_beq headless headless = true
mode_beq attached_mode attached_mode = true
mode_beq (other_mode s) (other_mode t) = s == t
mode_beq _ _ = false

pub mode_beq_iff : (a b : Mode) → (mode_beq a b ≡ true) ↔ (a ≡ b)
mode_beq_iff (other_mode s) (other_mode t) = ground (arith, eq_iff s t)
mode_beq_iff (other_mode s) _ = ground arith
mode_beq_iff no_mode b = ground arith
mode_beq_iff _ b = ground arith

instance abbrev pub mode_eq : Comparable Mode
mode_eq = record { equal = mode_beq; equal_iff = mode_beq_iff }

abbrev desired_beq : Desired → Desired → Bool
desired_beq no_desired no_desired = true
desired_beq running running = true
desired_beq stopped stopped = true
desired_beq (other_desired s) (other_desired t) = s == t
desired_beq _ _ = false

pub desired_beq_iff : (a b : Desired) → (desired_beq a b ≡ true) ↔ (a ≡ b)
desired_beq_iff (other_desired s) (other_desired t) = ground (arith, eq_iff s t)
desired_beq_iff (other_desired s) _ = ground arith
desired_beq_iff no_desired b = ground arith
desired_beq_iff _ b = ground arith

instance abbrev pub desired_eq : Comparable Desired
desired_eq = record { equal = desired_beq; equal_iff = desired_beq_iff }

abbrev run_state_beq : RunState → RunState → Bool
run_state_beq no_state no_state = true
run_state_beq running running = true
run_state_beq stopped stopped = true
run_state_beq starting starting = true
run_state_beq crashed crashed = true
run_state_beq taken_over taken_over = true
run_state_beq stopped_by_dashboard stopped_by_dashboard = true
run_state_beq (other_state s) (other_state t) = s == t
run_state_beq _ _ = false

pub run_state_beq_iff : (a b : RunState) → (run_state_beq a b ≡ true) ↔ (a ≡ b)
run_state_beq_iff (other_state s) (other_state t) = ground (arith, eq_iff s t)
run_state_beq_iff (other_state s) _ = ground arith
run_state_beq_iff no_state b = ground arith
run_state_beq_iff _ b = ground arith

instance abbrev pub run_state_eq : Comparable RunState
run_state_eq = record { equal = run_state_beq; equal_iff = run_state_beq_iff }

-- TakeoverProcess
pub record Process : Type 0 where
  pub pid : ℕ
  pub start_time : String

-- PiProcess
pub record PiProcess : Type 0 where
  pub pid : ℕ
  pub pgid : ℕ
  pub start_time : String
  pub cmdline : String

pub record Exit : Type 0 where
  pub at : Option Time
  pub code : ℕ
  pub signal : String

-- AgentDefinition. `version` and `nudge` are left out: no modelled code reads them.
pub record Definition : Type 0 where
  pub kind : Kind
  pub session_pid : ℕ
  pub session_start : String
  pub program : String
  pub session_id : String
  pub offset : ℕ
  pub revision : ℕ
  pub agent_id : String
  pub name : String
  pub organization : String
  pub workstream : String
  pub work_folder : String
  pub repos : List String
  pub harness : String
  pub mode : Mode
  pub desired : Desired
  pub state : RunState
  pub reason : String
  pub crashes : List Time
  pub last_exit : Option Exit
  pub pi : Option PiProcess
  pub takeover : Option Process
  pub takeover_since : Option Time
  pub session_migrated : Bool
  pub session_started_at : Option Time

-- agentapi.Notification
pub record Notification : Type 0 where
  pub type : String
  pub message_id : String
  pub sender_id : String
  pub kind : String
  pub priority : String

-- SessionSignal
pub record Signal : Type 0 where
  pub type : String
  pub text : String

-- managed. `driver` is the identity of the driver object; `locked` says that the agent's file lock is
-- held here; `signal_listeners` counts the open signal subscriptions. Channels, the log file and the
-- notice writer are left out.
pub record Managed : Type 0 where
  pub def : Definition
  pub locked : Bool
  pub next_start : Time
  pub next_poll : Time
  pub next_retry : Time
  pub failures : ℕ
  pub inspect_failures : ℕ
  pub pid : ℕ
  pub driver : Option ℕ
  pub taken_over : Bool
  pub takeover_connected : Bool
  pub machine_stopped : Bool
  pub startup_sent : Bool
  pub legacy_session : Bool
  pub pending_wakes : List Notification
  pub interrupt_failures : List (String × ℕ)
  pub delivered : List String
  pub signal_listeners : ℕ
  pub pending_signals : List Signal
  pub attached_connected : Bool
  pub next_placement : Time
  pub presence : Snapshot
  pub presence_reported : State
  pub last_presence_report : Time
  pub dashboard_stop_reported : Bool
  pub next_presence_retry : Time
  pub pending_presence_nudges : List Nudge
  pub next_task_check : Time
