-- ===== src/Presence/Types.antt =====
-- The types of internal/agentstate/state.go, with their equality tests.
use ac_cli.Prelude.{
  String, ◌≡◌, ◌↔◌, Bool, true, false, ◌&&◌, arith, ◌==◌, Comparable, string_eq, nat_eq, eq_iff,
}
use ac_cli.Presence.Clock.{Time}

pub data Physical : Type 0 where
  no_physical running stopped : Physical

pub data Logical : Type 0 where
  no_logical working idle waiting no_activity unknown : Logical
  other_logical : String → Logical

abbrev pub physical_beq : Physical → Physical → Bool
physical_beq no_physical no_physical = true
physical_beq running running = true
physical_beq stopped stopped = true
physical_beq _ _ = false

pub physical_beq_iff : (a b : Physical) → (physical_beq a b ≡ true) ↔ (a ≡ b)
physical_beq_iff no_physical b = ground arith
physical_beq_iff _ b = ground arith

instance abbrev pub physical_eq : Comparable Physical
physical_eq = record { equal = physical_beq; equal_iff = physical_beq_iff }

abbrev pub logical_beq : Logical → Logical → Bool
logical_beq no_logical no_logical = true
logical_beq working working = true
logical_beq idle idle = true
logical_beq waiting waiting = true
logical_beq no_activity no_activity = true
logical_beq unknown unknown = true
logical_beq (other_logical s) (other_logical t) = s == t
logical_beq _ _ = false

pub logical_beq_iff : (a b : Logical) → (logical_beq a b ≡ true) ↔ (a ≡ b)
logical_beq_iff (other_logical s) (other_logical t) = ground (arith, eq_iff s t)
logical_beq_iff (other_logical s) _ = ground arith
logical_beq_iff no_logical b = ground arith
logical_beq_iff _ b = ground arith

instance abbrev pub logical_eq : Comparable Logical
logical_eq = record { equal = logical_beq; equal_iff = logical_beq_iff }

-- State: the wire state. The logical value is empty when stopped.
pub record State : Type 0 where
  pub physical : Physical
  pub logical : Logical
  pub reason : String
  pub since : Time

abbrev pub state_beq : State → State → Bool
state_beq a b =
    a.physical == b.physical
    && (a.logical == b.logical && (a.reason == b.reason && a.since == b.since))

pub state_beq_iff : (a b : State) → (state_beq a b ≡ true) ↔ (a ≡ b)
state_beq_iff a b = ground (
  arith,
  physical_beq_iff a.physical b.physical,
  logical_beq_iff a.logical b.logical,
  eq_iff a.reason b.reason,
)

instance abbrev pub state_eq : Comparable State
state_eq = record { equal = state_beq; equal_iff = state_beq_iff }

-- The kinds of event that the engine reads; any other text is `other_kind`.
pub data EventKind : Type 0 where
  session_alive session_exited no_listener crashed machine_stopping dashboard_stop : EventKind
  run_start turn tool_start tool_end rpc run_end : EventKind
  approval_pending approval_clear task_blocked task_in_flight task_clear : EventKind
  explicit_state tick : EventKind
  other_kind : String → EventKind

pub record Event : Type 0 where
  pub kind : EventKind
  pub at : Time
  pub logical : Logical
  pub reason : String
  pub task_number : String

pub record Snapshot : Type 0 where
  pub state : State
  pub program : String
  pub in_run : Bool
  pub last_activity : Time
  pub approval : String
  pub blocked : String
  pub in_flight : String
  pub explicit : Logical
  pub explicit_reason : String
  pub nudged_no_activity : Bool
  pub nudged_in_flight : Bool

pub data Nudge : Type 0 where
  no_nudge nudge_no_activity nudge_in_flight : Nudge
