-- ===== src/Reconciler/Types.antt =====
-- The data of internal/machinectl (api.go, reconcile.go), and what a check meets outside.
--
-- A check makes calls of the server, the manager and the workspace. The `History` lists the calls made
-- so far, the newest first, and what a call answers is any function of the history that ends with it
-- (`Outside`). A revision below 1 is 0.
use ac_cli.Prelude.{ℕ, String, Bool, Option, List}
use ac_cli.Presence.Clock.{Time}
use ac_cli.Supervisor.Types.{Mode, Desired, Definition}

-- Agent; `repos` is `none` for a nil slice.
pub record Agent : Type 0 where
  pub agent_id : String
  pub name : String
  pub desired : Desired
  pub mode : Mode
  pub repos : Option (List String)
  pub work_folder : String
  pub organization : String
  pub workstream : String
  pub joined_organization : String
  pub joined_workstream : String
  pub revision : ℕ

pub record Seed : Type 0 where
  pub agent_id : String
  pub desired : Desired
  pub mode : Mode
  pub repos : List String
  pub work_folder : String
  pub organization : String
  pub workstream : String

-- An error with its text: HTTPStatusError, SeedResultError with its agent and status, any other.
pub data Fault : Type 0 where
  http_status : ℕ → String → Fault
  seed_result : String → String → String → Fault
  other_fault : String → Fault

abbrev pub message : Fault → String
message (http_status n s) = s
message (seed_result id status s) = s
message (other_fault s) = s

-- A call, with the agent it is about. `report` tells whether the revision was applied.
pub data Call : Type 0 where
  flush read_definitions : Call
  send_seed : Seed → Call
  prepare join : Agent → Call
  stage start : Definition → Call
  stop : String → Call
  set_mode : String → Mode → Call
  report : String → ℕ → Bool → String → Call
  mark : String → ℕ → Call

abbrev pub History : Type 0
History = List Call

pub record Outside : Type 0 where
  pub fails : History → Option Fault
  pub remote : History → List Agent
  pub skipped : History → List String
  pub definitions : History → List Definition
  pub attached : History → String → Bool
  -- Store.FindByAgent: the credential's organization, or the error.
  pub credential : History → String → String → Option String
  pub credential_fault : History → String → String → Fault
  pub cancelled : History → Option Fault
  pub now : History → Time
  pub short_reason : String → String

-- retryFailure
pub record RetryFailure : Type 0 where
  pub revision : ℕ
  pub until : Time
  pub text : String

-- The entries of `failures`.
pub data Failure : Type 0 where
  seed_failed : String → Fault → Failure
  apply_failed : String → Fault → Failure
  deferred : String → String → Failure
  call_failed : Fault → Failure

-- AgentReconciler with the state of a check: the calls made, and the failures, the newest first.
pub record Check : Type 0 where
  pub failed : List (String × RetryFailure)
  pub seed_rejected : List String
  pub history : History
  pub failures : List Failure
