-- ===== src/Reconciler/Apply.antt =====
-- internal/machinectl/reconcile.go: `apply`, `withLocalDefaults` and `definition`.
use ac_cli.Prelude.{
  String, Bool, not, ◌&&◌, ◌||◌, Option, none, some, [], ◌∷◌, ◌==◌, ◌!=◌, if◌then◌else◌, string_eq,
  nat_eq, is_none,
}
use ac_cli.Supervisor.Types.{
  no_mode, tmux, headless, mode_eq, Desired, desired_eq, RunState, taken_over, starting,
  run_state_eq, Definition,
}
use ac_cli.Supervisor.World.{zero_definition}
use ac_cli.Reconciler.Types.{
  Agent, Fault, other_fault, Call, prepare, join, stage, start, stop, set_mode, History, Outside,
}

-- A call is entered in the history and answered.
abbrev pub Step : Type 0
Step = Option Fault × History

abbrev pub call : Outside → Call → History → Step
call out c h = (out.fails (c ∷ h), c ∷ h)

-- `if err := …; err != nil { return err }`
infixl 5 ◌>>◌
abbrev pub ◌>>◌ : Step → (History → Step) → Step
(none, h) >> k = k h
(some f, h) >> k = (some f, h)

-- definition
unfoldable pub definition : Agent → Definition
definition d = record zero_definition {
  agent_id = d.agent_id;
  name = d.name;
  organization = d.organization;
  workstream = d.workstream;
  work_folder = d.work_folder;
  repos = elim d.repos [ none ↦ [] | some rs ↦ rs ];
  mode = d.mode;
}

abbrev default_text : String → String → String
default_text s t = if s == "" then t else s

-- withLocalDefaults
unfoldable pub with_local_defaults : Outside → History → Agent → Definition → Agent
with_local_defaults out h target local =
    let workstream = default_text target.workstream local.workstream in
    record target {
      name = default_text target.name local.name;
      desired = if target.desired == Desired.no_desired then local.desired else target.desired;
      mode = if target.mode == no_mode then local.mode else target.mode;
      work_folder = default_text target.work_folder local.work_folder;
      repos = if is_none target.repos then some local.repos else target.repos;
      workstream = workstream;
      organization =
          if target.organization == ""
          then elim (out.credential h local.workstream local.agent_id) [
            | none ↦ ""
            | some organization ↦ organization
          ]
          else target.organization;
    }

-- The tests at the top of `apply`.
unfoldable pub target_fault : Agent → Definition → Bool → Option Fault
target_fault target old exists =
    if target.agent_id == ""
      || (target.name == ""
          || ((target.desired != Desired.running && target.desired != Desired.stopped)
              || ((target.mode != headless && target.mode != tmux)
                  || (target.organization == "" || target.workstream == ""))))
    then some (other_fault "incomplete or invalid server definition")
    else if exists && old.name != target.name
    then some (other_fault "server changed agent name")
    else if exists && old.state == taken_over
    then some (other_fault "agent is taken over")
    else none

-- An agent that this machine does not have.
unfoldable pub apply_new : Outside → Agent → History → Step
apply_new out target h = call out (prepare target) h >> λ h'.
    if target.desired == Desired.stopped
    then call out (stage (definition target)) h'
    else call out (join target) h' >> call out (start (definition target))

-- `unchanged && (…)`: nothing to do.
unfoldable pub is_settled : Agent → Definition → Bool
is_settled target old =
    let unchanged =
      old.desired == target.desired
      && (old.mode == target.mode
          && (old.workstream == target.workstream && old.work_folder == target.work_folder)) in
    unchanged
    && (old.revision == 0
        || (target.desired != Desired.running
            || (old.state == RunState.running || old.state == starting)))

abbrev pub must_stop : Agent → Definition → Bool
must_stop target old =
    old.desired == Desired.running && (target.desired == Desired.stopped || target.mode != old.mode)

abbrev pub has_moved : Agent → Definition → Bool
has_moved target old = old.workstream != target.workstream || old.work_folder != target.work_folder

abbrev pub moving : Fault
moving = other_fault "moving an existing agent's workstream or folder requires a separate workflow"

-- The three parts of the change of an agent that is here.
unfoldable pub stop_first : Outside → Agent → Definition → History → Step
stop_first out target old h = if must_stop target old then call out (stop old.name) h else (none, h)

unfoldable pub change_mode : Outside → Agent → Definition → History → Step
change_mode out target old h =
    if target.mode != old.mode then call out (set_mode old.name target.mode) h else (none, h)

unfoldable pub start_again : Outside → Agent → Definition → History → Step
start_again out target old h =
    if target.desired == Desired.running
    then (if has_moved target old
        then (some moving, h)
        else call out (join target) h >> call out (start (definition target)))
    else (none, h)

unfoldable pub apply_change : Outside → Agent → Definition → History → Step
apply_change out target old h =
    stop_first out target old h >> change_mode out target old >> start_again out target old

-- AgentReconciler.apply
unfoldable pub apply : Outside → Agent → Definition → Bool → History → Step
apply out target old exists h = elim (target_fault target old exists) [
  | some f ↦ (some f, h)
  | none ↦
      if not exists
      then apply_new out target h
      else if is_settled target old
      then (none, h)
      else apply_change out target old h
]
