-- ===== src/Supervisor/Lifecycle.antt =====
-- internal/supervisor: `validate`, `Start`, `Mode` (supervisor.go), `Stage` and
-- `MarkRevision` (definitions.go).
--
-- What follows a start's record in the map and on the disk, the launch of tmux or of a driver, is the
-- argument `launch`. `Stop` is the child module of that name. `is_abs` is `filepath.IsAbs`.
pub mod Starts
pub mod Refused
pub mod Edits
pub mod Stop
use ac_cli.Prelude.{
  ℕ, suc, String, Bool, true, false, not, ◌&&◌, ◌||◌, Option, none, some, List, [], ◌∷◌, leb, ltb,
  ◌==◌, ◌!=◌, if◌then◌else◌, string_eq, nat_eq, lookup, insert, is_some, is_none, valid_name,
}
use ac_cli.Presence.Types.{dashboard_stop}
use ac_cli.Supervisor.Types.{
  Kind, no_kind, started, attached, kind_eq, Mode, no_mode, tmux, headless, attached_mode, mode_eq,
  Desired, desired_eq, RunState, starting, taken_over, stopped_by_dashboard, run_state_eq,
  Definition, Managed,
}
use ac_cli.Supervisor.World.{
  Env, World, zero_managed, put, set_def, find_agent, save, acquire, release, emit_attached,
}
use ac_cli.Supervisor.Sessions.{Window}

pub data Error : Type 0 where
  invalid_definition invalid_attached invalid_desired unsupported_mode : Error
  machine_stopping identity_held agent_taken_over name_of_other attached_agent : Error
  running_other_mode not_locked not_saved launch_failed not_exist not_stopped exists : Error
  stop_failed : Error

-- `nil`, or an error.
abbrev pub Outcome : Type 0
Outcome = Option Error

-- validate
unfoldable pub validate : (String → Bool) → Definition → Outcome
validate is_abs d =
    if not (valid_name d.name)
      || (d.agent_id == "" || (d.kind != no_kind && (d.kind != started && d.kind != attached)))
    then some invalid_definition
    else if d.kind == attached
    then (if d.desired != Desired.running
          || ((d.program != "pi" && d.program != "other")
              || (d.session_pid == 0
                  || (d.session_start == ""
                      || (d.mode != attached_mode
                          || (d.state != RunState.running
                              && (d.state != RunState.stopped
                                  && d.state != stopped_by_dashboard))))))
        then some invalid_attached
        else none)
    else if d.workstream == "" || (d.work_folder == "" || not (is_abs d.work_folder))
    then some invalid_definition
    else if d.desired != Desired.running && d.desired != Desired.stopped
    then some invalid_desired
    else if (d.harness != "" && d.harness != "pi")
        || (d.mode != no_mode && (d.mode != tmux && d.mode != headless))
    then some unsupported_mode
    else none

-- `a.takenOver || a.def.Takeover != nil || a.def.State == "taken-over"`
abbrev pub is_taken_over : Managed → Bool
is_taken_over a = a.taken_over || (is_some a.def.takeover || a.def.state == taken_over)

-- `for name, existing := range m.agents { if name != def.Name && existing.def.AgentID == … }`
unfoldable pub held_elsewhere : (ℕ → Managed) → String → String → List (String × ℕ) → Bool
held_elsewhere objects name id [] = false
held_elsewhere objects name id ((n, p) ∷ rest) =
    let other = held_elsewhere objects name id rest in
    (n != name && (objects p).def.agent_id == id) || other

-- The tests of `Start` before a new object is put in the map.
unfoldable pub start_error : (String → Bool) → Definition → World → Outcome
start_error is_abs def w =
    if not (valid_name def.name)
      || (def.agent_id == "" || (def.workstream == "" || not (is_abs def.work_folder)))
    then some invalid_definition
    else if w.stopping_hold
    then some machine_stopping
    else if held_elsewhere w.objects def.name def.agent_id w.agents
    then some identity_held
    else elim (lookup def.name w.agents) [
      | none ↦ none
      | some p ↦
          if is_taken_over (w.objects p)
          then some agent_taken_over
          else if (w.objects p).def.agent_id != def.agent_id
          then some name_of_other
          else none
    ]

-- The object under the name: the one in the map, or a new one that enters it.
abbrev pub slot : String → World → ℕ
slot name w = elim (lookup name w.agents) [ none ↦ w.next_object | some p ↦ p ]

unfoldable pub enter_slot : String → World → World
enter_slot name w = elim (lookup name w.agents) [
  | none ↦
      put w.next_object zero_managed
        (record w { next_object = suc w.next_object; agents = insert name w.next_object w.agents })
  | some p ↦ w
]

-- `if def.Mode == "" { def.Mode = old.Mode }; if def.Mode == "" { def.Mode = "tmux" }`
abbrev pub start_mode : Mode → Mode → Mode
start_mode wanted old =
    let first = if wanted == no_mode then old else wanted in
    if first == no_mode then tmux else first

-- The definition that a start writes.
unfoldable pub start_definition : Definition → Definition → Bool → Definition
start_definition def old legacy = record def {
  kind = started;
  harness = "pi";
  mode = start_mode def.mode old.mode;
  pi = old.pi;
  revision = old.revision;
  session_migrated = not legacy;
  desired = Desired.running;
  state = starting;
  reason = "";
  crashes = [];
  last_exit = none;
}

-- `Start` once the definition is set: the lock, the file, the launch.
unfoldable pub start_locked :
    Env → (World → Outcome × World) → Definition → ℕ → World → Outcome × World
start_locked env launch old p fresh =
    let (locked, held) = acquire env p fresh in
    let (saved, kept) = save env p held in
    if not locked
    then (some not_locked, set_def p old held)
    else if not saved
    then (some not_saved, kept)
    else launch kept

abbrev pub started_mode : Definition → Definition → Mode
started_mode def old = start_mode def.mode old.mode

abbrev pub is_legacy : Definition → Definition → Bool
is_legacy def old =
    old.agent_id != "" && (not old.session_migrated && old.work_folder == def.work_folder)

-- The tests of `Start` on the mode.
unfoldable pub start_mode_error : Definition → Definition → Outcome
start_mode_error def old =
    let mode = started_mode def old in
    if mode != tmux && mode != headless
    then some unsupported_mode
    else if old.desired == Desired.running && (old.mode != no_mode && old.mode != mode)
    then some running_other_mode
    else none

-- The rest of `Start`, on the object `p` in the map.
unfoldable pub start_record :
    Env → (World → Outcome × World) → Definition → ℕ → World → Outcome × World
start_record env launch def p w =
    let a = w.objects p in
    let legacy = is_legacy def a.def in
    let next = start_definition def a.def legacy in
    if a.def.kind == attached then (some attached_agent, w) else elim (start_mode_error def a.def) [
      | some e ↦ (some e, put p (record a { legacy_session = legacy }) w)
      | none ↦
          start_locked env launch a.def p (
            put p (record a { legacy_session = legacy; def = next; next_start = 0; failures = 0 })
              w)
    ]

-- Manager.Start
unfoldable pub start :
    Env → (World → Outcome × World) → (String → Bool) → Definition → World → Outcome × World
start env launch is_abs def w = elim (start_error is_abs def w) [
  | some e ↦ (some e, w)
  | none ↦ start_record env launch def (slot def.name w) (enter_slot def.name w)
]

mode_at : Env → Mode → ℕ → World → Outcome × World
mode_at env mode p w =
    let a = w.objects p in
    if a.def.kind == attached
    then (some attached_agent, w)
    else if is_taken_over a
    then (some agent_taken_over, w)
    else if a.def.desired != Desired.stopped
    then (some not_stopped, w)
    else let (saved, w') = save env p (set_def p (record a.def { mode = mode }) w) in
      if saved then (none, w') else (some not_saved, set_def p a.def w')

-- Manager.Mode
unfoldable pub set_mode : Env → String → Mode → World → Outcome × World
unfolding mode_at save
set_mode env name mode w =
    if mode != tmux && mode != headless
    then (some unsupported_mode, w)
    else elim (lookup name w.agents) [ none ↦ (some not_exist, w) | some p ↦ mode_at env mode p w ]

unfoldable pub revision_at : Env → ℕ → ℕ → World → Outcome × World
revision_at env revision p w =
    let a = w.objects p in
    if a.def.kind == attached
    then (some attached_agent, w)
    else if leb revision a.def.revision
    then (none, w)
    else let (saved, w') = save env p (set_def p (record a.def { revision = revision }) w) in
      if saved then (none, w') else (some not_saved, set_def p a.def w')

-- Manager.MarkRevision
unfoldable pub mark_revision : Env → String → ℕ → World → Outcome × World
unfolding revision_at save
mark_revision env name revision w = elim (lookup name w.agents) [
  | none ↦ (some not_exist, w)
  | some p ↦ revision_at env revision p w
]

-- Manager.Stage: the saved definition enters the map in a new object.
unfoldable pub stage : Env → (String → Bool) → Definition → World → Outcome × World
stage env is_abs d w =
    let def = record d {
      kind = started;
      harness = "pi";
      desired = Desired.stopped;
      state = RunState.stopped;
    } in
    let p = w.next_object in
    elim (validate is_abs def) [
      | some e ↦ (some e, w)
      | none ↦
          if is_some (lookup def.name w.agents)
          then (some exists, w)
          else if is_some (find_agent w.objects def.agent_id w.agents)
          then (some identity_held, w)
          else let placed =
              put p (record zero_managed { def = def }) (record w { next_object = suc p }) in
            let (saved, w') = save env p placed in
            if saved
            then (none, record w' { agents = insert def.name p w'.agents })
            else (some not_saved, w')
    ]
