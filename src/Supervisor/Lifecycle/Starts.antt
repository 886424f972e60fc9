-- ===== src/Supervisor/Lifecycle/Starts.antt =====
-- `Start`: what holds before a launch, and why a start launches nothing.
use ac_cli.Prelude.{
  ℕ, String, ◌≡◌, refl, ap, ◌∙◌, ◌⊎◌, inl, inr, Bool, true, false, not, ◌&&◌, any, none, some,
  arith, ◌==◌, string_eq, eq_iff, nat_eq, nat_beq_iff, lookup, lookup-insert, Bool-cases,
  Option-cases,
}
use ac_cli.Supervisor.Types.{
  started, attached, kind_eq, kind_beq_iff, Managed, tmux, headless, mode_eq, Desired, starting,
  Definition, mode_beq_iff,
}
use ac_cli.Supervisor.World.{Env, World, put, set_def, save, acquire, lock_free_here}
use ac_cli.Supervisor.World.Frame.{save_frame}
use ac_cli.Supervisor.Lifecycle.{
  Error, not_locked, not_saved, attached_agent, Outcome, start_locked, start_mode_error,
  started_mode, is_legacy, start_error, start_record, start, slot, enter_slot, start_definition,
}

-- The agent is in the map, its lock is held, and its running definition is on the disk.
pub record IsReady (def : Definition) (p : ℕ) (w : World) : Type 0 where
  pub named : lookup def.name w.agents ≡ some p
  pub locked : (w.objects p).locked ≡ true
  pub saved : w.disk def.agent_id ≡ some (w.objects p).def
  pub kind : (w.objects p).def.kind ≡ started
  pub agent : (w.objects p).def.agent_id ≡ def.agent_id
  pub desired : (w.objects p).def.desired ≡ Desired.running
  pub state : (w.objects p).def.state ≡ starting
  pub mode : ((w.objects p).def.mode ≡ tmux) ⊎ ((w.objects p).def.mode ≡ headless)

acquire_lem :
    (env : Env) (p : ℕ) (w : World)
    → (acquire env p w).0 ≡ true
    → (((acquire env p w).1.objects p).locked ≡ true)
      × (((acquire env p w).1.objects p).def ≡ (w.objects p).def)
      × ((acquire env p w).1.agents ≡ w.agents)
unfolding acquire
acquire_lem env p w h = ground (arith, nat_beq_iff p p)

slot-enter_slot :
    (name : String) (w : World) → lookup name (enter_slot name w).agents ≡ some (slot name w)
unfolding enter_slot
slot-enter_slot name w =
    ground (arith, lookup-insert name name w.next_object w.agents, eq_iff name name)

-- The object under the name, before the start writes it.
abbrev pub previous : String → World → Managed
previous name w = (enter_slot name w).objects (slot name w)

-- Why a start of `def` is refused in the world `w`: a test of the definition or of the mode fails, the
-- agent is attached, its lock is not free, or its file cannot be written.
pub data Refusal (env : Env) (is_abs : String → Bool) (def : Definition) (w : World)
    : Error → Type 0 where
  tested : {e : Error} → start_error is_abs def w ≡ some e → Refusal env is_abs def w e
  moded :
      {e : Error}
      → start_mode_error def (previous def.name w).def ≡ some e
      → Refusal env is_abs def w e
  theirs :
      {e : Error}
      → (previous def.name w).def.kind ≡ attached
      → e ≡ attached_agent
      → Refusal env is_abs def w e
  elsewhere :
      {e : Error}
      → (env.lock_free def.agent_id && not (any (λ j. j == def.agent_id) w.locks)) ≡ false
      → e ≡ not_locked
      → Refusal env is_abs def w e
  unsaved : {e : Error} → env.write_ok w.writes ≡ false → e ≡ not_saved → Refusal env is_abs def w e

-- No launch, whatever it would do: an error for one of these reasons, and every file as it was. Or what
-- the launch makes of a world where the agent is ready.
abbrev pub LaunchesReady :
    Env
    → (String → Bool)
    → Definition
    → World
    → ((World → Outcome × World) → Outcome × World)
    → Type 0
LaunchesReady env is_abs def w run =
    ((e : Error) × (v : World) × ((launch : World → Outcome × World) → run launch ≡ (some e, v))
      × (v.disk ≡ w.disk)
      × Refusal env is_abs def w e)
    ⊎ ((v : World) × ((launch : World → Outcome × World) → run launch ≡ launch v)
        × IsReady def (slot def.name w) v)

-- What `start_locked` needs of the world that it is given.
record IsPrepared (def : Definition) (p : ℕ) (before w : World) : Type 0 where
  disk : w.disk ≡ before.disk
  locks : w.locks ≡ before.locks
  writes : w.writes ≡ before.writes
  named : lookup def.name w.agents ≡ some p
  kind : (w.objects p).def.kind ≡ started
  agent : (w.objects p).def.agent_id ≡ def.agent_id
  desired : (w.objects p).def.desired ≡ Desired.running
  state : (w.objects p).def.state ≡ starting
  mode : ((w.objects p).def.mode ≡ tmux) ⊎ ((w.objects p).def.mode ≡ headless)

saved-IsReady :
    (env : Env) (def : Definition) (p : ℕ) (before w : World)
    → IsPrepared def p before w
    → (acquire env p w).0 ≡ true
    → (save env p (acquire env p w).1).0 ≡ true
    → IsReady def p (save env p (acquire env p w).1).1
saved-IsReady env def p before w h locked saved =
    let (held, same, agents) = acquire_lem env p w locked in
    let (agents', _, _, objects, _, disk) = save_frame env p (acquire env p w).1 in
    let id : ((acquire env p w).1.objects p).def.agent_id ≡ def.agent_id =
      ap (λ (d : Definition). d.agent_id) same ∙ h.agent in
    record {
      named = rw (agents', agents) h.named;
      locked = rw objects held;
      saved = rw objects (rw id at (disk saved));
      kind = rw (objects, same) h.kind;
      agent = rw (objects, same) h.agent;
      desired = rw (objects, same) h.desired;
      state = rw (objects, same) h.state;
      mode = rw (objects, same) h.mode;
    }

acquire_steady :
    (env : Env) (p : ℕ) (w : World)
    → ((acquire env p w).1.disk ≡ w.disk) × ((acquire env p w).1.writes ≡ w.writes)
unfolding acquire
acquire_steady env p w = ground arith

acquire_refused :
    (env : Env) (p : ℕ) (w : World)
    → (acquire env p w).0 ≡ false
    → let id = (w.objects p).def.agent_id in
      (env.lock_free id && not (any (λ j. j == id) w.locks)) ≡ false
unfolding acquire lock_free_here
acquire_refused env p w h = ground arith

save_refused :
    (env : Env) (p : ℕ) (w : World) → (save env p w).0 ≡ false → env.write_ok w.writes ≡ false
unfolding save
save_refused env p w h = ground arith

start_locked-LaunchesReady :
    (env : Env) (is_abs : String → Bool) (def old : Definition) (before w : World)
    → IsPrepared def (slot def.name before) before w
    → LaunchesReady env is_abs def before
        (λ launch. start_locked env launch old (slot def.name before) w)
unfolding start_locked
start_locked-LaunchesReady env is_abs def old before w h =
    let p = slot def.name before in
    let held = (acquire env p w).1 in
    let (same_disk, same_writes) = acquire_steady env p w in
    elim (Bool-cases (acquire env p w).0) [
      | inr free ↦ inl (
        not_locked,
        set_def p old held,
        λ launch. rw (free, start_locked) refl,
        same_disk ∙ h.disk,
        elsewhere (rw (h.agent, h.locks) at (acquire_refused env p w free)) refl,
      )
      | inl locked ↦ elim (Bool-cases (save env p held).0) [
        | inr lost ↦ inl (
          not_saved,
          (save env p held).1,
          λ launch. rw (locked, lost, start_locked) refl,
          (save_frame env p held).4 lost ∙ same_disk ∙ h.disk,
          unsaved (rw (same_writes, h.writes) at (save_refused env p held lost)) refl,
        )
        | inl saved ↦ inr (
          (save env p held).1,
          λ launch. rw (locked, saved, start_locked) refl,
          saved-IsReady env def p before w h locked saved,
        )
      ]
    ]

mode_lem :
    (def old : Definition)
    → start_mode_error def old ≡ none
    → (started_mode def old ≡ tmux) ⊎ (started_mode def old ≡ headless)
unfolding start_mode_error
mode_lem def old h =
    ground (
      arith,
      mode_beq_iff (started_mode def old) tmux,
      mode_beq_iff (started_mode def old) headless,
    )

-- The name is entered before the tests on the record: no file is written.
enter_steady :
    (name : String) (w : World)
    → ((enter_slot name w).disk ≡ w.disk)
      × ((enter_slot name w).locks ≡ w.locks)
      × ((enter_slot name w).writes ≡ w.writes)
unfolding enter_slot
enter_steady name w = ground arith

prepared :
    (def : Definition) (w : World)
    → start_mode_error def (previous def.name w).def ≡ none
    → let a = previous def.name w in
      let legacy = is_legacy def a.def in
      IsPrepared def (slot def.name w) w (
        put
          (slot def.name w)
          (record a {
            legacy_session = legacy;
            def = start_definition def a.def legacy;
            next_start = 0;
            failures = 0;
          })
          (enter_slot def.name w))
unfolding start_definition
prepared def w m =
    let p = slot def.name w in
    let (disk, locks, writes) = enter_steady def.name w in
    record {
      disk = disk;
      locks = locks;
      writes = writes;
      named = slot-enter_slot def.name w;
      kind = ground (arith, nat_beq_iff p p);
      agent = ground (arith, nat_beq_iff p p);
      desired = ground (arith, nat_beq_iff p p);
      state = ground (arith, nat_beq_iff p p);
      mode = ground (arith, mode_lem def (previous def.name w).def, nat_beq_iff p p);
    }

start_record-LaunchesReady :
    (env : Env) (is_abs : String → Bool) (def : Definition) (w : World)
    → LaunchesReady env is_abs def w
        (λ launch. start_record env launch def (slot def.name w) (enter_slot def.name w))
unfolding start_record
start_record-LaunchesReady env is_abs def w =
    let a = previous def.name w in
    let entered = enter_slot def.name w in
    let steady = (enter_steady def.name w).0 in
    elim (Bool-cases (a.def.kind == attached)) [
      | inl theirs_now ↦ inl (
        attached_agent,
        entered,
        λ launch. rw (theirs_now, start_record) refl,
        steady,
        theirs ((kind_beq_iff a.def.kind attached).0 theirs_now) refl,
      )
      | inr ours ↦ elim (Option-cases (start_mode_error def a.def)) [
        | inr (e, bad) ↦ inl (
          e,
          put (slot def.name w) (record a { legacy_session = is_legacy def a.def }) entered,
          λ launch. rw (ours, bad, start_record) refl,
          steady,
          moded bad,
        )
        | inl good ↦
            elim (start_locked-LaunchesReady env is_abs def a.def w _ (prepared def w good)) [
              | inl (e, v, same, disk, why) ↦
                  inl (e, v, λ launch. rw (ours, good, start_record) (same launch), disk, why)
              | inr (v, same, ready) ↦
                  inr (v, λ launch. rw (ours, good, start_record) (same launch), ready)
            ]
      ]
    ]

-- A start is of one of two kinds. Either it launches nothing, whatever the launch would do: then it ends
-- with an error, no file has changed, and a test of the definition or of the mode failed, or the agent
-- is attached, or its lock is not free, or its file could not be written. Or it is exactly what the
-- launch makes of a world in which the agent is in the map, its lock is held here and its definition, of
-- kind "started", desired "running", state "starting" and mode tmux or headless, is on the disk.
pub start-LaunchesReady :
    (env : Env) (is_abs : String → Bool) (def : Definition) (w : World)
    → LaunchesReady env is_abs def w (λ launch. start env launch is_abs def w)
unfolding start
start-LaunchesReady env is_abs def w = elim (Option-cases (start_error is_abs def w)) [
  | inr (e, bad) ↦ inl (e, w, λ launch. rw (bad, start) refl, refl, tested bad)
  | inl good ↦ elim (start_record-LaunchesReady env is_abs def w) [
    | inl (e, v, same, disk, why) ↦ inl (e, v, λ launch. rw (good, start) (same launch), disk, why)
    | inr (v, same, ready) ↦ inr (v, λ launch. rw (good, start) (same launch), ready)
  ]
]
