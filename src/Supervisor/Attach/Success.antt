-- ===== src/Supervisor/Attach/Success.antt =====
-- What an attachment that succeeds leaves behind.
use ac_cli.Prelude.{
  ℕ, String, ◌≡◌, refl, sym, ap, ◌∙◌, inl, inr, ◌||◌, Bool, true, false, Option, none, some, arith,
  string_eq, eq_iff, nat_eq, nat_beq_iff, lookup, lookup-insert, lookup-delete, Bool-cases, not,
  valid_name, if◌then◌else◌, is_some,
}
use ac_cli.Supervisor.Types.{attached, Definition}
use ac_cli.Supervisor.World.{Env, World, Claim, save, put, find_agent}
use ac_cli.Supervisor.World.Frame.{IsFramed, emit_attached-IsFramed, save_frame}
use ac_cli.Supervisor.Sessions.{ok, Window}
use ac_cli.Supervisor.Attach.{
  Attachment, attached_definition, attach_save, attach_record, attach_replace, attach_agent, attach,
  collides, first_event, enter, takes_lock, attach_name, target, reserve,
}

-- The session `p` holds the record at `q`, under its name, with the lock, and it is on the disk.
pub record IsAttached (c : Option Claim) (p : Attachment) (q : ℕ) (w : World) : Type 0 where
  pub named : lookup (w.objects q).def.name w.agents ≡ some q
  pub kind : (w.objects q).def.kind ≡ attached
  pub agent : (w.objects q).def.agent_id ≡ p.agent_id
  pub pid : (w.objects q).def.session_pid ≡ p.session_pid
  pub start : (w.objects q).def.session_start ≡ p.session_start
  pub workstream : (w.objects q).def.workstream ≡ p.workstream
  pub locked : (w.objects q).locked ≡ true
  pub saved : w.disk p.agent_id ≡ some (w.objects q).def
  pub claimed : is_some c ≡ true → lookup p.agent_id w.claims ≡ none

IsAttached-framed :
    (c : Option Claim) (p : Attachment) (q : ℕ) (w v : World)
    → IsFramed w v
    → IsAttached c p q w
    → IsAttached c p q v
IsAttached-framed c p q w v f h = record {
  named = rw (f.agents, f.defs) h.named;
  kind = rw f.defs h.kind;
  agent = rw f.defs h.agent;
  pid = rw f.defs h.pid;
  start = rw f.defs h.start;
  workstream = rw f.defs h.workstream;
  locked = rw f.locked h.locked;
  saved = rw (f.disk, f.defs) h.saved;
  claimed = rw f.claims h.claimed;
}

IsFramed-refl : (w : World) → IsFramed w w
IsFramed-refl w = record {
  agents = refl;
  claims = refl;
  locks = refl;
  disk = refl;
  writes = refl;
  defs = λ q. refl;
  locked = λ q. refl;
}

IsFramed-if :
    (b : Bool) (w u v : World) → IsFramed w u → IsFramed w v → IsFramed w (if b then u else v)
IsFramed-if true w u v hu hv = hu
IsFramed-if false w u v hu hv = hv

first_event-IsFramed :
    (env : Env) (q : ℕ) (p : Attachment) (w : World) → IsFramed w (first_event env q p w)
unfolding first_event
first_event-IsFramed env q p w =
    IsFramed-if _ w _ _
      (IsFramed-if _ w _ _ (emit_attached-IsFramed env q _ "no listener" w) (IsFramed-refl w))
      (emit_attached-IsFramed env q _ "" w)

-- The world that is written: the new definition, with the claim's lock.
abbrev ready : Option Claim → ℕ → Definition → World → World
ready c q next w =
    put q (record (w.objects q) { def = next; locked = (w.objects q).locked || takes_lock c }) w

attach_save-ok :
    (env : Env) (c : Option Claim) (old : Option ℕ) (q : ℕ) (previous next : Definition)
    (name : String) (p : Attachment) (w : World)
    → (attach_save env c old q previous next name p w).0 ≡ ok tt
    → let (saved, v) = save env q (ready c q next w) in
      (((w.objects q).locked || takes_lock c) ≡ true)
      × (saved ≡ true)
      × ((attach_save env c old q previous next name p w).1
          ≡ first_event env q p (enter env c q name p v))
unfolding attach_save
attach_save-ok env c old q previous next name p w h = ground arith

enter-IsAttached :
    (env : Env) (c : Option Claim) (q : ℕ) (name : String) (p : Attachment) (v : World)
    → (v.objects q).def.name ≡ name
    → (v.objects q).def.kind ≡ attached
    → (v.objects q).def.agent_id ≡ p.agent_id
    → (v.objects q).def.session_pid ≡ p.session_pid
    → (v.objects q).def.session_start ≡ p.session_start
    → (v.objects q).def.workstream ≡ p.workstream
    → (v.objects q).locked ≡ true
    → v.disk p.agent_id ≡ some (v.objects q).def
    → IsAttached c p q (enter env c q name p v)
enter-IsAttached env none q name p v a b d e f g l k = ground (
  arith,
  lookup-insert name (v.objects q).def.name q v.agents,
  eq_iff name (v.objects q).def.name,
)
enter-IsAttached env (some c) q name p v a b d e f g l k = ground (
  arith,
  lookup-insert name (v.objects q).def.name q v.agents,
  eq_iff name (v.objects q).def.name,
  lookup-delete p.agent_id p.agent_id v.claims,
  eq_iff p.agent_id p.agent_id,
)

-- The object of `q` in the written world.
written :
    (env : Env) (c : Option Claim) (q : ℕ) (next : Definition) (w : World)
    → let v = (save env q (ready c q next w)).1 in
      ((v.objects q).def ≡ next)
      × ((v.objects q).locked ≡ ((w.objects q).locked || takes_lock c))
      × ((save env q (ready c q next w)).0 ≡ true → v.disk next.agent_id ≡ some next)
written env c q next w = ground (arith, save_frame env q (ready c q next w), nat_beq_iff q q)

attach_save-IsAttached :
    (env : Env) (spool : String → Option ℕ) (resumed : Bool) (c : Option Claim) (old : Option ℕ)
    (q : ℕ) (previous : Definition) (name : String) (p : Attachment) (w : World)
    → let next = attached_definition spool resumed previous name p in
      (attach_save env c old q previous next name p w).0 ≡ ok tt
      → IsAttached c p q (attach_save env c old q previous next name p w).1
unfolding attached_definition
attach_save-IsAttached env spool resumed c old q previous name p w h =
    let next = attached_definition spool resumed previous name p in
    let (locked, saved, result) = attach_save-ok env c old q previous next name p w h in
    let (def, lock, disk) = written env c q next w in
    let v = (save env q (ready c q next w)).1 in
    rw result (
      IsAttached-framed c p q (enter env c q name p v) _
        (first_event-IsFramed env q p (enter env c q name p v))
        (enter-IsAttached env c q name p v (ap (λ (d : Definition). d.name) def)
          (ap (λ (d : Definition). d.kind) def) (ap (λ (d : Definition). d.agent_id) def)
          (ap (λ (d : Definition). d.session_pid) def)
          (ap (λ (d : Definition). d.session_start) def) (ap (λ (d : Definition). d.workstream) def)
          (lock ∙ locked) (disk saved ∙ ap some (sym def))))

-- There is a record for which the session holds.
abbrev pub HasSession : Option Claim → Attachment → World → Type 0
HasSession c p w = (q : ℕ) × IsAttached c p q w

module _ (c : Option Claim) (p : Attachment) where
  attach_record-ok :
      (env : Env) (spool : String → Option ℕ) (old : Option ℕ) (w : World)
      → (attach_record env spool c old p w).0 ≡ ok tt
      → HasSession c p (attach_record env spool c old p w).1
  unfolding attach_record
  attach_record-ok env spool old w h = elim (Bool-cases (not (valid_name (attach_name old p w)))) [
    | inl bad ↦ cc (rw (bad, attach_record) at h)
    | inr good ↦ elim (Bool-cases (collides (attach_name old p w) old w)) [
      | inl taken ↦ cc (rw (good, taken, attach_record) at h)
      | inr free ↦
          rw (good, free, attach_record)
            (
              target old w,
              attach_save-IsAttached env spool (is_some old) c old (target old w)
                  ((reserve old w).objects (target old w)).def (attach_name old p w) p
                  (reserve old w) (rw (good, free, attach_record) at h),
            )
    ]
  ]

  attach_replace-ok :
      (env : Env) (window : Window) (spool : String → Option ℕ) (q : ℕ) (w : World)
      → (attach_replace env window spool c q p w).0 ≡ ok tt
      → HasSession c p (attach_replace env window spool c q p w).1
  unfolding attach_replace
  attach_replace-ok env window spool q w h =
      ground (arith, attach_record-ok window.env spool (some q) (window.others w))

  attach_agent-ok :
      (env : Env) (window : Window) (spool : String → Option ℕ) (found : Option ℕ) (w : World)
      → (attach_agent env window spool c found p w).0 ≡ ok tt
      → HasSession c p (attach_agent env window spool c found p w).1
  unfolding attach_agent
  attach_agent-ok env window spool none w h = attach_record-ok env spool none w h
  attach_agent-ok env window spool (some q) w h =
      ground (arith, attach_record-ok env spool (some q) w, attach_replace-ok env window spool q w)

  -- An attachment that succeeds leaves a record of kind "attached" in the map under its name, with the
  -- process, the start time and the workstream that were asked for, the agent's lock held, the same
  -- record on the disk, and no claim of the agent pending if it came with one. This holds whatever
  -- other calls do while the lock is free.
  pub attach-ok :
      (env : Env) (window : Window) (spool : String → Option ℕ) (w : World)
      → (attach env window spool c p w).0 ≡ ok tt
      → HasSession c p (attach env window spool c p w).1
  unfolding attach
  attach-ok env window spool w h =
      ground (arith, attach_agent-ok env window spool (find_agent w.objects p.agent_id w.agents) w)
