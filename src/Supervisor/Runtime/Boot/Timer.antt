-- ===== src/Supervisor/Runtime/Boot/Timer.antt =====
-- The restart delay of an agent survives a restart of the daemon.
use ac_cli.Prelude.{
  ℕ, ◌+◌, String, ◌≡◌, refl, sym, ap, ◌∙◌, Bool, true, false, none, some, arith, ◌==◌, string_eq,
  lookup, length,
}
use mathlib.Core.Path.{subst}
use ac_cli.Supervisor.Types.{kind_eq, mode_eq, desired_eq, RunState, run_state_eq, Managed}
use ac_cli.Supervisor.World.{Env, World, put, save}
use ac_cli.Supervisor.World.Frame.{save_frame}
use ac_cli.Supervisor.Crash.{backoff, note_exit}
use ac_cli.Supervisor.Runtime.Outside.{Pane, saved_as}
use ac_cli.Supervisor.Runtime.Tmux.{counted_at, watch_dead}
use ac_cli.Supervisor.Runtime.Boot.{Adoption, boot_agent}
use ac_cli.Supervisor.Runtime.Boot.Resuming.{IsOurs, put_self, boot_resumes}

-- A pane that is found dead, whose exit is not counted yet.
abbrev pub exited : Env → Pane → ℕ → World → Managed
exited env pane p w = note_exit env.now pane.exit_code pane.signal (w.objects p)

saved_true : (b : Bool) (w : World) → (saved_as (b, w)).0 ≡ none → b ≡ true
saved_true true w h = refl
saved_true false w h = absurd (cc)

-- What such an exit leaves in memory and in the file.
record Noted (env : Env) (pane : Pane) (p : ℕ) (w v : World) : Type 0 where
  in_memory : v.objects p ≡ exited env pane p w
  on_disk : v.disk (exited env pane p w).def.agent_id ≡ some (exited env pane p w).def

saved_exit_holds :
    (env : Env) (pane : Pane) (p : ℕ) (w : World)
    → (saved_as (save env p (put p (exited env pane p w) w))).0 ≡ none
    → Noted env pane p w (saved_as (save env p (put p (exited env pane p w) w))).1
saved_exit_holds env pane p w h =
    let a = exited env pane p w in
    let w' = put p a w in
    let f = save_frame env p w' in
    let self = put_self p a w in
    record {
      in_memory = ap (λ (o : ℕ → Managed). o p) f.3 ∙ self;
      on_disk =
          subst (λ (b : Managed). (save env p w').1.disk b.def.agent_id ≡ some b.def) self
            (f.5 (saved_true (save env p w').0 (save env p w').1 h));
    }

watch_dead-Noted :
    (env : Env) (pane : Pane) (p : ℕ) (w : World)
    → counted_at (w.objects p).def ≡ none
    → (watch_dead env pane p w).0 ≡ none
    → Noted env pane p w (watch_dead env pane p w).1
unfolding watch_dead
watch_dead-Noted env pane p w c h =
    rw (c, watch_dead) (saved_exit_holds env pane p w (rw (c, watch_dead) at h))

-- An exit that does not park the agent has its time in the record, and the timer it has set.
exited_waits :
    (env : Env) (pane : Pane) (p : ℕ) (w : World)
    → ((exited env pane p w).def.state == RunState.crashed) ≡ false
    → let b = exited env pane p w in
      (counted_at b.def ≡ some env.now) × (b.next_start ≡ env.now + backoff (length b.def.crashes))
unfolding note_exit
exited_waits env pane p w h = ground arith

-- A daemon notes an exit under tmux, which does not park the agent, and saves it; a later daemon adopts
-- the file that it left, at any time, while the dead pane is still there and no machine stop holds. Then
-- the agent is in the later daemon's map with the same definition, so the exit is not counted again,
-- holds its lock, and is started again at the very time that the first daemon had set.
pub timer-boot_agent :
    (env : Env) (pane : Pane) (p : ℕ) (w : World) (is_abs : String → Bool) (r : Adoption)
    (again : Pane) (v : World)
    → counted_at (w.objects p).def ≡ none
    → (watch_dead env pane p w).0 ≡ none
    → ((exited env pane p w).def.state == RunState.crashed) ≡ false
    → IsOurs (exited env pane p w).def
    → r.saved ≡ (watch_dead env pane p w).1.disk (exited env pane p w).def.agent_id
    → v.stopping_hold ≡ false
    → r.outside.pane ≡ some again
    → again.exists ≡ true
    → again.dead ≡ true
    → (boot_agent is_abs r v).0 ≡ none
    → let before = (watch_dead env pane p w).1 in
      let after = (boot_agent is_abs r v).1 in
      (q : ℕ) × (lookup (before.objects p).def.name after.agents ≡ some q)
      × ((after.objects q).def ≡ (before.objects p).def)
      × ((after.objects q).next_start ≡ (before.objects p).next_start)
      × ((after.objects q).locked ≡ true)
timer-boot_agent env pane p w is_abs r again v c h parked ours s hold e f g ok =
    let b = exited env pane p w in
    let n = watch_dead-Noted env pane p w c h in
    let x = exited_waits env pane p w parked in
    let t = boot_resumes is_abs r b.def v again env.now (s ∙ n.on_disk) ours hold e f g x.0 ok in
    (
      t.object,
      rw n.in_memory t.named,
      t.same_def ∙ ap (λ (a : Managed). a.def) (sym n.in_memory),
      t.timer ∙ sym x.1 ∙ ap (λ (a : Managed). a.next_start) (sym n.in_memory),
      t.locked,
    )
