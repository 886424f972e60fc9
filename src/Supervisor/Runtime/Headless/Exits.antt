-- ===== src/Supervisor/Runtime/Headless/Exits.antt =====
-- The exit branch of `tickHeadless`, and the ticks before the restart.
use ac_cli.Prelude.{
  ℕ, ◌≤◌, String, ◌≡◌, refl, sym, ◌∙◌, ◌⊎◌, inl, inr, true, false, none, some, arith, ltb, nat_eq,
  Bool-cases,
}
use mathlib.Core.Path.{subst}
use ac_cli.Presence.Clock.{Time, is_zero}
use ac_cli.Supervisor.Types.{Managed}
use ac_cli.Supervisor.World.{Env, World, put, save}
use ac_cli.Supervisor.World.Frame.{save_frame}
use ac_cli.Supervisor.Crash.{note_exit, IsNoted, note_exit_parks}
use ac_cli.Supervisor.Runtime.Outside.{Outside}
use ac_cli.Supervisor.Runtime.Headless.{note_driver_exit, tick_headless}
use ac_cli.Supervisor.Runtime.Polling.Tmux.{put_self, save_self}

-- The record without its driver and its process.
abbrev gone : Managed → Managed
gone a = record a { driver = none; def = record a.def { pi = none } }

-- What a tick that takes an exit leaves of the agent.
pub record IsExited (now : Time) (code : ℕ) (signal : String) (a b : Managed) : Type 0 where
  pub driver : b.driver ≡ none
  pub process : b.def.pi ≡ none
  pub noted : IsNoted now code signal a b

noted_gone :
    (now : Time) (code : ℕ) (signal : String) (a : Managed)
    → IsExited now code signal a (note_exit now code signal (gone a))
unfolding note_exit
noted_gone now code signal a =
    let n = note_exit_parks now code signal (gone a) in
    record {
      driver = ground arith;
      process = ground arith;
      noted = record { exit = n.exit; crashes = n.crashes; outcome = n.outcome };
    }

exit_self :
    (env : Env) (exit : ℕ × String) (p : ℕ) (w : World)
    → (note_driver_exit env exit p w).1.objects p
      ≡ note_exit env.now exit.0 exit.1 (gone (w.objects p))
unfolding note_driver_exit
exit_self env exit p w =
    let b = note_exit env.now exit.0 exit.1 (gone (w.objects p)) in
    save_self env p (put p b w) ∙ put_self p b w

exit_saved :
    (env : Env) (exit : ℕ × String) (p : ℕ) (w : World)
    → (note_driver_exit env exit p w).0 ≡ none
    → let v = (note_driver_exit env exit p w).1 in
      v.disk (v.objects p).def.agent_id ≡ some (v.objects p).def
unfolding note_driver_exit
exit_saved env exit p w h =
    let u = put p (note_exit env.now exit.0 exit.1 (gone (w.objects p))) w in
    let (_, _, _, objects, _, disk) = save_frame env p u in
    let saved : (save env p u).0 ≡ true = elim (Bool-cases (save env p u).0) [
      | inl done ↦ done
      | inr lost ↦ ground (arith, lost)
    ] in
    subst (λ (f : ℕ → Managed). (save env p u).1.disk (f p).def.agent_id ≡ some (f p).def)
      (sym objects) (disk saved)

tick_exits :
    (o : Outside) (p : ℕ) (w : World) {d : ℕ} {exit : ℕ × String}
    → (w.objects p).driver ≡ some d
    → o.exited ≡ some exit
    → tick_headless o p w ≡ note_driver_exit o.env exit p w
unfolding tick_headless
tick_exits o p w driven ended = ground (arith, driven, ended)

-- With no driver, a tick before the time of the restart does nothing.
tick_waits :
    (o : Outside) (p : ℕ) (w : World)
    → (w.objects p).driver ≡ none
    → ((w.objects p).next_start ≤ o.env.now) ⊎ (tick_headless o p w ≡ (none, w))
unfolding tick_headless
tick_waits o p w bare = elim (Bool-cases (ltb o.env.now (w.objects p).next_start)) [
  | inr due ↦ inl (ground arith)
  | inl early ↦
      let set : is_zero (w.objects p).next_start ≡ false = ground (arith, early) in
      inr (rw (bare, set, early, tick_headless) refl)
]

-- A tick of a headless agent whose driver's process has exited leaves it with no driver and no recorded
-- process, and notes the exit: it is the last one, it is counted with those that are at most ten minutes
-- old, and five of these park the agent while fewer set its restart 5 seconds, 30 seconds or 2 minutes
-- ahead. Where the tick has no error, the file says the same as the memory. The next tick, whatever it
-- meets, does nothing at all, unless the time of the restart has come.
pub tick_headless-IsExited :
    (o later : Outside) (p : ℕ) (w : World) {d : ℕ} {exit : ℕ × String}
    → (w.objects p).driver ≡ some d
    → o.exited ≡ some exit
    → let r = tick_headless o p w in
      IsExited o.env.now exit.0 exit.1 (w.objects p) (r.1.objects p)
      × (r.0 ≡ none → r.1.disk (r.1.objects p).def.agent_id ≡ some (r.1.objects p).def)
      × (((r.1.objects p).next_start ≤ later.env.now) ⊎ (tick_headless later p r.1 ≡ (none, r.1)))
tick_headless-IsExited o later p w {exit = exit} driven ended =
    let v = (note_driver_exit o.env exit p w).1 in
    let left : IsExited o.env.now exit.0 exit.1 (w.objects p) (v.objects p) =
      subst (IsExited o.env.now exit.0 exit.1 (w.objects p)) (sym (exit_self o.env exit p w))
        (noted_gone o.env.now exit.0 exit.1 (w.objects p)) in
    rw (tick_exits o p w driven ended)
      (left, exit_saved o.env exit p w, tick_waits later p v left.driver)
