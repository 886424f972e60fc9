-- ===== src/Supervisor/Runtime/Ticks/Watching.antt =====
-- The moves of `launch` and `watch`, and what the second look at the pane decides.
use ac_cli.Prelude.{
  ℕ, ◌+◌, ◌≤◌, ◌≡◌, refl, sym, ap, ◌∙◌, true, false, not, ◌&&◌, Option, none, some, arith, ◌==◌,
  string_eq, nat_eq, Bool-cases, Option-cases, inl, inr, ◌⊎◌, length,
}
use mathlib.Core.Path.{subst}
use ac_cli.Presence.Clock.{Time, is_zero}
use ac_cli.Supervisor.Types.{kind_eq, mode_eq, RunState, run_state_eq, run_state_beq_iff, Managed}
use ac_cli.Supervisor.World.{World}
use ac_cli.Supervisor.Crash.{backoff, note_exit, backoff-Delay}
use ac_cli.Supervisor.Runtime.Outside.{not_inspected, Outcome, Pane, Outside}
use ac_cli.Supervisor.Runtime.Branches.{either_case}
use ac_cli.Supervisor.Runtime.Tmux.{
  now_running, launch_tmux, seen_running, counted_at, watch_dead, watch_pane, watch_tmux,
}
use ac_cli.Supervisor.Runtime.Polling.Tmux.{put_self}
use ac_cli.Supervisor.Runtime.Ticks.Life.{
  Moves, watches, recalls, lacks, starts, up, waiting, life_of, life, life_in, IsLive, live_up,
  live_waits, shows_exit, sees_exit, Counted, save-put-life, some_wait, exit_moves,
}

launched_life :
    (o : Outside) (a : Managed)
    → life (record (now_running o.env o a) { pid = 0 }) ≡ up a.def.crashes
unfolding life_of
launched_life o a = refl

-- A launch that tmux allows brings the agent up, and another leaves it.
launch_life :
    (o : Outside) (p : ℕ) (w : World)
    → (((o.killed && o.tmux_started) ≡ false) × (life_in p (launch_tmux o p w).1 ≡ life_in p w))
      ⊎ (((o.killed && o.tmux_started) ≡ true)
          × (life_in p (launch_tmux o p w).1 ≡ up (w.objects p).def.crashes))
unfolding launch_tmux
launch_life o p w =
    let a = record (now_running o.env o (w.objects p)) { pid = 0 } in
    elim (Bool-cases o.killed) [
      | inr lost ↦ rw (lost, launch_tmux) (inl (refl, refl))
      | inl gone ↦ elim (Bool-cases o.tmux_started) [
        | inr lost ↦ rw (gone, lost, launch_tmux) (inl (refl, refl))
        | inl begun ↦
            rw (gone, begun, launch_tmux)
              (inr (refl, save-put-life o.env p a w ∙ launched_life o (w.objects p)))
      ]
    ]

-- A launch leaves an agent up that is up.
launch_up :
    (o : Outside) (p : ℕ) (w : World)
    → life_in p w ≡ up (w.objects p).def.crashes
    → life_in p (launch_tmux o p w).1 ≡ up (w.objects p).def.crashes
launch_up o p w e = elim (launch_life o p w) [
  | inl (lost, same) ↦ same ∙ e
  | inr (begun, came) ↦ came
]

pub launch_waiting :
    (o : Outside) (pane : Pane) (p : ℕ) (w : World) (t : Time)
    → o.pane ≡ some pane
    → life_in p w ≡ waiting (w.objects p).def.crashes t
    → t ≤ o.env.now
    → let cs = (w.objects p).def.crashes in
      Moves o (w.objects p) (waiting cs t) (life_in p (launch_tmux o p w).1)
launch_waiting o pane p w t looked e due = elim (launch_life o p w) [
  | inl (lost, same) ↦ rw (same, e) (lacks due (rw looked lost))
  | inr (begun, came) ↦ rw came (starts due (rw looked begun))
]

-- Whether the exit is counted already.
Counted-cases :
    (a : Managed)
    → ((counted_at a.def ≡ none) × ((at : Time) → ¬ (Counted a at)))
      ⊎ ((at : Time) × (counted_at a.def ≡ some at) × Counted a at)
Counted-cases a = elim (Bool-cases (a.def.state == RunState.starting)) [
  | inr other ↦ inl (rw other refl, λ at c. ground (arith, rw c.0 at other))
  | inl begins ↦ elim (Option-cases a.def.last_exit) [
    | inl none_yet ↦ inl (rw (begins, none_yet) refl, λ at c. ground (arith, c.2))
    | inr (e, last) ↦ elim (Option-cases e.at) [
      | inl unknown ↦ inl (rw (begins, last, unknown) refl, λ at c. ground (arith, c.2, c.3))
      | inr (at, known) ↦ inr (
        at,
        rw (begins, last, known) refl,
        ((run_state_beq_iff a.def.state RunState.starting).0 begins, e, last, known),
      )
    ]
  ]
]

dead_moves :
    (o : Outside) (pane : Pane) (p : ℕ) (w : World)
    → IsLive (w.objects p)
    → sees_exit o ≡ true
    → let a = w.objects p in Moves o a (up a.def.crashes) (life_in p (watch_dead o.env pane p w).1)
unfolding watch_dead
dead_moves o pane p w live seen =
    let a = w.objects p in
    let cs = a.def.crashes in
    elim (Counted-cases a) [
      | inl (e, new) ↦
          rw (e, watch_dead)
            (subst (Moves o a (up cs))
              (sym (save-put-life o.env p (note_exit o.env.now pane.exit_code pane.signal a) w))
              (exit_moves o pane.exit_code pane.signal a seen new))
      | inr (at, e, counted) ↦
          let b = record a { next_start = at + backoff (length cs) } in
          rw (e, watch_dead)
            (subst (Moves o a (up cs))
              (sym (ap life (put_self p b w) ∙ live_waits b live (some_wait at (length cs))))
              (recalls at (backoff (length cs)) seen counted (backoff-Delay (length cs))))
    ]

seen_life :
    (now : Time) (pane : Pane) (a : Managed)
    → is_zero a.next_start ≡ true
    → life (seen_running now pane a) ≡ up a.def.crashes
unfolding life_of
seen_life now pane a z = rw z refl

-- The second look.
pane_moves :
    (o : Outside) (pane : Pane) (p : ℕ) (w : World)
    → IsLive (w.objects p)
    → is_zero (w.objects p).next_start ≡ true
    → sees_exit o ≡ (pane.exists && pane.dead)
    → let a = w.objects p in
      Moves o a
        (up a.def.crashes)
        (life_in p (watch_pane (record o { pane = o.pane_again }) pane p w).1)
unfolding watch_pane
pane_moves o pane p w live z looks =
    let a = w.objects p in
    let again = record o { pane = o.pane_again } in
    let ok : World → Type 0 = λ v. Moves o a (up a.def.crashes) (life_in p v) in
    either_case ok (not pane.exists) (launch_tmux again p w) _
      (λ gone.
        subst (Moves o a (up a.def.crashes)) (sym (launch_up again p w (live_up a live z)))
          (watches (looks ∙ ground arith)))
      (λ there.
        either_case ok pane.dead (watch_dead o.env pane p w) _
          (λ dead. dead_moves o pane p w live (looks ∙ ground arith))
          (λ alive.
            subst (Moves o a (up a.def.crashes))
              (sym (
                save-put-life o.env p (seen_running o.env.now pane a) w
                ∙ seen_life o.env.now pane a z))
              (watches (looks ∙ ground arith))))

-- A look at the pane that may fail.
pub any_pane :
    (P : World → Type 0) (m : Option Pane) (w : World) (f : Pane → Outcome × World)
    → (m ≡ none → P w)
    → ((pane : Pane) → m ≡ some pane → P (f pane).1)
    → (let r : Outcome × World = elim m [ none ↦ (some not_inspected, w) | some pane ↦ f pane ] in
        P r.1)
any_pane P none w f h k = h refl
any_pane P (some pane) w f h k = k pane refl

pub watch_moves :
    (o : Outside) (p : ℕ) (w : World)
    → IsLive (w.objects p)
    → is_zero (w.objects p).next_start ≡ true
    → sees_exit o ≡ shows_exit o.pane_again
    → let a = w.objects p in
      Moves o a (up a.def.crashes) (life_in p (watch_tmux (record o { pane = o.pane_again }) p w).1)
unfolding watch_tmux
watch_moves o p w live z looks =
    let a = w.objects p in
    let again = record o { pane = o.pane_again } in
    any_pane (λ (v : World). Moves o a (up a.def.crashes) (life_in p v)) o.pane_again w
      (λ pane. watch_pane again pane p w)
      (λ lost.
        subst (Moves o a (up a.def.crashes)) (sym (live_up a live z))
          (watches (looks ∙ ap shows_exit lost)))
      (λ pane found. pane_moves o pane p w live z (looks ∙ ap shows_exit found))
