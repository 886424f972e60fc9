-- ===== src/Supervisor/Runtime/Ticks/Life.antt =====
-- The life of an agent under tmux, as an abstract machine, and the moves of an exit and of a poll in it.
use ac_cli.Prelude.{
  ℕ, ◌+◌, ◌≤◌, ◌<◌, String, ◌≡◌, refl, sym, ap, ◌∙◌, Bool, true, false, not, ◌&&◌, ◌||◌, Option,
  none, some, List, arith, leb, leb→le, is_some, ◌==◌, string_eq, nat_eq, if◌then◌else◌, Bool-cases,
  inl, inr, length,
}
use mathlib.Core.Path.{subst}
use ac_cli.Presence.Clock.{Time, is_zero}
use ac_cli.Supervisor.Types.{
  kind_eq, mode_eq, RunState, stopped_by_dashboard, run_state_eq, Exit, Managed,
}
use ac_cli.Supervisor.World.{Env, World, put, save}
use ac_cli.Supervisor.Crash.{
  backoff, keep_crashes, note_exit, recent_exits, keep_crashes-recent, Delay, backoff-Delay,
}
use ac_cli.Supervisor.Runtime.Outside.{agent_stopped, Pane, Outside, saved_as}
use ac_cli.Supervisor.Runtime.Polling.Tmux.{Polled, put_self, save_self}

-- What the daemon does about an agent with some crashes: it watches it, waits for the time of its
-- restart, has given it up, or leaves it to the dashboard.
pub data Life : Type 0 where
  parked halted : Life
  up : List Time → Life
  waiting : List Time → Time → Life

-- The second look at the pane shows an exit.
abbrev pub shows_exit : Option Pane → Bool
shows_exit none = false
shows_exit (some pane) = pane.exists && pane.dead

abbrev pub is_gone : Pane → Bool
is_gone pane = not pane.exists || pane.dead

-- The tick sees an exit: the first look shows no live pane, and the second a dead one.
abbrev pub first_look : Outside → Option Pane → Bool
first_look o none = false
first_look o (some pane) = is_gone pane && shows_exit o.pane_again

abbrev pub sees_exit : Outside → Bool
sees_exit o = first_look o o.pane

-- tmux lets the agent be started.
abbrev pub can_launch : Outside → Bool
can_launch o = is_some o.pane && (o.killed && o.tmux_started)

-- The exit at `at` is on record already: an earlier daemon counted it.
abbrev pub Counted : Managed → Time → Type 0
Counted a at =
    (a.def.state ≡ RunState.starting) × (e : Exit) × (a.def.last_exit ≡ some e) × (e.at ≡ some at)

-- One move of the agent `a`, by what the tick meets outside. A parked or halted agent has none.
pub data Moves (o : Outside) (a : Managed) : Life → Life → Type 0 where
  watches : {cs : List Time} → sees_exit o ≡ false → Moves o a (up cs) (up cs)
  halts :
      {cs : List Time} → sees_exit o ≡ false → o.fetched ≡ agent_stopped → Moves o a (up cs) halted
  exits :
      {cs : List Time} (delay : Time)
      → sees_exit o ≡ true
      → ((at : Time) → ¬ (Counted a at))
      → length (recent_exits o.env.now cs) < 5
      → Delay (length (recent_exits o.env.now cs)) delay
      → Moves o a (up cs) (waiting (recent_exits o.env.now cs) (o.env.now + delay))
  parks :
      {cs : List Time}
      → sees_exit o ≡ true
      → ((at : Time) → ¬ (Counted a at))
      → 5 ≤ length (recent_exits o.env.now cs)
      → Moves o a (up cs) parked
  recalls :
      {cs : List Time} (at delay : Time)
      → sees_exit o ≡ true
      → Counted a at
      → Delay (length cs) delay
      → Moves o a (up cs) (waiting cs (at + delay))
  waits : {cs : List Time} {t : Time} → o.env.now < t → Moves o a (waiting cs t) (waiting cs t)
  lacks :
      {cs : List Time} {t : Time}
      → t ≤ o.env.now
      → can_launch o ≡ false
      → Moves o a (waiting cs t) (waiting cs t)
  starts :
      {cs : List Time} {t : Time}
      → t ≤ o.env.now
      → can_launch o ≡ true
      → Moves o a (waiting cs t) (up cs)

unfoldable pub life_of : RunState → List Time → Time → Life
life_of state crashes next_start =
    if state == RunState.crashed
    then parked
    else if state == stopped_by_dashboard
    then halted
    else if is_zero next_start
    then up crashes
    else waiting crashes next_start

abbrev pub life : Managed → Life
life a = life_of a.def.state a.def.crashes a.next_start

-- The life that a world shows of the agent.
abbrev pub life_in : ℕ → World → Life
life_in p w = life (w.objects p)

pub save-put-life :
    (env : Env) (p : ℕ) (a : Managed) (w : World)
    → life_in p (saved_as (save env p (put p a w))).1 ≡ life a
save-put-life env p a w = ap life (save_self env p (put p a w) ∙ put_self p a w)

pub some_wait : (at n : ℕ) → is_zero (at + backoff n) ≡ false
unfolding backoff
some_wait at n = ground arith

exit_parks :
    (now code : ℕ) (signal : String) (a : Managed)
    → leb 5 (length (keep_crashes now a.def.crashes)) ≡ true
    → life (note_exit now code signal a) ≡ parked
unfolding note_exit life_of
exit_parks now code signal a h = rw h refl

exit_waits :
    (now code : ℕ) (signal : String) (a : Managed)
    → leb 5 (length (keep_crashes now a.def.crashes)) ≡ false
    → let cs = keep_crashes now a.def.crashes in
      life (note_exit now code signal a) ≡ waiting cs (now + backoff (length cs))
unfolding note_exit life_of
exit_waits now code signal a h =
    rw (h, some_wait now (length (keep_crashes now a.def.crashes))) refl

pub exit_moves :
    (o : Outside) (code : ℕ) (signal : String) (a : Managed)
    → sees_exit o ≡ true
    → ((at : Time) → ¬ (Counted a at))
    → Moves o a (up a.def.crashes) (life (note_exit o.env.now code signal a))
exit_moves o code signal a seen new =
    let same = keep_crashes-recent o.env.now a.def.crashes in
    let n = length (recent_exits o.env.now a.def.crashes) in
    elim (Bool-cases (leb 5 n)) [
      | inl many ↦
          rw (exit_parks o.env.now code signal a (rw same many)) (parks seen new (leb→le _ _ many))
      | inr few ↦
          rw (exit_waits o.env.now code signal a (rw same few), same)
            (exits (backoff n) seen new (ground arith) (backoff-Delay n))
    ]

-- An agent that the daemon looks after.
abbrev pub IsLive : Managed → Type 0
IsLive a =
    ((a.def.state == RunState.crashed) ≡ false) × ((a.def.state == stopped_by_dashboard) ≡ false)

pub live_up : (a : Managed) → IsLive a → is_zero a.next_start ≡ true → life a ≡ up a.def.crashes
unfolding life_of
live_up a live z = rw (live.0, live.1, z) refl

pub live_waits :
    (a : Managed)
    → IsLive a
    → is_zero a.next_start ≡ false
    → life a ≡ waiting a.def.crashes a.next_start
unfolding life_of
live_waits a live z = rw (live.0, live.1, z) refl

pub polled_moves :
    (o : Outside) (a b : Managed)
    → IsLive a
    → is_zero a.next_start ≡ true
    → sees_exit o ≡ false
    → Polled o.fetched a b
    → Moves o a (up a.def.crashes) (life b)
unfolding life_of
polled_moves o a b live z none_seen h =
    let same : (s : RunState)
        → life_of s b.def.crashes b.next_start ≡ life_of s a.def.crashes a.next_start =
      λ s.
        ap (λ (cs : List Time). life_of s cs b.next_start) h.crashes
        ∙ ap (life_of s a.def.crashes) h.timer in
    elim h.state [
      | inl e ↦
          subst (Moves o a (up a.def.crashes))
            (sym (
              ap (λ (s : RunState). life_of s b.def.crashes b.next_start) e
              ∙ same a.def.state
              ∙ live_up a live z))
            (watches none_seen)
      | inr (e, told) ↦
          subst (Moves o a (up a.def.crashes))
            (sym (ap (λ (s : RunState). life_of s b.def.crashes b.next_start) e))
            (halts none_seen told)
    ]
