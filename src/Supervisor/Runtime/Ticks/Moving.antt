-- ===== src/Supervisor/Runtime/Ticks/Moving.antt =====
-- The ticks of an agent under tmux, against the abstract machine of `Life`.
use ac_cli.Prelude.{
  ℕ, ◌≡◌, refl, sym, ap, ◌∙◌, Bool, true, false, not, ◌&&◌, Option, none, some, arith, ltb, ltb→lt,
  string_eq, nat_eq, if◌then◌else◌, Bool-cases, inl, inr, is_some,
}
use mathlib.Core.Path.{subst}
use ac_cli.Presence.Clock.{is_zero}
use ac_cli.Supervisor.Types.{kind_eq, mode_eq, run_state_eq, Managed}
use ac_cli.Supervisor.World.{World, put, save}
use ac_cli.Supervisor.Runtime.Outside.{Outcome, Pane, Fetched, Outside, saved_as}
use ac_cli.Supervisor.Runtime.Branches.{either_way, either_case, after_fault}
use ac_cli.Supervisor.Runtime.Tmux.{launch_tmux, watch_tmux}
use ac_cli.Supervisor.Runtime.Headless.{is_due, note_session}
use ac_cli.Supervisor.Runtime.Polling.{poll}
use ac_cli.Supervisor.Runtime.Polling.Tmux.{IsTmux, Polled, put_self, save_self, poll-Polled}
use ac_cli.Supervisor.Runtime.Ticks.{tick_pane, tick_tmux}
use ac_cli.Supervisor.Runtime.Ticks.Life.{
  Life, Moves, watches, waits, lacks, up, waiting, life, life_in, IsLive, live_up, live_waits,
  shows_exit, is_gone, first_look, sees_exit, polled_moves,
}
use ac_cli.Supervisor.Runtime.Ticks.Watching.{launch_waiting, any_pane, watch_moves}

-- The pane's process is noted, and the session.
seen_pane :
    (o : Outside) (pid : ℕ) (p : ℕ) (w : World)
    → IsTmux (w.objects p)
    → let v = (note_session o p (put p (record (w.objects p) { pid = pid }) w)).1 in
      IsTmux (v.objects p) × Polled o.fetched (w.objects p) (v.objects p)
unfolding note_session
seen_pane o pid p w t =
    let a = w.objects p in
    let ok : Managed → Type 0 = λ b. IsTmux b × Polled o.fetched a b in
    let b = record a { pid = pid } in
    let u = put p b w in
    let self = put_self p b w in
    let first : ok b = (
      record { kind = t.kind; mode = t.mode; driver = t.driver },
      record { timer = refl; crashes = refl; state = inl refl },
    ) in
    let marked : Managed → Managed =
      λ c. record c { def = record c.def { session_migrated = true } } in
    let second : ok (marked b) = (
      record { kind = t.kind; mode = t.mode; driver = t.driver },
      record { timer = refl; crashes = refl; state = inl refl },
    ) in
    either_way (λ (v : World). ok (v.objects p))
      (not (u.objects p).def.session_migrated && o.session_exists)
      (saved_as (save o.env p (put p (marked (u.objects p)) u))) (none, u)
      (subst ok
        (sym (
          save_self o.env p (put p (marked (u.objects p)) u)
          ∙ put_self p (marked (u.objects p)) u
          ∙ ap marked self))
        second)
      (subst ok (sym self) first)

Polled-trans : (f : Fetched) (a b c : Managed) → Polled f a b → Polled f b c → Polled f a c
Polled-trans f a b c h k = record {
  timer = k.timer ∙ h.timer;
  crashes = k.crashes ∙ h.crashes;
  state = elim k.state [
    | inr e ↦ inr e
    | inl e ↦ elim h.state [ inl g ↦ inl (e ∙ g) | inr (g, told) ↦ inr (e ∙ g, told) ]
  ];
}

-- A tick of a pane before the time of the restart, and after it.
pane_waiting :
    (o : Outside) (pane : Pane) (p : ℕ) (w : World)
    → is_zero (w.objects p).next_start ≡ false
    → tick_pane o pane p w
      ≡ (if ltb o.env.now (w.objects p).next_start then (none, w) else launch_tmux o p w)
unfolding tick_pane
pane_waiting o pane p w z = elim (Bool-cases pane.exists) [
  | inl e ↦ elim (Bool-cases pane.dead) [
    | inl d ↦ rw (z, e, d, tick_pane) refl
    | inr d ↦ rw (z, e, d, tick_pane) refl
  ]
  | inr e ↦ rw (z, e, tick_pane) refl
]

-- A tick of an agent that is up: the pane is looked at again, or lives.
pane_gone :
    (o : Outside) (pane : Pane) (p : ℕ) (w : World)
    → is_zero (w.objects p).next_start ≡ true
    → is_gone pane ≡ true
    → tick_pane o pane p w ≡ watch_tmux (record o { pane = o.pane_again }) p w
unfolding tick_pane
pane_gone o pane p w z gone = elim (Bool-cases pane.exists) [
  | inl e ↦ elim (Bool-cases pane.dead) [
    | inl d ↦ rw (z, e, d, tick_pane) refl
    | inr d ↦ ground (arith, gone, e, d)
  ]
  | inr e ↦ rw (z, e, tick_pane) refl
]

-- The pane's process is noted, and the feed is read if that is due.
abbrev after_look : Outside → Pane → ℕ → World → Outcome × World
after_look o pane p w = note_session o p (put p (record (w.objects p) { pid = pane.pid }) w)

pane_lives :
    (o : Outside) (pane : Pane) (p : ℕ) (w : World)
    → is_zero (w.objects p).next_start ≡ true
    → is_gone pane ≡ false
    → tick_pane o pane p w ≡ (
        let (e, w') = after_look o pane p w in
        elim e [
          | some f ↦ (some f, w')
          | none ↦ if is_due o (w'.objects p) then poll o p w' else (none, w')
        ])
unfolding tick_pane
pane_lives o pane p w z lives = elim (Bool-cases pane.exists) [
  | inl e ↦ elim (Bool-cases pane.dead) [
    | inl d ↦ ground (arith, lives, e, d)
    | inr d ↦ rw (z, e, d, tick_pane) refl
  ]
  | inr e ↦ ground (arith, lives, e)
]

lives_moves :
    (o : Outside) (pane : Pane) (p : ℕ) (w : World)
    → IsTmux (w.objects p)
    → IsLive (w.objects p)
    → is_zero (w.objects p).next_start ≡ true
    → is_gone pane ≡ false
    → sees_exit o ≡ false
    → let a = w.objects p in Moves o a (up a.def.crashes) (life_in p (tick_pane o pane p w).1)
lives_moves o pane p w t live z lives unseen =
    let a = w.objects p in
    let ok : World → Type 0 = λ v. Moves o a (up a.def.crashes) (life_in p v) in
    let noted = after_look o pane p w in
    let seen = seen_pane o pane.pid p w t in
    let polled : Polled o.fetched a ((poll o p noted.1).1.objects p) =
      Polled-trans o.fetched a (noted.1.objects p) _ seen.1 (poll-Polled o p noted.1 seen.0) in
    let step : (b : Managed) → Polled o.fetched a b → Moves o a (up a.def.crashes) (life b) =
      λ b h. polled_moves o a b live z unseen h in
    subst (λ (r : Outcome × World). ok r.1) (sym (pane_lives o pane p w z lives))
      (after_fault ok noted.0 noted.1 noted.1 _ (step _ seen.1) (
        either_way ok (is_due o (noted.1.objects p)) (poll o p noted.1) (none, noted.1)
          (step _ polled) (step _ seen.1)))

up_moves :
    (o : Outside) (pane : Pane) (p : ℕ) (w : World)
    → o.pane ≡ some pane
    → IsTmux (w.objects p)
    → IsLive (w.objects p)
    → is_zero (w.objects p).next_start ≡ true
    → let a = w.objects p in Moves o a (up a.def.crashes) (life_in p (tick_pane o pane p w).1)
up_moves o pane p w looked t live z =
    let a = w.objects p in
    let first : sees_exit o ≡ (is_gone pane && shows_exit o.pane_again) =
      ap (first_look o) looked in
    elim (Bool-cases (is_gone pane)) [
      | inl gone ↦
          subst (λ (r : Outcome × World). Moves o a (up a.def.crashes) (life_in p r.1))
            (sym (pane_gone o pane p w z gone))
            (watch_moves o p w live z
              (first ∙ ap (λ (b : Bool). b && shows_exit o.pane_again) gone))
      | inr lives ↦
          lives_moves o pane p w t live z lives
            (first ∙ ap (λ (b : Bool). b && shows_exit o.pane_again) lives)
    ]

waiting_moves :
    (o : Outside) (pane : Pane) (p : ℕ) (w : World)
    → o.pane ≡ some pane
    → IsLive (w.objects p)
    → is_zero (w.objects p).next_start ≡ false
    → let a = w.objects p in
      Moves o a (waiting a.def.crashes a.next_start) (life_in p (tick_pane o pane p w).1)
waiting_moves o pane p w looked live z =
    let a = w.objects p in
    let here = live_waits a live z in
    let from = waiting a.def.crashes a.next_start in
    subst (λ (r : Outcome × World). Moves o a from (life_in p r.1))
      (sym (pane_waiting o pane p w z))
      (either_case (λ v. Moves o a from (life_in p v)) (ltb o.env.now a.next_start) (none, w) _
        (λ early. subst (Moves o a from) (sym here) (waits (ltb→lt _ _ early)))
        (λ late. launch_waiting o pane p w a.next_start looked here (ground arith)))

-- Nothing can be seen of the pane.
blind_moves :
    (o : Outside) (p : ℕ) (w : World)
    → o.pane ≡ none
    → IsLive (w.objects p)
    → Moves o (w.objects p) (life_in p w) (life_in p w)
blind_moves o p w lost live =
    let a = w.objects p in
    elim (Bool-cases (is_zero a.next_start)) [
      | inl z ↦ rw (live_up a live z) (watches (ap (first_look o) lost))
      | inr z ↦ rw (live_waits a live z) (elim (Bool-cases (ltb o.env.now a.next_start)) [
        | inl early ↦ waits (ltb→lt _ _ early)
        | inr late ↦
            lacks (ground arith)
              (ap (λ (m : Option Pane). is_some m && (o.killed && o.tmux_started)) lost)
      ])
    ]

-- A tick of an agent under tmux that has no driver, which the daemon has neither given up nor left to the
-- dashboard, at whatever tmux, the server and the disk answer, whether it fails or not, is a move of
-- the abstract machine. An agent that waits for its restart stays while its time has not come, or tmux
-- cannot be looked at or cannot start it, and is started otherwise. For one that is watched, an exit that both looks
-- show is recalled if an earlier daemon has it on record, with the recorded time and the delay of its
-- number; otherwise it is counted at this time among the exits of the last ten minutes, with which the
-- agent is given up if they are five or more, and waits for the delay of their number if they are
-- fewer. Without such an exit the agent stays watched, or is left to the dashboard, and that only if
-- the server answers that it is stopped.
pub tick_tmux-Moves :
    (o : Outside) (p : ℕ) (w : World)
    → IsTmux (w.objects p)
    → IsLive (w.objects p)
    → Moves o (w.objects p) (life (w.objects p)) (life ((tick_tmux o p w).1.objects p))
unfolding tick_tmux
tick_tmux-Moves o p w t live =
    let a = w.objects p in
    any_pane (λ (v : World). Moves o a (life a) (life_in p v)) o.pane w
      (λ pane. tick_pane o pane p w) (λ lost. blind_moves o p w lost live)
      (λ pane looked. elim (Bool-cases (is_zero a.next_start)) [
        | inl z ↦
            subst (λ (l : Life). Moves o a l (life_in p (tick_pane o pane p w).1))
              (sym (live_up a live z)) (up_moves o pane p w looked t live z)
        | inr z ↦
            subst (λ (l : Life). Moves o a l (life_in p (tick_pane o pane p w).1))
              (sym (live_waits a live z)) (waiting_moves o pane p w looked live z)
      ])
