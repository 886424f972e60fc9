-- ===== src/Supervisor/Runtime/Boot/Resuming.antt =====
-- How a daemon adopts an agent under tmux that waits for its restart.
use ac_cli.Prelude.{
  ℕ, suc, ◌+◌, String, ◌≡◌, refl, sym, ap, ◌∙◌, Bool, true, false, not, ◌||◌, Option, none, some,
  List, arith, ◌==◌, ◌!=◌, string_eq, nat_beq_iff, lookup, lookup-insert, is_some, Bool-cases,
  Option-cases, inl, inr, beq_self, length,
}
use mathlib.Core.Path.{subst}
use ac_cli.Presence.Clock.{Time}
use ac_cli.Supervisor.Types.{
  attached, kind_eq, headless, mode_eq, Desired, desired_eq, RunState, taken_over,
  stopped_by_dashboard, run_state_eq, run_state_beq_iff, Definition, Managed,
}
use ac_cli.Supervisor.World.{Env, World, zero_managed, put, acquire}
use ac_cli.Supervisor.Crash.{backoff}
use ac_cli.Supervisor.Lifecycle.{validate}
use ac_cli.Supervisor.Runtime.Outside.{Outcome, Pane, Outside}
use ac_cli.Supervisor.Runtime.Tmux.{counted_at, watch_dead, watch_pane, watch_tmux}
use ac_cli.Supervisor.Runtime.Boot.{
  Error, not_locked, no_delivered, invalid, wrong_path, duplicate, Adoption, load_delivered,
  place_new, enter_map, watch, is_fenced, adopted, boot_running, boot_loaded, boot_fenced, boot_own,
  boot_valid, boot_agent,
}

-- An agent of the daemon under tmux that is to run and that nobody has taken over.
pub record IsOurs (def : Definition) : Type 0 where
  pub kind : (def.kind == attached) ≡ false
  pub mode : (def.mode == headless) ≡ false
  pub desired : (def.desired == Desired.running) ≡ true
  pub takeover : def.takeover ≡ none

counted_starting :
    (def : Definition) (at : Time) → counted_at def ≡ some at → def.state ≡ RunState.starting
counted_starting def at h = ground (arith, run_state_beq_iff def.state RunState.starting)

starting_facts :
    (def : Definition)
    → def.state ≡ RunState.starting
    → ((def.state == taken_over) ≡ false)
      × ((def.state == stopped_by_dashboard) ≡ false)
      × ((def.state == RunState.crashed) ≡ false)
starting_facts def e = (
  ap (λ (s : RunState). s == taken_over) e,
  ap (λ (s : RunState). s == stopped_by_dashboard) e,
  ap (λ (s : RunState). s == RunState.crashed) e,
)

-- The exit that is counted already sets the timer and changes nothing else.
watch_counted :
    (o : Outside) (pane : Pane) (p : ℕ) (w : World) (at : Time)
    → o.pane ≡ some pane
    → pane.exists ≡ true
    → pane.dead ≡ true
    → ((w.objects p).def.mode == headless) ≡ false
    → counted_at (w.objects p).def ≡ some at
    → watch o p w ≡ (
      none,
      put p
          (record (w.objects p) { next_start = at + backoff (length (w.objects p).def.crashes) })
          w,
    )
unfolding watch watch_tmux watch_pane watch_dead
watch_counted o pane p w at e f g m c =
    rw (m, e, watch_tmux) (rw (f, g, watch_pane) (rw (c, watch_dead) refl))

-- The object of the agent in the new daemon.
pub record Resumed (def : Definition) (at : Time) (v : World) : Type 0 where
  pub object : ℕ
  pub named : lookup def.name v.agents ≡ some object
  pub same_def : (v.objects object).def ≡ def
  pub timer : (v.objects object).next_start ≡ at + backoff (length def.crashes)
  pub locked : (v.objects object).locked ≡ true

acquire_keeps :
    (env : Env) (p : ℕ) (w : World)
    → let (locked, v) = acquire env p w in
      ((v.objects p).def ≡ (w.objects p).def)
      × (v.agents ≡ w.agents)
      × (v.stopping_hold ≡ w.stopping_hold)
      × ((v.objects p).taken_over ≡ (w.objects p).taken_over)
      × (locked ≡ true → (v.objects p).locked ≡ true)
unfolding acquire
acquire_keeps env p w = ground (arith, nat_beq_iff p p)

some_ne_none : (e : Error) → ¬ (some e ≡ none)
some_ne_none e h = cc

pub put_self : (p : ℕ) (a : Managed) (w : World) → (put p a w).objects p ≡ a
put_self p a w = rw (beq_self p) refl

entered :
    (p : ℕ) (a : Managed) (w : World) (name : String)
    → a.def.name ≡ name
    → lookup name (enter_map p (put p a w)).agents ≡ some p
entered p a w name h =
    let e : ((put p a w).objects p).def.name ≡ name =
      ap (λ (b : Managed). b.def.name) (put_self p a w) ∙ h in
    lookup-insert ((put p a w).objects p).def.name name p w.agents ∙ (rw (e, beq_self name) refl)

abbrev rests : Definition → Bool
rests def =
    def.desired != Desired.running
    || (def.state == stopped_by_dashboard || def.state == RunState.crashed)

running_eq :
    (o : Outside) (def : Definition) (p : ℕ) (w : World)
    → rests def ≡ false
    → (acquire o.env p w).0 ≡ true
    → (((acquire o.env p w).1.objects p).taken_over || (acquire o.env p w).1.stopping_hold) ≡ false
    → (watch o p (acquire o.env p w).1).0 ≡ none
    → boot_running o def p w ≡ (none, enter_map p (watch o p (acquire o.env p w).1).1)
unfolding boot_running
running_eq o def p w s l t e = rw (s, l, t, e, boot_running) refl

running_locked :
    (o : Outside) (def : Definition) (p : ℕ) (w : World)
    → rests def ≡ false
    → (boot_running o def p w).0 ≡ none
    → (acquire o.env p w).0 ≡ true
unfolding boot_running
running_locked o def p w s h = elim (Bool-cases (acquire o.env p w).0) [
  | inl held ↦ held
  | inr free ↦ absurd (some_ne_none not_locked (rw (s, free, boot_running) at h))
]

running_resumes :
    (o : Outside) (def : Definition) (p : ℕ) (w : World) (pane : Pane) (at : Time)
    → IsOurs def
    → (w.objects p).def ≡ def
    → (w.objects p).taken_over ≡ false
    → w.stopping_hold ≡ false
    → o.pane ≡ some pane
    → pane.exists ≡ true
    → pane.dead ≡ true
    → counted_at def ≡ some at
    → (boot_running o def p w).0 ≡ none
    → Resumed def at (boot_running o def p w).1
running_resumes o def p w pane at ours d t hold e f g c h =
    let s = starting_facts def (counted_starting def at c) in
    let stays : rests def ≡ false = rw (ours.desired, s.1, s.2) refl in
    let l = running_locked o def p w stays h in
    let w1 = (acquire o.env p w).1 in
    let k = acquire_keeps o.env p w in
    let same : (w1.objects p).def ≡ def = k.0 ∙ d in
    let free : ((w1.objects p).taken_over || w1.stopping_hold) ≡ false =
      rw (k.3, t, k.2, hold) refl in
    let m : ((w1.objects p).def.mode == headless) ≡ false = rw same ours.mode in
    let counted : counted_at (w1.objects p).def ≡ some at = rw same c in
    let seen = watch_counted o pane p w1 at e f g m counted in
    let a = record (w1.objects p) {
      next_start = at + backoff (length (w1.objects p).def.crashes);
    } in
    let run =
      running_eq o def p w stays l free (ap (λ (r : Outcome × World). r.0) seen)
      ∙ ap (λ (r : Outcome × World). let r' : Option Error × World = (none, enter_map p r.1) in r')
          seen in
    let self = put_self p a w1 in
    subst (λ (r : Option Error × World). Resumed def at r.1) (sym run)
      (record {
        object = p;
        named = entered p a w1 def.name (ap (λ (x : Definition). x.name) same);
        same_def = ap (λ (b : Managed). b.def) self ∙ same;
        timer =
            ap (λ (b : Managed). b.next_start) self
            ∙ ap (λ (x : Definition). at + backoff (length x.crashes)) same;
        locked = ap (λ (b : Managed). b.locked) self ∙ k.4 l;
      })

abbrev unfenced : Definition → Managed
unfenced def = record zero_managed { def = def; legacy_session = not def.session_migrated }

load-same :
    (found : Option (Option (List String))) (a b : Managed)
    → load_delivered found a ≡ some b
    → (b.def ≡ a.def) × (b.taken_over ≡ a.taken_over)
unfolding load_delivered
load-same none a b h = absurd (cc)
load-same (some none) a b h = ground arith
load-same (some (some ids)) a b h = ground arith

own_eq :
    (r : Adoption) (def : Definition) (w : World)
    → (def.mode == headless) ≡ false
    → is_fenced def ≡ false
    → boot_own r def w ≡ boot_loaded r def w
unfolding boot_own boot_fenced
own_eq r def w m f = rw (m, boot_own) (rw (f, boot_fenced) refl)

unfenced_stays :
    (r : Adoption) (def : Definition) → is_fenced def ≡ false → adopted r def ≡ unfenced def
unfenced_stays r def f = rw f refl

loaded_some :
    (r : Adoption) (def : Definition) (w : World) (a : Managed)
    → load_delivered r.delivered (adopted r def) ≡ some a
    → boot_loaded r def w ≡ boot_running r.outside def w.next_object (place_new a w)
unfolding boot_loaded
loaded_some r def w a l = rw (l, boot_loaded) refl

loaded_none :
    (r : Adoption) (def : Definition) (w : World)
    → load_delivered r.delivered (adopted r def) ≡ none
    → (boot_loaded r def w).0 ≡ some no_delivered
unfolding boot_loaded
loaded_none r def w l = rw (l, boot_loaded) refl

own_resumes :
    (r : Adoption) (def : Definition) (w : World) (pane : Pane) (at : Time)
    → IsOurs def
    → w.stopping_hold ≡ false
    → r.outside.pane ≡ some pane
    → pane.exists ≡ true
    → pane.dead ≡ true
    → counted_at def ≡ some at
    → (boot_own r def w).0 ≡ none
    → Resumed def at (boot_own r def w).1
own_resumes r def w pane at ours hold e f g c h =
    let s = starting_facts def (counted_starting def at c) in
    let fenced : is_fenced def ≡ false = rw (s.0, ours.takeover) refl in
    let first = own_eq r def w ours.mode fenced in
    let h' = sym (ap (λ (x : Option Error × World). x.0) first) ∙ h in
    elim (Option-cases (load_delivered r.delivered (adopted r def))) [
      | inl bad ↦ absurd (some_ne_none no_delivered (sym (loaded_none r def w bad) ∙ h'))
      | inr (a, good) ↦
          let run = loaded_some r def w a good in
          let p = w.next_object in
          let v = place_new a w in
          let self = put_self p a (record w { next_object = suc p }) in
          let plain = unfenced_stays r def fenced in
          let l = load-same r.delivered (adopted r def) a good in
          let ok = sym (ap (λ (x : Option Error × World). x.0) run) ∙ h' in
          subst (λ (x : Option Error × World). Resumed def at x.1) (sym (first ∙ run))
            (running_resumes r.outside def p v pane at ours
              (ap (λ (b : Managed). b.def) self ∙ l.0 ∙ ap (λ (b : Managed). b.def) plain)
              (ap (λ (b : Managed). b.taken_over) self
                ∙ l.1
                ∙ ap (λ (b : Managed). b.taken_over) plain)
              hold e f g c ok)
    ]

valid_own :
    (r : Adoption) (def : Definition) (w : World)
    → (def.kind == attached) ≡ false
    → (boot_valid r def w).0 ≡ none
    → boot_valid r def w ≡ boot_own r def w
unfolding boot_valid
valid_own r def w k h = elim (Bool-cases (r.owner != def.agent_id)) [
  | inl other ↦ absurd (some_ne_none wrong_path (rw (other, boot_valid) at h))
  | inr its ↦ elim (Bool-cases (is_some (lookup def.name w.agents))) [
    | inl there ↦ absurd (some_ne_none duplicate (rw (its, there, boot_valid) at h))
    | inr new ↦ rw (its, new, k, boot_valid) refl
  ]
]

agent_valid :
    (is_abs : String → Bool) (r : Adoption) (def : Definition) (w : World)
    → r.saved ≡ some def
    → (boot_agent is_abs r w).0 ≡ none
    → boot_agent is_abs r w ≡ boot_valid r def w
unfolding boot_agent
agent_valid is_abs r def w s h = elim (Option-cases (validate is_abs def)) [
  | inr (e, bad) ↦ absurd (some_ne_none invalid (rw (s, bad, boot_agent) at h))
  | inl good ↦ ground (arith, s, good)
]

pub boot_resumes :
    (is_abs : String → Bool) (r : Adoption) (def : Definition) (w : World) (pane : Pane) (at : Time)
    → r.saved ≡ some def
    → IsOurs def
    → w.stopping_hold ≡ false
    → r.outside.pane ≡ some pane
    → pane.exists ≡ true
    → pane.dead ≡ true
    → counted_at def ≡ some at
    → (boot_agent is_abs r w).0 ≡ none
    → Resumed def at (boot_agent is_abs r w).1
boot_resumes is_abs r def w pane at s ours hold e f g c h =
    let first = agent_valid is_abs r def w s h in
    let h' = sym (ap (λ (x : Option Error × World). x.0) first) ∙ h in
    let second = valid_own r def w ours.kind h' in
    let h'' = sym (ap (λ (x : Option Error × World). x.0) second) ∙ h' in
    subst (λ (x : Option Error × World). Resumed def at x.1) (sym (first ∙ second))
      (own_resumes r def w pane at ours hold e f g c h'')
