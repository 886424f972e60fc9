-- ===== src/Supervisor/Runtime/Polling/Tmux.antt =====
-- What a poll does to the record of an agent under tmux.
use ac_cli.Prelude.{
  ℕ, String, ◌≡◌, refl, sym, ap, ◌∙◌, Bool, true, false, not, ◌&&◌, Option, none, some, List, [],
  ◌∷◌, arith, ◌==◌, ◌!=◌, string_eq, nat_eq, nat_beq_iff, if◌then◌else◌, Option-cases, inl, inr,
  ◌⊎◌, beq_self, is_some,
}
use mathlib.Core.Path.{subst}
use ac_cli.Presence.Clock.{Time}
use ac_cli.Supervisor.Types.{
  attached, kind_eq, headless, mode_eq, Definition, stopped_by_dashboard, run_state_eq,
  Notification, Managed,
}
use ac_cli.Supervisor.World.{Env, World, put, save, release}
use ac_cli.Supervisor.World.Frame.{save_frame}
use ac_cli.Supervisor.Feed.{receive}
use ac_cli.Supervisor.Delivery.{deliver}
use ac_cli.Supervisor.Runtime.Outside.{
  Outcome, Fetched, fetch_failed, agent_stopped, feed, no_cursor, not_saved, not_killed, Outside,
}
use ac_cli.Supervisor.Runtime.Branches.{either_way, after_fault}
use ac_cli.Supervisor.Runtime.Polling.{
  inbox_of, has_moved, next_poll_at, take_one, poll_unknown, let_go, mark_dashboard,
  poll_stopped_driver, poll_stopped, take_mail, poll_done, poll_feed, poll_fetched, poll,
}

-- An agent under tmux: not attached, not headless, with no driver.
pub record IsTmux (a : Managed) : Type 0 where
  pub kind : (a.def.kind == attached) ≡ false
  pub mode : (a.def.mode == headless) ≡ false
  pub driver : a.driver ≡ none

-- The timer and the crashes are as they were, and so is the state unless the server answered that the
-- agent is stopped.
pub record Polled (f : Fetched) (a b : Managed) : Type 0 where
  pub timer : b.next_start ≡ a.next_start
  pub crashes : b.def.crashes ≡ a.def.crashes
  pub state :
      (b.def.state ≡ a.def.state) ⊎ ((b.def.state ≡ stopped_by_dashboard) × (f ≡ agent_stopped))

pub put_self : (p : ℕ) (a : Managed) (w : World) → (put p a w).objects p ≡ a
put_self p a w = rw (beq_self p) refl

pub save_self : (env : Env) (p : ℕ) (w : World) → (save env p w).1.objects p ≡ w.objects p
save_self env p w = ap (λ (o : ℕ → Managed). o p) (save_frame env p w).3

release_self :
    (p : ℕ) (w : World)
    → ((release p w).objects p).next_start ≡ (w.objects p).next_start
      × (((release p w).objects p).def ≡ (w.objects p).def)
      × (((release p w).objects p).driver ≡ (w.objects p).driver)
unfolding release
release_self p w = ground (arith, nat_beq_iff p p)

-- What is the same for a poll.
pub record Alike (a b : Managed) : Type 0 where
  pub timer : b.next_start ≡ a.next_start
  pub def : b.def ≡ a.def
  pub driver : b.driver ≡ a.driver

Alike-Polled : (f : Fetched) (a b : Managed) → Alike a b → Polled f a b
Alike-Polled f a b h = record {
  timer = h.timer;
  crashes = rw h.def refl;
  state = inl (rw h.def refl);
}

Alike-IsTmux : (a b : Managed) → Alike a b → IsTmux a → IsTmux b
Alike-IsTmux a b h t = record {
  kind = rw h.def t.kind;
  mode = rw h.def t.mode;
  driver = h.driver ∙ t.driver;
}

Alike-trans : (a b c : Managed) → Alike a b → Alike b c → Alike a c
Alike-trans a b c h k = record {
  timer = k.timer ∙ h.timer;
  def = k.def ∙ h.def;
  driver = k.driver ∙ h.driver;
}

put-Alike :
    (p : ℕ) (a : Managed) (w : World)
    → Alike (w.objects p) a
    → Alike (w.objects p) ((put p a w).objects p)
put-Alike p a w h = subst (λ (b : Managed). Alike (w.objects p) b) (sym (put_self p a w)) h

-- A notification for an agent under tmux is not handed on: tmux has its own listener.
deliver_tmux :
    (o : Outside) (p : ℕ) (n : Notification) (w : World)
    → IsTmux (w.objects p)
    → (deliver o.env (o.mail n).window o.guidance (o.mail n).answer (o.mail n).taken p n w).1 ≡ w
unfolding deliver
deliver_tmux o p n w t = rw (t.kind, t.mode, deliver) refl

same_branch : (P : World → Type 0) (b : Bool) (x y : World) → P x → P y → P (if b then x else y)
same_branch P true x y h k = h
same_branch P false x y h k = k

take_one-Alike :
    (o : Outside) (p : ℕ) (n : Notification) (w : World)
    → IsTmux (w.objects p)
    → Alike (w.objects p) ((take_one o p n w).1.objects p)
unfolding take_one
take_one-Alike o p n w t =
    let b = (receive o.io n.message_id (inbox_of (w.objects p))).1 in
    let a = record (w.objects p) { delivered = b.delivered } in
    let w' = put p a w in
    let h : Alike (w.objects p) (w'.objects p) =
      put-Alike p a w (record { timer = refl; def = refl; driver = refl }) in
    let t' = Alike-IsTmux (w.objects p) (w'.objects p) h t in
    same_branch (λ (v : World). Alike (w.objects p) (v.objects p))
      (receive o.io n.message_id (inbox_of (w.objects p))).0.1 _ w'
      (subst (λ (v : World). Alike (w.objects p) (v.objects p)) (sym (deliver_tmux o p n w' t')) h)
      h

take_mail-Alike :
    (o : Outside) (p : ℕ) (ns : List Notification) (w : World)
    → IsTmux (w.objects p)
    → Alike (w.objects p) ((take_mail o p ns w).1.objects p)
unfolding take_mail
take_mail-Alike o p [] w t = record { timer = refl; def = refl; driver = refl }
take_mail-Alike o p (n ∷ ns) w t =
    let w' = (take_one o p n w).1 in
    let one = take_one-Alike o p n w t in
    let rest = take_mail-Alike o p ns w' (Alike-IsTmux (w.objects p) (w'.objects p) one t) in
    after_fault (λ (v : World). Alike (w.objects p) (v.objects p)) (take_one o p n w).0 w' w'
      (take_mail o p ns w') one (Alike-trans (w.objects p) (w'.objects p) _ one rest)

poll_done-Alike :
    (o : Outside) (seen : Option String) (cursor : String) (wait : Time) (p : ℕ) (w : World)
    → Alike (w.objects p) ((poll_done o seen cursor wait p w).1.objects p)
unfolding poll_done
poll_done-Alike o seen cursor wait p w =
    either_way (λ (v : World). Alike (w.objects p) (v.objects p))
      (has_moved seen cursor && not o.cursor_saved) (some no_cursor, w) _
      (record { timer = refl; def = refl; driver = refl })
      (put-Alike p (record (w.objects p) { next_poll = next_poll_at o.after.now wait }) w
        (record { timer = refl; def = refl; driver = refl }))

poll_feed-Alike :
    (o : Outside) (seen : Option String) (ns : List Notification) (cursor : String) (wait : Time)
    (p : ℕ) (w : World)
    → IsTmux (w.objects p)
    → Alike (w.objects p) ((poll_feed o seen ns cursor wait p w).1.objects p)
unfolding poll_feed
poll_feed-Alike o none ns cursor wait p w t = poll_done-Alike o none cursor wait p w
poll_feed-Alike o (some old) ns cursor wait p w t =
    let w' = (take_mail o p ns w).1 in
    let one = take_mail-Alike o p ns w t in
    after_fault (λ (v : World). Alike (w.objects p) (v.objects p)) (take_mail o p ns w).0 w' w'
      (poll_done o (some old) cursor wait p w') one
      (Alike-trans (w.objects p) (w'.objects p) _ one
        (poll_done-Alike o (some old) cursor wait p w'))

-- The dashboard stopped the agent.
dashboard-Polled :
    (a b : Managed)
    → b.next_start ≡ a.next_start
    → b.def ≡ record a.def { state = stopped_by_dashboard }
    → Polled agent_stopped a b
dashboard-Polled a b e f = record {
  timer = e;
  crashes = ap (λ (d : Definition). d.crashes) f;
  state = inr (ap (λ (d : Definition). d.state) f, refl);
}

mark_dashboard-Polled :
    (env : Env) (p : ℕ) (w : World)
    → Polled agent_stopped (w.objects p) ((mark_dashboard env p w).1.objects p)
unfolding mark_dashboard
mark_dashboard-Polled env p w =
    let a = record (w.objects p) {
      def = record (w.objects p).def { state = stopped_by_dashboard };
    } in
    subst (λ (b : Managed). Polled agent_stopped (w.objects p) b)
      (sym (save_self env p (put p a w) ∙ put_self p a w))
      (dashboard-Polled (w.objects p) a refl refl)

Polled-Alike : (f : Fetched) (a b c : Managed) → Polled f a b → Alike b c → Polled f a c
Polled-Alike f a b c h k = record {
  timer = k.timer ∙ h.timer;
  crashes = ap (λ (d : Definition). d.crashes) k.def ∙ h.crashes;
  state = elim h.state [
    | inl e ↦ inl (ap (λ (d : Definition). d.state) k.def ∙ e)
    | inr (e, g) ↦ inr (ap (λ (d : Definition). d.state) k.def ∙ e, g)
  ];
}

let_go-Alike : (p : ℕ) (w : World) → Alike (w.objects p) ((let_go p w).1.objects p)
let_go-Alike p w =
    let a = record (w.objects p) { pending_wakes = [] } in
    let r = release_self p (put p a w) in
    let self = put_self p a w in
    record {
      timer = r.0 ∙ ap (λ (b : Managed). b.next_start) self;
      def = r.1 ∙ ap (λ (b : Managed). b.def) self;
      driver = r.2 ∙ ap (λ (b : Managed). b.driver) self;
    }

-- Without a driver.
abbrev stopped_here : Outside → ℕ → World → Outcome × World
stopped_here o p w =
    if not (mark_dashboard o.env p w).0
    then (some not_saved, (mark_dashboard o.env p w).1)
    else if (w.objects p).def.mode != headless && not o.killed
    then (some not_killed, (mark_dashboard o.env p w).1)
    else let_go p (mark_dashboard o.env p w).1

no_driver_here :
    (o : Outside) (p : ℕ) (w : World)
    → (w.objects p).driver ≡ none
    → poll_stopped o p w ≡ stopped_here o p w
unfolding poll_stopped
no_driver_here o p w e =
    ap
      (λ (d : Option ℕ).
        if not (mark_dashboard o.env p w).0
        then (let r : Outcome × World = (some not_saved, (mark_dashboard o.env p w).1) in r)
        else if is_some d
        then poll_stopped_driver o p (mark_dashboard o.env p w).1
        else if (w.objects p).def.mode != headless && not o.killed
        then (some not_killed, (mark_dashboard o.env p w).1)
        else let_go p (mark_dashboard o.env p w).1)
      e

poll_stopped-Polled :
    (o : Outside) (p : ℕ) (w : World)
    → IsTmux (w.objects p)
    → Polled agent_stopped (w.objects p) ((poll_stopped o p w).1.objects p)
poll_stopped-Polled o p w t =
    let w' = (mark_dashboard o.env p w).1 in
    let marked = mark_dashboard-Polled o.env p w in
    let ok : World → Type 0 = λ v. Polled agent_stopped (w.objects p) (v.objects p) in
    let done =
      Polled-Alike agent_stopped (w.objects p) (w'.objects p) _ marked (let_go-Alike p w') in
    subst (λ (r : Outcome × World). ok r.1) (sym (no_driver_here o p w t.driver))
      (either_way ok (not (mark_dashboard o.env p w).0) (some not_saved, w') _ marked
        (either_way ok ((w.objects p).def.mode != headless && not o.killed) (some not_killed, w')
          (let_go p w') marked done))

poll_fetched-Polled :
    (o : Outside) (seen : Option String) (f : Fetched) (p : ℕ) (w : World)
    → IsTmux (w.objects p)
    → Polled f (w.objects p) ((poll_fetched o seen f p w).1.objects p)
unfolding poll_fetched
poll_fetched-Polled o seen agent_stopped p w t = rw t.kind (poll_stopped-Polled o p w t)
poll_fetched-Polled o seen fetch_failed p w t =
    Alike-Polled fetch_failed (w.objects p) _
      (put-Alike p _ w (record { timer = refl; def = refl; driver = refl }))
poll_fetched-Polled o seen (feed ns cursor wait) p w t =
    let w' = put p (record (w.objects p) { failures = 0 }) w in
    let h : Alike (w.objects p) (w'.objects p) =
      put-Alike p (record (w.objects p) { failures = 0 }) w
        (record { timer = refl; def = refl; driver = refl }) in
    Alike-Polled (feed ns cursor wait) (w.objects p) _ (
      Alike-trans (w.objects p) (w'.objects p) _ h (
        poll_feed-Alike o seen ns cursor wait p w' (Alike-IsTmux (w.objects p) (w'.objects p) h t)))

poll_unknown_tmux :
    (env : Env) (p : ℕ) (w : World) → IsTmux (w.objects p) → (poll_unknown env p w).1 ≡ w
unfolding poll_unknown
poll_unknown_tmux env p w t = rw (t.kind, poll_unknown) refl

same-Polled : (f : Fetched) (a : Managed) → Polled f a a
same-Polled f a = record { timer = refl; crashes = refl; state = inl refl }

pub poll-Polled :
    (o : Outside) (p : ℕ) (w : World)
    → IsTmux (w.objects p)
    → Polled o.fetched (w.objects p) ((poll o p w).1.objects p)
unfolding poll
poll-Polled o p w t =
    let def = (w.objects p).def in
    let ok : World → Type 0 = λ v. Polled o.fetched (w.objects p) (v.objects p) in
    let here = same-Polled o.fetched (w.objects p) in
    either_way ok (not (o.env.has_credential def.workstream def.agent_id)) _ _
      (subst ok (sym (poll_unknown_tmux o.env p w t)) here)
      (elim (Option-cases o.cursor) [
        | inl e ↦ rw e here
        | inr (seen, e) ↦ rw e (poll_fetched-Polled o seen o.fetched p w t)
      ])
