-- ===== src/Presence/Nudges.antt =====
-- How often, and how late, the engine nudges an agent.
use ac_cli.Prelude.{
  ℕ, suc, ◌+◌, ◌≤◌, String, ◌≡◌, ◌≢◌, refl, ◌∙◌, ◌⊎◌, inl, inr, Bool, true, false, List, [], ◌∷◌,
  some, arith, string_eq, All,
}
use ac_cli.Presence.Clock.{Time, quiet_after, nudge_after}
use ac_cli.Presence.Types.{
  no_activity, State, EventKind, run_start, turn, tool_start, tool_end, rpc, run_end, session_alive,
  Event, Snapshot, Nudge, nudge_no_activity,
}
use ac_cli.Presence.{
  new, apply_kind, apply_stop, settle, step, nudge_quiet, nudge_waiting, clear_gate,
}
use ac_cli.Presence.Since.{step-cases}
use ac_cli.Presence.Trace.{run, nudges, run_induction}
use ac_cli.Presence.Quiet.{IsQuiet, step-IsQuiet, new-IsQuiet}

-- The kinds of event that may open the gate of the no-activity nudge again.
abbrev pub starts_episode : EventKind → Bool
starts_episode run_start = true
starts_episode turn = true
starts_episode tool_start = true
starts_episode tool_end = true
starts_episode rpc = true
starts_episode run_end = true
starts_episode _ = false

settle_nudge :
    (p : State) (now : Time) (s : Snapshot)
    → (settle p now s).1 ≡ nudge_no_activity
    → let t = (settle p now s).0 in
      (t.state.logical ≡ no_activity)
      × (t.state.since + nudge_after ≤ now)
      × (s.nudged_no_activity ≡ false)
      × (t.nudged_no_activity ≡ true)
unfolding settle nudge_waiting nudge_quiet clear_gate
settle_nudge p now s h = ground arith

settle_gate :
    (p : State) (now : Time) (s : Snapshot)
    → s.nudged_no_activity ≡ true
    → (settle p now s).0.nudged_no_activity ≡ true
unfolding settle nudge_waiting nudge_quiet clear_gate
settle_gate p now s h = ground arith

kind_gate :
    (k : EventKind) (e : Event) (now : Time) (s : Snapshot) {t : Snapshot} {stop : String}
    → starts_episode k ≡ false
    → apply_kind k e now s ≡ some (t, stop)
    → t.nudged_no_activity ≡ s.nudged_no_activity
unfolding apply_kind
kind_gate session_alive e now s q eq = ground arith
kind_gate _ e now s q eq = ground arith

stop_gate :
    (e : Event) (stop : String) (t : Snapshot)
    → (apply_stop e stop t).nudged_no_activity ≡ t.nudged_no_activity
unfolding apply_stop
stop_gate e stop t = ground arith

-- A closed gate gives no nudge and stays closed, and a nudge closes the gate.
step_gate :
    (s : Snapshot) (e : Event)
    → starts_episode e.kind ≡ false
    → (s.nudged_no_activity ≡ true
        → ((step s e).0.nudged_no_activity ≡ true) × ((step s e).1 ≢ nudge_no_activity))
      × ((step s e).1 ≡ nudge_no_activity → (step s e).0.nudged_no_activity ≡ true)
step_gate s e q = elim (step-cases s e) [
  | inl same ↦ rw same ((λ h. (h, λ x. cc)), λ x. cc)
  | inr (t, stop, found, eq, late) ↦ rw eq (
    (λ h. closed t stop (kind_gate e.kind e e.at s q found) h),
    λ x. (settle_nudge s.state e.at (apply_stop e stop t) x).3,
  )
]
  where
    closed :
        (t : Snapshot) (stop : String)
        → t.nudged_no_activity ≡ s.nudged_no_activity
        → s.nudged_no_activity ≡ true
        → ((settle s.state e.at (apply_stop e stop t)).0.nudged_no_activity ≡ true)
          × ((settle s.state e.at (apply_stop e stop t)).1 ≢ nudge_no_activity)
    closed t stop kept h =
        let g : (apply_stop e stop t).nudged_no_activity ≡ true = stop_gate e stop t ∙ kept ∙ h in
        (
          settle_gate s.state e.at (apply_stop e stop t) g,
          λ x. cc (g, (settle_nudge s.state e.at (apply_stop e stop t) x).2),
        )

abbrev pub is_quiet_nudge : Nudge → Bool
is_quiet_nudge nudge_no_activity = true
is_quiet_nudge _ = false

abbrev pub tally : Bool → ℕ → ℕ
tally true n = suc n
tally false n = n

abbrev pub count_quiet : List Nudge → ℕ
count_quiet [] = 0
count_quiet (n ∷ ns) = tally (is_quiet_nudge n) (count_quiet ns)

not_quiet_nudge : (n : Nudge) → n ≢ nudge_no_activity → is_quiet_nudge n ≡ false
not_quiet_nudge nudge_no_activity h = absurd (h refl)
not_quiet_nudge _ h = refl

quiet_nudge : (n : Nudge) → (n ≡ nudge_no_activity) ⊎ (is_quiet_nudge n ≡ false)
quiet_nudge nudge_no_activity = inl refl
quiet_nudge _ = inr refl

gate_closed :
    (s : Snapshot) (es : List Event)
    → All (λ e. starts_episode e.kind ≡ false) es
    → s.nudged_no_activity ≡ true
    → count_quiet (nudges s es) ≡ 0
unfolding nudges
gate_closed s [] h g = refl
gate_closed s (e ∷ es) h g =
    let (kept, silent) = (step_gate s e h.0).0 g in
    rw (not_quiet_nudge (step s e).1 silent) (gate_closed (step s e).0 es h.1 kept)

-- Over any events that start or end no run and show no activity, at most one no-activity nudge is
-- given.
pub quiet_nudge_once :
    (s : Snapshot) (es : List Event)
    → All (λ e. starts_episode e.kind ≡ false) es
    → count_quiet (nudges s es) ≤ 1
unfolding nudges
quiet_nudge_once s [] h = omega arith
quiet_nudge_once s (e ∷ es) h = elim (quiet_nudge (step s e).1) [
  | inl given ↦
      rw given (rw (gate_closed (step s e).0 es h.1 ((step_gate s e h.0).1 given)) (omega arith))
  | inr other ↦ rw other (quiet_nudge_once (step s e).0 es h.1)
]

step_nudge :
    (s : Snapshot) (e : Event)
    → (step s e).1 ≡ nudge_no_activity
    → ((step s e).0.state.logical ≡ no_activity) × ((step s e).0.state.since + nudge_after ≤ e.at)
step_nudge s e h = elim (step-cases s e) [
  | inl same ↦ cc (same, h)
  | inr (t, stop, found, eq, late) ↦ rw eq (late_enough t stop (rw eq at h))
]
  where
    late_enough :
        (t : Snapshot) (stop : String)
        → (settle s.state e.at (apply_stop e stop t)).1 ≡ nudge_no_activity
        → ((settle s.state e.at (apply_stop e stop t)).0.state.logical ≡ no_activity)
          × ((settle s.state e.at (apply_stop e stop t)).0.state.since + nudge_after ≤ e.at)
    late_enough t stop x = let n = settle_nudge s.state e.at (apply_stop e stop t) x in (n.0, n.1)

-- Whatever came before, an event that makes the engine nudge a pi agent for no activity comes at
-- least 15 minutes after the state was first shown, and at least 30 after the last activity.
pub quiet_nudge_late :
    (t : Time) (es : List Event) (e : Event)
    → let s = run (new "pi" t) es in
      (step s e).1 ≡ nudge_no_activity
      → ((step s e).0.state.since + nudge_after ≤ e.at)
        × ((step s e).0.last_activity + (quiet_after + nudge_after) ≤ e.at)
quiet_nudge_late t es e h =
    let s = run (new "pi" t) es in
    let q = step-IsQuiet s e (run_induction IsQuiet step-IsQuiet (new "pi" t) es (new-IsQuiet t)) in
    let (shown, late) = step_nudge s e h in (late, omega (arith, late, q.silent shown))
