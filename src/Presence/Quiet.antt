-- ===== src/Presence/Quiet.antt =====
-- When the engine says that a pi agent shows no activity, and when it nudges it.
use ac_cli.Prelude.{◌+◌, ◌≤◌, String, ◌≡◌, ◌⊎◌, inl, inr, true, some, arith, ◌==◌, string_eq}
use ac_cli.Presence.Clock.{Time, quiet_after}
use ac_cli.Presence.Types.{
  running, no_logical, no_activity, State, EventKind, session_alive, Event, Snapshot,
  logical_beq_iff,
}
use ac_cli.Presence.{
  new, apply_kind, apply_stop, running_view, derive, keep_label, stamp, settle, step, nudge_quiet,
  nudge_waiting, clear_gate,
}
use ac_cli.Presence.Since.{state-settle, step-cases}

-- A pi agent that shows no activity had its last activity 15 minutes before the state's time.
pub record IsQuiet (s : Snapshot) : Type 0 where
  pub is_pi : (s.program == "pi") ≡ true
  pub live : (s.state.physical ≡ running) ⊎ (s.state.logical ≡ no_logical)
  pub silent : s.state.logical ≡ no_activity → s.last_activity + quiet_after ≤ s.state.since

view_silent :
    (s : Snapshot) (now : Time)
    → (s.program == "pi") ≡ true
    → (running_view s now).0 ≡ no_activity
    → s.last_activity + quiet_after ≤ now
unfolding running_view
view_silent s now h = ground arith

derive_silent :
    (s : Snapshot) (now : Time)
    → (s.program == "pi") ≡ true
    → (s.state.physical ≡ running) ⊎ (s.state.logical ≡ no_logical)
    → (derive s now).logical ≡ no_activity
    → s.last_activity + quiet_after ≤ now
unfolding derive
derive_silent s now pi h = ground (arith, view_silent s now)

stamp_silent :
    (p : State) (now : Time) (st : State) (la : Time)
    → (p.logical ≡ no_activity → (la + quiet_after ≤ p.since) ⊎ (la ≡ now))
    → (st.logical ≡ no_activity → la + quiet_after ≤ now)
    → (stamp p now (keep_label p st)).logical ≡ no_activity
    → la + quiet_after ≤ (stamp p now (keep_label p st)).since
unfolding stamp keep_label
stamp_silent p now st la before fresh =
    ground (arith, logical_beq_iff st.logical p.logical, logical_beq_iff st.logical no_activity)

-- What the switch on the kind does to the program, the physical value and the last activity.
abbrev IsMoved : Time → Snapshot → Snapshot → Type 0
IsMoved now s t =
    (t.program ≡ s.program)
    × (((t.state.physical ≡ running) ⊎ (t.state ≡ s.state)))
    × ((t.last_activity ≡ s.last_activity) ⊎ (t.last_activity ≡ now))

apply_kind-IsMoved :
    (k : EventKind) (e : Event) (now : Time) (s : Snapshot) {t : Snapshot} {stop : String}
    → apply_kind k e now s ≡ some (t, stop)
    → IsMoved now s t
unfolding apply_kind
apply_kind-IsMoved session_alive e now s eq = ground arith
apply_kind-IsMoved _ e now s eq = ground arith

apply_stop_lem :
    (e : Event) (stop : String) (t : Snapshot)
    → (t.state.physical ≡ running) ⊎ (t.state.logical ≡ no_logical)
    → let u = apply_stop e stop t in
      (u.program ≡ t.program)
      × (u.last_activity ≡ t.last_activity)
      × ((u.state.physical ≡ running) ⊎ (u.state.logical ≡ no_logical))
unfolding apply_stop
apply_stop_lem e stop t h = ground arith

settle_keeps :
    (p : State) (now : Time) (s : Snapshot)
    → ((settle p now s).0.program ≡ s.program)
      × ((settle p now s).0.last_activity ≡ s.last_activity)
unfolding settle nudge_waiting nudge_quiet clear_gate
settle_keeps p now s = ground arith

-- Stamping and labelling keep the physical and the logical value.
live-stamp :
    (p : State) (now : Time) (st : State)
    → (st.physical ≡ running) ⊎ (st.logical ≡ no_logical)
    → let u = stamp p now (keep_label p st) in (u.physical ≡ running) ⊎ (u.logical ≡ no_logical)
unfolding stamp keep_label
live-stamp p now st h = ground arith

live-derive :
    (s : Snapshot) (now : Time)
    → (s.state.physical ≡ running) ⊎ (s.state.logical ≡ no_logical)
    → ((derive s now).physical ≡ running) ⊎ ((derive s now).logical ≡ no_logical)
unfolding derive
live-derive s now h = ground arith

settle-IsQuiet :
    (p : State) (now : Time) (s : Snapshot)
    → (s.program == "pi") ≡ true
    → (s.state.physical ≡ running) ⊎ (s.state.logical ≡ no_logical)
    → (p.logical ≡ no_activity
        → (s.last_activity + quiet_after ≤ p.since) ⊎ (s.last_activity ≡ now))
    → IsQuiet (settle p now s).0
settle-IsQuiet p now s pi h before = record {
  is_pi = rw ((settle_keeps p now s).0) pi;
  live = rw state-settle (live-stamp p now (derive s now) (live-derive s now h));
  silent =
      rw ((settle_keeps p now s).1, state-settle)
        (stamp_silent p now (derive s now) s.last_activity before (derive_silent s now pi h));
}

pub step-IsQuiet : (s : Snapshot) (e : Event) → IsQuiet s → IsQuiet (step s e).0
step-IsQuiet s e h = elim (step-cases s e) [
  | inl same ↦ rw same h
  | inr (t, stop, found, eq, late) ↦ rw eq (moved t stop (apply_kind-IsMoved e.kind e e.at s found))
]
  where
    live :
        (t : Snapshot)
        → IsMoved e.at s t
        → (t.state.physical ≡ running) ⊎ (t.state.logical ≡ no_logical)
    live t m = ground arith

    moved :
        (t : Snapshot) (stop : String)
        → IsMoved e.at s t
        → IsQuiet (settle s.state e.at (apply_stop e stop t)).0
    moved t stop m =
        let (program, activity, alive) = apply_stop_lem e stop t (live t m) in
        settle-IsQuiet s.state e.at (apply_stop e stop t) (rw (program, m.0) h.is_pi) alive
          (λ q. ground (arith, activity, h.silent q))

pub new-IsQuiet : (now : Time) → IsQuiet (new "pi" now)
unfolding new
new-IsQuiet now = ground arith
