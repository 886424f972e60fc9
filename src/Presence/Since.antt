-- ===== src/Presence/Since.antt =====
-- What a step of internal/agentstate/state.go does to the visible state and to its time.
use ac_cli.Prelude.{
  ◌≤◌, ◌≡◌, ◌≢◌, ◌⊎◌, inl, inr, some, arith, eq_iff, Option-cases, Bool-cases, ltb, not, ◌&&◌,
  nat_eq, String,
}
use ac_cli.Presence.Clock.{Time, is_zero}
use ac_cli.Presence.Types.{State, Event, Snapshot, no_nudge, physical_beq_iff, logical_beq_iff}
use ac_cli.Presence.{
  step, settle, stamp, keep_label, derive, clear_gate, nudge_quiet, nudge_waiting, apply_kind,
  apply_stop,
}

-- The nudges and the gates leave the visible state alone.
pub state-settle :
    (p : State) (now : Time) (s : Snapshot)
    → (settle p now s).0.state ≡ stamp p now (keep_label p (derive s now))
unfolding settle nudge_waiting nudge_quiet clear_gate
state-settle p now s = ground arith

-- Two states show something different.
abbrev pub Differs : State → State → Type 0
Differs a b = (a.physical ≢ b.physical) ⊎ ((a.logical ≢ b.logical) ⊎ (a.reason ≢ b.reason))

stamp_lem :
    (p : State) (now : Time) (st : State)
    → (stamp p now st ≡ p) ⊎ (Differs p (stamp p now st) × ((stamp p now st).since ≡ now))
unfolding stamp
stamp_lem p now st = ground (
  arith,
  physical_beq_iff st.physical p.physical,
  logical_beq_iff st.logical p.logical,
  eq_iff st.reason p.reason,
)

-- A step either ignores its event or settles a changed snapshot at a time not before `since`.
pub step-cases :
    (s : Snapshot) (e : Event)
    → (step s e ≡ (s, no_nudge))
      ⊎ ((t : Snapshot) × (stop : String) × (apply_kind e.kind e e.at s ≡ some (t, stop))
          × (step s e ≡ settle s.state e.at (apply_stop e stop t))
          × (s.state.since ≤ e.at))
unfolding step
step-cases s e = elim (Bool-cases (is_zero e.at)) [
  | inl z ↦ inl (rw z)
  | inr nz ↦ elim (Bool-cases (not (is_zero s.state.since) && ltb e.at s.state.since)) [
    | inl early ↦ inl (rw (nz, early))
    | inr late ↦ elim (Option-cases (apply_kind e.kind e e.at s)) [
      | inl ignored ↦ inl (rw (nz, late, ignored))
      | inr ((t, stop), found) ↦ inr (t, stop, found, rw (nz, late, found), ground arith)
    ]
  ]
]

-- One step either leaves the visible state (its time included) exactly as it was, or shows something
-- different, stamped with the event's time, which is not before the old one.
pub step-since :
    (s : Snapshot) (e : Event)
    → ((step s e).0.state ≡ s.state)
      ⊎ (Differs s.state (step s e).0.state
          × ((step s e).0.state.since ≡ e.at)
          × (s.state.since ≤ e.at))
step-since s e = elim (step-cases s e) [
  | inl same ↦ inl (rw same)
  | inr (t, stop, found, eq, late) ↦ rw (eq, state-settle) (settled t stop late)
]
  where
    settled :
        (t : Snapshot) (stop : String)
        → s.state.since ≤ e.at
        → let st = keep_label s.state (derive (apply_stop e stop t) e.at) in
          (stamp s.state e.at st ≡ s.state)
          ⊎ (Differs s.state (stamp s.state e.at st)
              × ((stamp s.state e.at st).since ≡ e.at)
              × (s.state.since ≤ e.at))
    settled t stop late =
        elim (stamp_lem s.state e.at (keep_label s.state (derive (apply_stop e stop t) e.at))) [
          | inl same ↦ inl same
          | inr (differs, now) ↦ inr (differs, now, late)
        ]
