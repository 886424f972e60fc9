-- ===== src/Presence/Shape.antt =====
-- Every state that the engine shows passes the reporter's checks on its values.
use ac_cli.Prelude.{String, ◌≡◌, ◌⊎◌, inl, inr, true, List, none, some, arith, string_eq}
use ac_cli.Presence.Clock.{Time}
use ac_cli.Presence.Types.{
  running, stopped, Logical, no_logical, State, EventKind, session_alive, Event, Snapshot,
  logical_beq_iff,
}
use ac_cli.Presence.{
  new, valid_logical, apply_kind, apply_stop, running_view, derive, keep_label, stamp, settle, step,
}
use ac_cli.Presence
use ac_cli.Presence.Since.{state-settle, step-cases}
use ac_cli.Presence.Trace.{run, run_induction}
use ac_cli.Presence.Report.{check_values}

-- Running with a known logical value, or stopped with none.
abbrev IsShown : State → Type 0
IsShown st =
    ((st.physical ≡ running) × (valid_logical st.logical ≡ true))
    ⊎ ((st.physical ≡ stopped) × (st.logical ≡ no_logical))

abbrev IsExplicit : Logical → Type 0
IsExplicit l = (l ≡ no_logical) ⊎ (valid_logical l ≡ true)

record IsShaped (s : Snapshot) : Type 0 where
  explicit_known : IsExplicit s.explicit
  shown : IsShown s.state

-- Before the state is derived the logical value of a running agent may be old.
abbrev IsHalf : Snapshot → Type 0
IsHalf s =
    IsExplicit s.explicit
    × ((s.state.physical ≡ running)
        ⊎ ((s.state.physical ≡ stopped) × (s.state.logical ≡ no_logical)))

running_view_valid :
    (s : Snapshot) (now : Time)
    → IsExplicit s.explicit
    → valid_logical (running_view s now).0 ≡ true
unfolding running_view valid_logical
running_view_valid s now h = ground (arith, logical_beq_iff s.explicit no_logical)

derive-IsShown : (s : Snapshot) (now : Time) → IsHalf s → IsShown (derive s now)
unfolding derive
derive-IsShown s now h = ground (arith, running_view_valid s now)

label-IsShown :
    (p : State) (now : Time) (st : State) → IsShown st → IsShown (stamp p now (keep_label p st))
unfolding stamp keep_label
label-IsShown p now st h = ground arith

apply_kind-IsHalf :
    (k : EventKind) (e : Event) (now : Time) (s : Snapshot) {t : Snapshot} {stop : String}
    → IsHalf s
    → apply_kind k e now s ≡ some (t, stop)
    → IsHalf t
unfolding apply_kind
apply_kind-IsHalf session_alive e now s h eq = ground arith
apply_kind-IsHalf _ e now s h eq = ground arith

apply_stop-IsHalf :
    (e : Event) (stop : String) (s : Snapshot) → IsHalf s → IsHalf (apply_stop e stop s)
unfolding apply_stop
apply_stop-IsHalf e stop s h = ground arith

explicit-settle : (p : State) (now : Time) (s : Snapshot) → (settle p now s).0.explicit ≡ s.explicit
unfolding settle Presence.nudge_waiting Presence.nudge_quiet Presence.clear_gate
explicit-settle p now s = ground arith

settle-IsShaped : (p : State) (now : Time) (s : Snapshot) → IsHalf s → IsShaped (settle p now s).0
settle-IsShaped p now s h = record {
  explicit_known = rw explicit-settle h.0;
  shown = rw state-settle (label-IsShown p now (derive s now) (derive-IsShown s now h));
}

step-IsShaped : (s : Snapshot) (e : Event) → IsShaped s → IsShaped (step s e).0
step-IsShaped s e h = elim (step-cases s e) [
  | inl same ↦ rw same h
  | inr (t, stop, found, eq, late) ↦ rw eq (
      settle-IsShaped s.state e.at (apply_stop e stop t)
        (apply_stop-IsHalf e stop t (apply_kind-IsHalf e.kind e e.at s (half h) found)))
]
  where
    half : IsShaped s → IsHalf s
    half v = ground arith

new-IsShaped : (program : String) (now : Time) → IsShaped (new program now)
unfolding new
new-IsShaped program now = ground arith

shown_passes : (st : State) → IsShown st → check_values st ≡ none
unfolding check_values
shown_passes st h = ground arith

-- Whatever events arrive, the state shown passes the reporter's checks on the physical and the
-- logical value: a running agent has a known logical value and a stopped one has none.
pub run-check_values :
    (program : String) (now : Time) (es : List Event)
    → check_values (run (new program now) es).state ≡ none
run-check_values program now es =
    shown_passes (run (new program now) es).state
      (run_induction IsShaped step-IsShaped (new program now) es (new-IsShaped program now)).shown
