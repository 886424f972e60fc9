-- ===== src/Presence/Trace.antt =====
-- Runs of the presence engine over a list of events.
use ac_cli.Prelude.{List, [], ◌∷◌, ◌≤◌, arith}
use ac_cli.Presence.Types.{Event, Snapshot, Nudge}
use ac_cli.Presence.{step}
use ac_cli.Presence.Since.{step-since}

-- The snapshot after some events, and the nudges that they give.
unfoldable pub run : Snapshot → List Event → Snapshot
run s [] = s
run s (e ∷ es) = run (step s e).0 es

unfoldable pub nudges : Snapshot → List Event → List Nudge
nudges s [] = []
nudges s (e ∷ es) = (step s e).1 ∷ nudges (step s e).0 es

-- An invariant of the step is one of a run.
pub run_induction {ℓ} :
    (P : Snapshot → Type ℓ)
    → ((s : Snapshot) (e : Event) → P s → P (step s e).0)
    → (s : Snapshot) (es : List Event) → P s
    → P (run s es)
unfolding run
run_induction P keep s [] h = h
run_induction P keep s (e ∷ es) h = run_induction P keep (step s e).0 es (keep s e h)

-- Over any events, in any order and with any times, the time of the visible state never moves back.
pub since_monotone : (s : Snapshot) (es : List Event) → s.state.since ≤ (run s es).state.since
unfolding run
since_monotone s [] = omega arith
since_monotone s (e ∷ es) = ground (arith, step-since s e, since_monotone (step s e).0 es)
