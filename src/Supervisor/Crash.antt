-- ===== src/Supervisor/Crash.antt =====
-- internal/supervisor/supervisor.go and headless.go: the restart delay, and what an exit of the agent
-- does to its record (the dead-pane branch of `watch`, the exit branch of `tickHeadless`).
use ac_cli.Prelude.{
  ℕ, ◌+◌, ◌-◌, ◌*◌, ◌≤◌, ◌<◌, String, ◌≡◌, refl, some, List, [], ◌∷◌, ◌++◌, arith, ◌⊎◌, inl, inr,
  Bool-cases, leb→le, leb, ltb, if◌then◌else◌, length,
}
use ac_cli.Presence.Clock.{Time, minute}
use ac_cli.Supervisor.Types.{RunState, Managed}
use ac_cli.Supervisor.Attached.{seconds}

-- backoff
unfoldable pub backoff : ℕ → ℕ
backoff count = if leb count 1 then seconds 5 else if leb count 2 then seconds 30 else 2 * minute

-- The times that are not before `cutoff`.
unfoldable pub not_before : Time → List Time → List Time
not_before cutoff [] = []
not_before cutoff (t ∷ ts) =
    let rest = not_before cutoff ts in if ltb t cutoff then rest else t ∷ rest

-- The crashes that are kept: those of the last ten minutes, the new one included. (A time has no
-- value before 0, so a cutoff before it keeps all.)
unfoldable pub keep_crashes : Time → List Time → List Time
unfolding not_before
keep_crashes now crashes = not_before (now - 10 * minute) (crashes ++ now ∷ [])

-- An exit at `now`: five within ten minutes park the agent, fewer restart it after a delay.
unfoldable pub note_exit : Time → ℕ → String → Managed → Managed
unfolding keep_crashes backoff
note_exit now code signal a =
    let kept = keep_crashes now a.def.crashes in
    let def = record a.def {
      last_exit = some (record { at = some now; code = code; signal = signal });
      crashes = kept;
    } in
    if leb 5 (length kept)
    then record a { def = record def { state = RunState.crashed } }
    else record a {
      def = record def { state = RunState.starting };
      next_start = now + backoff (length kept);
    }

-- The crashes after some exits, oldest first.
unfoldable pub crashes_after : List Time → List Time → List Time
crashes_after crashes [] = crashes
crashes_after crashes (t ∷ ts) = crashes_after (keep_crashes t crashes) ts

-- The times do not fall, from `start` on.
abbrev pub IsOrdered : Time → List Time → Type 0
IsOrdered start [] = Unit
IsOrdered start (t ∷ ts) = (start ≤ t) × IsOrdered t ts

-- The last of some times, or `start`.
abbrev pub latest : Time → List Time → Time
latest start [] = start
latest start (t ∷ ts) = latest t ts

-- The exits that are at most ten minutes old at `now`, and the one at `now`: not by the code's cutoff,
-- but by the age of each.
abbrev pub recent_exits : Time → List Time → List Time
recent_exits now [] = now ∷ []
recent_exits now (t ∷ ts) =
    if leb now (t + 10 * minute) then t ∷ recent_exits now ts else recent_exits now ts

-- The delay after a number of exits: 5 seconds after the first, 30 after the second, then 2 minutes.
pub data Delay (exits : ℕ) (delay : Time) : Type 0 where
  first : exits ≤ 1 → delay ≡ seconds 5 → Delay exits delay
  second : exits ≡ 2 → delay ≡ seconds 30 → Delay exits delay
  later : 3 ≤ exits → delay ≡ 2 * minute → Delay exits delay

not_before-recent :
    (now : Time) (ts : List Time)
    → not_before (now - 10 * minute) (ts ++ now ∷ []) ≡ recent_exits now ts
unfolding not_before
not_before-recent now [] = ground arith
not_before-recent now (t ∷ ts) = ground (arith, not_before-recent now ts)

pub keep_crashes-recent : (now : Time) (ts : List Time) → keep_crashes now ts ≡ recent_exits now ts
unfolding keep_crashes
keep_crashes-recent now ts = not_before-recent now ts

pub backoff-Delay : (exits : ℕ) → Delay exits (backoff exits)
unfolding backoff
backoff-Delay exits = elim (Bool-cases (leb exits 1)) [
  | inl one ↦ rw one (first (leb→le _ _ one) refl)
  | inr more ↦ elim (Bool-cases (leb exits 2)) [
    | inl two ↦ rw (more, two) (second (ground arith) refl)
    | inr three ↦ rw (more, three) (later (ground arith) refl)
  ]
]

-- What an exit makes of the record: it is the last exit, and the crashes are the exits of the last ten
-- minutes with it; five of them park the agent, fewer set the time of its restart.
pub record IsNoted (now : Time) (code : ℕ) (signal : String) (a b : Managed) : Type 0 where
  pub exit : b.def.last_exit ≡ some (record { at = some now; code = code; signal = signal })
  pub crashes : b.def.crashes ≡ recent_exits now a.def.crashes
  pub outcome :
      ((5 ≤ length (recent_exits now a.def.crashes))
        × (b.def.state ≡ RunState.crashed)
        × (b.next_start ≡ a.next_start))
      ⊎ ((length (recent_exits now a.def.crashes) < 5)
          × (b.def.state ≡ RunState.starting)
          × (delay : Time) × (b.next_start ≡ now + delay)
          × Delay (length (recent_exits now a.def.crashes)) delay)

-- An exit is recorded as the last one, and the crashes are the exits that are at most ten minutes old,
-- the new one included. If these are at least five, the agent is parked as crashed and no restart is
-- set; otherwise it is started again 5 seconds after a first exit, 30 after a second, and else 2
-- minutes.
pub note_exit_parks :
    (now : Time) (code : ℕ) (signal : String) (a : Managed)
    → IsNoted now code signal a (note_exit now code signal a)
unfolding note_exit
note_exit_parks now code signal a =
    let same = keep_crashes-recent now a.def.crashes in
    let n = length (recent_exits now a.def.crashes) in
    elim (Bool-cases (leb 5 n)) [
      | inl many ↦
          rw (same, many)
            (record { exit = refl; crashes = refl; outcome = inl (leb→le _ _ many, refl, refl) })
      | inr few ↦
          rw (same, few)
            (record {
              exit = refl;
              crashes = refl;
              outcome = inr (ground arith, refl, backoff n, refl, backoff-Delay n);
            })
    ]
