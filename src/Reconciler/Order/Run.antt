-- ===== src/Reconciler/Order/Run.antt =====
-- The order of the calls over a whole check.
use ac_cli.Prelude.{
  String, Bool, true, false, List, [], ◌∷◌, ◌==◌, ◌||◌, string_eq, lookup, inl, inr, Bool-cases,
  Option-cases,
}
use ac_cli.Supervisor.Types.{Definition}
use ac_cli.Supervisor.World.{zero_definition}
use ac_cli.Reconciler.Types.{Agent, Call, send_seed, read_definitions, Outside, Check}
use ac_cli.Reconciler.Apply.{with_local_defaults}
use ac_cli.Reconciler.Seeding.{is_permanent, holds, seed_of, seed_one, seed_all, request_seed}
use ac_cli.Reconciler.Check.{
  check_target, check_targets, by_id, read, check_remote, check_local, reconcile,
}
use ac_cli.Reconciler.Order.{IsOrdered, check_revision-IsOrdered}

request_seed-IsOrdered :
    (out : Outside) (d : Definition) (organization : String) (s : Check)
    → IsOrdered out s.history
    → IsOrdered out (request_seed out d organization s).1.history
unfolding request_seed
request_seed-IsOrdered out d organization s o =
    elim (Option-cases (out.fails (send_seed (seed_of d organization) ∷ s.history))) [
      | inl good ↦ rw (good, request_seed) (tt, o)
      | inr (f, bad) ↦
          rw (bad, request_seed)
            (elim (Bool-cases (is_permanent d.agent_id f)) [
              | inl forever ↦ rw forever (tt, o)
              | inr once ↦ rw once (tt, o)
            ])
    ]

seed_one-IsOrdered :
    (out : Outside) (present : List String) (d : Definition) (s : Check)
    → IsOrdered out s.history
    → IsOrdered out (seed_one out present d s).1.history
unfolding seed_one
seed_one-IsOrdered out present d s o =
    elim (Bool-cases (holds d.agent_id present || holds d.agent_id s.seed_rejected)) [
      | inl known ↦ rw (known, seed_one) o
      | inr fresh ↦ elim (Option-cases (out.credential s.history d.workstream d.agent_id)) [
        | inl lost ↦ rw (fresh, lost, seed_one) o
        | inr (organization, found) ↦ elim (Bool-cases (organization == "")) [
          | inl empty ↦ rw (fresh, found, empty, seed_one) o
          | inr named ↦
              rw (fresh, found, named, seed_one) (request_seed-IsOrdered out d organization s o)
        ]
      ]
    ]

seed_all-IsOrdered :
    (out : Outside) (present : List String) (ds : List Definition) (s : Check)
    → IsOrdered out s.history
    → IsOrdered out (seed_all out present ds s).1.history
unfolding seed_all
seed_all-IsOrdered out present [] s o = o
seed_all-IsOrdered out present (d ∷ ds) s o =
    seed_all-IsOrdered out present ds (seed_one out present d s).1
      (seed_one-IsOrdered out present d s o)

check_target-IsOrdered :
    (out : Outside) (skip : List String) (current : List (String × Definition)) (t : Agent)
    (s : Check)
    → IsOrdered out s.history
    → IsOrdered out (check_target out skip current t s).1.history
unfolding check_target
check_target-IsOrdered out skip current t s o =
    elim (Bool-cases (out.attached s.history t.agent_id || holds t.agent_id skip)) [
      | inl theirs ↦ rw (theirs, check_target) o
      | inr ours ↦ elim (Option-cases (out.cancelled s.history)) [
        | inr (f, over) ↦ rw (ours, over, check_target) o
        | inl going ↦ elim (Option-cases (lookup t.agent_id current)) [
          | inl new ↦
              rw (ours, going, new, check_target)
                (check_revision-IsOrdered out t zero_definition false s o)
          | inr (old, known) ↦
              rw (ours, going, known, check_target)
                (check_revision-IsOrdered out (with_local_defaults out s.history t old) old true s
                  o)
        ]
      ]
    ]

check_targets-IsOrdered :
    (out : Outside) (skip : List String) (current : List (String × Definition)) (ts : List Agent)
    (s : Check)
    → IsOrdered out s.history
    → IsOrdered out (check_targets out skip current ts s).1.history
unfolding check_targets
check_targets-IsOrdered out skip current [] s o = o
check_targets-IsOrdered out skip current (t ∷ ts) s o =
    let first = check_target-IsOrdered out skip current t s o in
    let rest =
      check_targets-IsOrdered out skip current ts (check_target out skip current t s).1 first in
    elim (Option-cases (check_target out skip current t s).0) [
      | inr (f, over) ↦ rw (over, check_targets) first
      | inl going ↦ rw (going, check_targets) rest
    ]

check_remote-IsOrdered :
    (out : Outside) (skip : List String) (local : List Definition) (agents : List Agent)
    (seeded : Bool) (s : Check)
    → IsOrdered out s.history
    → IsOrdered out (check_remote out skip local agents (seeded, s)).1.history
unfolding check_remote
check_remote-IsOrdered out skip local agents false s o =
    check_targets-IsOrdered out skip (by_id local []) agents s o
check_remote-IsOrdered out skip local agents true s o =
    elim (Option-cases (out.fails (read_definitions ∷ s.history))) [
      | inr (f, bad) ↦ rw (bad, check_remote) (tt, o)
      | inl good ↦
          rw (good, check_remote)
            (check_targets-IsOrdered out skip (by_id local []) _ (read out s).1 (tt, o))
    ]

check_local-IsOrdered :
    (out : Outside) (skip : List String) (local : List Definition) (s : Check)
    → IsOrdered out s.history
    → IsOrdered out (check_local out skip local s).1.history
unfolding check_local
check_local-IsOrdered out skip local s o =
    elim (Option-cases (out.fails (read_definitions ∷ s.history))) [
      | inr (f, bad) ↦ rw (bad, check_local) (tt, o)
      | inl good ↦
          rw (good, check_local)
            (check_remote-IsOrdered out skip local _ _ _
              (seed_all-IsOrdered out _ local (read out s).1 (tt, o)))
    ]

-- A check keeps the order of the calls, whatever they answer: an agent is started only right after a
-- join of that very agent succeeded, with its definition; it is staged only right after its folder was
-- prepared and it is to be stopped, with its definition; and a revision is marked only right after the
-- server took the result "applied" for it.
pub reconcile-IsOrdered :
    (out : Outside) (s : Check)
    → IsOrdered out s.history
    → IsOrdered out (reconcile out s).1.history
unfolding reconcile
reconcile-IsOrdered out s o = elim (Option-cases (out.cancelled (Call.flush ∷ s.history))) [
  | inr (f, over) ↦ rw (over, reconcile) (tt, o)
  | inl going ↦ rw (going, reconcile) (check_local-IsOrdered out _ _ _ (tt, o))
]
