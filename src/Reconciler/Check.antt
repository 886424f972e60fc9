-- ===== src/Reconciler/Check.antt =====
-- internal/machinectl/reconcile.go: the loop of `Reconcile` over the server's agents, and `Reconcile`.
--
-- The reconciler is configured, so the test at the top is left out, and so is the mutex `Gate`.
use ac_cli.Prelude.{
  ◌+◌, ◌*◌, String, Bool, true, false, ◌&&◌, ◌||◌, Option, none, some, List, [], ◌∷◌, ltb, leb,
  ◌==◌, if◌then◌else◌, string_eq, nat_eq, lookup, insert, delete, map,
}
use ac_cli.Presence.Clock.{minute}
use ac_cli.Supervisor.Types.{Definition}
use ac_cli.Supervisor.World.{zero_definition}
use ac_cli.Reconciler.Types.{
  Agent, Fault, message, flush, read_definitions, report, mark, History, Outside, RetryFailure,
  apply_failed, deferred, call_failed, Failure, Check,
}
use ac_cli.Reconciler.Apply.{apply, with_local_defaults}
use ac_cli.Reconciler.Seeding.{holds, seed_all}

abbrev pub note : Failure → Check → Check
note f s = record s { failures = f ∷ s.failures }

-- `if err := …; err != nil { failures = append(…) }`, and what follows where there is none.
unfoldable pub noted : Outside → Check → (Check → Check) → Check
noted out s next = elim (out.fails s.history) [ some f ↦ note (call_failed f) s | none ↦ next s ]

abbrev pub retry_after : Outside → History → Agent → Fault → RetryFailure
retry_after out h target f = record {
  revision = target.revision;
  until = out.now h + 5 * minute;
  text = message f;
}

-- `apply` failed: the revision waits for 5 minutes, and the server is told.
unfoldable pub refused : Outside → Agent → Fault → Check → Check
refused out target f s =
    noted out
      (record s {
        failed = insert target.agent_id (retry_after out s.history target f) s.failed;
        failures = apply_failed target.agent_id f ∷ s.failures;
        history =
            report target.agent_id target.revision false (out.short_reason (message f)) ∷ s.history;
      })
      (λ s'. s')

-- `apply` succeeded: the revision is recorded only after the server took the result.
unfoldable pub accepted : Outside → Agent → Check → Check
accepted out target s =
    noted out
      (record s {
        failed = delete target.agent_id s.failed;
        history = report target.agent_id target.revision true "" ∷ s.history;
      })
      (λ s'.
        noted out (record s' { history = mark target.name target.revision ∷ s'.history })
          (λ s''. s''))

-- The text of the failure that still defers this revision.
unfoldable pub is_deferred : Outside → Agent → Check → Option String
is_deferred out target s = elim (lookup target.agent_id s.failed) [
  | none ↦ none
  | some r ↦
      if r.revision == target.revision && ltb (out.now s.history) r.until then some r.text else none
]

unfoldable pub attempt : Outside → Agent → Definition → Bool → Check → Check
attempt out target old exists s =
    let (e, h) = apply out target old exists s.history in
    elim e [
      | some f ↦ refused out target f (record s { history = h })
      | none ↦ accepted out target (record s { history = h })
    ]

unfoldable pub check_revision : Outside → Agent → Definition → Bool → Check → Check
check_revision out target old exists s =
    if leb target.revision old.revision || ltb target.revision 1
    then s
    else elim (is_deferred out target s) [
      | some text ↦ note (deferred target.agent_id text) s
      | none ↦ attempt out target old exists s
    ]

-- One round of the loop; a fault ends `Reconcile`.
unfoldable pub check_target :
    Outside → List String → List (String × Definition) → Agent → Check → Option Fault × Check
check_target out skip current target s =
    if out.attached s.history target.agent_id || holds target.agent_id skip
    then (none, s)
    else elim (out.cancelled s.history) [
      | some f ↦ (some f, s)
      | none ↦ elim (lookup target.agent_id current) [
        | none ↦ (none, check_revision out target zero_definition false s)
        | some old ↦
            (none, check_revision out (with_local_defaults out s.history target old) old true s)
      ]
    ]

unfoldable pub check_targets :
    Outside → List String → List (String × Definition) → List Agent → Check → Option Fault × Check
check_targets out skip current [] s = (none, s)
check_targets out skip current (t ∷ ts) s =
    let (e, s') = check_target out skip current t s in
    let rest = check_targets out skip current ts s' in
    elim e [ some f ↦ (some f, s') | none ↦ rest ]

-- `current[d.AgentID] = d`, in the order of the definitions.
unfoldable pub by_id : List Definition → List (String × Definition) → List (String × Definition)
by_id [] m = m
by_id (d ∷ ds) m = by_id ds (insert d.agent_id d m)

abbrev pub read : Outside → Check → Option Fault × Check
read out s = let h = read_definitions ∷ s.history in (out.fails h, record s { history = h })

-- After the seeding: the second reading, and the loop.
unfoldable pub check_remote :
    Outside → List String → List Definition → List Agent → Bool × Check → Option Fault × Check
check_remote out skip local agents (false, s) = check_targets out skip (by_id local []) agents s
check_remote out skip local agents (true, s) =
    let (e, s') = read out s in
    elim e [
      | some f ↦ (some f, s')
      | none ↦ check_targets out skip (by_id local []) (out.remote s'.history) s'
    ]

unfoldable pub check_local : Outside → List String → List Definition → Check → Option Fault × Check
check_local out skip local s =
    let (e, s') = read out s in
    let agents = out.remote s'.history in
    elim e [
      | some f ↦ (some f, s')
      | none ↦
          check_remote out skip local agents
            (seed_all out (map (λ (a : Agent). a.agent_id) agents) local s')
    ]

-- AgentReconciler.Reconcile: the fault that ended it, if any, beside the state with its failures.
unfoldable pub reconcile : Outside → Check → Option Fault × Check
reconcile out s =
    let s' = record s { history = flush ∷ s.history; failures = [] } in
    elim (out.cancelled s'.history) [
      | some f ↦ (some f, s')
      | none ↦ check_local out (out.skipped s'.history) (out.definitions s'.history) s'
    ]

-- The call returned nil.
unfoldable pub is_clean : Option Fault × Check → Bool
is_clean (some f, s) = false
is_clean (none, s) = elim s.failures [ [] ↦ true | f ∷ fs ↦ false ]
