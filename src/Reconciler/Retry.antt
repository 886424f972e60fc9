-- ===== src/Reconciler/Retry.antt =====
-- A revision that could not be applied waits before it is tried again.
use ac_cli.Prelude.{
  ℕ, ◌+◌, ◌*◌, ◌≤◌, ◌<◌, String, ◌≡◌, ◌∙◌, refl, Bool, false, none, some, ◌||◌, arith,
  if◌then◌else◌, string_eq, nat_eq, nat_beq_iff, lookup, insert, lookup-insert, beq_self, leb, ltb,
  ap, lt→ltb,
}
use ac_cli.Presence.Clock.{minute}
use ac_cli.Supervisor.Types.{Definition}
use ac_cli.Reconciler.Types.{Agent, Fault, message, deferred, Outside, Check}
use ac_cli.Reconciler.Apply.{apply}
use ac_cli.Reconciler.Check.{
  note, noted, retry_after, refused, is_deferred, attempt, check_revision,
}

-- The failure of `apply` is stored, whether or not the server took the report.
refused_failed :
    (out : Outside) (t : Agent) (f : Fault) (s : Check)
    → (refused out t f s).failed ≡ insert t.agent_id (retry_after out s.history t f) s.failed
unfolding refused noted
refused_failed out t f s = ground arith

attempt_failed :
    (out : Outside) (t : Agent) (old : Definition) (exists : Bool) (s : Check) {f : Fault}
    → (apply out t old exists s.history).0 ≡ some f
    → lookup t.agent_id (attempt out t old exists s).failed
      ≡ some (retry_after out (apply out t old exists s.history).1 t f)
unfolding attempt
attempt_failed out t old exists s {f} h =
    rw (h, attempt) (rw refused_failed (rw lookup-insert (rw (beq_self t.agent_id))))

deferred_lem :
    (out : Outside) (t : Agent) (s : Check) (until : ℕ) (text : String)
    → lookup t.agent_id s.failed
      ≡ some (record { revision = t.revision; until = until; text = text })
    → is_deferred out t s ≡ (if ltb (out.now s.history) until then some text else none)
unfolding is_deferred
deferred_lem out t s until text h =
    rw (h, is_deferred) (ground (arith, nat_beq_iff t.revision t.revision))

-- When `apply` fails for a revision that is newer than the recorded one, then a later check of the same
-- agent and revision makes no call at all before 5 minutes have passed since the failure, and repeats
-- the failure's text instead; from then on it tries again. Between the two checks anything may happen
-- that leaves the stored failures as they are.
pub retry_waits :
    (out : Outside) (t : Agent) (old : Definition) (exists : Bool) (s later : Check) {f : Fault}
    → old.revision < t.revision
    → (apply out t old exists s.history).0 ≡ some f
    → later.failed ≡ (attempt out t old exists s).failed
    → let until = out.now (apply out t old exists s.history).1 + 5 * minute in
      (out.now later.history < until
        → check_revision out t old exists later ≡ note (deferred t.agent_id (message f)) later)
      × (until ≤ out.now later.history
          → check_revision out t old exists later ≡ attempt out t old exists later)
unfolding check_revision
retry_waits out t old exists s later {f} new failed same =
    let stored = ap (λ m. lookup t.agent_id m) same ∙ attempt_failed out t old exists s failed in
    let waits = deferred_lem out t later _ _ stored in
    let fresh : (leb t.revision old.revision || ltb t.revision 1) ≡ false = ground arith in
    (λ early. rw (fresh, waits, lt→ltb _ _ early) refl, λ over. rw (fresh, waits) (ground arith))
