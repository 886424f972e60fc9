-- ===== src/Tests/Reconciler.antt =====
-- Runs of a check of the machine's agents.
use ac_cli.Prelude.{
  ◌+◌, ◌*◌, ◌≤◌, ◌<◌, ◌≡◌, refl, true, false, none, some, [], ◌∷◌, arith, All, lookup, delete,
}
use ac_cli.Presence.Clock.{minute}
use ac_cli.Supervisor.Types.{headless, Desired}
use ac_cli.Supervisor.World.{zero_definition}
use ac_cli.Reconciler.Types.{
  Agent, other_fault, message, prepare, join, start, report, mark, flush, read_definitions, Outside,
  Check, deferred,
}
use ac_cli.Reconciler.Apply.{definition, apply, apply_new, target_fault}
use ac_cli.Reconciler.Check.{
  reconcile, check_local, check_remote, check_targets, check_target, check_revision, is_deferred,
  attempt, accepted, noted, note, by_id,
}
use ac_cli.Reconciler.Seeding.{holds, seed_all}
use ac_cli.Reconciler.Order.{IsOrdered}
use ac_cli.Reconciler.Order.Run.{reconcile-IsOrdered}
use ac_cli.Reconciler.Retry.{retry_waits}
use ac_cli.Reconciler.SeedReply.{
  Row, check_reply, find_bad_id, read_rows, find_missing, IsDistinct, seen_after, check_reply_sound,
}

abbrev helper : Agent
helper = record {
  agent_id = "agm_1";
  name = "Helper";
  desired = Desired.running;
  mode = headless;
  repos = some [];
  work_folder = "/home/u/work/h";
  organization = "org_1";
  workstream = "w1";
  joined_organization = "";
  joined_workstream = "";
  revision = 2;
}

-- A server with one agent, which this machine does not have.
abbrev open_server : Outside
open_server = record {
  fails = λ h. none;
  remote = λ h. helper ∷ [];
  skipped = λ h. [];
  definitions = λ h. [];
  attached = λ h id. false;
  credential = λ h w id. none;
  credential_fault = λ h w id. other_fault "no credentials";
  cancelled = λ h. none;
  now = λ h. minute;
  short_reason = λ s. s;
}

abbrev closed_server : Outside
closed_server = record open_server { fails = λ h. some (other_fault "offline") }

abbrev first_check : Check
first_check = record { failed = []; seed_rejected = []; history = []; failures = [] }

calls_made :
    (reconcile open_server first_check).1.history
    ≡ mark "Helper" 2
      ∷ (report "agm_1" 2 true ""
          ∷ (start (definition helper)
              ∷ (join helper ∷ (prepare helper ∷ (read_definitions ∷ (flush ∷ []))))))
unfolding reconcile check_local check_remote check_targets check_target check_revision is_deferred
    attempt accepted noted by_id seed_all apply apply_new target_fault definition lookup delete
calls_made = refl

reconcile-IsOrdered_example : IsOrdered open_server (reconcile open_server first_check).1.history
reconcile-IsOrdered_example = reconcile-IsOrdered open_server first_check tt

fails_offline :
    (apply closed_server helper zero_definition false []).0 ≡ some (other_fault "offline")
unfolding apply apply_new target_fault
fails_offline = refl

abbrev next_check : Check
next_check = record (attempt closed_server helper zero_definition false first_check) {
  failures = [];
}

retry_waits_example :
    let until =
      closed_server.now (apply closed_server helper zero_definition false []).1 + 5 * minute in
    (closed_server.now next_check.history < until
      → check_revision closed_server helper zero_definition false next_check
        ≡ note (deferred "agm_1" (message (other_fault "offline"))) next_check)
    × (until ≤ closed_server.now next_check.history
        → check_revision closed_server helper zero_definition false next_check
          ≡ attempt closed_server helper zero_definition false next_check)
retry_waits_example =
    retry_waits closed_server helper zero_definition false first_check next_check (omega arith)
      fails_offline refl

abbrev seeded_row : Row
seeded_row = record { agent_id = "agm_1"; status = "seeded"; reason = "" }

reply_accepted : check_reply ("agm_1" ∷ []) (seeded_row ∷ []) ≡ none
unfolding check_reply find_bad_id read_rows find_missing
reply_accepted = refl

check_reply_sound_example :
    All
      (λ (r : Row). (r.status ≡ "seeded") × (holds r.agent_id ("agm_1" ∷ []) ≡ true))
      (seeded_row ∷ [])
    × IsDistinct [] (seeded_row ∷ [])
    × All (λ id. holds id (seen_after [] (seeded_row ∷ [])) ≡ true) ("agm_1" ∷ [])
check_reply_sound_example = check_reply_sound ("agm_1" ∷ []) (seeded_row ∷ []) reply_accepted
