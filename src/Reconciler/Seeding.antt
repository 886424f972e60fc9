-- ===== src/Reconciler/Seeding.antt =====
-- internal/machinectl/reconcile.go: the part of `Reconcile` that seeds local agents, one per request.
use ac_cli.Prelude.{
  String, Bool, true, false, ◌&&◌, ◌||◌, none, some, List, [], ◌∷◌, ◌==◌, if◌then◌else◌, string_eq,
  nat_eq, any,
}
use ac_cli.Supervisor.Types.{Definition}
use ac_cli.Reconciler.Types.{
  Seed, Fault, http_status, seed_result, other_fault, send_seed, Outside, seed_failed, Check,
}

-- A set of IDs, as the Go maps to `bool` are used.
abbrev pub holds : String → List String → Bool
holds id ids = any (λ j. j == id) ids

-- SeedResultError.Permanent, HTTP 404 and HTTP 409.
unfoldable pub is_permanent : String → Fault → Bool
is_permanent id (seed_result agent status s) = agent == id && status == "skipped"
is_permanent id (http_status n s) = n == 404 || n == 409
is_permanent id (other_fault s) = false

unfoldable pub seed_of : Definition → String → Seed
seed_of d organization = record {
  agent_id = d.agent_id;
  desired = d.desired;
  mode = d.mode;
  repos = d.repos;
  work_folder = d.work_folder;
  organization = organization;
  workstream = d.workstream;
}

abbrev pub note_seed : Definition → Fault → Check → Check
note_seed d f s = record s { failures = seed_failed d.name f ∷ s.failures }

abbrev pub reject : Definition → Fault → Check → Check
reject d f s =
    if is_permanent d.agent_id f
    then record s { seed_rejected = d.agent_id ∷ s.seed_rejected }
    else s

-- The request for one agent, and whether it was seeded.
unfoldable pub request_seed : Outside → Definition → String → Check → Bool × Check
request_seed out d organization s =
    let h = send_seed (seed_of d organization) ∷ s.history in
    elim (out.fails h) [
      | none ↦ (true, record s { history = h })
      | some f ↦ (false, note_seed d f (reject d f (record s { history = h })))
    ]

-- One round of the loop over the local definitions.
unfoldable pub seed_one : Outside → List String → Definition → Check → Bool × Check
seed_one out present d s =
    if holds d.agent_id present || holds d.agent_id s.seed_rejected
    then (false, s)
    else elim (out.credential s.history d.workstream d.agent_id) [
      | none ↦ (false, note_seed d (out.credential_fault s.history d.workstream d.agent_id) s)
      | some organization ↦
          if organization == ""
          then (false, note_seed d (other_fault "credential has no workspace ID") s)
          else request_seed out d organization s
    ]

unfoldable pub seed_all : Outside → List String → List Definition → Check → Bool × Check
seed_all out present [] s = (false, s)
seed_all out present (d ∷ ds) s =
    let (first, s') = seed_one out present d s in
    let (later, s'') = seed_all out present ds s' in (first || later, s'')
