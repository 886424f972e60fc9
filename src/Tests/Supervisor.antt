-- ===== src/Tests/Supervisor.antt =====
-- Runs of the daemon's manager (internal/supervisor).
use ac_cli.Prelude.{
  ℕ, ◌*◌, ◌≡◌, ◌≢◌, refl, Bool, true, false, none, some, List, [], ◌∷◌, String, lookup, trim_space,
  valid_name,
}
use ac_cli.Presence.Clock.{Time, minute}
use ac_cli.Supervisor.Types.{headless, Definition}
use ac_cli.Supervisor.World.{Env, Claim, World, zero_managed, zero_definition, find_agent, save}
use ac_cli.Supervisor.Sessions.{ok, err, held_pending, Window, claim, release_claim}
use ac_cli.Supervisor.Sessions.Claims.{met, claim_excludes, claim-release}
use ac_cli.Supervisor.Attach.{
  Attachment, attach, attachment_error, claim_error, attach_agent, attach_record, attach_name,
  attached_definition, attach_save,
}
use ac_cli.Supervisor.Attach.Success.{HasSession, attach-ok}
use ac_cli.Supervisor.Crash.{keep_crashes, note_exit, crashes_after, IsNoted, note_exit_parks}
use ac_cli.Supervisor.Lifecycle.{Outcome, Error, start, start_error, held_elsewhere}
use ac_cli.Supervisor.Lifecycle.Starts.{LaunchesReady, start-LaunchesReady}
use ac_cli.Supervisor.Lifecycle.Refused.{start_stays_refused}

abbrev pub calm : Env
calm = record {
  now = 100 * minute;
  write_ok = λ n. true;
  lock_free = λ id. true;
  process_start = λ p. "boot-1";
  process_alive = λ p s. false;
  descendant = λ p q. false;
  has_credential = λ w a. true;
}

abbrev pub empty : World
empty = record {
  objects = λ p. zero_managed;
  next_object = 0;
  agents = [];
  claims = [];
  next_ticket = 1;
  locks = [];
  disk = λ id. none;
  writes = 0;
  stopping_hold = false;
  run_finishing = false;
  last_busy = 0;
  pending_desired = [];
  state_report = true;
  emitted = [];
}

abbrev pub alone : Window
alone = record { others = λ w. w; env = calm }

abbrev ticket : Claim
ticket = record {
  ticket = 1;
  agent_id = "agm_1";
  workstream = "w1";
  peer_pid = 40;
  reused = false;
  expires = 101 * minute;
}

claimed_ok : (claim calm alone "agm_1" "w1" 40 empty).0 ≡ ok ticket
unfolding claim lookup find_agent
claimed_ok = refl

abbrev claimed : World
claimed = record empty { claims = ("agm_1", ticket) ∷ []; next_ticket = 2; locks = "agm_1" ∷ [] }

claim_excludes_example :
    let v = (claim calm alone "agm_1" "w1" 40 empty).1 in
    ((env' : Env) (window' : Window) (ws' : String) (peer' : ℕ)
      → peer' ≢ 0
      → claim env' window' "agm_1" ws' peer' v ≡ (err held_pending, v))
    × ((j : String)
        → j ≢ "agm_1"
        → lookup j v.claims
          ≡ lookup j (met alone (find_agent empty.objects "agm_1" empty.agents) empty).claims)
claim_excludes_example = claim_excludes calm alone "agm_1" "w1" 40 empty claimed_ok

claim-release_example :
    let v = release_claim ticket (claim calm alone "agm_1" "w1" 40 empty).1 in
    let m = met alone (find_agent empty.objects "agm_1" empty.agents) empty in
    (v.locks ≡ m.locks) × ((j : String) → lookup j v.claims ≡ lookup j m.claims)
claim-release_example = claim-release calm alone "agm_1" "w1" 40 empty claimed_ok

abbrev request : Attachment
request = record {
  agent_id = "agm_1";
  name = " Helper ";
  workstream = "w1";
  session_start = "boot-1";
  program = "pi";
  session_id = "s-9";
  session_pid = 41;
}

attach_succeeds : (attach calm alone (λ id. some 12) (some ticket) request claimed).0 ≡ ok tt
unfolding attach attachment_error claim_error attach_agent attach_record attach_name attach_save
    lookup find_agent trim_space valid_name save attached_definition
attach_succeeds = refl

attach-ok_example :
    HasSession
      (some ticket)
      request
      (attach calm alone (λ id. some 12) (some ticket) request claimed).1
attach-ok_example =
    attach-ok (some ticket) request calm alone (λ id. some 12) claimed attach_succeeds

abbrev exits : List Time
exits = minute ∷ 8 * minute ∷ 12 * minute ∷ 13 * minute ∷ []

exits_kept : crashes_after [] exits ≡ 8 * minute ∷ 12 * minute ∷ 13 * minute ∷ []
unfolding crashes_after keep_crashes
exits_kept = refl

note_exit_parks_example :
    IsNoted (5 * minute) 1 "" zero_managed (note_exit (5 * minute) 1 "" zero_managed)
note_exit_parks_example = note_exit_parks (5 * minute) 1 "" zero_managed

abbrev helper : Definition
helper = record zero_definition {
  agent_id = "agm_1";
  name = "Helper";
  workstream = "w1";
  work_folder = "/home/u/work/h";
  mode = headless;
}

abbrev launches : World → Outcome × World
launches w = (none, w)

start-LaunchesReady_example :
    LaunchesReady calm
      (λ p. true)
      helper
      empty
      (λ launch. start calm launch (λ p. true) helper empty)
start-LaunchesReady_example = start-LaunchesReady calm (λ p. true) helper empty

abbrev taken : Env
taken = record calm { lock_free = λ id. false }

fresh_name : lookup {V = ℕ} "Helper" empty.agents ≡ none
unfolding lookup
fresh_name = refl

tests_pass : start_error (λ p. true) helper empty ≡ none
unfolding start_error lookup held_elsewhere valid_name
tests_pass = refl

start_stays_refused_example :
    let r = start taken launches (λ p. true) helper empty in
    ((e : Error) × (r.0 ≡ some e))
    × ((env' : Env) (launch' : World → Outcome × World) (is_abs' : String → Bool)
        → (e : Error) × (start env' launch' is_abs' helper r.1 ≡ (some e, r.1)))
start_stays_refused_example =
    start_stays_refused taken launches (λ p. true) helper empty fresh_name tests_pass refl
