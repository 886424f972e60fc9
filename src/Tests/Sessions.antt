-- ===== src/Tests/Sessions.antt =====
-- Runs of the manager with an attached session and a stopped agent in the map.
use ac_cli.Prelude.{true, ℕ, ◌≤◌, ◌≡◌, refl, none, some, [], ◌∷◌, ◌⊎◌, lookup}
use ac_cli.Supervisor.Types.{
  attached, started, tmux, headless, Desired, RunState, Signal, attached_mode, Managed,
}
use ac_cli.Supervisor.World.{World, zero_managed, zero_definition, update, save}
use ac_cli.Supervisor.Sessions.{Error, ok, err}
use ac_cli.Supervisor.Attached.{size, find_attached, session_ack, subscribe_signals}
use ac_cli.Supervisor.Attached.Acks.{IsMoved, IsUnchanged, session_ack_lem}
use ac_cli.Supervisor.Attached.Signals.{send_all, recent, subscribe-send_all}
use ac_cli.Supervisor.Lifecycle
use ac_cli.Supervisor.Lifecycle.{set_mode, mark_revision}
use ac_cli.Supervisor.Lifecycle.Edits.{IsModeSet, IsSame, set_mode_lem, mark_revision_lem}
use ac_cli.Supervisor.Desired.{unavailable, flush_one}
use ac_cli.Supervisor.Desired.Pending.{Answered, flush_one_lem}
use ac_cli.Tests.Supervisor.{calm, empty}

abbrev session : Managed
session = record zero_managed {
  def = record zero_definition {
    kind = attached;
    agent_id = "agm_1";
    name = "Helper";
    mode = attached_mode;
    desired = Desired.running;
    state = RunState.running;
    offset = 10;
  };
}

abbrev resting : Managed
resting = record zero_managed {
  def = record zero_definition {
    kind = started;
    agent_id = "agm_2";
    name = "Runner";
    mode = tmux;
    desired = Desired.stopped;
    state = RunState.stopped;
    revision = 3;
  };
}

abbrev two_agents : World
two_agents = record empty {
  objects = update (update empty.objects 0 session) 1 resting;
  next_object = 2;
  agents = ("Helper", 0) ∷ ("Runner", 1) ∷ [];
}

acknowledged : (session_ack calm (size 12) "agm_1" 12 two_agents).0 ≡ ok tt
unfolding session_ack save
acknowledged = refl

session_ack_lem_example :
    let r = session_ack calm (size 12) "agm_1" 12 two_agents in
    (r.0 ≡ ok tt
      → (p : ℕ) × (find_attached two_agents.objects "agm_1" two_agents.agents ≡ some p)
        × IsMoved p (size 12) 12 two_agents r.1)
    × ((e : Error) → r.0 ≡ err e → IsUnchanged two_agents r.1)
session_ack_lem_example = session_ack_lem calm (size 12) "agm_1" 12 two_agents

abbrev interrupt : Signal
interrupt = record { type = "interrupt"; text = "" }

abbrev stop_text : Signal
stop_text = record { type = "stop"; text = "now" }

subscribe-send_all_example :
    ((subscribe_signals (send_all session (interrupt ∷ stop_text ∷ []))).0
      ≡ recent (interrupt ∷ stop_text ∷ []))
    × ((subscribe_signals (send_all session (interrupt ∷ stop_text ∷ []))).1.pending_signals ≡ [])
subscribe-send_all_example = subscribe-send_all session (interrupt ∷ stop_text ∷ []) refl refl

mode_changes : (set_mode calm "Runner" headless two_agents).0 ≡ none
unfolding set_mode lookup save
mode_changes = refl

set_mode_lem_example :
    let r = set_mode calm "Runner" headless two_agents in
    (r.0 ≡ none
      → ((headless ≡ tmux) ⊎ (headless ≡ headless))
        × (p : ℕ) × (lookup "Runner" two_agents.agents ≡ some p)
        × IsModeSet p headless two_agents r.1)
    × ((e : Lifecycle.Error) → r.0 ≡ some e → IsSame two_agents r.1)
set_mode_lem_example = set_mode_lem calm "Runner" headless two_agents

marked : (mark_revision calm "Runner" 5 two_agents).0 ≡ none
unfolding mark_revision lookup save
marked = refl

mark_revision_lem_example :
    let r = mark_revision calm "Runner" 5 two_agents in
    ((q : ℕ) → (two_agents.objects q).def.revision ≤ (r.1.objects q).def.revision)
    × (r.0 ≡ none
        → (p : ℕ) × (lookup "Runner" two_agents.agents ≡ some p)
          × (5 ≤ (r.1.objects p).def.revision)
          × (two_agents.disk (two_agents.objects p).def.agent_id ≡ some (two_agents.objects p).def
              → r.1.disk (two_agents.objects p).def.agent_id ≡ some (r.1.objects p).def))
    × ((e : Lifecycle.Error) → r.0 ≡ some e → IsSame two_agents r.1)
mark_revision_lem_example = mark_revision_lem calm "Runner" 5 two_agents

abbrev posting : World
posting = record two_agents { pending_desired = ("Runner", true) ∷ [] }

found_runner : lookup "Runner" posting.agents ≡ some 1
unfolding lookup
found_runner = refl

flush_one_lem_example :
    Answered calm "Runner" "agm_2" unavailable posting
      (flush_one calm (λ w. w) (some (λ d. unavailable)) "Runner" posting)
flush_one_lem_example =
    flush_one_lem calm (λ w. w) (λ d. unavailable) "Runner" 1 posting found_runner refl
