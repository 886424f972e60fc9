-- ===== src/Supervisor/Sessions.antt =====
-- internal/supervisor/attached.go: sessions of programs that a person started.
--
-- A call that releases `Manager.mu` in the middle takes a `Window`: what other calls did to the world
-- meanwhile, and what the call meets after it. Each call returns its result beside the world, since
-- what was written before an error stays written.
pub mod Claims
use ac_cli.Prelude.{
  ℕ, suc, ◌+◌, String, Bool, true, false, not, ◌&&◌, ◌||◌, Option, none, some, List, [], ◌∷◌, leb,
  ltb, ◌==◌, ◌!=◌, if◌then◌else◌, string_eq, nat_eq, lookup, insert, delete, is_some, is_none,
  trim_space, valid_name,
}
use ac_cli.Presence.Clock.{Time, minute}
use ac_cli.Presence.Types.{session_alive, session_exited, no_listener}
use ac_cli.Supervisor.Types.{
  Kind, attached, kind_eq, Mode, attached_mode, Desired, RunState, run_state_eq, Definition,
  Managed,
}
use ac_cli.Supervisor.World.{
  Env, Claim, World, zero_managed, put, set_def, find_agent, save, lock_free_here, drop_lock,
  emit_attached,
}

pub data Error : Type 0 where
  invalid_claim held_pending held_by_daemon held held_by_session held_by_listener : Error
  invalid_attachment identity_changed no_credential claim_expired claim_workstream : Error
  invalid_name no_lock not_saved not_exist session_stopped dashboard_stopped : Error
  offset_backwards offset_beyond stat_failed : Error

pub data Result {ℓ} (A : Type ℓ) : Type ℓ where
  ok : A → Result A
  err : Error → Result A

-- The time in which `Manager.mu` is free during a call.
pub record Window : Type 0 where
  pub others : World → World
  pub env : Env

new_claim : Env → String → String → ℕ → Bool → World → Claim
new_claim env id ws peer reused w = record {
  ticket = w.next_ticket;
  agent_id = id;
  workstream = ws;
  peer_pid = peer;
  reused = reused;
  expires = env.now + minute;
}

abbrev pub add_claim : Claim → World → World
add_claim c w = record w { next_ticket = suc w.next_ticket; claims = insert c.agent_id c w.claims }

-- No agent has the ID: the claim takes the agent's lock.
claim_fresh : Env → String → String → ℕ → World → Result Claim × World
unfolding new_claim lock_free_here
claim_fresh env id ws peer w =
    let c = new_claim env id ws peer false w in
    if lock_free_here env id w
    then (ok c, add_claim c (record w { locks = id ∷ w.locks }))
    else (err held_by_listener, w)

-- After the window: the session that was seen must still be the agent's, and over unless it asks.
claim_recheck :
    Window → Definition → Bool → Bool → ℕ → String → String → ℕ → World → Result Claim × World
unfolding new_claim
claim_recheck window prior own alive p id ws peer w =
    let def = (w.objects p).def in
    if def.session_pid != prior.session_pid
      || (def.session_start != prior.session_start || is_some (lookup id w.claims))
    then (err held, w)
    else if not own && (def.state == RunState.running || alive)
    then (err held_by_session, w)
    else let c = new_claim window.env id ws peer true w in (ok c, add_claim c w)

claim_attached : Env → Window → ℕ → String → String → ℕ → World → Result Claim × World
unfolding claim_recheck
claim_attached env window p id ws peer w =
    let prior = (w.objects p).def in
    let own = ltb 0 prior.session_pid && env.descendant peer prior.session_pid in
    let alive = not own && env.process_alive prior.session_pid prior.session_start in
    claim_recheck window prior own alive p id ws peer (window.others w)

claim_agent : Env → Window → Option ℕ → String → String → ℕ → World → Result Claim × World
unfolding claim_fresh claim_attached
claim_agent env window none id ws peer w = claim_fresh env id ws peer w
claim_agent env window (some p) id ws peer w =
    if (w.objects p).def.kind != attached
    then (err held_by_daemon, w)
    else claim_attached env window p id ws peer w

-- Manager.Claim
unfoldable pub claim : Env → Window → String → String → ℕ → World → Result Claim × World
unfolding claim_agent
claim env window id ws peer w =
    if id == "" || peer == 0
    then (err invalid_claim, w)
    else if is_some (lookup id w.claims)
    then (err held_pending, w)
    else claim_agent env window (find_agent w.objects id w.agents) id ws peer w

-- `m.claims[c.AgentID] == c`
abbrev pub holds_claim : Claim → World → Bool
holds_claim c w = elim (lookup c.agent_id w.claims) [ none ↦ false | some d ↦ d.ticket == c.ticket ]

-- Manager.ReleaseClaim
unfoldable pub release_claim : Claim → World → World
unfolding drop_lock
release_claim c w =
    if not (holds_claim c w)
    then w
    else if c.reused
    then record w { claims = delete c.agent_id w.claims }
    else record w { claims = delete c.agent_id w.claims; locks = drop_lock c.agent_id w.locks }
