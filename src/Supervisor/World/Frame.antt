-- ===== src/Supervisor/World/Frame.antt =====
-- What the elementary steps of the manager leave alone.
use ac_cli.Prelude.{
  ℕ, String, ◌≡◌, refl, true, false, some, List, [], ◌∷◌, arith, any, ◌==◌, string_eq, eq_iff,
  nat_eq,
}
use ac_cli.Presence.Types.{EventKind, Event}
use ac_cli.Supervisor.World.{
  Env, AgentEvent, World, save, step_presence, emit_agent_event, emit_attached, drop_lock,
}

-- An event changes only the presence of its agent and the list of events.
pub record IsFramed (w v : World) : Type 0 where
  pub agents : v.agents ≡ w.agents
  pub claims : v.claims ≡ w.claims
  pub locks : v.locks ≡ w.locks
  pub disk : v.disk ≡ w.disk
  pub writes : v.writes ≡ w.writes
  pub defs : (q : ℕ) → (v.objects q).def ≡ (w.objects q).def
  pub locked : (q : ℕ) → (v.objects q).locked ≡ (w.objects q).locked

step_presence-IsFramed : (p : ℕ) (e : Event) (w : World) → IsFramed w (step_presence p e w)
unfolding step_presence
step_presence-IsFramed p e w = record {
  agents = ground arith;
  claims = ground arith;
  locks = ground arith;
  disk = ground arith;
  writes = ground arith;
  defs = λ q. ground arith;
  locked = λ q. ground arith;
}

pub emit_agent_event-IsFramed :
    (p : ℕ) (e : AgentEvent) (w : World) → IsFramed w (emit_agent_event p e w)
unfolding emit_agent_event
emit_agent_event-IsFramed p e w =
    let f = step_presence-IsFramed p e.event w in
    record {
      agents = f.agents;
      claims = f.claims;
      locks = f.locks;
      disk = f.disk;
      writes = f.writes;
      defs = f.defs;
      locked = f.locked;
    }

pub emit_attached-IsFramed :
    (env : Env) (p : ℕ) (kind : EventKind) (reason : String) (w : World)
    → IsFramed w (emit_attached env p kind reason w)
unfolding emit_attached
emit_attached-IsFramed env p kind reason w = emit_agent_event-IsFramed p _ w

-- A save changes the count of writes and, where it succeeds, the file of its agent.
pub save_frame :
    (env : Env) (p : ℕ) (w : World)
    → let (saved, v) = save env p w in
      (v.agents ≡ w.agents)
      × (v.claims ≡ w.claims)
      × (v.locks ≡ w.locks)
      × (v.objects ≡ w.objects)
      × (saved ≡ false → v.disk ≡ w.disk)
      × (saved ≡ true → v.disk (w.objects p).def.agent_id ≡ some (w.objects p).def)
unfolding save
save_frame env p w = ground (arith, eq_iff (w.objects p).def.agent_id (w.objects p).def.agent_id)

-- A lock that was not held is gone after it is dropped.
pub drop_lock_absent :
    (id : String) (js : List String) → any (λ j. j == id) js ≡ false → drop_lock id js ≡ js
unfolding drop_lock
drop_lock_absent id [] h = refl
drop_lock_absent id (j ∷ js) h = ground (arith, drop_lock_absent id js)
