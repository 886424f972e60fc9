-- ===== src/Supervisor/Attached/Acks.antt =====
-- `SessionAck`: how far a session has read its agent's notifications.
use ac_cli.Prelude.{
  ℕ, ◌≤◌, String, ◌≡◌, refl, some, arith, eq_iff, nat_eq, nat_beq_iff, Option-cases, inl, inr,
}
use ac_cli.Supervisor.World.{Env, World, save}
use ac_cli.Supervisor.Sessions.{Error, ok, err}
use ac_cli.Supervisor.Attached.{Stat, missing, failed, size, find_attached, ack_at, session_ack}

-- The spool reaches the offset.
abbrev pub Reaches : Stat → ℕ → Type 0
Reaches missing offset = offset ≡ 0
Reaches failed offset = ⊥
Reaches (size n) offset = offset ≤ n

-- The agent's file holds the definition in memory.
abbrev pub IsSaved : ℕ → World → Type 0
IsSaved p w = w.disk (w.objects p).def.agent_id ≡ some (w.objects p).def

-- Nothing that a restart reads has changed.
pub record IsUnchanged (w v : World) : Type 0 where
  pub agents : v.agents ≡ w.agents
  pub disk : v.disk ≡ w.disk
  pub defs : (q : ℕ) → (v.objects q).def ≡ (w.objects q).def

-- The offset of the object `p` was moved to `offset`.
pub record IsMoved (p : ℕ) (stat : Stat) (offset : ℕ) (w v : World) : Type 0 where
  pub moved : (v.objects p).def.offset ≡ offset
  pub forward : (w.objects p).def.offset ≤ offset
  pub reached : Reaches stat offset
  pub saved : IsSaved p w → IsSaved p v

ack_at-IsMoved :
    (env : Env) (stat : Stat) (p offset : ℕ) (w : World)
    → (ack_at env stat p offset w).0 ≡ ok tt
    → IsMoved p stat offset w (ack_at env stat p offset w).1
unfolding ack_at save
ack_at-IsMoved env missing p offset w h =
    ground (arith, nat_beq_iff p p, eq_iff (w.objects p).def.agent_id (w.objects p).def.agent_id)
ack_at-IsMoved env failed p offset w h = ground arith
ack_at-IsMoved env (size n) p offset w h =
    ground (arith, nat_beq_iff p p, eq_iff (w.objects p).def.agent_id (w.objects p).def.agent_id)

ack_at-IsUnchanged :
    (env : Env) (stat : Stat) (p offset : ℕ) (w : World) {e : Error}
    → (ack_at env stat p offset w).0 ≡ err e
    → IsUnchanged w (ack_at env stat p offset w).1
unfolding ack_at save
ack_at-IsUnchanged env stat p offset w h = record {
  agents = ground arith;
  disk = ground arith;
  defs = λ q. ground (arith, nat_beq_iff q p);
}

unchanged : (w : World) → IsUnchanged w w
unchanged w = record { agents = refl; disk = refl; defs = λ q. refl }

-- An acknowledgement that succeeds belongs to an attached agent and moves its offset to the one that
-- was given, never back and never past the agent's spool, and where the agent's file held its
-- definition before, it still does; one that fails leaves every definition and every file as it was.
pub session_ack_lem :
    (env : Env) (stat : Stat) (id : String) (offset : ℕ) (w : World)
    → let r = session_ack env stat id offset w in
      (r.0 ≡ ok tt
        → (p : ℕ) × (find_attached w.objects id w.agents ≡ some p) × IsMoved p stat offset w r.1)
      × ((e : Error) → r.0 ≡ err e → IsUnchanged w r.1)
unfolding session_ack
session_ack_lem env stat id offset w = elim (Option-cases (find_attached w.objects id w.agents)) [
  | inl lost ↦ rw (lost, session_ack) ((λ h. ground arith), λ e h. unchanged w)
  | inr (p, found) ↦
      rw (found, session_ack)
        (
          (λ h. (p, refl, ack_at-IsMoved env stat p offset w h)),
          λ e h. ack_at-IsUnchanged env stat p offset w h,
        )
]
