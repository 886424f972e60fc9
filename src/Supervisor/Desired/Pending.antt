-- ===== src/Supervisor/Desired/Pending.antt =====
-- `FlushDesired`: what each answer of the server does to the pending posts.
use ac_cli.Prelude.{
  ℕ, ◌≤◌, if◌then◌else◌, String, ◌≡◌, ◌≢◌, ap, ◌∙◌, refl, ◌⊎◌, inl, inr, Bool, false, none, some,
  List, [], ◌∷◌, arith, ◌==◌, string_eq, nat_eq, lookup, lookup-delete, Option-cases,
}
use ac_cli.Supervisor.Types.{attached, kind_eq, Definition}
use ac_cli.Supervisor.World.{Env, World, save, set_def}
use ac_cli.Supervisor.Lifecycle.{Error, Outcome, mark_revision, revision_at}
use ac_cli.Supervisor.Lifecycle.Edits.{mark_revision_lem}
use ac_cli.Supervisor.Desired.{
  Reply, revision, rejected, unavailable, drop_pending, settle_post, flush_reply, flush_one,
}

save_pending :
    (env : Env) (p : ℕ) (w : World) → (save env p w).1.pending_desired ≡ w.pending_desired
unfolding save
save_pending env p w = ground arith

revision_at_pending :
    (env : Env) (number p : ℕ) (w : World)
    → (revision_at env number p w).1.pending_desired ≡ w.pending_desired
unfolding revision_at
revision_at_pending env number p w =
    ground
      (arith, save_pending env p (set_def p (record (w.objects p).def { revision = number }) w))

mark_pending :
    (env : Env) (name : String) (number : ℕ) (w : World)
    → (mark_revision env name number w).1.pending_desired ≡ w.pending_desired
unfolding mark_revision
mark_pending env name number w = elim (Option-cases (lookup name w.agents)) [
  | inl lost ↦ rw (lost, mark_revision) refl
  | inr (p, found) ↦ rw (found, mark_revision) (revision_at_pending env number p w)
]

-- The post under the name is gone, and every other is as it was.
abbrev pub IsDropped : String → World → World → Type 0
IsDropped name w v =
    (j : String)
    → lookup j v.pending_desired ≡ (if name == j then none else lookup j w.pending_desired)

-- What each answer does, in the world `w` that it meets. A revision is marked by `mark_revision`; where
-- that fails, nothing is settled.
abbrev pub Answered : Env → String → String → Reply → World → List String × World → Type 0
Answered env name id rejected w r = (r.0 ≡ []) × IsDropped name w r.1 × (r.1.objects ≡ w.objects)
Answered env name id unavailable w r = (r.0 ≡ id ∷ []) × (r.1 ≡ w)
Answered env name id (revision number) w r =
    (r.1.objects ≡ (mark_revision env name number w).1.objects)
    × (((r.0 ≡ [])
          × IsDropped name w r.1
          × (p : ℕ) × (lookup name w.agents ≡ some p)
          × (number ≤ (r.1.objects p).def.revision))
        ⊎ ((r.0 ≡ id ∷ [])
            × (r.1.pending_desired ≡ w.pending_desired)
            × ((mark_revision env name number w).0 ≢ none)))

drop_pending-IsDropped :
    (name : String) (w v : World)
    → v.pending_desired ≡ w.pending_desired
    → IsDropped name w (drop_pending name v)
drop_pending-IsDropped name w v e j =
    lookup-delete name j v.pending_desired
    ∙ ap (λ (posts : List (String × Bool)). if name == j then none else lookup j posts) e

some_ne_none : (e : Error) → (let r : Outcome = some e in r ≢ none)
some_ne_none e h = ground arith

flush_reply_lem :
    (env : Env) (name id : String) (reply : Reply) (w : World)
    → Answered env name id reply w (flush_reply env name id reply w)
unfolding settle_post
flush_reply_lem env name id rejected w = (refl, drop_pending-IsDropped name w w refl, refl)
flush_reply_lem env name id unavailable w = (refl, refl)
flush_reply_lem env name id (revision number) w =
    let v = (mark_revision env name number w).1 in
    elim (Option-cases (mark_revision env name number w).0) [
      | inl good ↦
          let (p, found, least, _) = (mark_revision_lem env name number w).1 good in
          rw (good, settle_post)
            (
              refl,
              inl (
                refl,
                drop_pending-IsDropped name w v (mark_pending env name number w),
                p,
                found,
                least,
              ),
            )
      | inr (e, bad) ↦
          rw (bad, settle_post) (refl, inr (refl, mark_pending env name number w, some_ne_none e))
    ]

-- The server is asked about the pending post of an agent that is in the map and not attached. If it
-- rejects the post, this post and no other is dropped and the agent is not skipped. If it cannot be
-- reached, nothing changes and exactly this agent is skipped. If it answers with a revision, the revision
-- is marked: where that succeeds, this post and no other is dropped, the agent that then has the name
-- is at that revision or a later one, and the agent is not skipped; where it fails, the posts are
-- pending as they were when the answer came and exactly this agent is skipped.
pub flush_one_lem :
    (env : Env) (others : World → World) (ask : Definition → Reply) (name : String) (p : ℕ)
    (w : World)
    → lookup name w.agents ≡ some p
    → ((w.objects p).def.kind == attached) ≡ false
    → Answered env name
        (w.objects p).def.agent_id
        (ask (w.objects p).def)
        (others w)
        (flush_one env others (some ask) name w)
unfolding flush_one
flush_one_lem env others ask name p w found ours =
    rw (found, ours, flush_one)
      (flush_reply_lem env name (w.objects p).def.agent_id (ask (w.objects p).def) (others w))
