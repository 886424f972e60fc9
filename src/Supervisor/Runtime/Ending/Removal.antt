-- ===== src/Supervisor/Runtime/Ending/Removal.antt =====
-- What a removal that succeeds leaves.
use ac_cli.Prelude.{
  ℕ, String, ◌≡◌, refl, ◌∙◌, ap, List, true, false, Option, none, some, arith, ◌==◌, string_eq,
  nat_beq_iff, lookup, delete, lookup-delete, Bool-cases, Option-cases, inl, inr, beq_self,
}
use ac_cli.Supervisor.Types.{attached, kind_eq, Definition}
use ac_cli.Supervisor.World.{World, release}
use ac_cli.Supervisor.Lifecycle.Stop.{stop}
use ac_cli.Supervisor.Runtime.Ending.{
  Removing, RemoveError, not_down, nil_agent, no_file, forget, remove_files, remove,
}

-- The agent `p` under the name is gone from `w`, and nothing else of the map is.
pub record IsRemoved (name : String) (p : ℕ) (w v : World) : Type 0 where
  pub agent : lookup name v.agents ≡ none
  pub desired : lookup name v.pending_desired ≡ none
  pub others :
      (other : String) → (name == other) ≡ false → lookup other v.agents ≡ lookup other w.agents
  pub file : v.disk (w.objects p).def.agent_id ≡ none
  pub lock : ((w.objects p).def.kind == attached) ≡ true → (v.objects p).locked ≡ false

release_frame :
    (p : ℕ) (w : World)
    → ((release p w).agents ≡ w.agents)
      × ((release p w).pending_desired ≡ w.pending_desired)
      × ((release p w).disk ≡ w.disk)
      × (((release p w).objects p).locked ≡ false)
unfolding release
release_frame p w = ground (arith, nat_beq_iff p p)

gone {ℓ} :
    {V : Type ℓ} (name : String) (entries : List (String × V))
    → lookup name (delete name entries) ≡ none
gone name entries = lookup-delete name name entries ∙ (rw (beq_self name) refl)

kept {ℓ} :
    {V : Type ℓ} (name other : String) (entries : List (String × V))
    → (name == other) ≡ false
    → lookup other (delete name entries) ≡ lookup other entries
kept name other entries n = lookup-delete name other entries ∙ (rw n refl)

some_ne_none : (e : RemoveError) → ¬ (some e ≡ none)
some_ne_none e h = cc

forget-IsRemoved :
    (name : String) (p : ℕ) (w : World)
    → IsRemoved name p w (forget name p (no_file (w.objects p).def.agent_id w))
unfolding forget
forget-IsRemoved name p w =
    let id = (w.objects p).def.agent_id in
    let w' = record (no_file id w) {
      agents = delete name w.agents;
      pending_desired = delete name w.pending_desired;
    } in
    let f = release_frame p w' in
    let away = beq_self id in
    elim (Bool-cases ((w.objects p).def.kind == attached)) [
      | inl theirs ↦ rw theirs (record {
        agent = ap (lookup name) f.0 ∙ gone name w.agents;
        desired = ap (lookup name) f.1 ∙ gone name w.pending_desired;
        others = λ other n. ap (lookup other) f.0 ∙ kept name other w.agents n;
        file = ap (λ (d : String → Option Definition). d id) f.2 ∙ (rw away refl);
        lock = λ _. f.3;
      })
      | inr ours ↦ rw ours (record {
        agent = gone name w.agents;
        desired = gone name w.pending_desired;
        others = λ other n. kept name other w.agents n;
        file = rw away refl;
        lock = λ e. absurd (cc);
      })
    ]

remove_files_lem :
    (o : Removing) (name : String) (p : ℕ) (w : World)
    → (remove_files o name p w).0 ≡ none
    → (remove_files o name p w).1 ≡ forget name p (no_file (w.objects p).def.agent_id w)
unfolding remove_files
remove_files_lem o name p w h = ground arith

-- A removal that succeeds, whatever other calls do while the mutex is free, is of an agent that is in the
-- map once its stop is over: then the map has no agent of the name, and under every other name what it
-- had, no post about the name is pending, the agent has no file, and if it was attached, its lock is free.
pub remove_lem :
    (o : Removing) (name : String) (w : World)
    → (remove o name w).0 ≡ none
    → let met = o.between.others (stop o.env o.window o.driver_stopped o.killed name w).1 in
      (p : ℕ) × (lookup name met.agents ≡ some p) × IsRemoved name p met (remove o name w).1
unfolding remove
remove_lem o name w h =
    let down = stop o.env o.window o.driver_stopped o.killed name w in
    let met = o.between.others down.1 in
    elim (Option-cases down.0) [
      | inr (f, bad) ↦ absurd (some_ne_none not_down (rw (bad, remove) at h))
      | inl good ↦ elim (Option-cases (lookup name met.agents)) [
        | inl absent ↦ absurd (some_ne_none nil_agent (rw (good, absent, remove) at h))
        | inr (p, found) ↦
            let done = rw (good, found, remove) at h in
            rw (good, found, remove)
              (p, refl, rw (remove_files_lem o name p met done) (forget-IsRemoved name p met))
      ]
    ]
