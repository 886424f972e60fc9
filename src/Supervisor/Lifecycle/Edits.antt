-- ===== src/Supervisor/Lifecycle/Edits.antt =====
-- `Mode` and `MarkRevision`: what they may change, and that a failure changes nothing.
use ac_cli.Prelude.{
  leb, ◌==◌, ℕ, ◌≤◌, String, ◌≡◌, ◌≢◌, refl, none, some, arith, Bool-cases, ◌!=◌, ◌&&◌, false,
  eq_iff, nat_eq, nat_beq_iff, Option-cases, inl, inr, ◌⊎◌, lookup,
}
use ac_cli.Supervisor.Types.{
  desired_eq, Definition, Mode, tmux, headless, attached, kind_eq, mode_eq, Desired, kind_beq_iff,
  desired_beq_iff, mode_beq_iff,
}
use ac_cli.Supervisor.World.{Env, World, set_def, save}
use ac_cli.Supervisor.World.Frame.{save_frame}
use ac_cli.Supervisor.Lifecycle.{
  Outcome, is_taken_over, Error, mode_at, set_mode, revision_at, mark_revision,
}

-- No definition, in memory or on the disk, differs.
pub record IsSame (w v : World) : Type 0 where
  pub agents : v.agents ≡ w.agents
  pub disk : v.disk ≡ w.disk
  pub defs : (q : ℕ) → (v.objects q).def ≡ (w.objects q).def

same : (w : World) → IsSame w w
same w = record { agents = refl; disk = refl; defs = λ q. refl }

-- A mode change that took place.
pub record IsModeSet (p : ℕ) (mode : Mode) (w v : World) : Type 0 where
  pub was_stopped : (w.objects p).def.desired ≡ Desired.stopped
  pub not_attached : (w.objects p).def.kind ≢ attached
  pub changed : (v.objects p).def ≡ record (w.objects p).def { mode = mode }
  pub saved : v.disk (w.objects p).def.agent_id ≡ some (v.objects p).def
  pub others : (q : ℕ) → q ≢ p → (v.objects q).def ≡ (w.objects q).def

mode_at-IsModeSet :
    (env : Env) (mode : Mode) (p : ℕ) (w : World)
    → (mode_at env mode p w).0 ≡ none
    → IsModeSet p mode w (mode_at env mode p w).1
unfolding mode_at save
mode_at-IsModeSet env mode p w h = record {
  was_stopped = ground (arith, desired_beq_iff (w.objects p).def.desired Desired.stopped);
  not_attached = ground (arith, kind_beq_iff (w.objects p).def.kind attached);
  changed = ground (arith, nat_beq_iff p p);
  saved =
      ground (arith, nat_beq_iff p p, eq_iff (w.objects p).def.agent_id (w.objects p).def.agent_id);
  others = λ q n. ground (arith, nat_beq_iff q p);
}

-- A save that failed is followed by putting the old definition back.
restored :
    (env : Env) (p : ℕ) (d : Definition) (w : World)
    → (save env p (set_def p d w)).0 ≡ false
    → IsSame w (set_def p (w.objects p).def (save env p (set_def p d w)).1)
restored env p d w h =
    let (agents, _, _, objects, disk, _) = save_frame env p (set_def p d w) in
    record { agents = agents; disk = disk h; defs = λ q. rw objects (put_back q) }
  where
    put_back :
        (q : ℕ) → ((set_def p (w.objects p).def (set_def p d w)).objects q).def ≡ (w.objects q).def
    put_back q = ground (arith, nat_beq_iff q p)

no_error : {e : Error} (o : Outcome) → o ≡ none → o ≢ some e
no_error o n h = ground arith

mode_at-IsSame :
    (env : Env) (mode : Mode) (p : ℕ) (w : World) {e : Error}
    → (mode_at env mode p w).0 ≡ some e
    → IsSame w (mode_at env mode p w).1
unfolding mode_at
mode_at-IsSame env mode p w h = elim (Bool-cases ((w.objects p).def.kind == attached)) [
  | inl theirs ↦ rw (theirs, mode_at) (same w)
  | inr ours ↦ elim (Bool-cases (is_taken_over (w.objects p))) [
    | inl taken ↦ rw (ours, taken, mode_at) (same w)
    | inr free ↦ elim (Bool-cases ((w.objects p).def.desired != Desired.stopped)) [
      | inl up ↦ rw (ours, free, up, mode_at) (same w)
      | inr down ↦ elim (Bool-cases (save env p (set_def p d w)).0) [
        | inl saved ↦ absurd (no_error none refl (rw (ours, free, down, saved, mode_at) at h))
        | inr lost ↦ rw (ours, free, down, lost, mode_at) (restored env p d w lost)
      ]
    ]
  ]
]
  where
    d : Definition
    d = record (w.objects p).def { mode = mode }

known_mode :
    (mode : Mode) → (mode != tmux && mode != headless) ≡ false → (mode ≡ tmux) ⊎ (mode ≡ headless)
known_mode mode h = ground (arith, mode_beq_iff mode tmux, mode_beq_iff mode headless)

-- A mode change that succeeds sets tmux or headless on the agent of that name, which was stopped and
-- not attached, on the disk too, and changes nothing else of a definition; one that fails leaves every
-- definition and every file as it was.
pub set_mode_lem :
    (env : Env) (name : String) (mode : Mode) (w : World)
    → let r = set_mode env name mode w in
      (r.0 ≡ none
        → ((mode ≡ tmux) ⊎ (mode ≡ headless))
          × (p : ℕ) × (lookup name w.agents ≡ some p)
          × IsModeSet p mode w r.1)
      × ((e : Error) → r.0 ≡ some e → IsSame w r.1)
unfolding set_mode
set_mode_lem env name mode w = elim (Bool-cases (mode != tmux && mode != headless)) [
  | inl other ↦ rw (other, set_mode) ((λ h. ground arith), λ e h. same w)
  | inr known ↦ elim (Option-cases (lookup name w.agents)) [
    | inl lost ↦ rw (known, lost, set_mode) ((λ h. ground arith), λ e h. same w)
    | inr (p, found) ↦
        rw (known, found, set_mode)
          (
            (λ h. (known_mode mode known, p, refl, mode_at-IsModeSet env mode p w h)),
            λ e h. mode_at-IsSame env mode p w h,
          )
  ]
]

revision_at_lem :
    (env : Env) (revision p : ℕ) (w : World) (q : ℕ)
    → (w.objects q).def.revision ≤ ((revision_at env revision p w).1.objects q).def.revision
unfolding revision_at save
revision_at_lem env revision p w q = ground (arith, nat_beq_iff q p)

revision_at-IsSame :
    (env : Env) (revision p : ℕ) (w : World) {e : Error}
    → (revision_at env revision p w).0 ≡ some e
    → IsSame w (revision_at env revision p w).1
unfolding revision_at
revision_at-IsSame env revision p w h = elim (Bool-cases ((w.objects p).def.kind == attached)) [
  | inl theirs ↦ rw (theirs, revision_at) (same w)
  | inr ours ↦ elim (Bool-cases (leb revision (w.objects p).def.revision)) [
    | inl old ↦ rw (ours, old, revision_at) (same w)
    | inr newer ↦ elim (Bool-cases (save env p (set_def p d w)).0) [
      | inl saved ↦ absurd (no_error none refl (rw (ours, newer, saved, revision_at) at h))
      | inr lost ↦ rw (ours, newer, lost, revision_at) (restored env p d w lost)
    ]
  ]
]
  where
    d : Definition
    d = record (w.objects p).def { revision = revision }

revision_at_ok :
    (env : Env) (revision p : ℕ) (w : World)
    → (revision_at env revision p w).0 ≡ none
    → (revision ≤ ((revision_at env revision p w).1.objects p).def.revision)
      × (w.disk (w.objects p).def.agent_id ≡ some (w.objects p).def
          → (revision_at env revision p w).1.disk (w.objects p).def.agent_id
            ≡ some ((revision_at env revision p w).1.objects p).def)
unfolding revision_at save
revision_at_ok env revision p w h =
    ground (arith, nat_beq_iff p p, eq_iff (w.objects p).def.agent_id (w.objects p).def.agent_id)

-- Marking a revision never lowers the revision of any agent. Where it succeeds, the agent of that name
-- has at least the revision that was given, and where its file held its definition before, it still
-- does; where it fails, every definition and every file is as it was.
pub mark_revision_lem :
    (env : Env) (name : String) (revision : ℕ) (w : World)
    → let r = mark_revision env name revision w in
      ((q : ℕ) → (w.objects q).def.revision ≤ (r.1.objects q).def.revision)
      × (r.0 ≡ none
          → (p : ℕ) × (lookup name w.agents ≡ some p)
            × (revision ≤ (r.1.objects p).def.revision)
            × (w.disk (w.objects p).def.agent_id ≡ some (w.objects p).def
                → r.1.disk (w.objects p).def.agent_id ≡ some (r.1.objects p).def))
      × ((e : Error) → r.0 ≡ some e → IsSame w r.1)
unfolding mark_revision
mark_revision_lem env name revision w = elim (Option-cases (lookup name w.agents)) [
  | inl lost ↦ rw (lost, mark_revision) ((λ q. omega arith), (λ h. ground arith), λ e h. same w)
  | inr (p, found) ↦
      rw (found, mark_revision)
        (
          (λ q. revision_at_lem env revision p w q),
          (λ h. let done = revision_at_ok env revision p w h in (p, refl, done.0, done.1)),
          λ e h. revision_at-IsSame env revision p w h,
        )
]
