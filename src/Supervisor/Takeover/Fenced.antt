-- ===== src/Supervisor/Takeover/Fenced.antt =====
-- `Takeover`: its success and its failure.
use ac_cli.Prelude.{
  ap, ◌∙◌, ℕ, String, ◌≡◌, ◌≢◌, refl, ◌⊎◌, inl, inr, Bool, true, false, Option, none, some, arith,
  nat_eq, nat_beq_iff, eq_iff, lookup, Bool-cases,
}
use ac_cli.Supervisor.Types.{
  Desired, desired_eq, desired_beq_iff, taken_over, run_state_eq, Managed,
}
use ac_cli.Supervisor.World.{Env, World, put, save}
use ac_cli.Supervisor.Sessions.{Window}
use ac_cli.Supervisor.Takeover.{
  Error, machine_stopping, finish_takeover, takeover_at, take_over, taken, can_take_over,
}

-- The session is the foreground's: in memory, and in the agent's file.
pub record IsFenced (p : ℕ) (now : ℕ) (v : World) : Type 0 where
  pub state : (v.objects p).def.state ≡ taken_over
  pub since : (v.objects p).def.takeover_since ≡ some now
  pub process : (v.objects p).def.pi ≡ none
  pub desired : (v.objects p).def.desired ≡ Desired.running
  pub saved : v.disk (v.objects p).def.agent_id ≡ some (v.objects p).def

finish_takeover-IsFenced :
    (env : Env) (p : ℕ) (w : World)
    → (finish_takeover env p w).0 ≡ none
    → IsFenced p env.now (finish_takeover env p w).1
      × (((finish_takeover env p w).1.objects p).taken_over ≡ (w.objects p).taken_over)
      × (((finish_takeover env p w).1.objects p).driver ≡ (w.objects p).driver)
unfolding finish_takeover save
finish_takeover-IsFenced env p w h = (
  record {
    state = ground (arith, nat_beq_iff p p);
    since = ground (arith, nat_beq_iff p p);
    process = ground (arith, nat_beq_iff p p);
    desired =
        ground (arith, nat_beq_iff p p, desired_beq_iff (w.objects p).def.desired Desired.running);
    saved =
        ground
          (arith, nat_beq_iff p p, eq_iff (w.objects p).def.agent_id (w.objects p).def.agent_id);
  },
  ground (arith, nat_beq_iff p p),
  ground (arith, nat_beq_iff p p),
)

-- An error leaves the world as it was, or the agent without a takeover.
abbrev pub Refused : ℕ → World → World → Type 0
Refused p w v =
    (v ≡ w) ⊎ (((v.objects p).taken_over ≡ false) × ((v.objects p).takeover_connected ≡ false))

not_some : {e : Error} (o : Option Error) → o ≡ some e → o ≢ none
not_some o h n = ground arith

takeover_at-IsFenced :
    (window : Window) (stopped : Bool) (p : ℕ) (w : World)
    → ((x : World) → (window.others x).objects p ≡ x.objects p)
    → (takeover_at window stopped p w).0 ≡ none
    → let v = (takeover_at window stopped p w).1 in
      IsFenced p window.env.now v
      × ((v.objects p).taken_over ≡ true)
      × ((v.objects p).driver ≡ none)
unfolding takeover_at
takeover_at-IsFenced window stopped p w quiet h = elim (Bool-cases (can_take_over (w.objects p))) [
  | inr busy ↦ absurd (not_some _ refl (rw (busy, takeover_at) at h))
  | inl free ↦ elim (Bool-cases stopped) [
    | inr runs ↦ absurd (not_some _ refl (rw (free, runs, takeover_at) at h))
    | inl down ↦
        let v = window.others (put p (taken (w.objects p)) w) in
        let (fenced, flag, driver) =
          finish_takeover-IsFenced window.env p v (rw (free, down, takeover_at) at h) in
        let same : v.objects p ≡ taken (w.objects p) =
          quiet (put p (taken (w.objects p)) w) ∙ ground (arith, nat_beq_iff p p) in
        rw (free, down, takeover_at)
          (
            fenced,
            flag ∙ ap (λ (a : Managed). a.taken_over) same,
            driver ∙ ap (λ (a : Managed). a.driver) same,
          )
  ]
]

take_over_held :
    (window : Window) (stopped : Bool) (name : String) (w : World)
    → w.stopping_hold ≡ true
    → take_over window stopped name w ≡ (some machine_stopping, w)
unfolding take_over
take_over_held window stopped name w h = ground arith

take_over_free :
    (window : Window) (stopped : Bool) (name : String) (p : ℕ) (w : World)
    → w.stopping_hold ≡ false
    → lookup name w.agents ≡ some p
    → take_over window stopped name w ≡ takeover_at window stopped p w
unfolding take_over
take_over_free window stopped name p w h found = ground arith

-- A takeover that succeeds, where no other call touched the agent while the mutex was free, leaves the
-- agent fenced: the daemon has no driver and no recorded process for it, and its file says that it is
-- taken over, since when, and that it is to run.
pub take_over_lem :
    (window : Window) (stopped : Bool) (name : String) (p : ℕ) (w : World)
    → lookup name w.agents ≡ some p
    → ((x : World) → (window.others x).objects p ≡ x.objects p)
    → (take_over window stopped name w).0 ≡ none
    → let v = (take_over window stopped name w).1 in
      IsFenced p window.env.now v
      × ((v.objects p).taken_over ≡ true)
      × ((v.objects p).driver ≡ none)
take_over_lem window stopped name p w found quiet h = elim (Bool-cases w.stopping_hold) [
  | inl held ↦ absurd (not_some _ refl (rw (take_over_held window stopped name w held) at h))
  | inr free ↦
      let same = take_over_free window stopped name p w free found in
      rw same (takeover_at-IsFenced window stopped p w quiet (rw same at h))
]
