-- ===== src/Supervisor/Lifecycle/Refused.antt =====
-- A start of a new name that another process's lock refuses leaves an empty record under the name.
use ac_cli.Prelude.{
  ℕ, String, ◌≡◌, ◌≢◌, refl, ap, inl, inr, Bool, false, none, some, arith, ◌==◌, string_eq, eq_iff,
  nat_eq, nat_beq_iff, lookup, lookup-insert, Option-cases,
}
use ac_cli.Supervisor.Types.{attached, kind_eq, Definition, Managed}
use ac_cli.Supervisor.World.{
  Env, World, put, zero_managed, zero_definition, acquire, lock_free_here,
}
use ac_cli.Supervisor.Lifecycle.{
  Error, not_locked, Outcome, start_error, start_locked, start_mode_error, is_legacy, slot,
  start_record, start, enter_slot, start_definition,
}

-- The name leads to a record without an agent.
record IsPhantom (name : String) (w : World) : Type 0 where
  place : ℕ
  named : lookup name w.agents ≡ some place
  empty : (w.objects place).def ≡ zero_definition
  free : (w.objects place).taken_over ≡ false

refused_lock :
    (env : Env) (launch : World → Outcome × World) (old : Definition) (p : ℕ) (w : World)
    (name : String)
    → old ≡ zero_definition
    → lookup name w.agents ≡ some p
    → env.lock_free (w.objects p).def.agent_id ≡ false
    → (w.objects p).locked ≡ false
    → (w.objects p).taken_over ≡ false
    → ((start_locked env launch old p w).0 ≡ some not_locked)
      × IsPhantom name (start_locked env launch old p w).1
unfolding start_locked acquire lock_free_here
refused_lock env launch old p w name zero h busy unlocked free = (
  ground arith,
  record {
    place = p;
    named = ground arith;
    empty = ground (arith, nat_beq_iff p p);
    free = ground (arith, nat_beq_iff p p);
  },
)

-- The result of a refused start: an error, and an empty record.
abbrev Refused : String → Outcome × World → Type 0
Refused name r = ((e : Error) × (r.0 ≡ some e)) × IsPhantom name r.1

ours :
    (p : ℕ) (w : World) → w.objects p ≡ zero_managed → ((w.objects p).def.kind == attached) ≡ false
ours p w zero = ground arith

IsPhantom-put :
    (name : String) (p : ℕ) (b : Bool) (w : World)
    → lookup name w.agents ≡ some p
    → w.objects p ≡ zero_managed
    → IsPhantom name (put p (record (w.objects p) { legacy_session = b }) w)
IsPhantom-put name p b w h zero = record {
  place = p;
  named = h;
  empty = ground (arith, nat_beq_iff p p);
  free = ground (arith, nat_beq_iff p p);
}

-- The world after the definition of a start is set.
abbrev set_world : Definition → ℕ → World → World
set_world def p w =
    put p
      (record (w.objects p) {
        legacy_session = is_legacy def (w.objects p).def;
        def = start_definition def (w.objects p).def (is_legacy def (w.objects p).def);
        next_start = 0;
        failures = 0;
      })
      w

set_world_lem :
    (def : Definition) (p : ℕ) (w : World)
    → w.objects p ≡ zero_managed
    → let a = (set_world def p w).objects p in
      (a.def.agent_id ≡ def.agent_id) × (a.locked ≡ false) × (a.taken_over ≡ false)
unfolding start_definition
set_world_lem def p w zero = ground (arith, nat_beq_iff p p)

Refused-set :
    (env : Env) (launch : World → Outcome × World) (def : Definition) (p : ℕ) (w : World)
    → lookup def.name w.agents ≡ some p
    → env.lock_free def.agent_id ≡ false
    → w.objects p ≡ zero_managed
    → Refused def.name (start_locked env launch (w.objects p).def p (set_world def p w))
Refused-set env launch def p w h busy zero =
    let (id, unlocked, free) = set_world_lem def p w zero in
    let (refused, phantom) =
      refused_lock env launch (w.objects p).def p (set_world def p w) def.name
        (ap (λ (a : Managed). a.def) zero) h (rw id busy) unlocked free in
    ((not_locked, refused), phantom)

Refused-record :
    (env : Env) (launch : World → Outcome × World) (def : Definition) (p : ℕ) (w : World)
    → lookup def.name w.agents ≡ some p
    → env.lock_free def.agent_id ≡ false
    → w.objects p ≡ zero_managed
    → Refused def.name (start_record env launch def p w)
unfolding start_record
Refused-record env launch def p w h busy zero =
    elim (Option-cases (start_mode_error def (w.objects p).def)) [
      | inr (e, bad) ↦
          rw (ours p w zero, bad, start_record)
            ((e, refl), IsPhantom-put def.name p (is_legacy def (w.objects p).def) w h zero)
      | inl good ↦
          rw (ours p w zero, good, start_record) (Refused-set env launch def p w h busy zero)
    ]

entered :
    (name : String) (w : World)
    → lookup name w.agents ≡ none
    → (lookup name (enter_slot name w).agents ≡ some (slot name w))
      × ((enter_slot name w).objects (slot name w) ≡ zero_managed)
unfolding enter_slot
entered name w h = ground (
  arith,
  lookup-insert name name w.next_object w.agents,
  eq_iff name name,
  nat_beq_iff w.next_object w.next_object,
)

Refused-start :
    (env : Env) (launch : World → Outcome × World) (is_abs : String → Bool) (def : Definition)
    (w : World)
    → lookup def.name w.agents ≡ none
    → start_error is_abs def w ≡ none
    → env.lock_free def.agent_id ≡ false
    → Refused def.name (start env launch is_abs def w)
unfolding start
Refused-start env launch is_abs def w fresh good busy =
    let (named, zero) = entered def.name w fresh in
    rw (good, start)
      (Refused-record env launch def (slot def.name w) (enter_slot def.name w) named busy zero)

phantom_refuses :
    (is_abs : String → Bool) (def : Definition) (w : World)
    → (def.agent_id == "") ≡ false
    → IsPhantom def.name w
    → start_error is_abs def w ≢ none
unfolding start_error
phantom_refuses is_abs def w named ph =
    ground (arith, eq_iff "" def.agent_id, eq_iff def.agent_id "")

phantom_error :
    (is_abs : String → Bool) (def : Definition) (w : World)
    → (def.agent_id == "") ≡ false
    → IsPhantom def.name w
    → (e : Error) × (start_error is_abs def w ≡ some e)
phantom_error is_abs def w named ph = elim (Option-cases (start_error is_abs def w)) [
  | inl passes ↦ absurd (phantom_refuses is_abs def w named ph passes)
  | inr found ↦ found
]

start_error_named :
    (is_abs : String → Bool) (def : Definition) (w : World)
    → start_error is_abs def w ≡ none
    → (def.agent_id == "") ≡ false
unfolding start_error
start_error_named is_abs def w h = ground arith

start_erring :
    (env : Env) (launch : World → Outcome × World) (is_abs : String → Bool) (def : Definition)
    (w : World) (e : Error)
    → start_error is_abs def w ≡ some e
    → start env launch is_abs def w ≡ (some e, w)
unfolding start
start_erring env launch is_abs def w e h = rw (h, start)

-- Where a name is new and its definition passes the tests, but another process holds the agent's lock,
-- the start fails, and then every later start of the same definition fails too and changes nothing,
-- also when the lock has become free: the failed start has left an empty record under the name.
pub start_stays_refused :
    (env : Env) (launch : World → Outcome × World) (is_abs : String → Bool) (def : Definition)
    (w : World)
    → lookup def.name w.agents ≡ none
    → start_error is_abs def w ≡ none
    → env.lock_free def.agent_id ≡ false
    → let r = start env launch is_abs def w in
      ((e : Error) × (r.0 ≡ some e))
      × ((env' : Env) (launch' : World → Outcome × World) (is_abs' : String → Bool)
          → (e : Error) × (start env' launch' is_abs' def r.1 ≡ (some e, r.1)))
start_stays_refused env launch is_abs def w fresh good busy =
    let (failed, phantom) = Refused-start env launch is_abs def w fresh good busy in
    let v = (start env launch is_abs def w).1 in
    (
      failed,
      λ env' launch' is_abs'.
          let (e, h) = phantom_error is_abs' def v (start_error_named is_abs def w good) phantom in
          (e, start_erring env' launch' is_abs' def v e h),
    )
