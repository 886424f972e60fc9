-- ===== src/Supervisor/Sessions/Claims.antt =====
-- A claim shuts out every other claim of its agent, and its release gives back what it took.
use ac_cli.Prelude.{
  ℕ, String, ◌≡◌, ◌≢◌, ap, ◌∙◌, Bool, true, false, Option, none, some, List, ◌∷◌, arith, any, ◌==◌,
  string_eq, eq_iff, nat_eq, lookup, insert, delete, lookup-insert, lookup-delete, if◌then◌else◌,
  beq_self, nat_beq_iff,
}
use ac_cli.Supervisor.World.{Env, World, Claim, find_agent, drop_lock}
use ac_cli.Supervisor.World.Frame.{drop_lock_absent}
use ac_cli.Supervisor.Types.{Definition}
use ac_cli.Supervisor.Sessions.{
  held_pending, ok, err, Window, claim, claim_agent, claim_fresh, claim_recheck, holds_claim,
  release_claim,
}

-- The world that a claim was added to: the one after the window where the agent has a record.
abbrev pub met : Window → Option ℕ → World → World
met window none w = w
met window (some p) w = window.others w

-- What a successful claim did.
record IsClaim (id : String) (c : Claim) (m w' : World) : Type 0 where
  agent : c.agent_id ≡ id
  claims : w'.claims ≡ insert id c m.claims
  unclaimed : lookup id m.claims ≡ none
  locks : w'.locks ≡ (if c.reused then m.locks else id ∷ m.locks)
  was_free : c.reused ≡ false → any (λ j. j == id) m.locks ≡ false

claim_fresh-IsClaim :
    (env : Env) (id ws : String) (peer : ℕ) (w : World) {c : Claim}
    → lookup id w.claims ≡ none
    → (claim_fresh env id ws peer w).0 ≡ ok c
    → IsClaim id c w (claim_fresh env id ws peer w).1
unfolding claim_fresh
claim_fresh-IsClaim env id ws peer w free h = ground arith

claim_recheck-IsClaim :
    (window : Window) (prior : Definition) (own alive : Bool) (p : ℕ) (id ws : String) (peer : ℕ)
    (w : World) {c : Claim}
    → (claim_recheck window prior own alive p id ws peer w).0 ≡ ok c
    → IsClaim id c w (claim_recheck window prior own alive p id ws peer w).1
unfolding claim_recheck
claim_recheck-IsClaim window prior own alive p id ws peer w h = ground arith

claim_agent-IsClaim :
    (env : Env) (window : Window) (found : Option ℕ) (id ws : String) (peer : ℕ) (w : World)
    {c : Claim}
    → lookup id w.claims ≡ none
    → (claim_agent env window found id ws peer w).0 ≡ ok c
    → IsClaim id c (met window found w) (claim_agent env window found id ws peer w).1
unfolding claim_agent
claim_agent-IsClaim env window none id ws peer w free h =
    claim_fresh-IsClaim env id ws peer w free h
claim_agent-IsClaim env window (some p) id ws peer w free h =
    ground (arith, claim_recheck-IsClaim window (w.objects p).def)

claim-IsClaim :
    (env : Env) (window : Window) (id ws : String) (peer : ℕ) (w : World) {c : Claim}
    → (claim env window id ws peer w).0 ≡ ok c
    → IsClaim id c
        (met window (find_agent w.objects id w.agents) w)
        (claim env window id ws peer w).1
unfolding claim
claim-IsClaim env window id ws peer w h =
    ground (arith, claim_agent-IsClaim env window (find_agent w.objects id w.agents) id ws peer w)

claim_pending :
    (env : Env) (window : Window) (id ws : String) (peer : ℕ) (v : World) (c : Claim)
    → peer ≢ 0
    → (id == "") ≡ false
    → lookup id v.claims ≡ some c
    → claim env window id ws peer v ≡ (err held_pending, v)
unfolding claim
claim_pending env window id ws peer v c n named found = ground (arith, nat_beq_iff peer 0)

claim_named :
    (env : Env) (window : Window) (id ws : String) (peer : ℕ) (w : World) {c : Claim}
    → (claim env window id ws peer w).0 ≡ ok c
    → (id == "") ≡ false
unfolding claim
claim_named env window id ws peer w h = ground arith

-- While a claim is pending, no other claim of the same agent succeeds, whoever asks and whatever the
-- system says: it is refused and changes nothing. Claims of other agents are as they were.
pub claim_excludes :
    (env : Env) (window : Window) (id ws : String) (peer : ℕ) (w : World) {c : Claim}
    → (claim env window id ws peer w).0 ≡ ok c
    → let v = (claim env window id ws peer w).1 in
      ((env' : Env) (window' : Window) (ws' : String) (peer' : ℕ)
        → peer' ≢ 0
        → claim env' window' id ws' peer' v ≡ (err held_pending, v))
      × ((j : String)
          → j ≢ id
          → lookup j v.claims ≡ lookup j (met window (find_agent w.objects id w.agents) w).claims)
claim_excludes env window id ws peer w {c} h =
    let v = (claim env window id ws peer w).1 in
    let k = claim-IsClaim env window id ws peer w h in
    (
      λ env' window' ws' peer' n.
          claim_pending env' window' id ws' peer' v c n (claim_named env window id ws peer w h)
            (rw k.claims (rw lookup-insert (rw (beq_self id)))),
      λ j n. rw k.claims (rw lookup-insert (ground (arith, eq_iff id j))),
    )

holds_lem : (c : Claim) (v : World) → lookup c.agent_id v.claims ≡ some c → holds_claim c v ≡ true
holds_lem c v e = ground (arith, nat_beq_iff c.ticket c.ticket)

found_lem :
    (id : String) (c : Claim) (m v : World) → IsClaim id c m v → lookup c.agent_id v.claims ≡ some c
found_lem id c m v k = cc (
  ap (λ x. lookup c.agent_id x) k.claims,
  lookup-insert id c.agent_id c m.claims,
  ap (λ x. if id == x then some c else lookup c.agent_id m.claims) k.agent,
  ap (λ b. if b then some c else lookup c.agent_id m.claims) (beq_self id),
)

release_claims :
    (c : Claim) (v : World)
    → holds_claim c v ≡ true
    → ((release_claim c v).claims ≡ delete c.agent_id v.claims)
      × ((release_claim c v).locks ≡ (if c.reused then v.locks else drop_lock c.agent_id v.locks))
unfolding release_claim
release_claims c v h = ground arith

drop_head :
    (id : String) (js : List String) → any (λ j. j == id) js ≡ false → drop_lock id (id ∷ js) ≡ js
unfolding drop_lock
drop_head id js h = ground (arith, drop_lock_absent id js, eq_iff id id)

restored :
    (id j : String) (c : Claim) (m : List (String × Claim))
    → lookup id m ≡ none
    → lookup j (delete id (insert id c m)) ≡ lookup j m
restored id j c m h = rw lookup-delete (rw lookup-insert (ground (arith, eq_iff id j)))

release_locks :
    (id : String) (c : Claim) (m v : World)
    → IsClaim id c m v
    → (if c.reused then v.locks else drop_lock c.agent_id v.locks) ≡ m.locks
release_locks id c m v k = rw (k.agent, k.locks) (ground (arith, drop_head id m.locks, k.was_free))

release_lem :
    (id : String) (c : Claim) (m v : World)
    → IsClaim id c m v
    → ((release_claim c v).locks ≡ m.locks)
      × ((j : String) → lookup j (release_claim c v).claims ≡ lookup j m.claims)
release_lem id c m v k =
    let (claims, locks) = release_claims c v (holds_lem c v (found_lem id c m v k)) in
    (
      locks ∙ release_locks id c m v k,
      λ j. cc (
        restored id j c m.claims k.unclaimed,
        ap (λ x. lookup j x) claims,
        ap (λ x. lookup j (delete x v.claims)) k.agent,
        ap (λ x. lookup j (delete id x)) k.claims,
      ),
    )

-- Releasing a pending claim gives back exactly what it took: the locks and the claims are those of
-- the world that the claim was added to.
pub claim-release :
    (env : Env) (window : Window) (id ws : String) (peer : ℕ) (w : World) {c : Claim}
    → (claim env window id ws peer w).0 ≡ ok c
    → let v = release_claim c (claim env window id ws peer w).1 in
      let m = met window (find_agent w.objects id w.agents) w in
      (v.locks ≡ m.locks) × ((j : String) → lookup j v.claims ≡ lookup j m.claims)
claim-release env window id ws peer w {c} h =
    release_lem id c (met window (find_agent w.objects id w.agents) w) _
      (claim-IsClaim env window id ws peer w h)
