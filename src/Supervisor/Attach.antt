-- ===== src/Supervisor/Attach.antt =====
-- internal/supervisor/attached.go: `Attach`, and the calls on an attached session.
pub mod Success
use ac_cli.Prelude.{
  ℕ, suc, ◌+◌, String, Bool, true, false, not, ◌&&◌, ◌||◌, Option, none, some, List, [], ◌∷◌, ◌++◌,
  leb, ltb, ◌==◌, ◌!=◌, if◌then◌else◌, string_eq, nat_eq, lookup, insert, delete, is_some, is_none,
  trim_space, valid_name, length, drop,
}
use ac_cli.Presence.Clock.{Time}
use ac_cli.Presence.Types.{
  EventKind, session_alive, session_exited, no_listener, Event, Logical, no_logical,
}
use ac_cli.Supervisor.Types.{
  Kind, attached, kind_eq, Mode, attached_mode, Desired, desired_eq, RunState, run_state_eq,
  Definition, Managed, Signal,
}
use ac_cli.Supervisor.World.{
  Env, AgentEvent, Claim, World, zero_managed, zero_definition, put, set_def, find_agent, save,
  emit_attached, emit_agent_event,
}
use ac_cli.Supervisor.Sessions.{
  Error, invalid_attachment, identity_changed, no_credential, claim_expired, claim_workstream,
  invalid_name, no_lock, not_saved, not_exist, held, held_by_session, session_stopped,
  dashboard_stopped, offset_backwards, offset_beyond, stat_failed, Result, ok, err, Window,
  holds_claim,
}

-- Attachment
pub record Attachment : Type 0 where
  pub agent_id : String
  pub name : String
  pub workstream : String
  pub session_start : String
  pub program : String
  pub session_id : String
  pub session_pid : ℕ

-- The tests before the lock is taken.
unfoldable pub attachment_error : Env → Attachment → Option Error
attachment_error env p =
    if p.agent_id == ""
      || (p.session_pid == 0
          || (p.session_start == "" || (p.program != "pi" && p.program != "other")))
    then some invalid_attachment
    else if env.process_start p.session_pid == ""
        || env.process_start p.session_pid != p.session_start
    then some identity_changed
    else if p.workstream != "" && not (env.has_credential p.workstream p.agent_id)
    then some no_credential
    else none

-- The tests on the claim.
unfoldable pub claim_error : Env → Option Claim → Attachment → World → Option Error
claim_error env none p w = if is_some (lookup p.agent_id w.claims) then some held else none
claim_error env (some c) p w =
    if not (holds_claim c w) || (c.agent_id != p.agent_id || ltb c.expires env.now)
    then some claim_expired
    else if c.workstream != "" && c.workstream != p.workstream
    then some claim_workstream
    else none

abbrev pub same_session : Definition → Attachment → Bool
same_session d p = d.session_pid == p.session_pid && d.session_start == p.session_start

-- The state and the reason of the new definition: a program without an add-on has no listener yet,
-- unless the same session joins again.
abbrev pub attached_state : Bool → Definition → Attachment → RunState × String
attached_state resumed previous p =
    if p.program == "other"
    then (if (resumed && same_session previous p)
          && (previous.program == "other" && previous.state == RunState.running)
        then (previous.state, previous.reason)
        else (RunState.stopped, "no listener"))
    else (RunState.running, "")

-- A resumed record in the same workstream keeps its offset; any other starts at the spool's end.
abbrev pub attached_offset : (String → Option ℕ) → Bool → Definition → Attachment → ℕ
attached_offset spool resumed previous p =
    if not resumed || previous.workstream != p.workstream
    then elim (spool p.agent_id) [ none ↦ 0 | some size ↦ size ]
    else previous.offset

unfoldable pub attached_definition :
    (String → Option ℕ) → Bool → Definition → String → Attachment → Definition
attached_definition spool resumed previous name p = record zero_definition {
  kind = attached;
  agent_id = p.agent_id;
  name = name;
  workstream = p.workstream;
  desired = Desired.running;
  state = (attached_state resumed previous p).0;
  reason = (attached_state resumed previous p).1;
  mode = attached_mode;
  session_pid = p.session_pid;
  session_start = p.session_start;
  program = p.program;
  session_id = p.session_id;
  offset = attached_offset spool resumed previous p;
}

-- `a.lock = claim.lock`
abbrev pub takes_lock : Option Claim → Bool
takes_lock none = false
takes_lock (some c) = not c.reused

abbrev pub drop_claim : Option Claim → String → World → World
drop_claim none id w = w
drop_claim (some c) id w = record w { claims = delete id w.claims }

unfoldable pub first_event : Env → ℕ → Attachment → World → World
first_event env q p w =
    if p.program == "other"
    then (if (w.objects q).def.state != RunState.running
        then emit_attached env q no_listener "no listener" w
        else w)
    else emit_attached env q session_alive "" w

-- The written record enters the map, and its claim is used up.
abbrev pub enter : Env → Option Claim → ℕ → String → Attachment → World → World
enter env c q name p w = drop_claim c p.agent_id (
    put q (record (w.objects q) { next_poll = env.now })
      (record w { agents = insert name q w.agents }))

-- The object of the agent: the old one, or a new one in a fresh place.
abbrev pub target : Option ℕ → World → ℕ
target none w = w.next_object
target (some q) w = q

abbrev pub reserve : Option ℕ → World → World
reserve none w = put w.next_object zero_managed (record w { next_object = suc w.next_object })
reserve (some q) w = w

-- The record is written last: a failed write puts the definition back, and a new record's lock.
unfoldable pub attach_save :
    Env
    → Option Claim
    → Option ℕ
    → ℕ
    → Definition
    → Definition
    → String
    → Attachment
    → World
    → Result (Unit {0}) × World
attach_save env c old q previous next name p w =
    let locked = (w.objects q).locked || takes_lock c in
    let ready = put q (record (w.objects q) { def = next; locked = locked }) w in
    if not locked
    then (err no_lock, w)
    else let (saved, w') = save env q ready in
      if not saved
      then (
        err not_saved,
        put q
            (record (w'.objects q) {
              def = previous;
              locked = if is_none old then false else locked;
            })
            w',
      )
      else (ok tt, first_event env q p (enter env c q name p w'))

unfoldable pub attach_name : Option ℕ → Attachment → World → String
attach_name (some q) p w = (w.objects q).def.name
attach_name none p w = let name = trim_space p.name in if name == "" then p.agent_id else name

-- `collision != nil && collision != old`
abbrev pub collides : String → Option ℕ → World → Bool
collides name old w = elim (lookup name w.agents) [
  | none ↦ false
  | some q ↦ elim old [ none ↦ true | some r ↦ q != r ]
]

-- From the name on.
unfoldable pub attach_record :
    Env
    → (String → Option ℕ)
    → Option Claim
    → Option ℕ
    → Attachment
    → World
    → Result (Unit {0}) × World
attach_record env spool c old p w =
    let name = attach_name old p w in
    if not (valid_name name)
    then (err invalid_name, w)
    else if collides name old w
    then (err held, w)
    else let w' = reserve old w in
      let q = target old w in
      let previous = (w'.objects q).def in
      attach_save env c old q previous (attached_definition spool (is_some old) previous name p)
        name p w'

-- Another session holds the record: it must have ended, and still be the one that was seen.
unfoldable pub attach_replace :
    Env
    → Window
    → (String → Option ℕ)
    → Option Claim
    → ℕ
    → Attachment
    → World
    → Result (Unit {0}) × World
attach_replace env window spool c q p w =
    let prior = (w.objects q).def in
    let alive = env.process_alive prior.session_pid prior.session_start in
    let w' = window.others w in
    let def = (w'.objects q).def in
    if def.session_pid != prior.session_pid || def.session_start != prior.session_start
    then (err held, w')
    else if alive
    then (err held_by_session, w')
    else attach_record window.env spool c (some q) p w'

unfoldable pub attach_agent :
    Env
    → Window
    → (String → Option ℕ)
    → Option Claim
    → Option ℕ
    → Attachment
    → World
    → Result (Unit {0}) × World
attach_agent env window spool c none p w = attach_record env spool c none p w
attach_agent env window spool c (some q) p w =
    if (w.objects q).def.kind != attached
    then (err held, w)
    else if not (same_session (w.objects q).def p)
    then attach_replace env window spool c q p w
    else attach_record env spool c (some q) p w

-- Manager.Attach; `spool` is the size of an agent's spool file, where there is one.
unfoldable pub attach :
    Env
    → Window
    → (String → Option ℕ)
    → Option Claim
    → Attachment
    → World
    → Result (Unit {0}) × World
attach env window spool c p w = elim (attachment_error env p) [
  | some e ↦ (err e, w)
  | none ↦ elim (claim_error env c p w) [
    | some e ↦ (err e, w)
    | none ↦ attach_agent env window spool c (find_agent w.objects p.agent_id w.agents) p w
  ]
]
