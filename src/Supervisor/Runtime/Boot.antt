-- ===== src/Supervisor/Runtime/Boot.antt =====
-- internal/supervisor/supervisor.go: `boot`, `bootAgent` and `loadDelivered`, by which a daemon takes on
-- the agents that an earlier one saved.
--
-- A file `daemon.json` is given with the agent whose path it has, since paths of different agents differ
-- (`Storage.Components`).
pub mod Resuming
pub mod Timer
use ac_cli.Prelude.{
  ℕ, suc, String, Bool, true, false, not, ◌&&◌, ◌||◌, Option, none, some, List, [], ◌∷◌, ◌==◌, ◌!=◌,
  string_eq, if◌then◌else◌, lookup, insert, is_some, is_none,
}
use ac_cli.Supervisor.Types.{
  attached, kind_eq, headless, mode_eq, Desired, desired_eq, RunState, taken_over,
  stopped_by_dashboard, run_state_eq, Definition, Managed,
}
use ac_cli.Supervisor.World.{World, zero_managed, put, save, acquire, release}
use ac_cli.Supervisor.Sessions.{Window}
use ac_cli.Supervisor.Lifecycle.{validate}
use ac_cli.Supervisor.Takeover.{grace_active}
use ac_cli.Supervisor.Feed.{keep_recent}
use ac_cli.Supervisor.Runtime.Outside.{Outcome, Outside}
use ac_cli.Supervisor.Runtime.Tmux.{watch_tmux}
use ac_cli.Supervisor.Runtime.Headless.{launch_headless}

pub data Error : Type 0 where
  unreadable invalid wrong_path duplicate no_delivered not_killed not_locked not_saved not_watched :
      Error

-- One file, and what adopting it meets. `delivered` is `none` if `delivered.json` cannot be read, and
-- `some none` if there is none; `pi_killed` is the outcome of `killRecordedPi`, `alive` of
-- `takeoverAlive`.
pub record Adoption : Type 0 where
  pub owner : String
  pub saved : Option Definition
  pub delivered : Option (Option (List String))
  pub pi_killed : Bool
  pub killing : Window
  pub alive : Bool
  pub looking : Window
  pub outside : Outside

-- Manager.loadDelivered
unfoldable pub load_delivered : Option (Option (List String)) → Managed → Option Managed
load_delivered none a = none
load_delivered (some none) a = some a
load_delivered (some (some ids)) a = some (record a { delivered = keep_recent ids })

-- The new object of an agent.
abbrev pub place_new : Managed → World → World
place_new a w = put w.next_object a (record w { next_object = suc w.next_object })

abbrev pub enter_map : ℕ → World → World
enter_map p w = record w { agents = insert (w.objects p).def.name p w.agents }

-- Manager.watch
unfoldable pub watch : Outside → ℕ → World → Outcome × World
watch o p w = if (w.objects p).def.mode == headless then launch_headless o p w else watch_tmux o p w

-- A session of a listener that ran is over, since the listener was of the earlier daemon.
abbrev no_longer_heard : Managed → Managed
no_longer_heard a = record a {
  def = record a.def { state = RunState.stopped; reason = "no listener" };
}

unfoldable pub boot_attached : Outside → ℕ → World → Option Error × World
boot_attached o p w =
    let (locked, w1) = acquire o.env p w in
    let a = w1.objects p in
    let (saved, w2) = save o.env p (put p (no_longer_heard a) w1) in
    if not locked
    then (some not_locked, w1)
    else if a.def.program == "other" && a.def.state == RunState.running
    then (if saved then (none, enter_map p w2) else (some not_saved, release p w2))
    else (none, enter_map p w1)

-- The object of an agent of the daemon.
abbrev pub is_fenced : Definition → Bool
is_fenced def = def.state == taken_over || is_some def.takeover

abbrev pub adopted : Adoption → Definition → Managed
adopted r def =
    let a = record zero_managed { def = def; legacy_session = not def.session_migrated } in
    if not (is_fenced def)
    then a
    else if r.alive || (is_none def.takeover && grace_active def.takeover_since r.looking.env.now)
    then record a { taken_over = true; next_poll = r.looking.env.now }
    else record a {
      def = record def { takeover = none; takeover_since = none; state = RunState.starting };
    }

-- Its lock and its process. `def` is the definition of the file.
unfoldable pub boot_running : Outside → Definition → ℕ → World → Option Error × World
boot_running o def p w =
    let (locked, w1) = acquire o.env p w in
    let (e, w2) = watch o p w1 in
    if def.desired != Desired.running
      || (def.state == stopped_by_dashboard || def.state == RunState.crashed)
    then (none, enter_map p w)
    else if not locked
    then (some not_locked, w1)
    else if (w1.objects p).taken_over || w1.stopping_hold
    then (none, enter_map p w1)
    else elim e [ some f ↦ (some not_watched, release p w2) | none ↦ (none, enter_map p w2) ]

unfoldable pub boot_loaded : Adoption → Definition → World → Option Error × World
boot_loaded r def w = elim (load_delivered r.delivered (adopted r def)) [
  | none ↦ (some no_delivered, w)
  | some a ↦ boot_running r.outside def w.next_object (place_new a w)
]

-- A takeover is looked at outside the mutex.
unfoldable pub boot_fenced : Adoption → Definition → World → Option Error × World
boot_fenced r def w = boot_loaded r def (if is_fenced def then r.looking.others w else w)

unfoldable pub boot_own : Adoption → Definition → World → Option Error × World
boot_own r def w =
    let w' = r.killing.others w in
    if def.mode == headless && is_some def.pi
    then (if r.pi_killed
        then boot_fenced r (record def { pi = none }) w'
        else (some not_killed, w'))
    else boot_fenced r def w

unfoldable pub boot_valid : Adoption → Definition → World → Option Error × World
boot_valid r def w =
    if r.owner != def.agent_id
    then (some wrong_path, w)
    else if is_some (lookup def.name w.agents)
    then (some duplicate, w)
    else if def.kind == attached
    then elim (load_delivered r.delivered (record zero_managed { def = def })) [
      | none ↦ (some no_delivered, w)
      | some a ↦ boot_attached r.outside w.next_object (place_new a w)
    ]
    else boot_own r def w

-- Manager.bootAgent
unfoldable pub boot_agent : (String → Bool) → Adoption → World → Option Error × World
boot_agent is_abs r w = elim r.saved [
  | none ↦ (some unreadable, w)
  | some def ↦ elim (validate is_abs def) [ some e ↦ (some invalid, w) | none ↦ boot_valid r def w ]
]

-- Manager.boot: a file that fails is skipped.
unfoldable pub boot : (String → Bool) → List Adoption → World → World
boot is_abs [] w = w
boot is_abs (r ∷ rs) w = boot is_abs rs (boot_agent is_abs r w).1
