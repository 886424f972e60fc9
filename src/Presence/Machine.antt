-- ===== src/Presence/Machine.antt =====
-- internal/agentstate/state.go: when a machine is busy, idle, or stopped (`Busy` to `AgentsStopped`).
use ac_cli.Prelude.{
  ◌≤◌, ◌≡◌, refl, ◌↔◌, Bool, true, false, not, ◌&&◌, ◌||◌, Option, none, some, List, [], ◌∷◌, arith,
  ltb, ◌==◌, nat_eq, if◌then◌else◌, any, All,
}
use ac_cli.Presence.Clock.{Time, is_zero}
use ac_cli.Presence.Types.{Physical, running, physical_eq}

-- `Kind == "attached"` is a field of its own, since nothing else is read of the kind.
pub record MachineAgent : Type 0 where
  pub attached : Bool
  pub physical : Physical
  pub in_run : Bool
  pub streaming : Bool
  pub takeover : Bool
  pub desired_running : Bool
  pub machine_stopped : Bool

abbrev pub busy_agent : MachineAgent → Bool
busy_agent a =
    (a.attached && (a.physical == running && a.in_run))
    || (not a.attached && (a.desired_running && (a.streaming || a.takeover)))

unfoldable pub busy : List MachineAgent → Bool → Bool
busy agents tmux_attached = tmux_attached || any busy_agent agents

abbrev later : Time → Time → Time
later a b = if ltb a b then b else a

abbrev earlier : Time → Time → Time
earlier a b = if ltb b a then b else a

-- MachineIdle: the report value and the new marker.
unfoldable pub machine_idle : Time → Time → Time → List MachineAgent → Bool → Option Time × Time
machine_idle now last_busy last_output agents tmux_attached =
    if busy agents tmux_attached
    then (none, now)
    else let latest = later last_busy (earlier last_output now) in
      let idle = if is_zero latest then now else latest in (some idle, idle)

-- IdleSince
unfoldable pub idle_since : Time → Time → Time → List MachineAgent → Bool → Option Time
unfolding machine_idle
idle_since now last_busy last_output agents tmux_attached =
    (machine_idle now last_busy last_output agents tmux_attached).0

unfoldable pub agents_stopped : Bool → List MachineAgent → Bool
agents_stopped holding agents =
    if not holding then false else not (any (λ a. not a.attached && not a.machine_stopped) agents)

-- The marker of the last busy moment never moves back and never lies in the future, and the machine
-- reports an idle time, the marker itself, exactly when it is not busy.
pub machine_idle_marker :
    (now last_busy last_output : Time) (agents : List MachineAgent) (tmux : Bool)
    → last_busy ≤ now
    → let (idle, marker) = machine_idle now last_busy last_output agents tmux in
      (last_busy ≤ marker)
      × (marker ≤ now)
      × (idle ≡ (if busy agents tmux then none else some marker))
unfolding machine_idle
machine_idle_marker now last_busy last_output agents tmux h = ground arith

-- Every agent that is not attached has been stopped for the machine.
abbrev pub AllStopped : List MachineAgent → Type 0
AllStopped agents = All (λ a. a.attached ≡ false → a.machine_stopped ≡ true) agents

all_stopped :
    (agents : List MachineAgent)
    → (any (λ a. not a.attached && not a.machine_stopped) agents ≡ false) ↔ AllStopped agents
all_stopped [] = ((λ _. tt), λ _. refl)
all_stopped (a ∷ agents) = ground (arith, all_stopped agents)

-- The machine counts as stopped exactly when it holds and every agent that is not a person's attached
-- session has been stopped for the machine.
pub agents_stopped_iff :
    (holding : Bool) (agents : List MachineAgent)
    → (agents_stopped holding agents ≡ true) ↔ ((holding ≡ true) × AllStopped agents)
unfolding agents_stopped
agents_stopped_iff holding agents = ground (arith, all_stopped agents)
