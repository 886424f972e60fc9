-- ===== src/Supervisor/Runtime/Outside.antt =====
-- What one tick of one agent meets outside the manager, and how it can fail.
use ac_cli.Prelude.{ℕ, String, Bool, Option, none, some, List, if◌then◌else◌}
use ac_cli.Presence.Clock.{Time}
use ac_cli.Supervisor.Types.{Notification, PiProcess}
use ac_cli.Supervisor.World.{Env, World}
use ac_cli.Supervisor.Sessions.{Window}
use ac_cli.Supervisor.Feed.{Io}
use ac_cli.Supervisor.Delivery.{Body, Outgoing}

pub data Fault : Type 0 where
  not_saved not_locked not_inspected not_killed not_started not_stopped : Fault
  no_adapter no_pi no_driver stopped_meanwhile not_taken : Fault
  no_credential no_cursor no_message not_placed takeover_unclear : Fault

-- `nil`, or an error.
abbrev pub Outcome : Type 0
Outcome = Option Fault

-- PaneState of tmux.go
pub record Pane : Type 0 where
  pub exists : Bool
  pub dead : Bool
  pub pid : ℕ
  pub exit_code : ℕ
  pub signal : String

-- What the delivery of one notification meets.
pub record Mail : Type 0 where
  pub window : Window
  pub answer : Body
  pub taken : Outgoing → Bool

-- Poller.Fetch
pub data Fetched : Type 0 where
  fetch_failed agent_stopped : Fetched
  feed : List Notification → String → Time → Fetched

-- The answers of tmux (`pane` at the first look and `pane_again` at the second, `killed`, `tmux_started`), of the pi adapter and the driver (`adapter` is
-- the error of `VerifyHeadless`; `new_driver` a driver whose log could be opened; `pi` the process that
-- `Start` began; `exited` what its channel holds), of the server (`polls` and `places` say that there is a
-- poller and a placement), of process inspection,
-- and the windows in which the mutex is free. `after` is met once it was free.
pub record Outside : Type 0 where
  pub env : Env
  pub after : Env
  pub pane : Option Pane
  pub pane_again : Option Pane
  pub killed : Bool
  pub tmux_started : Bool
  pub session_exists : Bool
  pub adapter : Option String
  pub pi_found : Bool
  pub new_driver : Option ℕ
  pub pi : Option PiProcess
  pub exited : Option (ℕ × String)
  pub startup_taken : Bool
  pub driver_stopped : Bool
  pub starting : Window
  pub sending : Window
  pub stopping : Window
  pub inspecting : Window
  pub polls : Bool
  pub cursor : Option (Option String)
  pub fetched : Fetched
  pub io : Io
  pub mail : Notification → Mail
  pub guidance : Notification → String
  pub cursor_saved : Bool
  pub refenced : Bool
  pub places : Bool
  pub placing : Window
  pub placed : Option (String × String)

-- The result of a save as a result of the call.
abbrev pub saved_as : Bool × World → Outcome × World
saved_as (saved, w) = (if saved then none else some not_saved, w)
