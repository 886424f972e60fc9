-- ===== src/PiDriver/Actions.antt =====
-- internal/pidriver/rpc.go: the steps of the goroutines that share a driver, in any order.
use ac_cli.Prelude.{ℕ, true, Option, List, [], ◌∷◌}
use ac_cli.Supervisor.Delivery.{Outgoing}
use ac_cli.PiDriver.Types.{Line, HistoryRequest, Driver}
use ac_cli.PiDriver.Commands.{read_line, write, send}
use ac_cli.PiDriver.Handle.{Os}
use ac_cli.PiDriver.Run.{request_history, Boot, start_driver, next_line, next_history, next_send}

-- One step of one goroutine: of the callers (`Start`, `Send`, `History`, `Stop`), of the reader, of the
-- writer, of the run loop (`handle_next`, `ask_next`, `send_next`), or of the one that waits for pi to exit.
pub data Action : Type 0 where
  boot : Boot → Action
  give : Outgoing → Action
  request : ℕ → HistoryRequest → Action
  stop_asked closed : Action
  arrive : Option Line → Action
  write_next ask_next send_next : Action
  handle_next : Os → Action

unfoldable pub perform : Action → Driver → Driver
perform (boot b) d = (start_driver b d).1
perform (give msg) d = (send msg d).1
perform (request limit r) d = (request_history limit r d).1
perform stop_asked d = record d { stopping = true }
perform closed d = record d { closed = true }
perform (arrive line) d = read_line line d
perform write_next d = write d
perform ask_next d = next_history d
perform send_next d = next_send d
perform (handle_next os) d = next_line os d

unfoldable pub perform_all : List Action → Driver → Driver
perform_all [] d = d
perform_all (a ∷ rest) d = perform_all rest (perform a d)
