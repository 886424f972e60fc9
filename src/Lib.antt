-- ===== src/Lib.antt =====
-- The AirCommand agent client: the daemon's core, modelled and verified.
--
-- The program `aircom` is a CLI with a machine daemon. The daemon's manager (internal/supervisor) owns
-- the agents of the machine: those that it starts itself under tmux or as headless pi processes, and the
-- sessions of programs that a person started and that attach to it. For each agent it steps a presence
-- engine (internal/agentstate), whose state is reported to the server.
--
-- Files. `Presence` is internal/agentstate/state.go: `step` is `Step`, in the pieces of its body;
-- `Presence.Report` the checks of report.go; `Presence.Machine` the rules on busy, idle and stopped
-- machines. `Supervisor.Types` and `Supervisor.World` are the records of api.go, supervisor.go and
-- attached.go with the elementary steps `save`, `acquire`, `release` and the events; a call of the
-- manager takes the world and returns its result beside the new world, so that what was written before
-- an error stays written. `Supervisor.Sessions` is `Claim` and `ReleaseClaim`, `Supervisor.Attach` is
-- `Attach`, `Supervisor.Attached` the other calls of attached.go on a session, `Supervisor.Crash` the
-- restart delay and the crash window, `Supervisor.Lifecycle` is `validate`, `Start`, `Mode`, `Stage` and
-- `MarkRevision`, `Supervisor.Lifecycle.Stop` is `Stop`. `Supervisor.Feed` is
-- the loop of `poll` over a feed and `Wake`, `Supervisor.Delivery` is `deliver`, `Supervisor.Takeover` is
-- takeover.go, `Supervisor.Desired` is `PostDesired` and `FlushDesired`. `Reconciler` is Reconcile of
-- internal/machinectl: `Reconciler.Apply` is `apply`, `Reconciler.Seeding` and `Reconciler.Check` are the
-- two loops, `Reconciler.SeedReply` the check of a seed reply in api.go. Its calls of the manager, the
-- server and the workspace are entered in a history, and what each answers is any function of that
-- history. `Storage` is internal/storagepath, internal/credentials and the cursor of internal/listenstore; what
-- JSON makes of an agent's ID is an argument there, and `Storage.Utf8` says which IDs it keeps.
-- `PiDriver` is internal/pidriver/rpc.go, the RPC session of a headless agent: `PiDriver.Commands` is what
-- it writes, `PiDriver.Interrupts` is `advanceInterrupt`, `PiDriver.Handle` is `handle`, `PiDriver.Run` is
-- `New`, `Start`, the loops of `run`, the exit and `Stop`, `PiDriver.Version` is `validateVersion`, and
-- `PiDriver.Actions` lets its goroutines take their steps in any order; the messages are those that
-- `Supervisor.Delivery` makes.
-- `Supervisor.Runtime` is what the daemon does by itself: `Runtime.Ticks` is `Tick`, `tickAgent` and
-- `tickAttached`, `Runtime.Tmux` `watch` and `launch`, `Runtime.Headless` is headless.go, `Runtime.Polling`
-- is `poll`, `Runtime.Progress` is `progressPresence`, `Runtime.Boot` is `boot` and `bootAgent`, and
-- `Runtime.Ending` is `Remove` and `Shutdown`. What one tick of an agent meets outside the manager is a
-- record `Outside`; a headless launch that `Start` begins is still an argument of `start`.
-- The modules below these hold the proofs; `Tests` runs the model at concrete inputs.
--
-- How the code is modelled. A managed agent is an object behind a pointer, as in the source, since a
-- call keeps its pointer while it releases the manager's mutex; what other calls do in that time is an
-- arbitrary function on worlds (`Window.others`). Go maps are association lists, whose order stands for
-- the order of a `range` loop. Clocks, file writes, locks of other processes and process inspection are
-- the record `Env`; one call (one part of it, where it releases the mutex) reads one time. A time is a
-- number of nanoseconds with 0 as the zero time. Texts that the code compares with fixed values are data
-- types with a constructor for every other text. Recursion is structural, so there is no fuel except in
-- the decimal printing of a number, whose fuel is one more than the number, and in the loops of the pi
-- driver's `run`, whose fuel is the length of the queue that the loop empties.
--
-- Not modelled: JSON, HTTP and sockets, tmux and processes, channels and their subscribers, the
-- printed output and the flags of the CLI.
pub mod Prelude
pub mod Presence
pub mod Supervisor
pub mod Reconciler
pub mod Storage
pub mod PiDriver
mod Tests
