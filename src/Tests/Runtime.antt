-- ===== src/Tests/Runtime.antt =====
-- Runs of the daemon's ticks, of its adoption of agents, and of their end.
use ac_cli.Prelude.{
  ℕ, ◌==◌, ◌≤◌, ◌⊎◌, true, false, ◌≡◌, refl, none, some, [], ◌∷◌, lookup, delete, insert,
  valid_name,
}
use ac_cli.Supervisor.Types.{started, tmux, headless, Desired, RunState, run_state_eq, Managed}
use ac_cli.Supervisor.World.{World, zero_managed, zero_definition, update, save, acquire, release}
use ac_cli.Supervisor.Feed.{synced, Io}
use ac_cli.Supervisor.Crash.{keep_crashes, note_exit}
use ac_cli.Supervisor.Delivery.{Body}
use ac_cli.Supervisor.Lifecycle.{validate}
use ac_cli.Supervisor.Lifecycle.Stop.{stop_at, stop_managed, stop_process, stop_finish, stop}
use ac_cli.Supervisor.Runtime.Outside.{Pane, Mail, fetch_failed, Outside}
use ac_cli.Supervisor.Runtime.Tmux.{watch_dead, watch_pane, watch_tmux}
use ac_cli.Supervisor.Runtime.Headless.{tick_headless}
use ac_cli.Supervisor.Runtime.Headless.Exits.{IsExited, tick_headless-IsExited}
use ac_cli.Supervisor.Runtime.Ticks.{tick_tmux}
use ac_cli.Supervisor.Runtime.Ticks.Life.{Moves, life}
use ac_cli.Supervisor.Runtime.Ticks.Moving.{tick_tmux-Moves}
use ac_cli.Supervisor.Runtime.Boot.{
  Adoption, load_delivered, watch, boot_running, boot_loaded, boot_fenced, boot_own, boot_valid,
  boot_agent,
}
use ac_cli.Supervisor.Runtime.Boot.Resuming.{IsOurs}
use ac_cli.Supervisor.Runtime.Boot.Timer.{exited, timer-boot_agent}
use ac_cli.Supervisor.Runtime.Ending.{Removing, forget, remove_files, remove}
use ac_cli.Supervisor.Runtime.Ending.Removal.{IsRemoved, remove_lem}
use ac_cli.Tests.Supervisor.{calm, alone, empty}

abbrev runner : Managed
runner = record zero_managed {
  def = record zero_definition {
    kind = started;
    agent_id = "agm_2";
    name = "Runner";
    workstream = "w1";
    work_folder = "/home/u/work/r";
    mode = tmux;
    desired = Desired.running;
    state = RunState.running;
  };
  locked = true;
}

abbrev one_agent : World
one_agent = record empty {
  objects = update empty.objects 0 runner;
  next_object = 1;
  agents = ("Runner", 0) ∷ [];
  locks = "agm_2" ∷ [];
}

abbrev dead_pane : Pane
dead_pane = record { exists = true; dead = true; pid = 0; exit_code = 1; signal = "" }

abbrev works : Io
works = record { fetched = λ id. true; appended = λ id. synced; recorded = λ id. true }

abbrev no_body : Mail
no_body = record { window = alone; answer = Body.no_reader; taken = λ m. true }

-- tmux shows a dead pane, and the server does not answer.
abbrev outside : Outside
outside = record {
  env = calm;
  after = calm;
  pane = some dead_pane;
  pane_again = some dead_pane;
  killed = true;
  tmux_started = true;
  session_exists = false;
  adapter = none;
  pi_found = true;
  new_driver = none;
  pi = none;
  exited = none;
  startup_taken = true;
  driver_stopped = true;
  starting = alone;
  sending = alone;
  stopping = alone;
  inspecting = alone;
  polls = true;
  cursor = none;
  fetched = fetch_failed;
  io = works;
  mail = λ n. no_body;
  guidance = λ n. "";
  cursor_saved = true;
  refenced = true;
  places = false;
  placing = alone;
  placed = none;
}

tick_tmux-Moves_example :
    Moves outside runner (life runner) (life ((tick_tmux outside 0 one_agent).1.objects 0))
tick_tmux-Moves_example =
    tick_tmux-Moves outside 0 one_agent (record { kind = refl; mode = refl; driver = refl })
      (refl, refl)

exit_saved : (watch_dead calm dead_pane 0 one_agent).0 ≡ none
unfolding watch_dead save note_exit keep_crashes
exit_saved = refl

not_parked : ((exited calm dead_pane 0 one_agent).def.state == RunState.crashed) ≡ false
unfolding note_exit keep_crashes
not_parked = refl

ours : IsOurs (exited calm dead_pane 0 one_agent).def
unfolding note_exit keep_crashes
ours = record { kind = refl; mode = refl; desired = refl; takeover = refl }

-- The file of the earlier daemon.
abbrev adoption : Adoption
adoption = record {
  owner = "agm_2";
  saved =
      (watch_dead calm dead_pane 0 one_agent).1.disk
        (exited calm dead_pane 0 one_agent).def.agent_id;
  delivered = some none;
  pi_killed = true;
  killing = alone;
  alive = false;
  looking = alone;
  outside = outside;
}

boots : (boot_agent (λ f. true) adoption empty).0 ≡ none
unfolding boot_agent validate boot_valid boot_own boot_fenced boot_loaded boot_running watch
    watch_tmux watch_pane watch_dead load_delivered acquire save note_exit keep_crashes lookup
    valid_name insert
boots = refl

timer-boot_agent_example :
    let before = (watch_dead calm dead_pane 0 one_agent).1 in
    let after = (boot_agent (λ f. true) adoption empty).1 in
    (q : ℕ) × (lookup (before.objects 0).def.name after.agents ≡ some q)
    × ((after.objects q).def ≡ (before.objects 0).def)
    × ((after.objects q).next_start ≡ (before.objects 0).next_start)
    × ((after.objects q).locked ≡ true)
timer-boot_agent_example =
    timer-boot_agent calm dead_pane 0 one_agent (λ f. true) adoption dead_pane empty refl exit_saved
      not_parked ours refl refl refl refl refl boots

abbrev removing : Removing
removing = record {
  env = calm;
  window = alone;
  driver_stopped = none;
  killed = true;
  between = alone;
  definition_gone = true;
  delivered_gone = true;
  brief_gone = true;
}

removed : (remove removing "Runner" one_agent).0 ≡ none
unfolding remove remove_files forget stop stop_at stop_managed stop_process stop_finish save release
    lookup delete
removed = refl

remove_lem_example :
    let met = removing.between.others (stop calm alone none true "Runner" one_agent).1 in
    (p : ℕ) × (lookup "Runner" met.agents ≡ some p)
    × IsRemoved "Runner" p met (remove removing "Runner" one_agent).1
remove_lem_example = remove_lem removing "Runner" one_agent removed

-- A headless agent whose driver's process exits.
abbrev driven : Managed
driven = record runner { def = record runner.def { mode = headless }; driver = some 7 }

abbrev one_driven : World
one_driven = record one_agent { objects = update empty.objects 0 driven }

abbrev exiting : Outside
exiting = record outside { exited = some (1, "killed") }

tick_headless-IsExited_example :
    let r = tick_headless exiting 0 one_driven in
    IsExited calm.now 1 "killed" driven (r.1.objects 0)
    × (r.0 ≡ none → r.1.disk (r.1.objects 0).def.agent_id ≡ some (r.1.objects 0).def)
    × (((r.1.objects 0).next_start ≤ outside.env.now) ⊎ (tick_headless outside 0 r.1 ≡ (none, r.1)))
tick_headless-IsExited_example = tick_headless-IsExited exiting outside 0 one_driven refl refl
