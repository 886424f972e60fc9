-- ===== src/Tests/Messages.antt =====
-- Runs of the feed, of a delivery to a driver and of a takeover.
use ac_cli.Prelude.{◌⊎◌, String, ◌≡◌, refl, true, none, some, [], ◌∷◌, lookup}
use ac_cli.Supervisor.Types.{started, headless, Desired, RunState, Managed, Notification}
use ac_cli.Supervisor.World.{World, put, zero_managed, zero_definition, update, save}
use ac_cli.Supervisor.Sessions.{Window}
use ac_cli.Supervisor.Feed.{
  synced, unsynced, whole, Io, Inbox, record_delivered, receive, receive_new, receive_all,
}
use ac_cli.Supervisor.Feed.Known.{IsIn}
use ac_cli.Supervisor.Feed.Growing.{Grows}
use ac_cli.Supervisor.Feed.Once.{Fails, receive_all-Grows}
use ac_cli.Supervisor.Takeover.{take_over, takeover_at, finish_takeover}
use ac_cli.Supervisor.Takeover.Fenced.{IsFenced, take_over_lem}
use ac_cli.Tests.Supervisor.{alone, empty}

abbrev works : Io
works = record { fetched = λ id. true; appended = λ id. synced; recorded = λ id. true }

abbrev no_mail : Inbox
no_mail = record { spool = []; delivered = []; saved = [] }

-- A repetition is dropped.
two_spooled : receive_all works ("m1" ∷ ("m2" ∷ ("m1" ∷ []))) no_mail ≡ (
  none,
  "m1" ∷ ("m2" ∷ []),
  record {
    spool = whole "m1" ∷ (whole "m2" ∷ []);
    delivered = "m1" ∷ ("m2" ∷ []);
    saved = "m1" ∷ ("m2" ∷ []);
  },
)
unfolding receive_all receive receive_new record_delivered
two_spooled = refl

receive_all-Grows_example :
    let r = receive_all works ("m1" ∷ ("m2" ∷ ("m1" ∷ []))) no_mail in
    Grows [] ("m1" ∷ ("m2" ∷ ("m1" ∷ []))) no_mail r.0 r.2
    × ((r.0 ≡ none) ⊎ ((id : String) × IsIn id ("m1" ∷ ("m2" ∷ ("m1" ∷ []))) × Fails works id))
receive_all-Grows_example = receive_all-Grows works ("m1" ∷ ("m2" ∷ ("m1" ∷ []))) [] no_mail refl

-- A line that could not be synced stands in the spool, is not delivered, and is appended again.
abbrev unsure : Io
unsure = record { fetched = λ id. true; appended = λ id. unsynced; recorded = λ id. true }

spooled_twice :
    (receive_all unsure ("m1" ∷ []) (receive_all unsure ("m1" ∷ []) no_mail).2).2.spool
    ≡ whole "m1" ∷ (whole "m1" ∷ [])
unfolding receive_all receive receive_new
spooled_twice = refl

abbrev driven : Managed
driven = record zero_managed {
  def = record zero_definition {
    kind = started;
    agent_id = "agm_3";
    name = "Driven";
    mode = headless;
    desired = Desired.running;
    state = RunState.running;
  };
  driver = some 7;
  startup_sent = true;
  interrupt_failures = ("m9", 2) ∷ [];
}

abbrev one_driven : World
one_driven = record empty {
  objects = update empty.objects 0 driven;
  next_object = 1;
  agents = ("Driven", 0) ∷ [];
}

abbrev interrupting : Notification
interrupting = record {
  type = "message.received";
  message_id = "m9";
  sender_id = "agm_8";
  kind = "interrupt";
  priority = "urgent";
}

taken_over_now : (take_over alone true "Driven" one_driven).0 ≡ none
unfolding take_over takeover_at finish_takeover lookup save
taken_over_now = refl

found_driven : lookup "Driven" one_driven.agents ≡ some 0
unfolding lookup
found_driven = refl

take_over_lem_example :
    let v = (take_over alone true "Driven" one_driven).1 in
    IsFenced 0 alone.env.now v × ((v.objects 0).taken_over ≡ true) × ((v.objects 0).driver ≡ none)
take_over_lem_example =
    take_over_lem alone true "Driven" 0 one_driven found_driven (λ x. refl) taken_over_now

-- The driver does not stop, and another call clears the agent's wakes meanwhile.
abbrev busy : Window
busy = record {
  others = λ w. put 0 (record (w.objects 0) { pending_wakes = [] }) w;
  env = alone.env;
}
