-- ===== src/Supervisor/Delivery.antt =====
-- internal/supervisor/delivery.go: what becomes of a notification that was spooled.
--
-- The text that `pidriver.FormatMessageGuidance` makes is the argument `guidance`, and the driver's
-- answer to `Send` is `sent`. The mutex is free while the body of an interrupt is fetched and while the
-- driver is called: that time is the `Window`. Wake channels are left out.
pub mod Kept
use Prim.Native.String.{◌++◌ as text_append}
use ac_cli.Prelude.{
  ℕ, ◌+◌, String, Bool, true, false, not, ◌&&◌, ◌||◌, Option, none, some, List, [], ◌∷◌, ◌++◌, leb,
  ltb, ◌==◌, ◌!=◌, if◌then◌else◌, string_eq, nat_eq, lookup, insert, delete, is_none,
}
use ac_cli.Presence.Types.{other_kind}
use ac_cli.Supervisor.Types.{
  attached, kind_eq, headless, mode_eq, Desired, desired_eq, stopped_by_dashboard, run_state_eq,
  Notification, Managed,
}
use ac_cli.Supervisor.World.{Env, World, put, emit_attached}
use ac_cli.Supervisor.Sessions.{Window}
use ac_cli.Supervisor.Attached.{send_attached_signal}

-- What the poller says of an interrupt's body; `status` is the HTTP status of an error, if it has one.
pub data Body : Type 0 where
  no_reader : Body
  body : String → Body
  no_body : Option ℕ → Body

-- pidriver.Outgoing
pub data Urgency : Type 0 where
  regular urgent interrupt : Urgency

pub record Outgoing : Type 0 where
  pub text : String
  pub kind : Urgency
  pub source : String

abbrev with_body : String → Body → String
with_body text (body s) = text_append text (text_append "\nInterrupt body: " s)
with_body text _ = text

abbrev is_read : Notification → Body → Bool
is_read n no_reader = false
is_read n _ = n.kind == "interrupt"

abbrev pub is_typed : Notification → Bool
is_typed n = n.kind == "nudge" || n.kind == "interrupt"

-- `m.agents[a.def.Name] == a`
abbrev is_named : ℕ → World → Bool
is_named p w = elim (lookup (w.objects p).def.name w.agents) [ none ↦ false | some q ↦ q == p ]

abbrev signal_session : ℕ → String → String → World → World
signal_session p type text w =
    if is_named p w && (w.objects p).def.state != stopped_by_dashboard
    then put p (send_attached_signal (w.objects p) (record { type = type; text = text })) w
    else w

-- The branch of an attached session.
unfoldable pub deliver_attached :
    Env → Window → (Notification → String) → Body → ℕ → Notification → World → World
deliver_attached env window guidance answer p n w =
    let met = if is_read n answer then window.others w else w in
    let text = if n.kind == "interrupt" then with_body (guidance n) answer else guidance n in
    emit_attached env p (other_kind "notification") ""
      (if is_typed n then signal_session p n.kind text met else w)

abbrev pub attempts : Managed → Notification → ℕ
attempts a n = elim (lookup n.message_id a.interrupt_failures) [ none ↦ 0 | some k ↦ k ]

abbrev is_client_error : Option ℕ → Bool
is_client_error none = false
is_client_error (some status) = leb 400 status && ltb status 500

-- The fetch of an interrupt's body: whether it failed, and whether the pointer goes out in its place.
pub record Fetch : Type 0 where
  pub failed : Bool
  pub fallback : Bool

abbrev body_failed : ℕ → Option ℕ → Fetch
body_failed tried status = record {
  failed = true;
  fallback = leb 3 (tried + 1) || is_client_error status;
}

abbrev body_fetched : Fetch
body_fetched = record { failed = false; fallback = false }

abbrev fetch_body : ℕ → Body → Fetch
fetch_body tried (body s) = body_fetched
fetch_body tried no_reader = body_failed tried none
fetch_body tried (no_body status) = body_failed tried status

unfoldable pub fetch : ℕ → Notification → Body → Fetch
fetch tried n answer =
    if n.kind != "interrupt"
    then body_fetched
    else if leb 3 tried
    then record { failed = false; fallback = true }
    else fetch_body tried answer

abbrev delivery_kind : Notification → String
delivery_kind n = if is_typed n then n.kind else if n.priority == "urgent" then "urgent" else ""

-- What goes to the driver.
unfoldable pub outgoing : (Notification → String) → ℕ → Body → Notification → Outgoing
outgoing guidance tried answer n =
    let f = fetch tried n answer in
    let text =
      if n.kind == "interrupt" && not f.fallback
      then with_body (guidance n) answer
      else guidance n in
    record {
      text =
          if delivery_kind n != ""
          then text_append text (text_append "\nDelivery kind: " (delivery_kind n))
          else text;
      kind =
          if n.kind == "interrupt"
          then (if f.fallback then urgent else interrupt)
          else if n.priority == "urgent"
          then urgent
          else regular;
      source = n.message_id;
    }

-- The message goes to the driver unless its body is still wanted.
abbrev pub is_sent : Fetch → Bool
is_sent f = not f.failed || f.fallback

abbrev pub count_failures : ℕ → Fetch → Bool → Notification → Managed → Managed
count_failures tried f delivered n a =
    if n.kind != "interrupt"
    then a
    else if delivered
    then record a { interrupt_failures = delete n.message_id a.interrupt_failures }
    else if f.failed && not f.fallback
    then record a { interrupt_failures = insert n.message_id (tried + 1) a.interrupt_failures }
    else a

-- After the call of the driver.
unfoldable pub deliver_result : ℕ → Fetch → Bool → Notification → Managed → Managed
deliver_result tried f delivered n a =
    let counted = count_failures tried f delivered n a in
    if delivered
    then counted
    else record counted { pending_wakes = counted.pending_wakes ++ n ∷ [] }

abbrev pub same_driver : Option ℕ → Option ℕ → Bool
same_driver none none = true
same_driver (some d) (some e) = d == e
same_driver _ _ = false

-- The branch of a headless agent with a driver: what was sent, and the world after it.
unfoldable pub deliver_driver :
    Window
    → (Notification → String)
    → Body
    → (Outgoing → Bool)
    → ℕ
    → Notification
    → World
    → Option Outgoing × World
deliver_driver window guidance answer sent p n w =
    let tried = attempts (w.objects p) n in
    let f = fetch tried n answer in
    let message = outgoing guidance tried answer n in
    let delivered = is_sent f && sent message in
    let w' = window.others w in
    let a = w'.objects p in
    (
      if is_sent f then some message else none,
      if not (same_driver a.driver (w.objects p).driver) || a.def.desired != Desired.running
          then w'
          else put p (deliver_result tried f delivered n a) w',
    )

abbrev pub must_wait : Managed → Bool
must_wait a =
    is_none a.driver || (not a.startup_sent || elim a.pending_wakes [ [] ↦ false | m ∷ ms ↦ true ])

-- Manager.deliver
unfoldable pub deliver :
    Env
    → Window
    → (Notification → String)
    → Body
    → (Outgoing → Bool)
    → ℕ
    → Notification
    → World
    → Option Outgoing × World
deliver env window guidance answer sent p n w =
    let a = w.objects p in
    if a.def.kind == attached
    then (none, deliver_attached env window guidance answer p n w)
    else if a.def.mode != headless || a.taken_over
    then (none, w)
    else if must_wait a
    then (none, put p (record a { pending_wakes = a.pending_wakes ++ n ∷ [] }) w)
    else deliver_driver window guidance answer sent p n w
