-- ===== src/PiDriver/Drain.antt =====
-- The loop of `run` that sends what waits ends, and what it has written then.
use ac_cli.Prelude.{
  ℕ, zero, suc, ◌+◌, ◌≤◌, ◌≡◌, refl, sym, ◌∙◌, true, false, not, List, [], ◌∷◌, ◌++◌, arith, any,
  length, if◌then◌else◌, Bool-cases, inl, inr,
}
use mathlib.Core.List.{append-nil as append_nil, append_assoc}
use ac_cli.Supervisor.Delivery.{Outgoing}
use ac_cli.PiDriver.Types.{Command, clear_queue, prompt, Driver, with_prefix}
use ac_cli.PiDriver.Commands.{
  dispatch, dispatch_prompt, dispatch_interrupt, is_interrupt, is_urgent,
}
use ac_cli.PiDriver.Run.{may_send, next_send_empty, next_send_held, next_send_first, send_outgoing}

-- The commands that follow number `n`: a prompt for each message before the first interrupt, and then
-- the interrupt's first command.
abbrev pub commands_for : ℕ → List Outgoing → List Command
commands_for n [] = []
commands_for n (msg ∷ rest) =
    if is_interrupt msg
    then clear_queue (n + 1) ∷ []
    else prompt (n + 1) (with_prefix msg.text) (is_urgent msg) ∷ commands_for (n + 1) rest

-- What waits behind the first interrupt.
abbrev pub behind_interrupt : List Outgoing → List Outgoing
behind_interrupt [] = []
behind_interrupt (msg ∷ rest) = if is_interrupt msg then rest else behind_interrupt rest

pub record Drained (d d' : Driver) : Type 0 where
  pub written : d'.writes ≡ d.writes ++ commands_for d.seq d.outgoing
  pub left : d'.outgoing ≡ behind_interrupt d.outgoing
  pub free : may_send d' ≡ not (any is_interrupt d.outgoing)

send_held : (n : ℕ) (d : Driver) → may_send d ≡ false → send_outgoing n d ≡ d
unfolding send_outgoing
send_held zero d e = refl
send_held (suc n) d e = rw (next_send_held d e) (send_held n d e)

send_empty : (n : ℕ) (d : Driver) → d.outgoing ≡ [] → send_outgoing n d ≡ d
unfolding send_outgoing
send_empty zero d e = refl
send_empty (suc n) d e = rw (next_send_empty d e) (send_empty n d e)

open_now : (d : Driver) → may_send d ≡ true → d.closed ≡ false
open_now d e = ground arith

after_prompt :
    (d : Driver) (msg : Outgoing) (rest : List Outgoing)
    → may_send d ≡ true
    → let d' = dispatch_prompt (is_urgent msg) msg (record d { outgoing = rest }) in
      (d'.writes ≡ d.writes ++ prompt (d.seq + 1) (with_prefix msg.text) (is_urgent msg) ∷ [])
      × (may_send d' ≡ true)
      × (d'.seq ≡ d.seq + 1)
      × (d'.outgoing ≡ rest)
unfolding dispatch_prompt
after_prompt d msg rest e = (rw (open_now d e) refl, e, refl, refl)

after_interrupt :
    (d : Driver) (msg : Outgoing) (rest : List Outgoing)
    → may_send d ≡ true
    → let d' = dispatch_interrupt msg (record d { outgoing = rest }) in
      (d'.writes ≡ d.writes ++ clear_queue (d.seq + 1) ∷ [])
      × (may_send d' ≡ false)
      × (d'.outgoing ≡ rest)
unfolding dispatch_interrupt
after_interrupt d msg rest e = (rw (open_now d e) refl, ground arith, refl)

dispatch_as_interrupt :
    (msg : Outgoing) (d : Driver)
    → is_interrupt msg ≡ true
    → dispatch msg d ≡ dispatch_interrupt msg d
unfolding dispatch
dispatch_as_interrupt msg d e = rw e refl

dispatch_as_prompt :
    (msg : Outgoing) (d : Driver)
    → is_interrupt msg ≡ false
    → dispatch msg d ≡ dispatch_prompt (is_urgent msg) msg d
unfolding dispatch
dispatch_as_prompt msg d e = rw e refl

-- The same for a given list of what waits.
record Sent (msgs : List Outgoing) (d d' : Driver) : Type 0 where
  written : d'.writes ≡ d.writes ++ commands_for d.seq msgs
  left : d'.outgoing ≡ behind_interrupt msgs
  free : may_send d' ≡ not (any is_interrupt msgs)

send-Sent :
    (n : ℕ) (msgs : List Outgoing) (d : Driver)
    → d.outgoing ≡ msgs
    → length msgs ≤ n
    → may_send d ≡ true
    → Sent msgs d (send_outgoing n d)
unfolding send_outgoing
send-Sent n [] d e le f =
    rw (send_empty n d e) (record { written = sym (append_nil d.writes); left = e; free = f })
send-Sent zero (msg ∷ rest) d e le f = absurd (omega arith)
send-Sent (suc n) (msg ∷ rest) d e le f = elim (Bool-cases (is_interrupt msg)) [
  | inl its ↦
      let d' = dispatch_interrupt msg (record d { outgoing = rest }) in
      let i = after_interrupt d msg rest f in
      rw (next_send_first d msg rest e f, dispatch_as_interrupt msg _ its, send_held n d' i.1)
        (record { written = rw its i.0; left = rw its i.2; free = rw its i.1 })
  | inr other ↦
      let d' = dispatch_prompt (is_urgent msg) msg (record d { outgoing = rest }) in
      let i = after_prompt d msg rest f in
      let s = send-Sent n rest d' i.3 (omega arith) i.1 in
      rw (next_send_first d msg rest e f, dispatch_as_prompt msg _ other)
        (record {
          written = rw other (s.written ∙ (rw (i.0, i.2) (append_assoc d.writes _ _)));
          left = rw other s.left;
          free = rw other s.free;
        })
]

-- Where messages may be sent, as many rounds as there are messages, or more, come to the loop's end.
-- Then exactly these commands are added for pi, numbered on from the last: a prompt for each message
-- before the first interrupt, in their order, and the first command of that interrupt. What is behind
-- it waits, and messages may be sent on exactly if there was no interrupt.
pub send_outgoing-Drained :
    (n : ℕ) (d : Driver) → length d.outgoing ≤ n → may_send d ≡ true → Drained d (send_outgoing n d)
send_outgoing-Drained n d le f =
    let s = send-Sent n d.outgoing d refl le f in
    record { written = s.written; left = s.left; free = s.free }
