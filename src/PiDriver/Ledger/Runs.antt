-- ===== src/PiDriver/Ledger/Runs.antt =====
-- Over any sequence of the goroutines' steps, every message is accounted for.
use ac_cli.Prelude.{
  ℕ, ◌+◌, ◌≡◌, refl, ap, Bool, true, Option, none, some, List, [], ◌∷◌, ◌++◌, map, arith,
  if◌then◌else◌, ◌⊎◌, inl, inr,
}
use mathlib.Core.List.{append-nil as append_nil}
use ac_cli.Supervisor.Delivery.{Outgoing}
use ac_cli.PiDriver.Types.{
  Line, Phase, no_phase, clearing, aborting, prompting, HistoryRequest, Driver, is_no_phase,
}
use ac_cli.PiDriver.Commands.{read_line, write, send}
use ac_cli.PiDriver.Handle.{Os, handle}
use ac_cli.PiDriver.Run.{
  new_driver, request_history, Boot, start_driver, next_line, next_history, remaining,
}
use ac_cli.PiDriver.Actions.{
  Action, boot, give, request, stop_asked, closed, arrive, write_next, ask_next, send_next,
  handle_next, perform, perform_all,
}
use ac_cli.PiDriver.Ledger.Ids.{tally, tally-append, messages}
use ac_cli.PiDriver.Ledger.Books.{
  IsSound, weigh, carried, Keeps, SameCore, SameCore-refl, same-Keeps, send-Keeps,
}
use ac_cli.PiDriver.Ledger.Steps.{next_send-Keeps}
use ac_cli.PiDriver.Ledger.Answers.{settled_line, restored_line, handle-Keeps}

-- The message that a call of `Send` took.
abbrev pub accepted : Action → Driver → List Outgoing
accepted (give msg) d = if (send msg d).0 then msg ∷ [] else []
accepted _ d = []

abbrev with_first :
    (Option Line → Driver → List Outgoing) → List (Option Line) → Driver → List Outgoing
with_first f [] d = []
with_first f (line ∷ rest) d = f line d

settled_line-lines :
    (line : Option Line) (rest : List (Option Line)) (d : Driver)
    → settled_line line (record d { lines = rest }) ≡ settled_line line d
settled_line-lines none rest d = refl
settled_line-lines (some v) rest d = refl

restored_line-lines :
    (line : Option Line) (rest : List (Option Line)) (d : Driver)
    → restored_line line (record d { lines = rest }) ≡ restored_line line d
restored_line-lines none rest d = refl
restored_line-lines (some v) rest d = refl

abbrev pub settled : Action → Driver → List Outgoing
settled (handle_next os) d = with_first settled_line d.lines d
settled _ d = []

abbrev pub restored : Action → Driver → List Outgoing
restored (handle_next os) d = with_first restored_line d.lines d
restored _ d = []

-- What a sequence of steps does so, in all.
abbrev pub over : (Action → Driver → List Outgoing) → List Action → Driver → List Outgoing
over f [] d = []
over f (a ∷ rest) d = f a d ++ over f rest (perform a d)

boot-SameCore : (b : Boot) (d : Driver) → SameCore d (start_driver b d).1
unfolding start_driver
boot-SameCore b d = ground arith

request-SameCore :
    (limit : ℕ) (r : HistoryRequest) (d : Driver) → SameCore d (request_history limit r d).1
unfolding request_history
request-SameCore limit r d = ground arith

read_line-SameCore : (line : Option Line) (d : Driver) → SameCore d (read_line line d)
unfolding read_line
read_line-SameCore line d = ground arith

write-SameCore : (d : Driver) → SameCore d (write d)
unfolding write
write-SameCore d = ground arith

ask-SameCore : (d : Driver) → SameCore d (next_history d)
unfolding next_history
ask-SameCore d = ground arith

Lines-cases :
    (xs : List (Option Line))
    → (xs ≡ []) ⊎ ((x : Option Line) × (rest : List (Option Line)) × (xs ≡ x ∷ rest))
Lines-cases [] = inl refl
Lines-cases (x ∷ rest) = inr (x, rest, refl)

next_line_lem :
    (os : Os) (line : Option Line) (rest : List (Option Line)) (d : Driver)
    → d.lines ≡ line ∷ rest
    → next_line os d ≡ handle os line (record d { lines = rest })
unfolding next_line
next_line_lem os line rest d e = ground arith

next_line_empty : (os : Os) (d : Driver) → d.lines ≡ [] → next_line os d ≡ d
unfolding next_line
next_line_empty os d e = ground arith

stop-SameCore : (d : Driver) → SameCore d (record d { stopping = true })
stop-SameCore d = ground arith

closed-SameCore : (d : Driver) → SameCore d (record d { closed = true })
closed-SameCore d = ground arith

with_first_lem :
    (f : Option Line → Driver → List Outgoing) (line : Option Line)
    (rest lines : List (Option Line)) (d : Driver)
    → lines ≡ line ∷ rest
    → with_first f lines d ≡ f line d
with_first_lem f line rest lines d e = rw e refl

with_first_empty :
    (f : Option Line → Driver → List Outgoing) (lines : List (Option Line)) (d : Driver)
    → lines ≡ []
    → with_first f lines d ≡ []
with_first_empty f lines d e = rw e refl

next_line-Keeps :
    (p : Outgoing → Bool) (os : Os) (d : Driver)
    → IsSound d
    → Keeps p (settled (handle_next os) d) (restored (handle_next os) d) d (next_line os d)
next_line-Keeps p os d h = elim (Lines-cases d.lines) [
  | inl quiet ↦
      rw
        (
          next_line_empty os d quiet,
          with_first_empty settled_line d.lines d quiet,
          with_first_empty restored_line d.lines d quiet,
        )
        (same-Keeps p (SameCore-refl d) h)
  | inr (line, rest, first) ↦
      let d' = record d { lines = rest } in
      let sound : IsSound d' = record { unique = h.unique; below = h.below; tied = h.tied } in
      let k = handle-Keeps p os line d' sound in
      let e = ap (tally p) (with_first_lem settled_line line rest d.lines d first) in
      let f = ap (tally p) (with_first_lem restored_line line rest d.lines d first) in
      let e' = ap (tally p) (settled_line-lines line rest d) in
      let f' = ap (tally p) (restored_line-lines line rest d) in
      rw (next_line_lem os line rest d first)
        (record { sound = k.sound; balance = omega (arith, k.balance, e, f, e', f') })
]

perform-Keeps :
    (p : Outgoing → Bool) (a : Action) (d : Driver)
    → IsSound d
    → Keeps p (settled a d) (accepted a d ++ restored a d) d (perform a d)
unfolding perform
perform-Keeps p (boot b) d h = same-Keeps p (boot-SameCore b d) h
perform-Keeps p (give msg) d h = rw append_nil (send-Keeps p msg d h)
perform-Keeps p (request limit r) d h = same-Keeps p (request-SameCore limit r d) h
perform-Keeps p stop_asked d h = same-Keeps p (stop-SameCore d) h
perform-Keeps p closed d h = same-Keeps p (closed-SameCore d) h
perform-Keeps p (arrive line) d h = same-Keeps p (read_line-SameCore line d) h
perform-Keeps p write_next d h = same-Keeps p (write-SameCore d) h
perform-Keeps p ask_next d h = same-Keeps p (ask-SameCore d) h
perform-Keeps p send_next d h = next_send-Keeps p d h
perform-Keeps p (handle_next os) d h = next_line-Keeps p os d h

record Balanced (p : Outgoing → Bool) (actions : List Action) (d : Driver) : Type 0 where
  sound : IsSound (perform_all actions d)
  balance :
      weigh p (perform_all actions d) + tally p (over settled actions d)
      ≡ weigh p d + (tally p (over accepted actions d) + tally p (over restored actions d))

perform_all-Balanced :
    (p : Outgoing → Bool) (actions : List Action) (d : Driver) → IsSound d → Balanced p actions d
unfolding perform_all
perform_all-Balanced p [] d h = record { sound = h; balance = omega arith }
perform_all-Balanced p (a ∷ rest) d h =
    let k = perform-Keeps p a d h in
    let b = perform_all-Balanced p rest (perform a d) k.sound in
    let d' = perform a d in
    record {
      sound = b.sound;
      balance = omega (
        arith,
        k.balance,
        b.balance,
        tally-append p (accepted a d) (restored a d),
        tally-append p (settled a d) (over settled rest d'),
        tally-append p (accepted a d) (over accepted rest d'),
        tally-append p (restored a d) (over restored rest d'),
      );
    }

-- The interrupt whose prompt is not answered yet.
abbrev pub doubled : Phase → Outgoing → List Outgoing
doubled prompting msg = msg ∷ []
doubled _ msg = []

map-messages : (xs : List (ℕ × Outgoing)) → map (λ (entry : ℕ × Outgoing). entry.1) xs ≡ messages xs
map-messages [] = refl
map-messages ((id, msg) ∷ xs) = rw (map-messages xs) refl

once_or_twice :
    (p : Outgoing → Bool) (phase : Phase) (msg : Outgoing)
    → tally p (if is_no_phase phase then [] else msg ∷ [])
      ≡ tally p (carried phase msg) + tally p (doubled phase msg)
once_or_twice p no_phase msg = refl
once_or_twice p clearing msg = omega arith
once_or_twice p aborting msg = omega arith
once_or_twice p prompting msg = omega arith

tally-remaining :
    (p : Outgoing → Bool) (d : Driver)
    → tally p (remaining d) ≡ weigh p d + tally p (doubled d.interrupt_phase d.interrupt_msg)
unfolding remaining
tally-remaining p d =
    let rest = if is_no_phase d.interrupt_phase then [] else d.interrupt_msg ∷ [] in
    rw (map-messages d.pending) (
      omega (
        arith,
        once_or_twice p d.interrupt_phase d.interrupt_msg,
        tally-append p d.outgoing (messages d.pending ++ rest),
        tally-append p (messages d.pending) rest,
      ))

-- Whatever the callers, pi and the goroutines do from a new driver, in any order, the messages that
-- would be reported as undelivered are, in number for every test of messages, those that were accepted
-- and the texts that came back from pi's queue and were made messages again, less those that were
-- settled by an answer that does not put them back (to a prompt, or as the refusal of an interrupt),
-- except that an interrupt whose prompt waits for its answer would be reported twice.
pub perform_all-remaining :
    (p : Outgoing → Bool) (actions : List Action)
    → let d = perform_all actions new_driver in
      tally p (remaining d) + tally p (over settled actions new_driver)
      ≡ (tally p (over accepted actions new_driver) + tally p (over restored actions new_driver))
        + tally p (doubled d.interrupt_phase d.interrupt_msg)
perform_all-remaining p actions =
    let b =
      perform_all-Balanced p actions new_driver (record { unique = tt; below = tt; tied = tt }) in
    omega (arith, b.balance, tally-remaining p (perform_all actions new_driver))
