-- ===== src/PiDriver/Ledger/Answers.antt =====
-- What one line of pi does to the messages.
use ac_cli.Prelude.{
  ℕ, ◌≡◌, refl, ap, Bool, true, false, not, ◌&&◌, Option, none, some, List, [], map, arith, ◌==◌,
  nat_eq, string_eq, nat_beq_iff, if◌then◌else◌, Bool-cases, Option-cases, inl, inr,
}
use ac_cli.Supervisor.Delivery.{Outgoing}
use ac_cli.PiDriver.Types.{Line, Driver, find_id, is_no_phase, succeeded}
use ac_cli.PiDriver.Interrupts.{as_regular, advance_phase, advance_interrupt}
use ac_cli.PiDriver.Handle.{
  Os, answers_interrupt, answer_rest, answer_refused, answer_history, answer, handle_line, handle,
  answer_prompt, answer_state,
}
use ac_cli.PiDriver.Ledger.Ids.{tally}
use ac_cli.PiDriver.Ledger.Steps.{
  Advanced, given_up, taken_back, advance_phase-Advanced, answer_refused-Keeps,
}
use ac_cli.PiDriver.Ledger.Books.{
  IsSound, Keeps, SameCore-refl, SameCore-trans, then_same-Keeps, same-Keeps, settled_prompt,
  answer_prompt-Keeps, answer_history-SameCore, answer_state-SameCore, observe-SameCore,
}

-- A response: what it settles, and what is taken back from pi's queue.
abbrev pub settled_at : ℕ → Line → Driver → List Outgoing
settled_at id v d =
    if answers_interrupt id d && not (succeeded v) then given_up v d else settled_prompt id v d

abbrev pub restored_at : ℕ → Line → Driver → List Outgoing
restored_at id v d =
    if not (answers_interrupt id d)
    then []
    else if succeeded v
    then taken_back d.interrupt_phase d.restore
    else map as_regular d.restore

answer_rest-Keeps :
    (p : Outgoing → Bool) (os : Os) (id : ℕ) (v : Line) (d : Driver)
    → IsSound d
    → answers_interrupt id d ≡ false
    → Keeps p (settled_prompt id v d) [] d (answer_rest os id v d)
unfolding answer_rest
answer_rest-Keeps p os id v d h e =
    then_same-Keeps p (settled_prompt id v d) [] (answer_prompt-Keeps p id v d h e) (
      SameCore-trans (answer_state-SameCore os v (answer_prompt id v d))
        (observe-SameCore os v (answer_state os v (answer_prompt id v d))))

answers_interrupt_id : (id : ℕ) (d : Driver) → answers_interrupt id d ≡ true → id ≡ d.interrupt_id
answers_interrupt_id id d e = ground (arith, nat_beq_iff id d.interrupt_id)

answers_interrupt_phase :
    (id : ℕ) (d : Driver) → answers_interrupt id d ≡ true → is_no_phase d.interrupt_phase ≡ false
answers_interrupt_phase id d e = ground arith

-- `answer`, after the history.
answered : Os → ℕ → Line → Driver → Driver
answered os id v d =
    if answers_interrupt id d
    then if succeeded v
      then answer_rest os id v (advance_interrupt os.now v d)
      else answer_refused os id v d
    else answer_rest os id v d

settled_prompt-same :
    (id : ℕ) (v : Line) (d d' : Driver)
    → find_id id d'.pending ≡ find_id id d.pending
    → settled_prompt id v d' ≡ settled_prompt id v d
settled_prompt-same id v d d' e = rw e refl

answered_good :
    (p : Outgoing → Bool) (os : Os) (v : Line) (d d' : Driver)
    → Advanced p d d'
    → Keeps p
        (settled_prompt d.interrupt_id v d)
        (taken_back d.interrupt_phase d.restore)
        d
        (answer_rest os d.interrupt_id v d')
answered_good p os v d d' a =
    let k = a.keeps in
    let r = answer_rest-Keeps p os d.interrupt_id v d' k.sound a.other in
    let e = ap (tally p) (settled_prompt-same d.interrupt_id v d d' a.same) in
    record { sound = r.sound; balance = omega (arith, r.balance, k.balance, e) }

advance_good :
    (now : ℕ) (v : Line) (d : Driver)
    → succeeded v ≡ true
    → advance_interrupt now v d ≡ advance_phase d.interrupt_phase v d
unfolding advance_interrupt
advance_good now v d e = rw e refl

answered-Keeps :
    (p : Outgoing → Bool) (os : Os) (id : ℕ) (v : Line) (d : Driver)
    → IsSound d
    → Keeps p (settled_at id v d) (restored_at id v d) d (answered os id v d)
unfolding answered
answered-Keeps p os id v d h = elim (Bool-cases (answers_interrupt id d)) [
  | inr other ↦ rw other (answer_rest-Keeps p os id v d h other)
  | inl its ↦
      let same = answers_interrupt_id id d its in
      let phase = answers_interrupt_phase id d its in
      elim (Bool-cases (succeeded v)) [
        | inl good ↦
            rw (its, good, same, advance_good os.now v d good)
              (answered_good p os v d _
                (advance_phase-Advanced p d.interrupt_phase v d h refl phase))
        | inr bad ↦ rw (its, bad, same) (answer_refused-Keeps p os v d h phase bad)
      ]
]

answer_lem :
    (os : Os) (id : ℕ) (v : Line) (d : Driver)
    → answer os id v d ≡ answered os id v (answer_history id v d)
unfolding answer answered
answer_lem os id v d = refl

-- What one line settles, and what it brings back.
abbrev pub settled_line : Option Line → Driver → List Outgoing
settled_line none d = []
settled_line (some v) d = elim v.id [
  | none ↦ []
  | some id ↦ if v.kind == "response" then settled_at id v d else []
]

abbrev pub restored_line : Option Line → Driver → List Outgoing
restored_line none d = []
restored_line (some v) d = elim v.id [
  | none ↦ []
  | some id ↦ if v.kind == "response" then restored_at id v d else []
]

-- The part of the history reads and writes none of it.
history_settled :
    (id : ℕ) (v : Line) (d : Driver)
    → (settled_at id v (answer_history id v d) ≡ settled_at id v d)
      × (restored_at id v (answer_history id v d) ≡ restored_at id v d)
history_settled id v d =
    let s = answer_history-SameCore id v d in
    let e = s.same_pending in
    let f = s.same_id in
    let g = s.same_phase in
    let m = s.same_msg in let r = s.same_restore in (rw (e, f, g, m) refl, rw (f, g, r) refl)

answer-Keeps :
    (p : Outgoing → Bool) (os : Os) (id : ℕ) (v : Line) (d : Driver)
    → IsSound d
    → Keeps p (settled_at id v d) (restored_at id v d) d (answer os id v d)
answer-Keeps p os id v d h =
    let d' = answer_history id v d in
    let j = same-Keeps p (answer_history-SameCore id v d) h in
    let k = answered-Keeps p os id v d' j.sound in
    let e = ap (tally p) (history_settled id v d).0 in
    let f = ap (tally p) (history_settled id v d).1 in
    rw (answer_lem os id v d)
      (record { sound = k.sound; balance = omega (arith, k.balance, j.balance, e, f) })

pub handle-Keeps :
    (p : Outgoing → Bool) (os : Os) (line : Option Line) (d : Driver)
    → IsSound d
    → Keeps p (settled_line line d) (restored_line line d) d (handle os line d)
unfolding handle handle_line
handle-Keeps p os none d h = same-Keeps p (SameCore-refl d) h
handle-Keeps p os (some v) d h = elim (Option-cases v.id) [
  | inl absent ↦ rw (absent, handle_line) (same-Keeps p (observe-SameCore os v d) h)
  | inr (id, found) ↦ elim (Bool-cases (v.kind == "response")) [
    | inl its ↦ rw (found, its, handle_line) (answer-Keeps p os id v d h)
    | inr other ↦ rw (found, other, handle_line) (same-Keeps p (observe-SameCore os v d) h)
  ]
]
