-- ===== src/PiDriver/Ledger/Steps.antt =====
-- What the steps of an interrupt, a whole line and a sent message do to the messages.
use ac_cli.Prelude.{
  ℕ, ◌+◌, ◌≤◌, ◌≡◌, refl, ap, ◌∙◌, Bool, true, false, none, List, [], ◌∷◌, ◌++◌, map, String, arith,
  ◌==◌, nat_eq, string_eq, nat_beq_iff, if◌then◌else◌, Bool-cases, inl, inr, ◌⊎◌, beq_self,
}
use ac_cli.Supervisor.Delivery.{Outgoing}
use ac_cli.PiDriver.Types.{
  Line, Phase, no_phase, clearing, aborting, prompting, Driver, find_id, remove_id, is_no_phase,
  succeeded, mentions_compact,
}
use ac_cli.PiDriver.Commands.{
  dispatch_prompt, dispatch_interrupt, dispatch, is_interrupt, is_urgent,
}
use ac_cli.PiDriver.Interrupts.{
  as_regular, give_up, cleared, aborted, prompted, advance_phase, advance_interrupt,
}
use ac_cli.PiDriver.Handle.{Os, answers_interrupt, answer_refused}
use ac_cli.PiDriver.Run.{next_send, may_send, next_send_empty, next_send_held, next_send_first}
use ac_cli.PiDriver.Ledger.Ids.{
  Pending, tally, tally-append, messages, messages-append, IsUnique, IsBelow, find-append,
  find_above, remove-IsUnique, remove-IsBelow, IsBelow-le, tally-remove, remove_none,
  append-IsUnique, append-IsBelow,
}
use ac_cli.PiDriver.Ledger.Books.{Tied, IsSound, carried, Keeps, SameCore-refl, same-Keeps}

-- A prompt goes out: the message, which waited, now waits for its answer.
dispatch_prompt-Keeps :
    (p : Outgoing → Bool) (steers : Bool) (msg : Outgoing) (d : Driver)
    → IsSound d
    → d.interrupt_phase ≡ no_phase
    → Keeps p [] (msg ∷ []) d (dispatch_prompt steers msg d)
unfolding dispatch_prompt
dispatch_prompt-Keeps p steers msg d h e =
    let id = d.seq + 1 in
    let list = d.pending ++ (id, msg) ∷ [] in
    let below : IsBelow id list =
      append-IsBelow id id msg d.pending (omega arith)
        (IsBelow-le d.seq id d.pending (omega arith) h.below) in
    let unique : IsUnique list =
      append-IsUnique d.seq id msg d.pending (omega arith) h.below h.unique in
    record {
      sound = record { unique = unique; below = below; tied = rw e tt };
      balance =
          rw (messages-append d.pending ((id, msg) ∷ []))
            (omega (arith, tally-append p (messages d.pending) (msg ∷ [])));
    }

dispatch_interrupt-Keeps :
    (p : Outgoing → Bool) (msg : Outgoing) (d : Driver)
    → IsSound d
    → d.interrupt_phase ≡ no_phase
    → Keeps p [] (msg ∷ []) d (dispatch_interrupt msg d)
unfolding dispatch_interrupt
dispatch_interrupt-Keeps p msg d h e =
    let id = d.seq + 1 in
    record {
      sound = record {
        unique = h.unique;
        below = IsBelow-le d.seq id d.pending (omega arith) h.below;
        tied = (find_above d.seq id d.pending h.below (omega arith), omega arith);
      };
      balance = rw e (omega arith);
    }

dispatch-Keeps :
    (p : Outgoing → Bool) (msg : Outgoing) (d : Driver)
    → IsSound d
    → d.interrupt_phase ≡ no_phase
    → Keeps p [] (msg ∷ []) d (dispatch msg d)
unfolding dispatch
dispatch-Keeps p msg d h e = elim (Bool-cases (is_interrupt msg)) [
  | inl i ↦ rw i (dispatch_interrupt-Keeps p msg d h e)
  | inr r ↦ rw r (dispatch_prompt-Keeps p (is_urgent msg) msg d h e)
]

pub List-cases :
    (xs : List Outgoing) → (xs ≡ []) ⊎ ((x : Outgoing) × (rest : List Outgoing) × (xs ≡ x ∷ rest))
List-cases [] = inl refl
List-cases (x ∷ rest) = inr (x, rest, refl)

is_no_phase_lem : (phase : Phase) → is_no_phase phase ≡ true → phase ≡ no_phase
is_no_phase_lem no_phase e = refl
is_no_phase_lem clearing e = absurd (cc)
is_no_phase_lem aborting e = absurd (cc)
is_no_phase_lem prompting e = absurd (cc)

may_send_phase : (d : Driver) → may_send d ≡ true → is_no_phase d.interrupt_phase ≡ true
may_send_phase d e = ground arith

pub next_send-Keeps : (p : Outgoing → Bool) (d : Driver) → IsSound d → Keeps p [] [] d (next_send d)
next_send-Keeps p d h = elim (List-cases d.outgoing) [
  | inl none_left ↦ rw (next_send_empty d none_left) (same-Keeps p (SameCore-refl d) h)
  | inr (msg, rest, waiting) ↦ elim (Bool-cases (may_send d)) [
    | inl free ↦
        let d' = record d { outgoing = rest } in
        let sound : IsSound d' = record { unique = h.unique; below = h.below; tied = h.tied } in
        let k =
          dispatch-Keeps p msg d' sound
            (is_no_phase_lem d.interrupt_phase (may_send_phase d free)) in
        let size : tally p d.outgoing ≡ tally p (msg ∷ rest) = ap (tally p) waiting in
        rw (next_send_first d msg rest waiting free)
          (record { sound = k.sound; balance = omega (arith, k.balance, size) })
    | inr held ↦ rw (next_send_held d held) (same-Keeps p (SameCore-refl d) h)
  ]
]

-- The texts that the end of an interrupt turns into messages again.
abbrev pub taken_back : Phase → List String → List Outgoing
taken_back prompting texts = map as_regular texts
taken_back _ texts = []

pub record Advanced (p : Outgoing → Bool) (d d' : Driver) : Type 0 where
  pub keeps : Keeps p [] (taken_back d.interrupt_phase d.restore) d d'
  pub other : answers_interrupt d.interrupt_id d' ≡ false
  pub same : find_id d.interrupt_id d'.pending ≡ find_id d.interrupt_id d.pending

differs : (i n : ℕ) → i ≤ n → (i == n + 1) ≡ false
differs i n h = ground (arith, nat_beq_iff i (n + 1))

cleared-Advanced :
    (p : Outgoing → Bool) (v : Line) (d : Driver)
    → IsSound d
    → d.interrupt_phase ≡ clearing
    → d.interrupt_id ≤ d.seq
    → Advanced p d (cleared v d)
unfolding cleared
cleared-Advanced p v d h e le =
    let id = d.seq + 1 in
    record {
      keeps = record {
        sound = record {
          unique = h.unique;
          below = IsBelow-le d.seq id d.pending (omega arith) h.below;
          tied = (find_above d.seq id d.pending h.below (omega arith), omega arith);
        };
        balance = rw e (omega arith);
      };
      other = differs d.interrupt_id d.seq le;
      same = refl;
    }

aborted-Advanced :
    (p : Outgoing → Bool) (d : Driver)
    → IsSound d
    → d.interrupt_phase ≡ aborting
    → d.interrupt_id ≤ d.seq
    → find_id d.interrupt_id d.pending ≡ none
    → Advanced p d (aborted d)
unfolding aborted
aborted-Advanced p d h e le absent =
    let id = d.seq + 1 in
    let msg = d.interrupt_msg in
    let free = find_above d.seq id d.pending h.below (omega arith) in
    record {
      keeps = record {
        sound = record {
          unique = append-IsUnique d.seq id msg d.pending (omega arith) h.below h.unique;
          below =
              append-IsBelow id id msg d.pending (omega arith)
                (IsBelow-le d.seq id d.pending (omega arith) h.below);
          tied = find-append id id msg d.pending free ∙ rw (beq_self id) refl;
        };
        balance =
            rw (e, messages-append d.pending ((id, msg) ∷ []))
              (omega (arith, tally-append p (messages d.pending) (msg ∷ [])));
      };
      other = differs d.interrupt_id d.seq le;
      same =
          find-append id d.interrupt_id msg d.pending absent
          ∙ rw (differs d.interrupt_id d.seq le, absent) refl;
    }

prompted-Advanced :
    (p : Outgoing → Bool) (d : Driver)
    → IsSound d
    → d.interrupt_phase ≡ prompting
    → Advanced p d (prompted d)
unfolding prompted
prompted-Advanced p d h e = record {
  keeps = record {
    sound = record { unique = h.unique; below = h.below; tied = tt };
    balance = rw e (omega (arith, tally-append p (map as_regular d.restore) d.outgoing));
  };
  other = refl;
  same = refl;
}

phase-Tied :
    (phase : Phase) (d : Driver)
    → IsSound d
    → d.interrupt_phase ≡ phase
    → Tied phase d.interrupt_id d.interrupt_msg d.pending d.seq
phase-Tied phase d h e = rw (← e) h.tied

pub advance_phase-Advanced :
    (p : Outgoing → Bool) (phase : Phase) (v : Line) (d : Driver)
    → IsSound d
    → d.interrupt_phase ≡ phase
    → is_no_phase phase ≡ false
    → Advanced p d (advance_phase phase v d)
unfolding advance_phase
advance_phase-Advanced p no_phase v d h e w = absurd (cc)
advance_phase-Advanced p clearing v d h e w =
    cleared-Advanced p v d h e (phase-Tied clearing d h e).1
advance_phase-Advanced p aborting v d h e w =
    let tied = phase-Tied aborting d h e in aborted-Advanced p d h e tied.1 tied.0
advance_phase-Advanced p prompting v d h e w = prompted-Advanced p d h e

-- What a refused step of an interrupt gives up: nothing if pi is compacting, else the interrupt.
abbrev pub given_up : Line → Driver → List Outgoing
given_up v d = if mentions_compact v.error then [] else d.interrupt_msg ∷ []

-- The messages of the pending prompts and the interrupt, without the interrupt.
carried-remove :
    (p : Outgoing → Bool) (phase : Phase) (id n : ℕ) (msg : Outgoing) (xs : Pending)
    → is_no_phase phase ≡ false
    → IsUnique xs
    → Tied phase id msg xs n
    → tally p (messages xs) + tally p (carried phase msg)
      ≡ tally p (messages (remove_id id xs)) + tally p (msg ∷ [])
carried-remove p no_phase id n msg xs w u t = absurd (cc)
carried-remove p clearing id n msg xs w u t = rw (remove_none id xs t.0) refl
carried-remove p aborting id n msg xs w u t = rw (remove_none id xs t.0) refl
carried-remove p prompting id n msg xs w u t =
    let split : tally p (messages xs) ≡ tally p (msg ∷ []) + tally p (messages (remove_id id xs)) =
      tally-remove p id xs u ∙ (rw t refl) in
    omega (arith, split)

refused_pending :
    (d d' : Driver)
    → IsSound d
    → d'.pending ≡ remove_id d.interrupt_id d.pending
    → d'.seq ≡ d.seq
    → d'.interrupt_phase ≡ no_phase
    → IsSound d'
refused_pending d d' h e f g = record {
  unique = rw e (remove-IsUnique d.interrupt_id d.pending h.unique);
  below = rw (e, f) (remove-IsBelow d.seq d.interrupt_id d.pending h.below);
  tied = rw g tt;
}

pub answer_refused-Keeps :
    (p : Outgoing → Bool) (os : Os) (v : Line) (d : Driver)
    → IsSound d
    → is_no_phase d.interrupt_phase ≡ false
    → succeeded v ≡ false
    → Keeps p (given_up v d) (map as_regular d.restore) d (answer_refused os d.interrupt_id v d)
unfolding answer_refused advance_interrupt give_up
answer_refused-Keeps p os v d h w f =
    let split =
      carried-remove p d.interrupt_phase d.interrupt_id d.seq d.interrupt_msg d.pending w h.unique
        h.tied in
    let texts = tally-append p (map as_regular d.restore) d.outgoing in
    elim (Bool-cases (mentions_compact v.error)) [
      | inl compact ↦
          rw (f, compact)
            (record {
              sound = refused_pending d _ h refl refl refl;
              balance = omega (arith, split, texts);
            })
      | inr other ↦
          rw (f, other)
            (record {
              sound = refused_pending d _ h refl refl refl;
              balance = omega (arith, split, texts);
            })
    ]
