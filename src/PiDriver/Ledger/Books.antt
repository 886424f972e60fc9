-- ===== src/PiDriver/Ledger/Books.antt =====
-- The messages that the driver answers for, and what each call does to them.
use ac_cli.Prelude.{
  ℕ, ◌+◌, ◌≤◌, ◌≡◌, refl, ◌∙◌, Bool, false, not, ◌&&◌, none, some, List, [], ◌∷◌, ◌++◌, arith, ◌==◌,
  nat_eq, string_eq, if◌then◌else◌, Bool-cases, Option-cases, inl, inr,
}
use ac_cli.Supervisor.Delivery.{Outgoing}
use ac_cli.PiDriver.Types.{
  Line, Phase, no_phase, clearing, aborting, prompting, Driver, RpcEvent, find_id, remove_id,
  is_no_phase, has_failed, mentions_compact,
}
use ac_cli.PiDriver.Commands.{send, emit}
use ac_cli.PiDriver.Handle.{
  Os, answer_history, answers_interrupt, answer_prompt, answer_state, compaction, dialog,
  stamp_event, follow, observe,
}
use ac_cli.PiDriver.Ledger.Ids.{
  Pending, tally, tally-append, messages, one, IsUnique, IsBelow, find-remove, remove-IsUnique,
  remove-IsBelow, IsBelow-le, tally-remove,
}

-- The number of the interrupt's last command, while the interrupt runs: its prompt waits for an answer
-- like any other, its other commands wait under no number.
abbrev pub Tied : Phase → ℕ → Outgoing → Pending → ℕ → Type 0
Tied no_phase id msg xs n = Unit {0}
Tied clearing id msg xs n = (find_id id xs ≡ none) × (id ≤ n)
Tied aborting id msg xs n = (find_id id xs ≡ none) × (id ≤ n)
Tied prompting id msg xs n = find_id id xs ≡ some msg

pub record IsSound (d : Driver) : Type 0 where
  pub unique : IsUnique d.pending
  pub below : IsBelow d.seq d.pending
  pub tied : Tied d.interrupt_phase d.interrupt_id d.interrupt_msg d.pending d.seq

-- The interrupt, until its prompt is sent.
abbrev pub carried : Phase → Outgoing → List Outgoing
carried no_phase msg = []
carried clearing msg = msg ∷ []
carried aborting msg = msg ∷ []
carried prompting msg = []

-- The messages that wait to be sent, that were sent and not answered, and the interrupt.
abbrev pub weigh : (Outgoing → Bool) → Driver → ℕ
weigh p d =
    tally p d.outgoing
    + (tally p (messages d.pending) + tally p (carried d.interrupt_phase d.interrupt_msg))

-- The step from `d` to `d'` gave up the messages of `gone` and took on those of `new`.
pub record Keeps (p : Outgoing → Bool) (gone new : List Outgoing) (d d' : Driver) : Type 0 where
  pub sound : IsSound d'
  pub balance : weigh p d' + tally p gone ≡ weigh p d + tally p new

-- A step that is not about messages.
pub record SameCore (d d' : Driver) : Type 0 where
  pub same_outgoing : d'.outgoing ≡ d.outgoing
  pub same_pending : d'.pending ≡ d.pending
  pub same_id : d'.interrupt_id ≡ d.interrupt_id
  pub same_phase : d'.interrupt_phase ≡ d.interrupt_phase
  pub same_msg : d'.interrupt_msg ≡ d.interrupt_msg
  pub same_restore : d'.restore ≡ d.restore
  pub more : d.seq ≤ d'.seq

pub SameCore-refl : (d : Driver) → SameCore d d
SameCore-refl d = ground arith

pub SameCore-trans : {d e f : Driver} → SameCore d e → SameCore e f → SameCore d f
SameCore-trans s t = record {
  same_outgoing = t.same_outgoing ∙ s.same_outgoing;
  same_pending = t.same_pending ∙ s.same_pending;
  same_id = t.same_id ∙ s.same_id;
  same_phase = t.same_phase ∙ s.same_phase;
  same_msg = t.same_msg ∙ s.same_msg;
  same_restore = t.same_restore ∙ s.same_restore;
  more = omega arith;
}

pub emit-SameCore : (e : RpcEvent) (d : Driver) → SameCore d (emit e d)
unfolding emit
emit-SameCore e d = ground arith

compaction-SameCore : (v : Line) (d : Driver) → SameCore d (compaction v d)
unfolding compaction
compaction-SameCore v d = ground arith

dialog-SameCore : (v : Line) (d : Driver) → SameCore d (dialog v d)
unfolding dialog
dialog-SameCore v d = ground arith

follow-SameCore : (v : Line) (d : Driver) → SameCore d (follow v d)
unfolding follow
follow-SameCore v d = ground arith

pub answer_history-SameCore : (id : ℕ) (v : Line) (d : Driver) → SameCore d (answer_history id v d)
unfolding answer_history
answer_history-SameCore id v d = ground arith

pub answer_state-SameCore : (os : Os) (v : Line) (d : Driver) → SameCore d (answer_state os v d)
unfolding answer_state
answer_state-SameCore os v d = ground arith

stamp_event-SameCore : (os : Os) (d : Driver) → SameCore d (stamp_event os d)
unfolding stamp_event
stamp_event-SameCore os d = ground arith

pub observe-SameCore : (os : Os) (v : Line) (d : Driver) → SameCore d (observe os v d)
unfolding observe
observe-SameCore os v d = SameCore-trans (compaction-SameCore v d) (
    SameCore-trans (dialog-SameCore v (compaction v d)) (
      SameCore-trans (stamp_event-SameCore os (dialog v (compaction v d))) (
        SameCore-trans (follow-SameCore v (stamp_event os (dialog v (compaction v d))))
          (emit-SameCore _ (follow v (stamp_event os (dialog v (compaction v d))))))))

pub Tied-le :
    (phase : Phase) (id n k : ℕ) (msg : Outgoing) (xs : Pending)
    → n ≤ k
    → Tied phase id msg xs n
    → Tied phase id msg xs k
Tied-le no_phase id n k msg xs h t = tt
Tied-le clearing id n k msg xs h t = (t.0, omega arith)
Tied-le aborting id n k msg xs h t = (t.0, omega arith)
Tied-le prompting id n k msg xs h t = t

-- A step that is not about messages gives up and takes on nothing.
pub same-Keeps :
    {d d' : Driver} (p : Outgoing → Bool) → SameCore d d' → IsSound d → Keeps p [] [] d d'
same-Keeps {d} {d'} p s h = record {
  sound = record {
    unique = rw s.same_pending h.unique;
    below = rw s.same_pending (IsBelow-le _ _ _ s.more h.below);
    tied =
        rw (s.same_phase, s.same_id, s.same_msg, s.same_pending)
          (Tied-le d.interrupt_phase _ _ _ _ _ s.more h.tied);
  };
  balance = rw (s.same_outgoing, s.same_pending, s.same_phase, s.same_msg) refl;
}

pub Keeps-trans :
    {d e f : Driver} (p : Outgoing → Bool) (gone new gone' new' : List Outgoing)
    → Keeps p gone new d e
    → Keeps p gone' new' e f
    → Keeps p (gone ++ gone') (new ++ new') d f
Keeps-trans p gone new gone' new' k l = record {
  sound = l.sound;
  balance = omega (arith, k.balance, l.balance, tally-append p gone gone', tally-append p new new');
}

pub then_same-Keeps :
    {d e f : Driver} (p : Outgoing → Bool) (gone new : List Outgoing)
    → Keeps p gone new d e
    → SameCore e f
    → Keeps p gone new d f
then_same-Keeps p gone new k s =
    let l = same-Keeps p s k.sound in
    record { sound = l.sound; balance = omega (arith, k.balance, l.balance) }

pub send-Keeps :
    (p : Outgoing → Bool) (msg : Outgoing) (d : Driver)
    → IsSound d
    → Keeps p [] (if (send msg d).0 then msg ∷ [] else []) d (send msg d).1
unfolding send
send-Keeps p msg d h = record {
  sound = ground arith;
  balance = ground (arith, tally-append p d.outgoing (msg ∷ []));
}

-- The message that an answer settles.
abbrev pub settled_prompt : ℕ → Line → Driver → List Outgoing
settled_prompt id v d =
    if has_failed v && mentions_compact v.error then [] else one (find_id id d.pending)

Tied-remove :
    (phase : Phase) (id other n : ℕ) (msg : Outgoing) (xs : Pending)
    → (not (is_no_phase phase) && id == other) ≡ false
    → Tied phase other msg xs n
    → Tied phase other msg (remove_id id xs) n
Tied-remove no_phase id other n msg xs e t = tt
Tied-remove clearing id other n msg xs e t = (find-remove id other xs ∙ (rw (e, t.0) refl), t.1)
Tied-remove aborting id other n msg xs e t = (find-remove id other xs ∙ (rw (e, t.0) refl), t.1)
Tied-remove prompting id other n msg xs e t = find-remove id other xs ∙ (rw (e, t) refl)

remove-IsSound :
    (id : ℕ) (d : Driver)
    → IsSound d
    → answers_interrupt id d ≡ false
    → IsSound (record d { pending = remove_id id d.pending })
remove-IsSound id d h e = record {
  unique = remove-IsUnique id d.pending h.unique;
  below = remove-IsBelow d.seq id d.pending h.below;
  tied = Tied-remove d.interrupt_phase id d.interrupt_id d.seq d.interrupt_msg d.pending e h.tied;
}

pub answer_prompt-Keeps :
    (p : Outgoing → Bool) (id : ℕ) (v : Line) (d : Driver)
    → IsSound d
    → answers_interrupt id d ≡ false
    → Keeps p (settled_prompt id v d) [] d (answer_prompt id v d)
unfolding answer_prompt
answer_prompt-Keeps p id v d h e = elim (Option-cases (find_id id d.pending)) [
  | inl absent ↦ rw (absent, answer_prompt) (record { sound = h; balance = ground arith })
  | inr (msg, found) ↦
      let r = remove-IsSound id d h e in
      let split : tally p (messages d.pending)
          ≡ tally p (msg ∷ []) + tally p (messages (remove_id id d.pending)) =
        tally-remove p id d.pending h.unique ∙ (rw found refl) in
      elim (Bool-cases (has_failed v && mentions_compact v.error)) [
        | inl back ↦
            rw (found, back, answer_prompt)
              (record {
                sound = record { unique = r.unique; below = r.below; tied = r.tied };
                balance = omega (arith, split);
              })
        | inr done ↦
            rw (found, done, answer_prompt) (record { sound = r; balance = omega (arith, split) })
      ]
]
