-- ===== src/Supervisor/Feed/Once.antt =====
-- The loop over a feed (`poll`): what it adds to the spool and to the delivered messages, and its errors.
use ac_cli.Prelude.{
  ◌-◌, String, ◌≡◌, ◌≢◌, refl, sym, ap, ◌∙◌, ◌⊎◌, inl, inr, Bool, false, Option, none, some, List,
  [], ◌∷◌, ◌++◌, arith, ◌==◌, string_eq, length, any, Bool-cases, Option-cases, eq_iff,
}
use mathlib.Core.List.{append-nil as append_nil}
use ac_cli.Supervisor.Feed.{
  Io, Append, synced, unsynced, torn, lost, Piece, whole, part, Inbox, Error, not_fetched,
  not_appended, spooled, keep_recent, is_delivered, record_delivered, receive_new, receive,
  receive_all,
}
use ac_cli.Supervisor.Feed.Known.{recent, IsIn, recent-append, IsIn-last, IsIn-drop}
use ac_cli.Supervisor.Feed.Growing.{LeftOver, Grows, unmoved, failed_call, step_Grows}

-- A call that adds its message.
module _ (io : Io) (id : String) (before : List String) (b : Inbox) where
  added_one :
      (e : Option Error) (b' : Inbox)
      → b.delivered ≡ recent before
      → any (λ j. j == id) (recent before) ≡ false
      → b'.spool ≡ b.spool ++ whole id ∷ []
      → b'.delivered ≡ keep_recent (b.delivered ++ id ∷ [])
      → Grows before (id ∷ []) b e b'
  added_one e b' knows new spool delivered = record {
    added = id ∷ [];
    rest = [];
    spool = spool;
    fresh = (new, tt);
    left = inl refl;
    knows = delivered ∙ ap (λ ids. keep_recent (ids ++ id ∷ [])) knows ∙ recent-append before id;
    complete = λ h. (IsIn-last id before, tt);
  }

  record_delivered-Grows :
      b.delivered ≡ recent before
      → any (λ j. j == id) (recent before) ≡ false
      → let r = record_delivered io id (spooled (whole id) b) in Grows before (id ∷ []) b r.0.0 r.1
  unfolding record_delivered
  record_delivered-Grows knows new = elim (Bool-cases (io.recorded id)) [
    | inr failed ↦ rw (failed, record_delivered) (added_one _ _ knows new refl refl)
    | inl done ↦ rw (done, record_delivered) (added_one _ _ knows new refl refl)
  ]

  -- A call that fails before the message is added.
  failed_one :
      (f : Error) (rest : List Piece) (b' : Inbox)
      → b'.spool ≡ b.spool ++ rest
      → b'.delivered ≡ recent before
      → LeftOver (some f) before rest
      → Grows before (id ∷ []) b (some f) b'
  failed_one f rest b' spool knows left =
      unmoved before (id ∷ []) rest b b' (some f) spool knows left (λ h. absurd (failed_call f h))

  receive_new-Grows :
      b.delivered ≡ recent before
      → any (λ j. j == id) (recent before) ≡ false
      → Grows before (id ∷ []) b (receive_new io id b).0.0 (receive_new io id b).1
  unfolding receive_new
  receive_new-Grows knows new = elim (Bool-cases (io.fetched id)) [
    | inr gone ↦
        rw (gone, receive_new)
          (failed_one not_fetched [] b (sym (append_nil b.spool)) knows (inl refl))
    | inl here ↦ rw (here, receive_new) (appending (io.appended id))
  ]
    where
      appending :
          (a : Append)
          → (let r : (Option Error × Bool) × Inbox = elim a [
            | lost ↦ ((some not_appended, false), b)
            | torn ↦ ((some not_appended, false), spooled (part id) b)
            | unsynced ↦ ((some not_appended, false), spooled (whole id) b)
            | synced ↦ record_delivered io id (spooled (whole id) b)
          ] in
              Grows before (id ∷ []) b r.0.0 r.1)
      appending lost = failed_one not_appended [] b (sym (append_nil b.spool)) knows (inl refl)
      appending torn =
          failed_one not_appended (part id ∷ []) _ refl knows (inr (refl, id, new, inr refl))
      appending unsynced =
          failed_one not_appended (whole id ∷ []) _ refl knows (inr (refl, id, new, inl refl))
      appending synced = record_delivered-Grows knows new

  receive-Grows :
      b.delivered ≡ recent before
      → Grows before (id ∷ []) b (receive io id b).0.0 (receive io id b).1
  unfolding receive
  receive-Grows knows = elim (Bool-cases (is_delivered id b)) [
    | inl old ↦
        rw (old, receive)
          (unmoved before (id ∷ []) [] b b none (sym (append_nil b.spool)) knows (inl refl)
            (λ h. (IsIn-drop id (length before - 500) before (rw knows at old), tt)))
    | inr new ↦ rw (new, receive) (receive_new-Grows knows (rw knows at new))
  ]

-- A call or a write for the message fails.
abbrev pub Fails : Io → String → Type 0
Fails io id = (io.fetched id ≡ false) ⊎ ((io.appended id ≢ synced) ⊎ (io.recorded id ≡ false))

receive-Fails : (io : Io) (id : String) (b : Inbox) → ((receive io id b).0.0 ≡ none) ⊎ Fails io id
unfolding receive receive_new record_delivered
receive-Fails io id b = elim (Bool-cases (is_delivered id b)) [
  | inl old ↦ rw (old, receive) (inl refl)
  | inr new ↦ elim (Bool-cases (io.fetched id)) [
    | inr gone ↦ inr (inl gone)
    | inl here ↦ elim (Bool-cases (io.recorded id)) [
      | inr failed ↦ inr (inr (inr failed))
      | inl done ↦ elim (append_cases (io.appended id)) [
        | inr other ↦ inr (inr (inl other))
        | inl written ↦ rw (new, here, written, done, receive) (inl refl)
      ]
    ]
  ]
]
  where
    append_cases : (a : Append) → (a ≡ synced) ⊎ (a ≢ synced)
    append_cases synced = inl refl
    append_cases unsynced = inr (λ h. ground arith)
    append_cases torn = inr (λ h. ground arith)
    append_cases lost = inr (λ h. ground arith)

-- There is an error only where something failed for a message of the feed.
receive_all-Fails :
    (io : Io) (ids : List String) (b : Inbox)
    → ((receive_all io ids b).0 ≡ none) ⊎ ((id : String) × IsIn id ids × Fails io id)
unfolding receive_all
receive_all-Fails io [] b = inl refl
receive_all-Fails io (id ∷ ids) b = elim (Option-cases (receive io id b).0.0) [
  | inl going ↦ elim (receive_all-Fails io ids (receive io id b).1) [
    | inl fine ↦ rw (going, receive_all) (inl fine)
    | inr (j, inside, why) ↦ inr (j, ground (arith, inside), why)
  ]
  | inr (e, ends) ↦ elim (receive-Fails io id b) [
    | inl fine ↦ absurd (failed_call e (sym ends ∙ fine))
    | inr why ↦ inr (id, ground (arith, eq_iff id id), why)
  ]
]

receive_all-added :
    (io : Io) (ids before : List String) (b : Inbox)
    → b.delivered ≡ recent before
    → Grows before ids b (receive_all io ids b).0 (receive_all io ids b).2
unfolding receive_all
receive_all-added io [] before b knows =
    unmoved before [] [] b b none (sym (append_nil b.spool)) knows (inl refl) (λ h. tt)
receive_all-added io (id ∷ ids) before b knows =
    let first = receive-Grows io id before b knows in
    let next = (receive io id b).1 in
    step_Grows before ids id (receive io id b).0.1 b next (receive io id b).0.0
      (receive_all io ids next) first
      (receive_all-added io ids (before ++ first.added) next first.knows)

-- Over a whole feed, however the writes and the calls of the poller end and whatever order and
-- repetitions the feed has, where the agent knows the last 500 of the messages of `before`: the lines of
-- some messages are added to the spool, each not among the last 500 before it, and behind them, only if
-- an append failed, at most the line or a part of the line of a message, which is not among the last
-- 500 either. The agent knows exactly the last 500 with the added ones; if there was no error, each
-- message of the feed was there before or is among the added ones; and there is an error only where a
-- call or a write failed for a message of the feed.
pub receive_all-Grows :
    (io : Io) (ids before : List String) (b : Inbox)
    → b.delivered ≡ recent before
    → let r = receive_all io ids b in
      Grows before ids b r.0 r.2 × ((r.0 ≡ none) ⊎ ((id : String) × IsIn id ids × Fails io id))
receive_all-Grows io ids before b knows =
    (receive_all-added io ids before b knows, receive_all-Fails io ids b)
