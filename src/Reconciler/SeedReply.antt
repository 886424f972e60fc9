-- ===== src/Reconciler/SeedReply.antt =====
-- internal/machinectl/api.go: what `HTTPAPI.Seed` makes of the server's reply.
use ac_cli.Prelude.{
  String, ◌≡◌, refl, Bool, true, false, not, ◌||◌, Option, none, some, List, [], ◌∷◌, ◌++◌, arith,
  ◌==◌, ◌!=◌, if◌then◌else◌, string_eq, All, eq_iff, ◌≢◌, inl, inr, Bool-cases, Option-cases,
}
use ac_cli.Reconciler.Seeding.{holds}

-- A row of the reply.
pub record Row : Type 0 where
  pub agent_id : String
  pub status : String
  pub reason : String

pub data SeedError : Type 0 where
  bad_id unexpected_id : String → SeedError
  not_seeded : List Row → SeedError

-- A requested ID that is empty or a duplicate.
unfoldable pub find_bad_id : List String → List String → Option String
find_bad_id seen [] = none
find_bad_id seen (id ∷ ids) =
    let rest = find_bad_id (id ∷ seen) ids in if id == "" || holds id seen then some id else rest

pub data Rows : Type 0 where
  unexpected : String → Rows
  rows : List String → List Row → Rows

unfoldable pub read_rows : List String → List String → List Row → List Row → Rows
read_rows requested seen failures [] = rows seen failures
read_rows requested seen failures (r ∷ rs) =
    let rest =
      read_rows requested (r.agent_id ∷ seen)
        (if r.status != "seeded" then failures ++ r ∷ [] else failures) rs in
    if not (holds r.agent_id requested) || holds r.agent_id seen
    then unexpected r.agent_id
    else rest

abbrev missing : String → Row
missing id = record { agent_id = id; status = "missing result"; reason = "" }

unfoldable pub find_missing : List String → List String → List Row
find_missing seen [] = []
find_missing seen (id ∷ ids) =
    let rest = find_missing seen ids in if not (holds id seen) then missing id ∷ rest else rest

abbrev verdict : List Row → Option SeedError
verdict [] = none
verdict (r ∷ rs) = some (not_seeded (r ∷ rs))

abbrev close_rows : List String → Rows → Option SeedError
close_rows requested (unexpected id) = some (unexpected_id id)
close_rows requested (rows seen failures) = verdict (failures ++ find_missing seen requested)

-- HTTPAPI.Seed, for the IDs that were sent and the rows of the reply.
unfoldable pub check_reply : List String → List Row → Option SeedError
check_reply requested reply = elim (find_bad_id [] requested) [
  | some id ↦ some (bad_id id)
  | none ↦ close_rows requested (read_rows requested [] [] reply)
]

-- No two rows are about one agent.
abbrev pub IsDistinct : List String → List Row → Type 0
IsDistinct seen [] = Unit {0}
IsDistinct seen (r ∷ rs) = (holds r.agent_id seen ≡ false) × IsDistinct (r.agent_id ∷ seen) rs

abbrev pub seen_after : List String → List Row → List String
seen_after seen [] = seen
seen_after seen (r ∷ rs) = seen_after (r.agent_id ∷ seen) rs

abbrev Seeded : List String → Row → Type 0
Seeded requested r = (r.status ≡ "seeded") × (holds r.agent_id requested ≡ true)

nil_left : (xs ys : List Row) → xs ++ ys ≡ [] → (xs ≡ []) × (ys ≡ [])
nil_left [] ys h = (refl, h)
nil_left (x ∷ xs) ys h = ground arith

abbrev failures_with : List Row → Row → List Row
failures_with failures r = if r.status != "seeded" then failures ++ r ∷ [] else failures

failures_with_nil :
    (failures : List Row) (r : Row)
    → failures_with failures r ≡ []
    → (failures ≡ []) × (r.status ≡ "seeded")
failures_with_nil [] r h = ground (arith, eq_iff r.status "seeded")
failures_with_nil (f ∷ fs) r h = ground arith

verdict_nil : (xs : List Row) → verdict xs ≡ none → xs ≡ []
verdict_nil [] h = refl
verdict_nil (x ∷ xs) h = ground arith

not_none : {e : SeedError} → Option.some e ≢ none
not_none h = ground arith

or_false : (a b : Bool) → (not a || b) ≡ false → (a ≡ true) × (b ≡ false)
or_false a b h = ground arith

missing_lem :
    (seen ids : List String) → find_missing seen ids ≡ [] → All (λ id. holds id seen ≡ true) ids
unfolding find_missing
missing_lem seen [] h = tt
missing_lem seen (id ∷ ids) h = ground (arith, missing_lem seen ids)

read_rows_lem :
    (requested seen : List String) (failures rs : List Row)
    → close_rows requested (read_rows requested seen failures rs) ≡ none
    → (failures ≡ [])
      × All (Seeded requested) rs
      × IsDistinct seen rs
      × (find_missing (seen_after seen rs) requested ≡ [])
unfolding read_rows
read_rows_lem requested seen failures [] h =
    let (none_before, none_missing) = nil_left failures _ (verdict_nil _ h) in
    (none_before, tt, tt, none_missing)
read_rows_lem requested seen failures (r ∷ rs) h =
    elim (Bool-cases (not (holds r.agent_id requested) || holds r.agent_id seen)) [
      | inl bad ↦ absurd (not_none (rw (bad, read_rows) at h))
      | inr good ↦
          let next =
            read_rows_lem requested (r.agent_id ∷ seen) (failures_with failures r) rs
              (rw (good, read_rows) at h) in
          let (clean, seeded) = failures_with_nil failures r next.0 in
          let (asked, unseen) = or_false _ _ good in
          (clean, ((seeded, asked), next.1), (unseen, next.2), next.3)
    ]

-- A reply is taken as a success only if every row is about an agent that was asked for and says
-- "seeded", no two rows are about one agent, and every agent that was asked for has a row.
pub check_reply_sound :
    (requested : List String) (reply : List Row)
    → check_reply requested reply ≡ none
    → All (λ r. (r.status ≡ "seeded") × (holds r.agent_id requested ≡ true)) reply
      × IsDistinct [] reply
      × All (λ id. holds id (seen_after [] reply) ≡ true) requested
unfolding check_reply
check_reply_sound requested reply h = elim (Option-cases (find_bad_id [] requested)) [
  | inr (id, bad) ↦ absurd (not_none (rw (bad, check_reply) at h))
  | inl good ↦
      let (_, seeded, distinct, found) =
        read_rows_lem requested [] [] reply (rw (good, check_reply) at h) in
      (seeded, distinct, missing_lem (seen_after [] reply) requested found)
]
