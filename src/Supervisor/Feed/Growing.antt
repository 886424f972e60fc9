-- ===== src/Supervisor/Feed/Growing.antt =====
-- What a call of the feed's loop does to an inbox, and how two of them go together.
use ac_cli.Prelude.{
  String, ◌≡◌, ◌≢◌, refl, ap, ◌∙◌, ◌⊎◌, inl, inr, Bool, false, Option, none, some, List, [], ◌∷◌,
  ◌++◌, map, arith, ◌==◌, string_eq, any, All, if◌then◌else◌,
}
use mathlib.Core.List.{append-nil as append_nil, append_assoc, map-append}
use ac_cli.Supervisor.Feed.{Piece, whole, part, Inbox, Error, not_appended}
use ac_cli.Supervisor.Feed.Known.{recent, IsIn, IsIn-append}

-- Messages that come after those of `before`, each of which is not among the last 500 before it.
abbrev pub Fresh : List String → List String → Type 0
Fresh before [] = Unit {0}
Fresh before (id ∷ ids) =
    (any (λ j. j == id) (recent before) ≡ false) × Fresh (before ++ id ∷ []) ids

-- What is in the spool behind the added messages: nothing, or, where the call ended because an append
-- failed, at most the line or a part of the line of that message.
abbrev pub LeftOver : Option Error → List String → List Piece → Type 0
LeftOver e known rest =
    (rest ≡ [])
    ⊎ ((e ≡ some not_appended)
        × (id : String) × (any (λ j. j == id) (recent known) ≡ false)
        × ((rest ≡ whole id ∷ []) ⊎ (rest ≡ part id ∷ [])))

-- What a call did about the messages `ids`, where those of `before` were appended before.
pub record Grows (before ids : List String) (b : Inbox) (e : Option Error) (b' : Inbox)
    : Type 0 where
  pub added : List String
  pub rest : List Piece
  pub spool : b'.spool ≡ b.spool ++ (map whole added ++ rest)
  pub fresh : Fresh before added
  pub left : LeftOver e (before ++ added) rest
  pub knows : b'.delivered ≡ recent (before ++ added)
  pub complete : e ≡ none → All (λ id. IsIn id (before ++ added)) ids

none_left : (known : List String) (rest : List Piece) → LeftOver none known rest → rest ≡ []
none_left known rest (inl e) = e
none_left known rest (inr (e, id, new, what)) = ground arith

-- A call that adds nothing to the messages that are known.
pub unmoved :
    (before ids : List String) (rest : List Piece) (b b' : Inbox) (e : Option Error)
    → b'.spool ≡ b.spool ++ rest
    → b'.delivered ≡ recent before
    → LeftOver e before rest
    → (e ≡ none → All (λ id. IsIn id before) ids)
    → Grows before ids b e b'
unmoved before ids rest b b' e spool knows left complete = record {
  added = [];
  rest = rest;
  spool = spool;
  fresh = tt;
  left = rw (append_nil before) left;
  knows = rw (append_nil before) knows;
  complete = rw (append_nil before) complete;
}

pub failed_call : (f : Error) → (let e : Option Error = some f in e ≢ none)
failed_call f h = ground arith

Fresh-append :
    (before ids more : List String)
    → Fresh before ids
    → Fresh (before ++ ids) more
    → Fresh before (ids ++ more)
Fresh-append before [] more f g = rw (← append_nil before) g
Fresh-append before (id ∷ ids) more f g =
    (f.0, Fresh-append (before ++ id ∷ []) ids more f.1 (rw (append_assoc before (id ∷ []) ids) g))

-- A call without an error, and the calls after it.
Grows-trans :
    (before ids : List String) (id : String) (b b' b'' : Inbox) (e : Option Error)
    (first : Grows before (id ∷ []) b none b')
    → Grows (before ++ first.added) ids b' e b''
    → Grows before (id ∷ ids) b e b''
Grows-trans before ids id b b' b'' e first later =
    let all = append_assoc before first.added later.added in
    record {
      added = first.added ++ later.added;
      rest = later.rest;
      spool =
          later.spool
          ∙ ap (λ s. s ++ (map whole later.added ++ later.rest))
              (first.spool
                ∙ ap (λ r. b.spool ++ (map whole first.added ++ r))
                    (none_left (before ++ first.added) first.rest first.left))
          ∙ simp (append_assoc, append_nil, map-append);
      fresh = Fresh-append before first.added later.added first.fresh later.fresh;
      left = rw all at later.left;
      knows = later.knows ∙ ap recent all;
      complete = λ h. (
        rw all at (IsIn-append id (before ++ first.added) later.added (first.complete refl).0),
        rw all at (later.complete h),
      );
    }

-- A step of the loop: the first error ends it.
pub step_Grows :
    (before ids : List String) (id : String) (now : Bool) (b b' : Inbox) (e : Option Error)
    (r : Option Error × List String × Inbox) (first : Grows before (id ∷ []) b e b')
    → Grows (before ++ first.added) ids b' r.0 r.2
    → (let out : Option Error × List String × Inbox = elim e [
      | some f ↦ (some f, [], b')
      | none ↦ (r.0, if now then id ∷ r.1 else r.1, r.2)
    ] in
        Grows before (id ∷ ids) b out.0 out.2)
step_Grows before ids id now b b' none r first later =
    Grows-trans before ids id b b' r.2 r.0 first later
step_Grows before ids id now b b' (some f) r first later = record {
  added = first.added;
  rest = first.rest;
  spool = first.spool;
  fresh = first.fresh;
  left = first.left;
  knows = first.knows;
  complete = λ h. absurd (failed_call f h);
}
