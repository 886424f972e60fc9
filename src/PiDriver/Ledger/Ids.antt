-- ===== src/PiDriver/Ledger/Ids.antt =====
-- Laws of the maps from numbers to messages, whose numbers are new when they are added.
use ac_cli.Prelude.{
  ℕ, ◌+◌, ◌≤◌, ◌<◌, ◌≡◌, refl, ◌∙◌, Bool, false, Option, none, some, List, [], ◌∷◌, ◌++◌, arith,
  ◌==◌, nat_eq, nat_beq_iff, if◌then◌else◌, Bool-cases, inl, inr,
}
use ac_cli.Supervisor.Delivery.{Outgoing}
use ac_cli.PiDriver.Types.{find_id, remove_id}

abbrev pub Pending : Type 0
Pending = List (ℕ × Outgoing)

-- How many messages of a list pass a test.
abbrev pub tally : (Outgoing → Bool) → List Outgoing → ℕ
tally p [] = 0
tally p (msg ∷ rest) = (if p msg then 1 else 0) + tally p rest

pub tally-append :
    (p : Outgoing → Bool) (xs ys : List Outgoing) → tally p (xs ++ ys) ≡ tally p xs + tally p ys
tally-append p [] ys = omega arith
tally-append p (x ∷ xs) ys = omega (arith, tally-append p xs ys)

abbrev pub messages : Pending → List Outgoing
messages [] = []
messages ((id, msg) ∷ rest) = msg ∷ messages rest

abbrev pub one : Option Outgoing → List Outgoing
one none = []
one (some msg) = msg ∷ []

-- No number stands twice.
abbrev pub IsUnique : Pending → Type 0
IsUnique [] = Unit {0}
IsUnique ((id, msg) ∷ rest) = (find_id id rest ≡ none) × IsUnique rest

abbrev pub IsBelow : ℕ → Pending → Type 0
IsBelow n [] = Unit {0}
IsBelow n ((id, msg) ∷ rest) = (id ≤ n) × IsBelow n rest

pub messages-append : (xs ys : Pending) → messages (xs ++ ys) ≡ messages xs ++ messages ys
messages-append [] ys = refl
messages-append ((i, m) ∷ xs) ys = rw (messages-append xs ys)

pub find-remove :
    (i j : ℕ) (xs : Pending) → find_id j (remove_id i xs) ≡ (if i == j then none else find_id j xs)
unfolding find_id remove_id
find-remove i j [] = ground (arith, nat_beq_iff i j)
find-remove i j ((k, m) ∷ xs) =
    ground (arith, nat_beq_iff i j, nat_beq_iff i k, nat_beq_iff j k, find-remove i j xs)

pub find-append :
    (i j : ℕ) (m : Outgoing) (xs : Pending)
    → find_id j xs ≡ none
    → find_id j (xs ++ (i, m) ∷ []) ≡ (if j == i then some m else none)
unfolding find_id
find-append i j m [] h = refl
find-append i j m ((k, n) ∷ xs) h = ground (arith, nat_beq_iff j k, find-append i j m xs)

pub find-append_some :
    (i j : ℕ) (m n : Outgoing) (xs : Pending)
    → find_id j xs ≡ some n
    → find_id j (xs ++ (i, m) ∷ []) ≡ some n
unfolding find_id
find-append_some i j m n [] h = absurd (cc)
find-append_some i j m n ((k, o) ∷ xs) h =
    ground (arith, nat_beq_iff j k, find-append_some i j m n xs)

pub find_above : (n j : ℕ) (xs : Pending) → IsBelow n xs → n < j → find_id j xs ≡ none
unfolding find_id
find_above n j [] b h = refl
find_above n j ((k, m) ∷ xs) b h = ground (arith, nat_beq_iff j k, find_above n j xs)

pub remove_none : (i : ℕ) (xs : Pending) → find_id i xs ≡ none → remove_id i xs ≡ xs
unfolding find_id remove_id
remove_none i [] h = refl
remove_none i ((k, m) ∷ xs) h = ground (arith, nat_beq_iff i k, remove_none i xs)

pub remove-IsUnique : (i : ℕ) (xs : Pending) → IsUnique xs → IsUnique (remove_id i xs)
unfolding remove_id
remove-IsUnique i [] u = tt
remove-IsUnique i ((k, m) ∷ xs) u = elim (Bool-cases (i == k)) [
  | inl e ↦ rw e (remove-IsUnique i xs u.1)
  | inr e ↦ rw e ((rw (find-remove i k xs, e) u.0), remove-IsUnique i xs u.1)
]

pub remove-IsBelow : (n i : ℕ) (xs : Pending) → IsBelow n xs → IsBelow n (remove_id i xs)
unfolding remove_id
remove-IsBelow n i [] b = tt
remove-IsBelow n i ((k, m) ∷ xs) b = elim (Bool-cases (i == k)) [
  | inl e ↦ rw e (remove-IsBelow n i xs b.1)
  | inr e ↦ rw e (b.0, remove-IsBelow n i xs b.1)
]

pub IsBelow-le : (n k : ℕ) (xs : Pending) → n ≤ k → IsBelow n xs → IsBelow k xs
IsBelow-le n k [] h b = tt
IsBelow-le n k ((i, m) ∷ xs) h b = (omega arith, IsBelow-le n k xs h b.1)

pub append-IsBelow :
    (n i : ℕ) (m : Outgoing) (xs : Pending) → i ≤ n → IsBelow n xs → IsBelow n (xs ++ (i, m) ∷ [])
append-IsBelow n i m [] h b = (h, tt)
append-IsBelow n i m ((k, o) ∷ xs) h b = (b.0, append-IsBelow n i m xs h b.1)

pub append-IsUnique :
    (n i : ℕ) (m : Outgoing) (xs : Pending)
    → n < i
    → IsBelow n xs
    → IsUnique xs
    → IsUnique (xs ++ (i, m) ∷ [])
unfolding find_id
append-IsUnique n i m [] h b u = (refl, tt)
append-IsUnique n i m ((k, o) ∷ xs) h b u =
    let e : (k == i) ≡ false = ground (arith, nat_beq_iff k i) in
    (find-append i k m xs u.0 ∙ rw e refl, append-IsUnique n i m xs h b.1 u.1)

-- What is removed and what is left make up the whole.
pub tally-remove :
    (p : Outgoing → Bool) (i : ℕ) (xs : Pending)
    → IsUnique xs
    → tally p (messages xs) ≡ tally p (one (find_id i xs)) + tally p (messages (remove_id i xs))
unfolding find_id remove_id
tally-remove p i [] u = omega arith
tally-remove p i ((k, m) ∷ xs) u = elim (Bool-cases (i == k)) [
  | inl e ↦
      let same : i ≡ k = (nat_beq_iff i k).0 e in
      rw (e, remove_none i xs (rw same u.0)) (omega arith)
  | inr e ↦ rw e (omega (arith, tally-remove p i xs u.1))
]
