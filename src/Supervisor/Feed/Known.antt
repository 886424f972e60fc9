-- ===== src/Supervisor/Feed/Known.antt =====
-- The last 500 of some messages, which an agent knows, and whether a message is among some.
use ac_cli.Prelude.{
  ℕ, zero, suc, ◌+◌, ◌-◌, ◌≤◌, String, ◌≡◌, refl, sym, ap, ◌∙◌, ◌⊎◌, inl, inr, Bool, true, false,
  ◌||◌, List, [], ◌∷◌, ◌++◌, arith, ltb, ◌==◌, string_eq, eq_iff, length, drop, any, All,
  length-append, length-drop, Bool-cases,
}
use ac_cli.Supervisor.Feed.{keep_recent}

-- The last 500 of some messages.
abbrev pub recent : List String → List String
recent ids = drop (length ids - 500) ids

-- The message is one of these.
abbrev pub IsIn : String → List String → Type 0
IsIn id ids = any (λ j. j == id) ids ≡ true

drop_nil : (n : ℕ) → drop {A = String} n [] ≡ []
drop_nil zero = refl
drop_nil (suc n) = refl

drop-drop : (j k : ℕ) (xs : List String) → drop k (drop j xs) ≡ drop (j + k) xs
drop-drop zero k xs = ap (λ (n : ℕ). drop n xs) (omega arith)
drop-drop (suc j) k [] = drop_nil k ∙ sym (drop_nil (suc j + k))
drop-drop (suc j) k (x ∷ xs) =
    let next : suc j + k ≡ suc (j + k) = omega arith in rw next (drop-drop j k xs)

drop-append : (n : ℕ) (xs ys : List String) → n ≤ length xs → drop n (xs ++ ys) ≡ drop n xs ++ ys
drop-append zero xs ys h = refl
drop-append (suc n) [] ys h = ground arith
drop-append (suc n) (x ∷ xs) ys h = drop-append n xs ys (omega (arith, h))

keep_recent_lem : (ids : List String) → keep_recent ids ≡ recent ids
unfolding keep_recent
keep_recent_lem ids = elim (Bool-cases (ltb 500 (length ids))) [
  | inl long ↦ rw long refl
  | inr short ↦ let none_over : length ids - 500 ≡ 0 = ground arith in rw short (rw none_over refl)
]

pub recent-append :
    (all : List String) (id : String)
    → keep_recent (recent all ++ id ∷ []) ≡ recent (all ++ id ∷ [])
recent-append all id =
    let k = length all - 500 in
    let whole = all ++ id ∷ [] in
    let size : length whole ≡ length all + 1 = length-append all (id ∷ []) in
    let window : recent all ++ id ∷ [] ≡ drop k whole =
      sym (drop-append k all (id ∷ []) (omega arith)) in
    let left = length-drop k whole in
    let same : k + (length (drop k whole) - 500) ≡ length whole - 500 = omega (arith, left, size) in
    rw window (
      keep_recent_lem (drop k whole)
      ∙ drop-drop k (length (drop k whole) - 500) whole
      ∙ ap (λ (n : ℕ). drop n whole) same)

or_false : (x y : Bool) → (x || y) ≡ true → (x ≡ true) ⊎ (y ≡ true)
or_false true y h = inl refl
or_false false y h = inr h

pub IsIn-append : (id : String) (xs ys : List String) → IsIn id xs → IsIn id (xs ++ ys)
IsIn-append id [] ys h = ground arith
IsIn-append id (x ∷ xs) ys h = elim (or_false (x == id) (any (λ j. j == id) xs) h) [
  | inl here ↦ rw here refl
  | inr there ↦ ground (arith, IsIn-append id xs ys there)
]

pub IsIn-last : (id : String) (xs : List String) → IsIn id (xs ++ id ∷ [])
IsIn-last id [] = ground (arith, eq_iff id id)
IsIn-last id (x ∷ xs) = ground (arith, IsIn-last id xs)

pub IsIn-drop : (id : String) (n : ℕ) (xs : List String) → IsIn id (drop n xs) → IsIn id xs
IsIn-drop id zero xs h = h
IsIn-drop id (suc n) [] h = h
IsIn-drop id (suc n) (x ∷ xs) h = ground (arith, IsIn-drop id n xs h)

pub All-IsIn-append :
    (xs ys ids : List String) → All (λ id. IsIn id xs) ids → All (λ id. IsIn id (xs ++ ys)) ids
All-IsIn-append xs ys [] h = tt
All-IsIn-append xs ys (id ∷ ids) h = (IsIn-append id xs ys h.0, All-IsIn-append xs ys ids h.1)
