-- ===== src/Supervisor/Attached/Signals.antt =====
-- Signals to a session that does not listen.
use ac_cli.Prelude.{
  ℕ, zero, suc, ◌-◌, ◌≤◌, ◌≡◌, refl, sym, ap, ◌∙◌, List, [], ◌∷◌, ◌++◌, arith, length, drop,
  length-append, length-drop, nat_eq, nat_beq_iff, Bool-cases, inl, inr, leb, leb→le, ◌==◌,
  if◌then◌else◌, ◌≢◌,
}
use ac_cli.Supervisor.Types.{Signal, Managed}
use ac_cli.Supervisor.Attached.{send_attached_signal, subscribe_signals}

-- The signals that are sent one after another.
pub send_all : Managed → List Signal → Managed
send_all a [] = a
send_all a (s ∷ rest) = send_all (send_attached_signal a s) rest

drop-append {ℓ} :
    {A : Type ℓ} (n : ℕ) (xs ys : List A) → n ≤ length xs → drop n (xs ++ ys) ≡ drop n xs ++ ys
drop-append zero xs ys h = refl
drop-append (suc n) [] ys h = ground arith
drop-append (suc n) (x ∷ xs) ys h = drop-append n xs ys (omega (arith, h))

drop-drop {ℓ} : {A : Type ℓ} (n : ℕ) (xs : List A) → drop 1 (drop n xs) ≡ drop (suc n) xs
drop-drop zero xs = refl
drop-drop (suc n) [] = refl
drop-drop (suc n) (x ∷ xs) = drop-drop n xs

append_assoc {ℓ} :
    {A : Type ℓ} (xs : List A) (y : A) (zs : List A) → (xs ++ y ∷ []) ++ zs ≡ xs ++ y ∷ zs
append_assoc [] y zs = refl
append_assoc (x ∷ xs) y zs = ap (λ t. x ∷ t) (append_assoc xs y zs)

append_nil {ℓ} : {A : Type ℓ} (xs : List A) → xs ++ [] ≡ xs
append_nil [] = refl
append_nil (x ∷ xs) = ap (λ t. x ∷ t) (append_nil xs)

-- The last 32.
abbrev pub recent : List Signal → List Signal
recent all = drop (length all - 32) all

trim : List Signal → List Signal
trim xs = if length xs == 32 then drop 1 xs else xs

full_trim : (xs : List Signal) → length xs ≡ 32 → trim xs ≡ drop 1 xs
unfolding trim
full_trim xs h = ground (arith, nat_beq_iff (length xs) 32)

short_trim : (xs : List Signal) → length xs ≢ 32 → trim xs ≡ xs
unfolding trim
short_trim xs h = ground (arith, nat_beq_iff (length xs) 32)

trim-recent : (all : List Signal) → trim (recent all) ≡ drop (suc (length all) - 32) all
trim-recent all =
    let size = length-drop (length all - 32) all in
    elim (Bool-cases (leb 32 (length all))) [
      | inl long ↦
          let n = leb→le 32 (length all) long in
          let next : suc (length all) - 32 ≡ suc (length all - 32) = omega (arith, n) in
          rw (full_trim (recent all) (omega (arith, size, n)))
            (rw next (drop-drop (length all - 32) all))
      | inr short ↦
          let same : suc (length all) - 32 ≡ length all - 32 = ground arith in
          rw (short_trim (recent all) (ground (arith, size))) (rw same refl)
    ]

recent-append :
    (all : List Signal) (s : Signal) → trim (recent all) ++ s ∷ [] ≡ recent (all ++ s ∷ [])
recent-append all s =
    let n : length (all ++ s ∷ []) ≡ suc (length all) = omega (arith, length-append all (s ∷ [])) in
    rw (trim-recent all)
      (rw n (sym (drop-append (suc (length all) - 32) all (s ∷ []) (omega arith))))

send_lem :
    (a : Managed) (s : Signal)
    → a.signal_listeners ≡ 0
    → ((send_attached_signal a s).signal_listeners ≡ 0)
      × ((send_attached_signal a s).pending_signals ≡ trim a.pending_signals ++ s ∷ [])
unfolding send_attached_signal trim
send_lem a s h = ground arith

send_all-recent :
    (a : Managed) (all ss : List Signal)
    → a.signal_listeners ≡ 0
    → a.pending_signals ≡ recent all
    → (send_all a ss).pending_signals ≡ recent (all ++ ss)
unfolding send_all
send_all-recent a all [] idle kept = rw (append_nil all) kept
send_all-recent a all (s ∷ ss) idle kept =
    let (idle', kept') = send_lem a s idle in
    rw (sym (append_assoc all s ss)) (
      send_all-recent (send_attached_signal a s) (all ++ s ∷ []) ss idle'
        (kept' ∙ ap (λ t. trim t ++ s ∷ []) kept ∙ recent-append all s))

-- Where nobody listens and no signal is kept, the next listener is sent exactly the last 32 of the
-- signals sent meanwhile, all of them if there were fewer, in the order of sending; then none is kept.
pub subscribe-send_all :
    (a : Managed) (ss : List Signal)
    → a.signal_listeners ≡ 0
    → a.pending_signals ≡ []
    → ((subscribe_signals (send_all a ss)).0 ≡ recent ss)
      × ((subscribe_signals (send_all a ss)).1.pending_signals ≡ [])
unfolding subscribe_signals
subscribe-send_all a ss idle none_kept = (send_all-recent a [] ss idle none_kept, refl)
