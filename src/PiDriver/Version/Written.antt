-- ===== src/PiDriver/Version/Written.antt =====
-- Which versions of pi the test of `Start` lets through.
use ac_cli.Prelude.{
  ℕ, ◌≡◌, refl, ◌∙◌, true, false, none, some, List, [], ◌∷◌, ◌++◌, arith, nat_eq, All,
}
use ac_cli.PiDriver.Version.{
  digits, number, is_nil, some_digits, part, Version, match_here, find_version, serves, too_old,
  is_old, validate_version, AtLeast, IsBefore, IsDigit, NotDigit, StopsDigits,
}

digits_none : (rest : List ℕ) → StopsDigits rest → digits rest ≡ ([], rest)
unfolding digits
digits_none [] h = refl
digits_none (c ∷ rest) h = rw h refl

digits_run :
    (run rest : List ℕ) → All IsDigit run → StopsDigits rest → digits (run ++ rest) ≡ (run, rest)
unfolding digits
digits_run [] rest h k = digits_none rest k
digits_run (c ∷ run) rest h k = rw (h.0, digits_run run rest h.1 k) refl

some_digits_run :
    (run rest : List ℕ)
    → All IsDigit run
    → is_nil run ≡ false
    → StopsDigits rest
    → some_digits (run ++ rest) ≡ some (run, rest)
unfolding some_digits
some_digits_run run rest h w k = rw (digits_run run rest h k) (rw w refl)

part_run :
    (run rest : List ℕ)
    → All IsDigit run
    → is_nil run ≡ false
    → part (run ++ b'.' ∷ rest) ≡ some (run, rest)
unfolding part
part_run run rest h w = rw (some_digits_run run (b'.' ∷ rest) h w refl, part) refl

part-none : (c : ℕ) (text : List ℕ) → NotDigit c → part (c ∷ text) ≡ none
unfolding part
part-none c text h = rw (h, part) refl

-- A version number within a text: before it there is no digit, and no digit follows at once.
pub record Written (before a b c after : List ℕ) : Type 0 where
  pub before_it : All NotDigit before
  pub major_digits : All IsDigit a
  pub minor_digits : All IsDigit b
  pub patch_digits : All IsDigit c
  pub has_major : is_nil a ≡ false
  pub has_minor : is_nil b ≡ false
  pub has_patch : is_nil c ≡ false
  pub after_it : StopsDigits after

abbrev pub version_text : List ℕ → List ℕ → List ℕ → List ℕ → List ℕ
version_text a b c after = a ++ b'.' ∷ (b ++ b'.' ∷ (c ++ after))

match-Written :
    (before a b c after : List ℕ)
    → Written before a b c after
    → match_here (version_text a b c after) ≡ some (record { major = a; minor = b; patch = c })
unfolding match_here
match-Written before a b c after w =
    rw (part_run a (b ++ b'.' ∷ (c ++ after)) w.major_digits w.has_major, match_here)
      (rw (part_run b (c ++ after) w.minor_digits w.has_minor, match_here)
        (rw (some_digits_run c after w.patch_digits w.has_patch w.after_it, match_here) refl))

find_here : (text : List ℕ) (v : Version) → match_here text ≡ some v → find_version text ≡ some v
unfolding find_version
find_here [] v h = absurd (cc)
find_here (c ∷ text) v h = rw (h, find_version) refl

find_later :
    (before text : List ℕ) → All NotDigit before → find_version (before ++ text) ≡ find_version text
unfolding find_version match_here
find_later [] text h = refl
find_later (c ∷ before) text h =
    rw (part-none c (before ++ text) h.0, find_version) (find_later before text h.1)

find-Written :
    (before a b c after : List ℕ)
    → Written before a b c after
    → find_version (before ++ version_text a b c after)
      ≡ some (record { major = a; minor = b; patch = c })
find-Written before a b c after w =
    find_later before (version_text a b c after) w.before_it
    ∙ find_here _ _ (match-Written before a b c after w)

at_least_lem : (a b c : ℕ) → AtLeast a b c → is_old a b c ≡ false
at_least_lem a b c h = ground arith

before_lem : (a b c : ℕ) → IsBefore a b c → is_old a b c ≡ true
before_lem a b c h = ground arith

-- In a text with a version number, before which there is no digit, pi serves if its version is at least
-- 0.87.1, and is too old if it is less, whatever the number of digits.
pub validate_version_lem :
    (before a b c after : List ℕ)
    → Written before a b c after
    → let verdict = validate_version (before ++ version_text a b c after) in
      (AtLeast (number a) (number b) (number c) → verdict ≡ serves)
      × (IsBefore (number a) (number b) (number c) → verdict ≡ too_old)
unfolding validate_version
validate_version_lem before a b c after w =
    let x = number a in
    let y = number b in
    let z = number c in
    rw (find-Written before a b c after w, validate_version)
      ((λ h. rw (at_least_lem x y z h) refl), (λ h. rw (before_lem x y z h) refl))
