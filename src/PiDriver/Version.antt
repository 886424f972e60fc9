-- ===== src/PiDriver/Version.antt =====
-- internal/pidriver/rpc.go: `validateVersion`. A text is a list of bytes, and `\d` is an ASCII digit.
pub mod Written
use ac_cli.Prelude.{
  ℕ, ◌+◌, ◌-◌, ◌*◌, ◌≤◌, ◌<◌, ◌≡◌, refl, ◌∙◌, Bool, true, false, ◌&&◌, ◌||◌, Option, none, some,
  List, [], ◌∷◌, ◌++◌, ◌⊎◌, arith, ltb, leb, ◌==◌, nat_eq, if◌then◌else◌, All, codes,
}

abbrev pub is_digit : ℕ → Bool
is_digit c = leb b'0' c && leb c b'9'

-- `\d*` from the left, as long as it goes: the digits, and what follows.
unfoldable pub digits : List ℕ → List ℕ × List ℕ
digits [] = ([], [])
digits (c ∷ text) =
    let later = digits text in if is_digit c then (c ∷ later.0, later.1) else ([], c ∷ text)

-- `strconv.Atoi` of digits; a number past the range of an int is at least as high as each bound here.
number_from : ℕ → List ℕ → ℕ
number_from n [] = n
number_from n (c ∷ text) = number_from (n * 10 + (c - b'0')) text

unfoldable pub number : List ℕ → ℕ
unfolding number_from
number text = number_from 0 text

abbrev pub is_nil : List ℕ → Bool
is_nil [] = true
is_nil (c ∷ text) = false

abbrev pub after_dot : List ℕ → Option (List ℕ)
after_dot [] = none
after_dot (c ∷ text) = if c == b'.' then some text else none

-- `\d+`
unfoldable pub some_digits : List ℕ → Option (List ℕ × List ℕ)
unfolding digits
some_digits text = let found = digits text in if is_nil found.0 then none else some found

-- `\d+\.` at the start of a text
unfoldable pub part : List ℕ → Option (List ℕ × List ℕ)
unfolding some_digits
part text = elim (some_digits text) [
  | none ↦ none
  | some (n, rest) ↦ elim (after_dot rest) [ none ↦ none | some rest' ↦ some (n, rest') ]
]

pub record Version : Type 0 where
  pub major : List ℕ
  pub minor : List ℕ
  pub patch : List ℕ

-- `(\d+)\.(\d+)\.(\d+)` at the start of a text: since a digit is no dot, the longest runs are the only ones.
unfoldable pub match_here : List ℕ → Option Version
unfolding part
match_here text = elim (part text) [
  | none ↦ none
  | some (a, rest) ↦ elim (part rest) [
    | none ↦ none
    | some (b, rest') ↦ elim (some_digits rest') [
      | none ↦ none
      | some (c, rest'') ↦ some (record { major = a; minor = b; patch = c })
    ]
  ]
]

-- The leftmost match.
unfoldable pub find_version : List ℕ → Option Version
unfolding match_here
find_version [] = none
find_version (c ∷ text) =
    let later = find_version text in elim (match_here (c ∷ text)) [ none ↦ later | some v ↦ some v ]

pub data Verdict : Type 0 where
  serves unrecognized too_old : Verdict

abbrev pub is_old : ℕ → ℕ → ℕ → Bool
is_old a b c = a == 0 && (ltb b 87 || (b == 87 && ltb c 1))

unfoldable pub validate_version : List ℕ → Verdict
unfolding find_version number
validate_version text = elim (find_version text) [
  | none ↦ unrecognized
  | some v ↦ if is_old (number v.major) (number v.minor) (number v.patch) then too_old else serves
]

validate_version_test : validate_version (codes "pi v0.87.0 (linux)") ≡ too_old
unfolding validate_version
validate_version_test = refl

-- The number of a text is at least that of 0.87.1.
abbrev pub AtLeast : ℕ → ℕ → ℕ → Type 0
AtLeast a b c = (0 < a) ⊎ ((87 < b) ⊎ ((b ≡ 87) × (1 ≤ c)))

abbrev pub IsBefore : ℕ → ℕ → ℕ → Type 0
IsBefore a b c = (a ≡ 0) × ((b < 87) ⊎ ((b ≡ 87) × (c ≡ 0)))

abbrev pub IsDigit : ℕ → Type 0
IsDigit c = is_digit c ≡ true

abbrev pub NotDigit : ℕ → Type 0
NotDigit c = is_digit c ≡ false

-- The text does not go on with a digit.
abbrev pub StopsDigits : List ℕ → Type 0
StopsDigits [] = Unit {0}
StopsDigits (c ∷ text) = NotDigit c
