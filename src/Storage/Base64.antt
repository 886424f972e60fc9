-- ===== src/Storage/Base64.antt =====
-- `base64.RawURLEncoding`, as internal/storagepath/path.go uses it. A Go text is a list of bytes.
use ac_cli.Prelude.{
  ℕ, ◌+◌, ◌-◌, ◌*◌, ◌/◌, ◌%◌, ◌<◌, ◌≡◌, refl, false, ◌&&◌, ◌||◌, Option, none, some, List, [], ◌∷◌,
  arith, ltb, leb, ◌==◌, nat_eq, if◌then◌else◌, All,
}

abbrev pub Bytes : Type 0
Bytes = List ℕ

abbrev pub IsByte : ℕ → Type 0
IsByte b = b < 256

-- The alphabet: A-Z, a-z, 0-9, - and _.
unfoldable pub symbol : ℕ → ℕ
symbol n =
    if ltb n 26
    then b'A' + n
    else if ltb n 52
    then b'a' + (n - 26)
    else if ltb n 62
    then b'0' + (n - 52)
    else if n == 62
    then b'-'
    else b'_'

unfoldable pub digit : ℕ → Option ℕ
digit c =
    if leb b'A' c && leb c b'Z'
    then some (c - b'A')
    else if leb b'a' c && leb c b'z'
    then some (c - b'a' + 26)
    else if leb b'0' c && leb c b'9'
    then some (c - b'0' + 52)
    else if c == b'-'
    then some 62
    else if c == b'_'
    then some 63
    else none

pub digit-symbol : (n : ℕ) → n < 64 → digit (symbol n) ≡ some n
unfolding digit symbol
digit-symbol n h = ground arith

unfoldable pub encode : Bytes → Bytes
encode [] = []
encode (a ∷ []) = symbol (a / 4) ∷ symbol (a % 4 * 16) ∷ []
encode (a ∷ b ∷ []) = symbol (a / 4) ∷ symbol (a % 4 * 16 + b / 16) ∷ symbol (b % 16 * 4) ∷ []
encode (a ∷ b ∷ c ∷ rest) =
    symbol (a / 4)
    ∷ symbol (a % 4 * 16 + b / 16)
    ∷ symbol (b % 16 * 4 + c / 64)
    ∷ symbol (c % 64)
    ∷ encode rest

-- The digits of a text; `none` where a byte is not of the alphabet. The decoder skips line ends.
unfoldable pub digits : Bytes → Option (List ℕ)
digits [] = some []
digits (c ∷ cs) =
    let rest = digits cs in
    if c == 10 || c == 13 then rest else elim (digit c) [
      | none ↦ none
      | some d ↦ elim rest [ none ↦ none | some ds ↦ some (d ∷ ds) ]
    ]

-- Three bytes from four digits. A last group of two or three digits may have bits left over, which the
-- decoder ignores; one of a single digit is an error.
unfoldable pub bytes_of : List ℕ → Option Bytes
bytes_of [] = some []
bytes_of (w ∷ []) = none
bytes_of (w ∷ x ∷ []) = some ((w * 4 + x / 16) ∷ [])
bytes_of (w ∷ x ∷ y ∷ []) = some ((w * 4 + x / 16) ∷ (x % 16 * 16 + y / 4) ∷ [])
bytes_of (w ∷ x ∷ y ∷ z ∷ rest) = elim (bytes_of rest) [
  | none ↦ none
  | some bs ↦ some ((w * 4 + x / 16) ∷ (x % 16 * 16 + y / 4) ∷ (y % 4 * 64 + z) ∷ bs)
]

unfoldable pub decode : Bytes → Option Bytes
decode cs = elim (digits cs) [ none ↦ none | some ds ↦ bytes_of ds ]

-- The digits that `encode` writes.
groups : Bytes → List ℕ
groups [] = []
groups (a ∷ []) = (a / 4) ∷ (a % 4 * 16) ∷ []
groups (a ∷ b ∷ []) = (a / 4) ∷ (a % 4 * 16 + b / 16) ∷ (b % 16 * 4) ∷ []
groups (a ∷ b ∷ c ∷ rest) =
    (a / 4) ∷ (a % 4 * 16 + b / 16) ∷ (b % 16 * 4 + c / 64) ∷ (c % 64) ∷ groups rest

digits_nil : digits [] ≡ some []
unfolding digits
digits_nil = refl

symbol_text : (n : ℕ) → (symbol n == 10 || symbol n == 13) ≡ false
unfolding symbol
symbol_text n = ground arith

digits-symbol :
    (n : ℕ) (cs : Bytes) {ds : List ℕ}
    → n < 64
    → digits cs ≡ some ds
    → digits (symbol n ∷ cs) ≡ some (n ∷ ds)
unfolding digits
digits-symbol n cs h e = rw (symbol_text n, digit-symbol n h, e) refl

digits-encode : (v : Bytes) → All IsByte v → digits (encode v) ≡ some (groups v)
unfolding encode groups
digits-encode [] h = digits_nil
digits-encode (a ∷ []) h =
    digits-symbol _ _ (omega arith) (digits-symbol _ _ (omega arith) digits_nil)
digits-encode (a ∷ b ∷ []) h =
    digits-symbol _ _ (omega arith)
      (digits-symbol _ _ (omega arith) (digits-symbol _ _ (omega arith) digits_nil))
digits-encode (a ∷ b ∷ c ∷ rest) h = digits-symbol _ _ (omega arith) (
    digits-symbol _ _ (omega arith) (
      digits-symbol _ _ (omega arith)
        (digits-symbol _ _ (omega arith) (digits-encode rest h.1.1.1))))

bytes_of-groups : (v : Bytes) → All IsByte v → bytes_of (groups v) ≡ some v
unfolding groups bytes_of
bytes_of-groups [] h = refl
bytes_of-groups (a ∷ []) h = ground arith
bytes_of-groups (a ∷ b ∷ []) h = ground arith
bytes_of-groups (a ∷ b ∷ c ∷ rest) h = ground (arith, bytes_of-groups rest)

pub decode-encode : (v : Bytes) → All IsByte v → decode (encode v) ≡ some v
unfolding decode
decode-encode v h = rw (digits-encode v h, decode) (bytes_of-groups v h)
