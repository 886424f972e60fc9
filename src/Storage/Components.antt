-- ===== src/Storage/Components.antt =====
-- internal/storagepath/path.go: the directory name of an identifier, and back; the legacy layout.
use ac_cli.Prelude.{
  ℕ, ◌≡◌, ◌≢◌, refl, Bool, true, false, not, ◌&&◌, ◌||◌, none, some, [], ◌∷◌, ◌++◌, arith, ◌==◌,
  ◌!=◌, nat_eq, list_eq, list_beq_iff, if◌then◌else◌, All, all, drop, is_word_char, inl, inr,
  Bool-cases, beq_self,
}
use ac_cli.Storage.Base64.{Bytes, IsByte, symbol, encode, decode, decode-encode}

-- encodedComponentPrefix
abbrev pub id_prefix : Bytes
id_prefix = b'i' ∷ b'd' ∷ b'-' ∷ []

-- strings.HasPrefix
unfoldable pub has_prefix : Bytes → Bytes → Bool
has_prefix [] v = true
has_prefix (p ∷ ps) [] = false
has_prefix (p ∷ ps) (c ∷ cs) = p == c && has_prefix ps cs

unfoldable pub is_safe_char : ℕ → Bool
is_safe_char c = is_word_char c || c == b'.'

-- safeFilenameComponent: `^[A-Za-z0-9._-]+$`
unfoldable pub is_safe : Bytes → Bool
is_safe v = v != [] && all is_safe_char v

abbrev pub is_readable : Bytes → Bool
is_readable v =
    v != b'.' ∷ [] && (v != b'.' ∷ b'.' ∷ [] && (is_safe v && not (has_prefix id_prefix v)))

-- FilenameComponent
unfoldable pub filename_component : Bytes → Bytes
filename_component v = if is_readable v then v else id_prefix ++ encode v

-- ValueFromFilenameComponent
unfoldable pub value_from_component : Bytes → Bytes × Bool
value_from_component c =
    if not (has_prefix id_prefix c)
    then (c, filename_component c == c)
    else elim (decode (drop 3 c)) [ none ↦ ([], false) | some v ↦ (v, filename_component v == c) ]

readable_plain : (v : Bytes) → is_readable v ≡ true → has_prefix id_prefix v ≡ false
readable_plain v h = ground arith

prefixed : (v : Bytes) → has_prefix id_prefix (id_prefix ++ v) ≡ true
unfolding has_prefix
prefixed v = refl

component_plain : (v : Bytes) → is_readable v ≡ true → filename_component v ≡ v
unfolding filename_component
component_plain v h = rw h refl

component_encoded :
    (v : Bytes) → is_readable v ≡ false → filename_component v ≡ id_prefix ++ encode v
unfolding filename_component
component_encoded v h = rw h refl

-- The identifier comes back from its directory name, whatever its bytes are; so no two identifiers
-- share a directory.
pub value-component :
    (v : Bytes) → All IsByte v → value_from_component (filename_component v) ≡ (v, true)
unfolding value_from_component
value-component v h = elim (Bool-cases (is_readable v)) [
  | inl plain ↦
      let same = component_plain v plain in
      rw same (rw (readable_plain v plain, same, beq_self v, value_from_component) refl)
  | inr odd ↦
      let same = component_encoded v odd in
      let back = decode-encode v h in
      rw same (
        rw (prefixed (encode v), back, same, beq_self (id_prefix ++ encode v), value_from_component)
          refl)
]

symbol-safe : (n : ℕ) → is_safe_char (symbol n) ≡ true
unfolding symbol is_safe_char
symbol-safe n = ground arith

encode-safe : (v : Bytes) → all is_safe_char (encode v) ≡ true
unfolding encode
encode-safe [] = refl
encode-safe (a ∷ []) = simp symbol-safe
encode-safe (a ∷ b ∷ []) = simp symbol-safe
encode-safe (a ∷ b ∷ c ∷ rest) = simp (symbol-safe, encode-safe rest)

-- A name that stays within its directory: not empty, of safe characters only, and neither "." nor "..".
pub record IsContained (c : Bytes) : Type 0 where
  pub filled : c ≢ []
  pub safe : all is_safe_char c ≡ true
  pub not_here : c ≢ b'.' ∷ []
  pub not_above : c ≢ b'.' ∷ b'.' ∷ []

readable-IsContained : (v : Bytes) → is_readable v ≡ true → IsContained v
unfolding is_safe
readable-IsContained v h = record {
  filled = ground (arith, list_beq_iff v []);
  safe = ground arith;
  not_here = ground (arith, list_beq_iff v (b'.' ∷ []));
  not_above = ground (arith, list_beq_iff v (b'.' ∷ b'.' ∷ []));
}

encoded-IsContained : (v : Bytes) → IsContained (id_prefix ++ encode v)
unfolding is_safe_char
encoded-IsContained v = record {
  filled = λ e. ground arith;
  safe = encode-safe v;
  not_here = λ e. ground arith;
  not_above = λ e. ground arith;
}

-- The directory name of any identifier stays within the agents' directory: it is not empty, "." or
-- "..", and has only letters, digits, ".", "_" and "-", so no path separator.
pub component-IsContained : (v : Bytes) → IsContained (filename_component v)
component-IsContained v = elim (Bool-cases (is_readable v)) [
  | inl plain ↦ rw (component_plain v plain) (readable-IsContained v plain)
  | inr odd ↦ rw (component_encoded v odd) (encoded-IsContained v)
]
