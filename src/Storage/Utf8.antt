-- ===== src/Storage/Utf8.antt =====
-- Which byte lists are UTF-8, by the table of the Unicode standard: what encoding/json keeps of a text.
use ac_cli.Prelude.{
  ℕ, zero, suc, ◌≡◌, Bool, true, false, ◌&&◌, Option, none, some, [], ◌∷◌, leb, ◌==◌, nat_eq,
  if◌then◌else◌,
}
use ac_cli.Storage.Base64.{Bytes}

-- How many bytes follow, and the range of the first of them. The others are in 0x80 to 0xbf.
pub record Following : Type 0 where
  pub count : ℕ
  pub low : ℕ
  pub high : ℕ

abbrev between : ℕ → ℕ → ℕ → Bool
between low high b = leb low b && leb b high

abbrev continues : ℕ → Following
continues n = record { count = n; low = 0x80; high = 0xbf }

-- After the first byte of a code point: no surrogates, nothing above 0x10ffff, no longer form than needed.
unfoldable pub after_first : ℕ → Option Following
after_first b =
    if leb b 0x7f
    then some (continues 0)
    else if between 0xc2 0xdf b
    then some (continues 1)
    else if b == 0xe0
    then some (record { count = 2; low = 0xa0; high = 0xbf })
    else if b == 0xed
    then some (record { count = 2; low = 0x80; high = 0x9f })
    else if between 0xe1 0xef b
    then some (continues 2)
    else if b == 0xf0
    then some (record { count = 3; low = 0x90; high = 0xbf })
    else if b == 0xf4
    then some (record { count = 3; low = 0x80; high = 0x8f })
    else if between 0xf1 0xf3 b
    then some (continues 3)
    else none

abbrev after_byte : ℕ → Following → ℕ → Option Following
after_byte zero f b = after_first b
after_byte (suc n) f b = if between f.low f.high b then some (continues n) else none

unfoldable pub follows : Option Following → Bytes → Bool
unfolding after_first
follows none bs = false
follows (some f) [] = f.count == 0
follows (some f) (b ∷ bs) = follows (after_byte f.count f b) bs

abbrev pub is_utf8 : Bytes → Bool
is_utf8 bs = follows (some (continues 0)) bs

-- What encoding/json documents: a text that is UTF-8 comes back as it was. In another, each invalid
-- part is replaced; how is not needed here.
abbrev pub KeepsUtf8 : (Bytes → Bytes) → Type 0
KeepsUtf8 json = (text : Bytes) → is_utf8 text ≡ true → json text ≡ text
