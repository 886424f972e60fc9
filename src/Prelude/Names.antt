-- ===== src/Prelude/Names.antt =====
-- `strings.TrimSpace`, and the name pattern of internal/supervisor/supervisor.go.
use Prim.Native.Char.{Char, code}
use Prim.Native.String.{String, count}
use Prim.Native.Nat.{ℕ}
use mathlib.Core.Path.{◌≡◌, refl}
use mathlib.Core.Bool.{Bool, true, ◌&&◌, ◌||◌}
use ac_cli.Prelude.Tests.{leb, ◌==◌, nat_eq, string_eq, if◌then◌else◌}

-- unicode.IsSpace
is_space : Char → Bool
is_space c =
    let n = code c in
    (leb 9 n && leb n 13)
    || (n == 32
        || (n == 0x85
            || (n == 0xa0
                || (n == 0x1680
                    || ((leb 0x2000 n && leb n 0x200a)
                        || (n == 0x2028
                            || (n == 0x2029 || (n == 0x202f || (n == 0x205f || n == 0x3000)))))))))

trim_left : String → String
trim_left String.[] = ""
trim_left (String.◌∷◌ c s) = let rest = trim_left s in if is_space c then rest else String.◌∷◌ c s

trim_right : String → String
trim_right String.[] = ""
trim_right (String.◌∷◌ c s) =
    let rest = trim_right s in if is_space c && rest == "" then "" else String.◌∷◌ c rest

unfoldable pub trim_space : String → String
unfolding trim_left trim_right is_space
trim_space s = trim_right (trim_left s)

abbrev pub is_word_char : ℕ → Bool
is_word_char n =
    (leb b'A' n && leb n b'Z')
    || ((leb b'a' n && leb n b'z') || ((leb b'0' n && leb n b'9') || (n == b'_' || n == b'-')))

unfoldable pub all_chars : (ℕ → Bool) → String → Bool
all_chars p String.[] = true
all_chars p (String.◌∷◌ c s) = p (code c) && all_chars p s

-- validName: `^[A-Za-z0-9_-]{1,64}$`
unfoldable pub valid_name : String → Bool
unfolding all_chars
valid_name s = all_chars is_word_char s && (leb 1 (count s) && leb (count s) 64)

trim_test : trim_space " ab c  " ≡ "ab c"
unfolding trim_space
trim_test = refl

name_test : valid_name "my-agent_2" ≡ true
unfolding valid_name
name_test = refl
