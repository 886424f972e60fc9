-- ===== src/Tests/Storage.antt =====
-- Runs of the stores of credentials and cursors.
use ac_cli.Prelude.{
  eq_iff, String, ◌≡◌, ◌≢◌, refl, true, none, some, [], ◌∷◌, arith, All, if◌then◌else◌, string_eq,
}
use text.Mathlib.Text.{◌==◌ as str_eq}
use ac_cli.Storage.Base64.{Bytes, IsByte, symbol, encode}
use ac_cli.Storage.Components.{
  filename_component, value_from_component, value-component, IsContained, component-IsContained,
  has_prefix, is_safe, is_safe_char,
}
use ac_cli.Storage.Credentials.{
  Credential, Tree, current, absent, written, failed, ok, err, directory_mismatch, save_loaded,
  load_agent, save_credential, find_by_agent,
}
use ac_cli.Storage.Utf8.{follows, is_utf8, KeepsUtf8}
use ac_cli.Storage.Found.{find-save_credential}
use ac_cli.Storage.Cursor.{Position, load_cursor, save_cursor, load-save_cursor}

-- "../a", "agm_1" and "agm_2"
abbrev climbing : Bytes
climbing = b'.' ∷ b'.' ∷ b'/' ∷ b'a' ∷ []

abbrev first_id : Bytes
first_id = b'a' ∷ b'g' ∷ b'm' ∷ b'_' ∷ b'1' ∷ []

-- "id-Li4vYQ"
climbing_encoded :
    filename_component climbing ≡ b'i' ∷ b'd' ∷ b'-' ∷ b'L' ∷ b'i' ∷ b'4' ∷ b'v' ∷ b'Y' ∷ b'Q' ∷ []
unfolding filename_component symbol encode has_prefix is_safe is_safe_char
climbing_encoded = refl

value-component_example : value_from_component (filename_component climbing) ≡ (climbing, true)
value-component_example = value-component climbing (omega arith)

component-IsContained_example : IsContained (filename_component climbing)
component-IsContained_example = component-IsContained climbing

abbrev new_credential : Credential
new_credential = record {
  api_token = "api_x";
  socket_key = "";
  workstream_code = "w1";
  agent_id = first_id;
  socket_address = "agm_1@example";
  agent_name = "Helper";
  organization_id = "org_1";
}

abbrev no_files : Tree
no_files = record { layout = current; entries = none; file = λ d. absent }

-- Texts that are not UTF-8 become the replacement character.
abbrev replacing : Bytes → Bytes
replacing text = if is_utf8 text then text else 0xef ∷ 0xbf ∷ 0xbd ∷ []

replacing_keeps : KeepsUtf8 replacing
replacing_keeps text h = rw h refl

-- "agé" and a surrogate.
utf8_kept : replacing (b'a' ∷ b'g' ∷ 0xc3 ∷ 0xa9 ∷ []) ≡ b'a' ∷ b'g' ∷ 0xc3 ∷ 0xa9 ∷ []
unfolding follows
utf8_kept = refl

surrogate_replaced : replacing (b'a' ∷ 0xed ∷ 0xa0 ∷ 0x80 ∷ []) ≡ 0xef ∷ 0xbf ∷ 0xbd ∷ []
unfolding follows
surrogate_replaced = refl

is_saved : (save_credential replacing true written new_credential no_files).0 ≡ ok tt
unfolding save_credential save_loaded load_agent
is_saved = refl

find-save_credential_example :
    let v = (save_credential replacing true written new_credential no_files).1 in
    (is_utf8 first_id ≡ true → find_by_agent "w1" first_id v ≡ ok new_credential)
    × (replacing first_id ≢ first_id
        → All IsByte (replacing first_id)
        → find_by_agent "w1" first_id v ≡ err directory_mismatch)
    × ((workstream : String) (id : Bytes)
        → All IsByte id
        → id ≢ first_id
        → find_by_agent workstream id v ≡ find_by_agent workstream id no_files)
find-save_credential_example =
    find-save_credential replacing true written new_credential no_files replacing_keeps
      (omega arith) is_saved

load-save_cursor_example :
    let r = save_cursor current true written "org_1/w1" "c9" Position.absent in
    (r.0 ≡ ok tt
      → load_cursor current "org_1/w2" r.1
        ≡ (if str_eq "org_1/w1" "org_1/w2" then ok (some "c9") else ok none))
    × (written ≡ failed
        → load_cursor current "org_1/w2" r.1 ≡ load_cursor current "org_1/w2" Position.absent)
load-save_cursor_example =
    load-save_cursor current true written "org_1/w1" "c9" "org_1/w2" Position.absent
      (λ e. ground (arith, eq_iff "org_1/w1" ""))
