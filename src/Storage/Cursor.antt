-- ===== src/Storage/Cursor.antt =====
-- internal/listenstore/store.go: how far an agent's listener has read, in which workstream.
use ac_cli.Prelude.{
  String, ◌≡◌, ◌≢◌, Bool, not, ◌||◌, Option, none, some, arith, ◌==◌, ◌!=◌, if◌then◌else◌,
  string_eq, eq_iff,
}
use ac_cli.Storage.Credentials.{
  Layout, current, Replaced, written, unsecured, failed, no_directory, unreadable, invalid_file,
  not_replaced, not_secured, Result, ok, err, layout_error,
}

-- The file `state.json`: a cursor and its workstream.
pub data Position : Type 0 where
  absent broken invalid : Position
  position : String → String → Position

abbrev position_in : String → Position → Result (Option String)
position_in workstream absent = ok none
position_in workstream broken = err unreadable
position_in workstream invalid = err invalid_file
position_in workstream (position cursor saved_in) =
    if saved_in == "" || saved_in != workstream then ok none else ok (some cursor)

-- Store.LoadCursor
unfoldable pub load_cursor : Layout → String → Position → Result (Option String)
load_cursor layout workstream stored = elim (layout_error layout) [
  | some e ↦ err e
  | none ↦ position_in workstream stored
]

abbrev replace_position : Replaced → Position → Position → Result (Unit {0}) × Position
replace_position written new old = (ok tt, new)
replace_position unsecured new old = (err not_secured, new)
replace_position failed new old = (err not_replaced, old)

-- Store.SaveCursor
unfoldable pub save_cursor :
    Layout → Bool → Replaced → String → String → Position → Result (Unit {0}) × Position
save_cursor layout made replaced workstream cursor stored = elim (layout_error layout) [
  | some e ↦ (err e, stored)
  | none ↦
      if not made
      then (err no_directory, stored)
      else replace_position replaced (position cursor workstream) stored
]

-- A cursor that was saved is read back in its own workstream, and in no other: after the agent moved,
-- there is no cursor. A save that failed before the file was replaced leaves every reading as it was.
pub load-save_cursor :
    (layout : Layout) (made : Bool) (replaced : Replaced) (workstream cursor asked : String)
    (stored : Position)
    → workstream ≢ ""
    → let r = save_cursor layout made replaced workstream cursor stored in
      (r.0 ≡ ok tt
        → load_cursor layout asked r.1
          ≡ (if workstream == asked then ok (some cursor) else ok none))
      × (replaced ≡ failed → load_cursor layout asked r.1 ≡ load_cursor layout asked stored)
unfolding load_cursor save_cursor
load-save_cursor current made written workstream cursor asked stored n =
    ground (arith, eq_iff workstream "", eq_iff workstream asked)
load-save_cursor current made unsecured workstream cursor asked stored n =
    ground (arith, eq_iff workstream "", eq_iff workstream asked)
load-save_cursor current made failed workstream cursor asked stored n = ground arith
load-save_cursor _ made replaced workstream cursor asked stored n = ground arith
