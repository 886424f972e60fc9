-- ===== src/Storage/Credentials.antt =====
-- internal/credentials/store.go: the credential file of each agent.
--
-- A file is what decoding its JSON text gives: `invalid` is a text that is no such document, `broken` a
-- file that cannot be read. Agent IDs are bytes, since directories are named by them; `json` is what
-- encoding an ID and decoding it again makes of it (encoding/json replaces what is not UTF-8). The other
-- fields are texts in UTF-8, which come back as they are.
use ac_cli.Prelude.{
  ℕ, String, Bool, not, ◌&&◌, ◌||◌, Option, none, some, List, [], ◌∷◌, ltb, ◌==◌, ◌!=◌,
  if◌then◌else◌, string_eq, nat_eq, list_eq, length, any, map,
}
use mathlib.Core.Option
use ac_cli.Storage.Base64.{Bytes}
use ac_cli.Storage.Components.{filename_component, value_from_component}

pub record Credential : Type 0 where
  pub api_token : String
  pub socket_key : String
  pub workstream_code : String
  pub agent_id : Bytes
  pub socket_address : String
  pub agent_name : String
  pub organization_id : String

-- File; `agents` is `none` for a nil map.
pub record File : Type 0 where
  pub version : ℕ
  pub agents : Option (List (Bytes × Credential))

pub data Stored : Type 0 where
  absent broken invalid : Stored
  document : File → Stored

-- What `CheckLegacyLayout` finds, and how the making of a directory and the replacement of a file end.
-- A replacement whose last step fails, the change of the new file's mode, has replaced the file.
pub data Layout : Type 0 where
  current legacy unknown : Layout

pub data Replaced : Type 0 where
  written unsecured failed : Replaced

pub data Error : Type 0 where
  incomplete old_layout layout_unknown no_directory unreadable invalid_file bad_version : Error
  no_agents several_agents other_agent not_replaced not_secured no_credentials : Error
  key_mismatch directory_mismatch no_directories : Error
  multiple_agents : List Bytes → Error

pub data Result {ℓ} (A : Type ℓ) : Type ℓ where
  ok : A → Result A
  err : Error → Result A

-- The agents' directories: their entries that are directories, and their credential files.
pub record Tree : Type 0 where
  pub layout : Layout
  pub entries : Option (List Bytes)
  pub file : Bytes → Stored

abbrev pub layout_error : Layout → Option Error
layout_error current = none
layout_error legacy = some old_layout
layout_error unknown = some layout_unknown

-- loadFile
unfoldable pub load_file : Stored → Result (Option File)
load_file absent = ok none
load_file broken = err unreadable
load_file invalid = err invalid_file
load_file (document f) =
    if f.version != 1
    then err bad_version
    else elim f.agents [ none ↦ err no_agents | some agents ↦ ok (some f) ]

abbrev pub agents_of : File → List (Bytes × Credential)
agents_of f = elim f.agents [ none ↦ [] | some agents ↦ agents ]

-- Store.loadAgent, as the agents of the file.
unfoldable pub load_agent : Stored → Result (List (Bytes × Credential))
unfolding load_file
load_agent stored = elim (load_file stored) [
  | err e ↦ err e
  | ok none ↦ ok []
  | ok (some f) ↦ ok (agents_of f)
]

-- The file that is read back after it was encoded.
abbrev pub recode_entry : (Bytes → Bytes) → Bytes × Credential → Bytes × Credential
recode_entry json (id, c) = (json id, record c { agent_id = json c.agent_id })

abbrev pub recode : (Bytes → Bytes) → File → File
recode json f = record f { agents = Option.map (map (recode_entry json)) f.agents }

-- Store.write
abbrev pub write_file : (Bytes → Bytes) → Replaced → Bytes → File → Tree → Result (Unit {0}) × Tree
write_file json written dir f t =
    (ok tt, record t { file = λ d. if d == dir then document (recode json f) else t.file d })
write_file json unsecured dir f t = (
  err not_secured,
  record t { file = λ d. if d == dir then document (recode json f) else t.file d },
)
write_file json failed dir f t = (err not_replaced, t)

-- The tests of `Save` on the file, which may have no agent but this one.
unfoldable pub save_error : Bytes → List (Bytes × Credential) → Option Error
save_error id agents =
    if ltb 1 (length agents)
    then some several_agents
    else if any (λ (a : Bytes × Credential). a.0 != id) agents
    then some other_agent
    else none

abbrev pub is_incomplete : Credential → Bool
is_incomplete c =
    c.agent_id == [] || (c.workstream_code == "" || (c.api_token == "" || c.socket_address == ""))

-- With at most this agent in the file, `file.Agents[id] = credential` leaves one entry.
abbrev pub file_with : Credential → File
file_with c = record { version = 1; agents = some ((c.agent_id, c) ∷ []) }

unfoldable pub save_loaded :
    (Bytes → Bytes)
    → Replaced
    → Credential
    → Result (List (Bytes × Credential))
    → Tree
    → Result (Unit {0}) × Tree
unfolding save_error
save_loaded json replaced c (err e) t = (err e, t)
save_loaded json replaced c (ok agents) t = elim (save_error c.agent_id agents) [
  | some e ↦ (err e, t)
  | none ↦ write_file json replaced (filename_component c.agent_id) (file_with c) t
]

-- Store.Save; `made` says that the directories could be made and secured.
unfoldable pub save_credential :
    (Bytes → Bytes) → Bool → Replaced → Credential → Tree → Result (Unit {0}) × Tree
save_credential json made replaced c t =
    if is_incomplete c then (err incomplete, t) else elim (layout_error t.layout) [
      | some e ↦ (err e, t)
      | none ↦
          if not made
          then (err no_directory, t)
          else save_loaded json replaced c (load_agent (t.file (filename_component c.agent_id))) t
    ]

-- credentialFromFile
unfoldable pub credential_from_file : List (Bytes × Credential) → Bytes → Result Credential
credential_from_file [] dir = err several_agents
credential_from_file (a ∷ b ∷ rest) dir = err several_agents
credential_from_file ((id, c) ∷ []) dir =
    if c.agent_id != id
    then err key_mismatch
    else if filename_component id != dir
    then err directory_mismatch
    else ok c

abbrev read_credential : Stored → Bytes → Result Credential
read_credential stored dir = elim (load_file stored) [
  | err e ↦ err e
  | ok none ↦ err no_credentials
  | ok (some f) ↦ credential_from_file (agents_of f) dir
]

abbrev check_credential : (Credential → Bool) → Result Credential → Result Credential
check_credential fits (err e) = err e
check_credential fits (ok c) = if fits c then ok c else err no_credentials

abbrev pub find_with : String → Bytes → Layout → Stored → Result Credential
find_with workstream id layout stored = elim (layout_error layout) [
  | some e ↦ err e
  | none ↦
      check_credential (λ c. c.agent_id == id && c.workstream_code == workstream)
        (read_credential stored (filename_component id))
]

-- Store.FindByAgent
unfoldable pub find_by_agent : String → Bytes → Tree → Result Credential
unfolding load_file credential_from_file
find_by_agent workstream id t = find_with workstream id t.layout (t.file (filename_component id))

abbrev id_of_directory : Bytes → Bytes
id_of_directory dir = let (id, valid) = value_from_component dir in if valid then id else dir

unfoldable pub ids_of : List Bytes → List Bytes
ids_of [] = []
ids_of (dir ∷ dirs) = id_of_directory dir ∷ ids_of dirs

-- Store.FindByWorkstream, with the IDs of several agents before they are sorted.
unfoldable pub find_in : String → List Bytes → Tree → Result Credential
unfolding load_file credential_from_file
find_in workstream [] t = err no_credentials
find_in workstream (a ∷ b ∷ rest) t = err (multiple_agents (ids_of (a ∷ b ∷ rest)))
find_in workstream (dir ∷ []) t =
    check_credential (λ c. c.workstream_code == workstream) (read_credential (t.file dir) dir)

unfoldable pub find_by_workstream : String → Tree → Result Credential
unfolding find_in
find_by_workstream workstream t = elim (layout_error t.layout) [
  | some e ↦ err e
  | none ↦ elim t.entries [ none ↦ err no_credentials | some dirs ↦ find_in workstream dirs t ]
]

-- Store.Delete, where the removal succeeds or there is nothing to remove.
unfoldable pub delete_credential : Bytes → Tree → Tree
delete_credential id t = record t {
  file = λ d. if d == filename_component id then absent else t.file d;
}
