-- ===== src/PiDriver/Types.antt =====
-- internal/pidriver/driver.go and rpc.go: the driver's state, and the lines and commands of the pipe.
--
-- A line of pi is given as the fields that the code reads of it, each with the zero value that a
-- failed type assertion leaves. Channels are numbers (of requests) or lists (of events).
use Prim.Native.Char.{code}
use Prim.Native.String.{◌++◌ as text_append}
use ac_cli.Prelude.{
  ℕ, ◌+◌, String, Bool, true, false, not, ◌&&◌, ◌||◌, ◌≡◌, refl, Option, none, some, List, [], ◌∷◌,
  leb, ◌==◌, nat_eq, if◌then◌else◌, codes,
}
use ac_cli.Supervisor.Delivery.{Outgoing}

-- `map[int]T`: the driver only ever adds a number that is new.
module _ {ℓ} {V : Type ℓ} where
  unfoldable pub find_id : ℕ → List (ℕ × V) → Option V
  find_id id [] = none
  find_id id ((other, value) ∷ rest) =
      let found = find_id id rest in if id == other then some value else found

  unfoldable pub remove_id : ℕ → List (ℕ × V) → List (ℕ × V)
  remove_id id [] = []
  remove_id id (entry ∷ rest) =
      let kept = remove_id id rest in if id == entry.0 then kept else entry ∷ kept

-- One line that the driver writes to pi's stdin. `prompt` says whether it steers or follows up, and
-- `cancel_dialog` carries the ID of the dialog, the others a number.
pub data Command : Type 0 where
  get_state clear_queue abort : ℕ → Command
  prompt : ℕ → String → Bool → Command
  get_entries : ℕ → String → Command
  cancel_dialog : String → Command

pub record Entry : Type 0 where
  pub id : String
  pub raw : String

-- One line that pi writes. `id` is what `strconv.Atoi` reads of a text "id", and 0 if it reads nothing;
-- `success` is `none` unless it is a Boolean; `entries`, `queued` and `streaming` are of "data", where
-- `queued` has the texts of "steering" and then those of "followUp".
pub record Line : Type 0 where
  pub kind : String
  pub id : Option ℕ
  pub success : Option Bool
  pub error : String
  pub command : String
  pub entries : List Entry
  pub queued : List String
  pub streaming : Option Bool
  pub method : String
  pub dialog : String
  pub tool_call : String
  pub tool_name : String
  pub parent_call : String

pub record ToolCall : Type 0 where
  pub name : String
  pub parent : String

-- `Event`: a line that was seen, or a message that did not arrive.
pub data RpcEvent : Type 0 where
  from_line : String → Line → ℕ → RpcEvent
  undelivered : Outgoing → ℕ → RpcEvent

pub record HistoryRequest : Type 0 where
  pub since : String
  pub reply_to : ℕ

pub record HistoryReply : Type 0 where
  pub reply_to : ℕ
  pub entries : List Entry
  pub failed : Bool

-- `interruptPhase`; `no_phase` is the empty text.
pub data Phase : Type 0 where
  no_phase clearing aborting prompting : Phase

-- `Snapshot`
pub record PiState : Type 0 where
  pub ready : Bool
  pub streaming : Bool
  pub settled : Bool
  pub current_tool : String
  pub parent_call : String
  pub last_event : ℕ
  pub pid : ℕ
  pub start_time : String
  pub cmdline : List String

-- `RPC`. `stdin` is what the writer has written to pi, and `launched` says that there is a process.
pub record Driver : Type 0 where
  pub launched : Bool
  pub starting : Bool
  pub state : PiState
  pub closed : Bool
  pub stopping : Bool
  pub compacting : Bool
  pub seq : ℕ
  pub stdin : List Command
  pub writes : List Command
  pub lines : List (Option Line)
  pub outgoing : List Outgoing
  pub pending : List (ℕ × Outgoing)
  pub history_requests : List HistoryRequest
  pub pending_history : List (ℕ × ℕ)
  pub history_replies : List HistoryReply
  pub tools : List (String × ToolCall)
  pub current_tool_id : String
  pub interrupt_id : ℕ
  pub interrupt_phase : Phase
  pub interrupt_msg : Outgoing
  pub restore : List String
  pub events : List RpcEvent

abbrev pub is_no_phase : Phase → Bool
is_no_phase no_phase = true
is_no_phase _ = false

-- `v["success"] == true` and `v["success"] == false`
abbrev pub succeeded : Line → Bool
succeeded v = elim v.success [ none ↦ false | some b ↦ b ]

abbrev pub has_failed : Line → Bool
has_failed v = elim v.success [ none ↦ false | some b ↦ not b ]

unfoldable pub is_prefix : List ℕ → List ℕ → Bool
is_prefix [] text = true
is_prefix (c ∷ start) [] = false
is_prefix (c ∷ start) (d ∷ text) = c == d && is_prefix start text

unfoldable pub contains_codes : List ℕ → List ℕ → Bool
unfolding is_prefix
contains_codes part [] = is_prefix part []
contains_codes part (c ∷ text) = is_prefix part (c ∷ text) || contains_codes part text

lower_codes : String → List ℕ
lower_codes String.[] = []
lower_codes (String.◌∷◌ c s) =
    let n = code c in (if leb b'A' n && leb n b'Z' then n + 32 else n) ∷ lower_codes s

-- `strings.Contains(strings.ToLower(reason), "compact")`. Only ASCII letters can matter.
unfoldable pub mentions_compact : String → Bool
unfolding contains_codes lower_codes
mentions_compact reason = contains_codes (codes "compact") (lower_codes reason)

-- The text of a message with its prefix, which is put before a text that does not have it.
unfoldable pub with_prefix : String → String
unfolding is_prefix
with_prefix text =
    if is_prefix (codes "[AirCommand] ") (codes text)
    then text
    else text_append "[AirCommand] " text

mentions_compact_test : mentions_compact "Cannot prompt: Compaction running" ≡ true
unfolding mentions_compact
mentions_compact_test = refl

with_prefix_test : with_prefix "[AirCommand] stop" ≡ "[AirCommand] stop"
unfolding with_prefix
with_prefix_test = refl
