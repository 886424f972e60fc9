-- ===== src/Presence/Report.antt =====
-- internal/agentstate/report.go: the checks on a state before it is sent, and the reply.
--
-- `url_ok` says that the base URL parses to an http or https URL with a host; `send` is the reply of
-- the HTTP client (`none` where the request fails). The body's JSON is not modelled. A text here is
-- valid UTF-8, so `ValidReason` is its length in characters.
use Prim.Native.String.{count}
use ac_cli.Prelude.{
  ℕ, String, Bool, not, ◌||◌, ◌&&◌, Option, none, some, leb, ◌==◌, ◌!=◌, string_eq, nat_eq,
  if◌then◌else◌,
}
use ac_cli.Presence.Clock.{Time, is_zero}
use ac_cli.Presence.Types.{running, stopped, no_logical, State, physical_eq, logical_eq}
use ac_cli.Presence.{valid_logical}

pub data ReportError : Type 0 where
  not_configured invalid_physical invalid_logical stopped_has_logical : ReportError
  invalid_report invalid_url request_failed : ReportError
  http_status : ℕ → ReportError

-- ValidReason
unfoldable pub valid_reason : String → Bool
valid_reason reason = leb (count reason) 120

-- The checks on the physical and the logical value.
unfoldable pub check_values : State → Option ReportError
unfolding valid_logical
check_values st =
    if st.physical != running && st.physical != stopped
    then some invalid_physical
    else if st.physical == running
    then (if valid_logical st.logical then none else some invalid_logical)
    else if st.logical != no_logical
    then some stopped_has_logical
    else none

unfoldable pub check_fields : State → Time → String → Option ReportError
unfolding valid_reason
check_fields st at workstream =
    if not (valid_reason st.reason) || (is_zero st.since || (is_zero at || workstream == ""))
    then some invalid_report
    else none

abbrev check_reply : Option ℕ → Option ReportError
check_reply none = some request_failed
check_reply (some status) =
    if status != 200 && status != 204 then some (http_status status) else none

abbrev pub or_else : Option ReportError → Option ReportError → Option ReportError
or_else none e = e
or_else (some e) _ = some e

-- Reporter.Report: `none` where it returns no error.
unfoldable pub report : Bool → Bool → Option ℕ → String → State → Time → Option ReportError
unfolding check_values check_fields
report configured url_ok send workstream st at =
    if not configured
    then some not_configured
    else or_else (check_values st) (
        or_else (check_fields st at workstream)
          (if not url_ok then some invalid_url else check_reply send))
