-- ===== src/Conformance/Catalog/Outcomes.antt =====
-- internal/conformance/catalog.go: the bodies of `Execute`, as functions of what the observer
-- returned. `Json` stands for encoding/json: what `Unmarshal` makes of the bytes.
use lab_env.Common.{
  String, Bool, true, false, Option, none, some, [], ◌∷◌, ◌==◌, nat_eq, string_eq, if◌then◌else◌,
  not,
}
use lab_env.Common.Errors.{
  Error, Result, ok, err, errorf, text, number, cause, bytes, nil, wrap, message,
}
use lab_env.Common.Bytes.{Bytes, codes, has_text, trim_space, bytes_eq, trim_newlines, last_line}
use lab_env.Config.{service_user, binary_name, app_local_hostname}
use lab_env.Conformance.Observer.{Observer, ProcessStatus, PortStatus, EndpointStatus, FileInfo}
use lab_env.Conformance.Check.{Outcome}

-- encoding/json: the `status` field of an object, and whether a text is one JSON value.
pub record Json : Type 0 where
  pub status : Bytes → Result String
  pub value : Bytes → Option Error

abbrev pub passes : Outcome
passes = Outcome.returns none

abbrev pub fails : Error → Outcome
fails e = Outcome.returns (some e)

-- S-001 to S-004
unfoldable pub flag_outcome : Result Bool → String → String → Outcome
flag_outcome (err e) context reason = fails (wrap context e)
flag_outcome (ok false) context reason = fails (message reason)
flag_outcome (ok true) context reason = passes

-- P-001
unfoldable pub process_outcome : Result ProcessStatus → Outcome
process_outcome (err e) = fails (wrap "checking app process: %w" e)
process_outcome (ok ps) =
    if ps.running
    then passes
    else fails (errorf "no %q process running as %s" (text binary_name (text service_user nil)))

-- P-002 to P-004
unfoldable pub port_outcome : Result PortStatus → String → String → Outcome
port_outcome (err e) context addr = fails (wrap context e)
port_outcome (ok ps) context addr =
    if ps.listening then passes else fails (errorf "no listener on %s" (text addr nil))

-- E-001 and E-002
unfoldable pub status_outcome : Result EndpointStatus → String → String → Outcome
status_outcome (err e) context reason = fails (wrap context e)
status_outcome (ok ep) context reason =
    if ep.status_code == 200 then passes else fails (errorf reason (number ep.status_code nil))

body_outcome : Result String → Outcome
body_outcome (err e) = fails (wrap "parsing /health body: %w" e)
body_outcome (ok status) =
    if status == "ok"
    then passes
    else fails (errorf "/health body status=%q, want \"ok\"" (text status nil))

-- E-003
unfoldable pub health_body_outcome : Json → Result EndpointStatus → Outcome
unfolding body_outcome
health_body_outcome j (err e) = fails (wrap "reaching /health for body check: %w" e)
health_body_outcome j (ok ep) =
    if ep.status_code == 200
    then body_outcome (j.status ep.body)
    else fails (errorf "/health returned %d, cannot check body" (number ep.status_code nil))

-- E-004
unfoldable pub proxy_header_outcome : Result Bytes → Outcome
unfolding has_text
proxy_header_outcome (err e) = fails (wrap "fetching headers from /: %w" e)
proxy_header_outcome (ok out) =
    if has_text out (codes "X-Proxy: nginx")
    then passes
    else fails (message "X-Proxy: nginx header absent from response")

-- E-005
unfoldable pub tls_outcome : Result EndpointStatus → Outcome
tls_outcome (err e) =
    fails (errorf "reaching https://%s/health: %w" (text app_local_hostname (cause e nil)))
tls_outcome (ok ep) =
    if ep.status_code == 200
    then passes
    else fails (
        errorf "https://%s/health returned %d, want 200"
          (text app_local_hostname (number ep.status_code nil)))

owner_mode_outcome : String → String → Result Bytes → Outcome
unfolding trim_space bytes_eq
owner_mode_outcome path want (err e) =
    fails (errorf "%s: stat failed: %w" (text path (cause e nil)))
owner_mode_outcome path want (ok out) =
    if bytes_eq (trim_space out) (codes want)
    then passes
    else fails (errorf "%s: got %q, want %q" (text path (bytes (trim_space out) (text want nil))))

-- `checkFileOwnerMode`; `want` is the owner, the group and the mode as `stat` prints them.
unfoldable pub check_file_owner_mode : {S : Type 0} → Observer S → S → String → String → Outcome
unfolding owner_mode_outcome
check_file_owner_mode o s path want =
    owner_mode_outcome path want (o.run_command "stat" ("-c" ∷ "%U:%G %a" ∷ path ∷ []) s)

-- F-005 and F-006
unfoldable pub command_outcome : Result Bytes → String → Outcome
command_outcome (err e) context = fails (wrap context e)
command_outcome (ok out) context = passes

-- F-007
unfoldable pub resolve_outcome : Result String → Outcome
resolve_outcome (err e) = fails (errorf "resolving %s: %w" (text app_local_hostname (cause e nil)))
resolve_outcome (ok addr) =
    if addr == "127.0.0.1"
    then passes
    else fails
        (errorf "%s resolves to %q, want 127.0.0.1" (text app_local_hostname (text addr nil)))

-- L-001
unfoldable pub size_outcome : Result FileInfo → Outcome
size_outcome (err e) = fails (wrap "stat app.log: %w" e)
size_outcome (ok info) =
    if info.size == 0 then fails (message "app.log exists but is empty") else passes

json_outcome : Option Error → Outcome
json_outcome none = passes
json_outcome (some e) = fails (wrap "last line of app.log is not valid JSON: %w" e)

unfoldable pub log_line_outcome : Json → Bytes → Outcome
unfolding json_outcome
log_line_outcome j [] = fails (message "app.log is empty")
log_line_outcome j line = json_outcome (j.value line)

-- L-002
unfoldable pub last_line_outcome : Json → Result Bytes → Outcome
unfolding log_line_outcome trim_newlines last_line
last_line_outcome j (err e) = fails (wrap "reading app.log: %w" e)
last_line_outcome j (ok contents) = log_line_outcome j (last_line [] (trim_newlines contents))

-- L-003
unfoldable pub startup_outcome : Result Bytes → Outcome
unfolding has_text
startup_outcome (err e) = fails (wrap "reading app.log: %w" e)
startup_outcome (ok contents) =
    if has_text contents (codes "\"msg\":\"server started\"")
    then passes
    else fails (message "app.log does not contain startup entry (\"msg\":\"server started\")")

-- H-001
unfoldable pub headers_outcome : Result EndpointStatus → Outcome
unfolding has_text
headers_outcome (err e) = fails (wrap "reaching /headers: %w" e)
headers_outcome (ok ep) =
    if not (ep.status_code == 200)
    then fails (errorf "/headers returned %d, want 200" (number ep.status_code nil))
    else if has_text ep.body (codes "\"Host\"")
    then passes
    else fails (message "/headers body missing Host field")

-- H-002
unfoldable pub reset_outcome : Result EndpointStatus → Outcome
reset_outcome (err e) = fails (wrap "reaching /reset: %w" e)
reset_outcome (ok ep) =
    if ep.status_code == 200
    then fails (
        errorf "/reset returned %d, want non-200 (connection reset expected)"
          (number ep.status_code nil))
    else passes
