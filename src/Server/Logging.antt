-- ===== src/Server/Logging.antt =====
-- internal/server/middleware.go: the request id, the recorder of the status, the log line of a request
-- and the recovery from panics, around a handler that writes a response call by call.
pub mod Secrecy
pub mod Recording
use my_home_index_server.Prelude.{
  ℕ, ◌+◌, Bool, true, false, Option, none, some, List, [], ◌∷◌, ◌++◌,
}
use my_home_index_server.Prelude.Tests.{◌==◌, if◌then◌else◌}
use my_home_index_server.Prelude.Bytes.{Bytes, codes}
use my_home_index_server.Prelude.Hex.{hex, hex_digits}
use my_home_index_server.Prelude.Time.{Duration}
use my_home_index_server.Server.Headers.{redact_auth_header, redact_cookie_header}

-- `newRequestID`: eight random bytes, or the Unix time in nanoseconds.
unfoldable pub new_request_id : Option Bytes → ℕ → Bytes
new_request_id none nanos = hex_digits 16 nanos
new_request_id (some b) nanos = hex b

-- The connection below: the status that it has sent, and the bytes of the body. net/http sends a
-- header once, ignores further ones, and sends 200 before a body that has none.
pub record Wire : Type 0 where
  pub sent : Option ℕ
  pub body : ℕ

unfoldable pub or_sent : Option ℕ → ℕ → Option ℕ
or_sent none code = some code
or_sent (some c) code = some c

abbrev pub send_header : ℕ → Wire → Wire
send_header code w = record w { sent = or_sent w.sent code }

abbrev pub send_body : ℕ → Wire → Wire
send_body n w = record w { sent = or_sent w.sent 200; body = w.body + n }

-- `statusRecorder`
pub record StatusRecorder : Type 0 where
  pub writer : Wire
  pub status : ℕ
  pub bytes : ℕ

unfoldable pub write_header : StatusRecorder → ℕ → StatusRecorder
write_header s code = record s { status = code; writer = send_header code s.writer }

-- `n` is what the writer below accepts.
unfoldable pub write : StatusRecorder → ℕ → StatusRecorder
write s n = record s {
  status = if s.status == 0 then 200 else s.status;
  writer = send_body n s.writer;
  bytes = s.bytes + n;
}

-- The calls of a handler.
pub data Call : Type 0 where
  header : (code : ℕ) → Call
  body : (accepted : ℕ) → Call

unfoldable pub call : StatusRecorder → Call → StatusRecorder
call s (Call.header code) = write_header s code
call s (Call.body n) = write s n

unfoldable pub calls : StatusRecorder → List Call → StatusRecorder
calls s [] = s
calls s (c ∷ cs) = calls (call s c) cs

-- What a handler does: its calls, and whether it panics behind them.
pub record Behaviour : Type 0 where
  pub made : List Call
  pub panics : Bool

-- `recoverMiddleware`: behind a panic, http.Error writes a header and `accepted` bytes of its text.
unfoldable pub recovered : StatusRecorder → Behaviour → ℕ → StatusRecorder
recovered s h accepted =
    let done = calls s h.made in if h.panics then write (write_header done 500) accepted else done

-- What the log shows of a request.
pub record Logged : Type 0 where
  pub request_id : Bytes
  pub method : Bytes
  pub path : Bytes
  pub remote : Bytes
  pub status : ℕ
  pub bytes : ℕ
  pub dur : Duration
  pub ua : Bytes
  pub auth_header : Bytes
  pub cookie : Bytes

-- What `loggerMiddleware` reads of a request; `remote` is what remoteAddr gives.
pub record Traffic : Type 0 where
  pub method : Bytes
  pub path : Bytes
  pub remote : Bytes
  pub user_agent : Bytes
  pub authorization : Bytes
  pub cookie : Bytes

abbrev pub fresh_recorder : StatusRecorder
fresh_recorder = record { writer = record { sent = none; body = 0 }; status = 0; bytes = 0 }

-- The line of `loggerMiddleware`.
unfoldable pub log_line : Bytes → Traffic → StatusRecorder → Duration → Logged
log_line id r rec dur = record {
  request_id = id;
  method = r.method;
  path = r.path;
  remote = r.remote;
  status = rec.status;
  bytes = rec.bytes;
  dur = dur;
  ua = r.user_agent;
  auth_header = redact_auth_header r.authorization;
  cookie = redact_cookie_header r.cookie;
}

-- What a request leaves: the line and the connection.
pub record Served : Type 0 where
  pub logged : Logged
  pub wire : Wire

-- The three middlewares around a handler, as `buildHandler` stacks them.
unfoldable pub serve_logged : Option Bytes → ℕ → Traffic → Behaviour → ℕ → Duration → Served
serve_logged entropy nanos r h accepted dur =
    let rec = recovered fresh_recorder h accepted in
    record { logged = log_line (new_request_id entropy nanos) r rec dur; wire = rec.writer }
