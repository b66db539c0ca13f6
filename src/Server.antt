-- ===== src/Server.antt =====
-- internal/server: the handlers and the middleware of the HTTP server. A request is served in one
-- step from the state before to the state behind it, with what was done to other processes. What the
-- world answers meanwhile (scans, inspections, the system, the clock, the disk) is an argument.
pub mod Headers
pub mod Sound
pub mod Access
pub mod Snapshot
pub mod Mutations
pub mod Routes
pub mod Logging
use my_home_index_server.Prelude.{ℕ, ◌+◌, ◌⊎◌, Bool, true, false, Option, none, some, List, [], ◌∷◌}
use my_home_index_server.Prelude.Bytes.{Bytes, codes}
use my_home_index_server.Prelude.Int.{ℤ}
use my_home_index_server.Prelude.Time.{Time, Duration}
use my_home_index_server.Config.{Config}
use my_home_index_server.Disk.{Faults}
use my_home_index_server.Store.{Store, Host}
use my_home_index_server.Auth.{Auth, Crypto}
use my_home_index_server.Process.{Listener, Scan, Sent, System, Launcher, Cmd}
use my_home_index_server.Model.{PortVm}
use my_home_index_server.Inspector.{Inspected}

-- Interfaces that may be nil are flags: their answers are in `World`. The process manager has the
-- store of the server attached, as `run` of cmd/port-manager/main.go wires them.
pub record Server : Type 0 where
  pub cfg : Option Config
  pub auth : Option Auth
  pub store : Option Store
  pub has_scanner : Bool
  pub has_inspector : Bool
  pub has_process : Bool
  pub self : ℤ
  pub user : Bytes
  pub snapshot : List PortVm

-- A header that is absent is empty. `form` is none when ParseForm fails; `cookie` is the value of the
-- first pm_session cookie that net/http accepts.
pub record Request : Type 0 where
  pub remote_addr : Bytes
  pub remote_host : Option Bytes
  pub authorization : Bytes
  pub requested_with : Bytes
  pub forwarded_for : Bytes
  pub cookie : Option Bytes
  pub form : Option (Bytes → Bytes)
  pub query_next : Bytes

-- How a context ends a scan: at its deadline, or otherwise.
pub data ScanFault : Type 0 where
  deadline other : ScanFault

-- `before` is the first scan of a mutation handler, `guard` the one of process.Kill, `after` the one
-- of `buildSnapshot`, and `expired` the error of its context when the rows are built, which it does by
-- `inspect_after` and at `shown_at`. `renders` tells whether html/template executes the named
-- template.
pub record World : Type 0 where
  pub checked_at : Time
  pub acted_at : Time
  pub shown_at : Time
  pub before : ScanFault ⊎ List Listener
  pub guard : Scan
  pub after : ScanFault ⊎ List Listener
  pub expired : Option ScanFault
  pub inspect : ℤ → Inspected
  pub inspect_after : ℤ → Inspected
  pub system : System
  pub launcher : Launcher
  pub faults : Faults
  pub entropy : Option Bytes
  pub whole_seconds : Duration → ℕ
  pub renders : Bytes → Bool

pub data Body : Type 0 where
  text : Bytes → Body
  login_page : (public_host : Bytes) → (next : Bytes) → (error : Bytes) → Body
  dashboard_page : (public_host : Bytes) → (low : ℤ) → (high : ℤ) → (user : Bytes) → Body
  ports_page : List PortVm → Body
  ports_json : List PortVm → Body
  no_body : Body

-- The headers that the handlers set, apart from Content-Type.
pub data Header : Type 0 where
  location hx_redirect scan_error session : Bytes → Header
  retry_after : ℕ → Header
  clear_session : Header

pub record Response : Type 0 where
  pub status : ℕ
  pub headers : List Header
  pub body : Body

-- What a request did: the state behind it, the signals it sent with the process id left for the
-- escalation, the child it started, and the response.
pub record Effect : Type 0 where
  pub server : Server
  pub sent : List Sent
  pub escalates : Option ℤ
  pub child : Option (Cmd × ℤ)
  pub response : Response

-- http.Error
abbrev pub plain : ℕ → Bytes → Response
plain code message = record { status = code; headers = []; body = Body.text message }

-- A response without any effect.
abbrev pub answer : Server → Response → Effect
answer s r = record { server = s; sent = []; escalates = none; child = none; response = r }

abbrev pub fail : Server → ℕ → Bytes → Effect
fail s code message = answer s (plain code message)
