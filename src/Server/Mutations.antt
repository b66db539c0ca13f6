-- ===== src/Server/Mutations.antt =====
-- The handlers that act on processes and on the store, and those that list ports:
-- internal/server/mutation_handlers.go, handlers.go and ports_handler.go.
pub mod Resolving
pub mod Killing
pub mod Renaming
pub mod Keeps
use mathlib.Core.List.{map}
use my_home_index_server.Prelude.{
  ℕ, ◌⊎◌, inl, inr, Bool, true, false, not, ◌&&◌, Option, none, some, List, [], ◌∷◌,
}
use my_home_index_server.Prelude.Tests.{if◌then◌else◌}
use my_home_index_server.Prelude.Bytes.{Bytes, codes, is_empty, join}
use my_home_index_server.Prelude.Int.{ℤ, pos, int_eq, int_le}
use my_home_index_server.Prelude.Text.{atoi, trim_space}
use my_home_index_server.Store.{Store, Host, Remembered, StoreError}
use my_home_index_server.Store.Ops.{set_label, remember, all_remembered}
use my_home_index_server.Process.{Listener, ProcessError, Killed, Spawned, kill, restart}
use my_home_index_server.Model.{PortVm, build_view_models}
use my_home_index_server.Inspector.{ProcInfo, Inspected}
use my_home_index_server.Config.{Config}
use my_home_index_server.Server.{
  Server, Request, World, ScanFault, Body, Header, Response, Effect, plain, answer, fail,
}
use my_home_index_server.Server.Headers.{validate_label}
use my_home_index_server.Server.Snapshot.{
  rows_built, scanned_rows, build_snapshot, fault_name, Shown, shown, write_ports_fragment,
  handle_ports_json,
}

in_range : ℤ → Option Config → Bool
in_range p none = false
in_range p (some c) = int_le c.port_min p && int_le p c.port_max

-- `portInRange`
unfoldable pub port_in_range : Server → ℤ → Bool
unfolding in_range
port_in_range s p = in_range p s.cfg

-- The loop of `resolvePIDForPort`.
unfoldable pub pid_on : ℤ → List Listener → Option ℤ
pid_on port [] = none
pid_on port (l ∷ ls) = let rest = pid_on port ls in if int_eq l.port port then some l.pid else rest

-- The entry that a kill will leave in the store.
pending : ℤ → ProcInfo → Remembered
pending port info = record {
  id = [];
  port = port;
  command = info.command;
  cwd = info.cwd;
  env = info.env;
  killed_at = 0;
  label_key = [];
}

remembering : Host → World → Server → Option Store → Option Remembered → Server
remembering host w s none r = s
remembering host w s (some st) none = s
remembering host w s (some st) (some r) = record s {
  store = some (remember host w.faults w.acted_at w.entropy st r).0;
}

-- The entry for a process, when there is an inspector and it knows the process.
snapshot_of : World → Server → ℤ → ℤ → Option Remembered
unfolding pending
snapshot_of w s port pid =
    if s.has_inspector
    then elim (w.inspect pid).info [ none ↦ none | some info ↦ some (pending port info) ]
    else none

kill_error : Server → ProcessError → Effect
kill_error s ProcessError.self_pid = fail s 403 (codes "refusing to kill self")
kill_error s e = fail s 500 (codes "kill failed")

-- `handleKillMutation` behind `Kill`: only a kill that succeeded is remembered.
after_kill : Host → World → Server → Option Remembered → Killed → Option ProcessError → Effect
unfolding kill_error remembering
after_kill host w s entry k (some e) = record (kill_error s e) {
  sent = k.sent;
  escalates = k.escalates;
}
after_kill host w s entry k none =
    let next = remembering host w s s.store entry in
    record (write_ports_fragment host w next) { sent = k.sent; escalates = k.escalates }

kill_found : Host → World → Server → ℤ → Option ℤ → Effect
unfolding after_kill snapshot_of
kill_found host w s port none = fail s 404 (codes "no listener on port")
kill_found host w s port (some pid) =
    let k = kill s.self w.system w.guard (record { pid = pid; port = port }) in
    if int_eq pid s.self
    then fail s 403 (codes "refusing to kill self")
    else after_kill host w s (snapshot_of w s port pid) k k.error

kill_scanned : Host → World → Server → ℤ → ScanFault ⊎ List Listener → Effect
unfolding kill_found
kill_scanned host w s port (inl fault) = fail s 502 (codes "scan failed")
kill_scanned host w s port (inr ls) = kill_found host w s port (pid_on port ls)

-- The guards of the routes with a port: first its syntax, then its range.
unfoldable pub with_port : Server → Option ℤ → (ℤ → Effect) → Effect
with_port s none next = fail s 400 (codes "bad port")
with_port s (some port) next =
    if not (port_in_range s port) then fail s 400 (codes "port out of range") else next port

-- `handleKillMutation`
unfoldable pub handle_kill_mutation : Host → World → Bytes → Server → Effect
unfolding kill_scanned
handle_kill_mutation host w port s = with_port s (atoi port) (λ p.
    if not s.has_process
    then fail s 503 (codes "process manager not wired")
    else if not s.has_scanner
    then fail s 503 (codes "scanner not wired")
    else kill_scanned host w s p w.before)

-- `handleKill`
unfoldable pub handle_kill : Host → World → Bytes → Server → Effect
handle_kill host w port s = with_port s (atoi port) (λ p. handle_kill_mutation host w port s)

restarted : Server → Spawned → Option ProcessError → Effect
restarted s k none =
    let done : Response = record {
      status = 202;
      headers = [];
      body = Body.text (codes "restart dispatched");
    } in
    record (answer s done) { child = k.child }
restarted s k (some ProcessError.remembered_not_found) =
    fail s 404 (codes "remembered entry not found")
restarted s k (some e) = fail s 500 (codes "restart failed")

restart_stored : World → Server → Bytes → Option Store → Effect
unfolding restarted
restart_stored w s id none = fail s 503 (codes "store not wired")
restart_stored w s id (some st) = let k = restart w.launcher (some st) id in restarted s k k.error

-- `handleRestartMutation`
unfoldable pub handle_restart : World → Bytes → Server → Effect
unfolding restart_stored
handle_restart w raw s =
    let id = trim_space raw in
    if is_empty id
    then fail s 400 (codes "missing remembered id")
    else if not s.has_process
    then fail s 503 (codes "process manager not wired")
    else restart_stored w s id s.store

after_label : Host → World → Server → Store × Option StoreError → Effect
after_label host w s (st, none) = write_ports_fragment host w (record s { store = some st })
after_label host w s (st, some StoreError.label_too_long) =
    fail (record s { store = some st }) 400 (codes "label too long")
after_label host w s (st, some e) = fail (record s { store = some st }) 500 (codes "persist label")

rename_info : Host → World → Server → Store → Bytes → Option ProcInfo → Bool → Effect
unfolding after_label
rename_info host w s st label none failed = fail s 502 (codes "inspect failed")
rename_info host w s st label (some info) failed =
    if failed
    then fail s 502 (codes "inspect failed")
    else after_label host w s (set_label host w.faults w.acted_at st info.cwd info.command label)

rename_found : Host → World → Server → Store → Bytes → Option ℤ → Effect
unfolding rename_info
rename_found host w s st label none = fail s 404 (codes "no listener on port")
rename_found host w s st label (some pid) =
    let seen = w.inspect pid in rename_info host w s st label seen.info seen.failed

rename_scanned : Host → World → Server → Store → ℤ → Bytes → ScanFault ⊎ List Listener → Effect
unfolding rename_found
rename_scanned host w s st port label (inl fault) = fail s 502 (codes "scan failed")
rename_scanned host w s st port label (inr ls) = rename_found host w s st label (pid_on port ls)

rename_valid : Host → World → Server → Store → ℤ → Bytes → Option Bytes → Effect
unfolding rename_scanned
rename_valid host w s st port label (some message) = fail s 400 message
rename_valid host w s st port label none = rename_scanned host w s st port label w.before

rename_form : Host → World → Server → Store → ℤ → Option (Bytes → Bytes) → Effect
unfolding rename_valid
rename_form host w s st port none = fail s 400 (codes "bad form")
rename_form host w s st port (some form) =
    let label = form (codes "label") in rename_valid host w s st port label (validate_label label)

rename_stored : Host → World → Server → Request → ℤ → Option Store → Effect
unfolding rename_form
rename_stored host w s r port none = fail s 503 (codes "store not wired")
rename_stored host w s r port (some st) = rename_form host w s st port r.form

-- `handleRenameMutation`
unfoldable pub handle_rename_mutation : Host → World → Request → Bytes → Server → Effect
unfolding rename_stored
handle_rename_mutation host w r port s = with_port s (atoi port) (λ p.
    if not s.has_scanner
    then fail s 503 (codes "scanner not wired")
    else if not s.has_inspector
    then fail s 503 (codes "inspector not wired")
    else rename_stored host w s r p s.store)

-- `handleRename`
unfoldable pub handle_rename : Host → World → Request → Bytes → Server → Effect
handle_rename host w r port s =
    with_port s (atoi port) (λ p. handle_rename_mutation host w r port s)

-- The row of a remembered listener.
remembered_row : Remembered → PortVm
remembered_row e = record {
  port = e.port;
  label = [];
  cmd = join e.command (codes " ");
  cwd = e.cwd;
  uptime_s = 0;
  uptime = [];
  source = codes "remembered";
  pid = pos 0;
  listen_addrs = [];
  alive = false;
  remembered = true;
  remembered_id = e.id;
}

listed : World → Server → Option Store → Effect
unfolding remembered_row
listed w s none = fail s 503 (codes "store not wired")
listed w s (some st) =
    let page : Response = record {
      status = 200;
      headers = [];
      body = Body.ports_page (map remembered_row (all_remembered st));
    } in
    if w.renders (codes "_ports.html") then answer s page else fail s 500 (codes "internal error")

-- `handleRememberedList`. The error of `AllRemembered` is always nil.
unfoldable pub handle_remembered_list : World → Server → Effect
unfolding listed
handle_remembered_list w s = listed w s s.store
