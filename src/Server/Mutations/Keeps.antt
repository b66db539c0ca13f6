-- ===== src/Server/Mutations/Keeps.antt =====
-- The handlers keep the invariants of the server.
pub mod Renaming
use my_home_index_server.Prelude.{◌⊎◌, inl, inr, Bool, not, Option, none, some, List, arith}
use my_home_index_server.Prelude.Tests.{Bool-cases, if◌then◌else◌}
use my_home_index_server.Prelude.Bytes.{Bytes, codes, is_empty}
use my_home_index_server.Prelude.Int.{ℤ, int_eq}
use my_home_index_server.Prelude.Text.{atoi, trim_space}
use my_home_index_server.Store.{Store, Host, Remembered, StoreError}
use my_home_index_server.Store.Ops.{set_label}
use my_home_index_server.Store.Ops.Invariant.{IsValid, set_label-IsValid, remember-IsValid}
use my_home_index_server.Process.{Listener, Killed, Spawned, ProcessError, kill, restart}
use my_home_index_server.Model.{PortVm}
use my_home_index_server.Inspector.{ProcInfo}
use my_home_index_server.Server.{Server, Request, World, ScanFault, Effect, fail}
use my_home_index_server.Server.Sound.{StoreIsValid, IsSound, if-IsSound}
use my_home_index_server.Server.Headers.{validate_label}
use my_home_index_server.Server.Mutations.{
  remembering, kill_error, after_kill, kill_found, kill_scanned, with_port, handle_kill_mutation,
  handle_kill, restarted, restart_stored, handle_restart, after_label, rename_info, rename_found,
  rename_scanned, rename_valid, rename_form, rename_stored, handle_rename_mutation, handle_rename,
  listed, handle_remembered_list, snapshot_of, pid_on, port_in_range,
}
use my_home_index_server.Server.Snapshot.{
  shown, build_snapshot, write_ports_fragment, handle_ports_json,
}

shown-IsSound : (s : Server) (x : ScanFault ⊎ List PortVm) → IsSound s → IsSound (shown s x).server
unfolding shown
shown-IsSound s (inl fault) v = v
shown-IsSound s (inr rows) v = record { bounded = v.bounded; valid = v.valid }

pub write_ports_fragment-IsSound :
    (host : Host) (w : World) (s : Server)
    → IsSound s
    → IsSound (write_ports_fragment host w s).server
unfolding write_ports_fragment
write_ports_fragment-IsSound host w s v =
    let after = shown-IsSound s (build_snapshot host w s) v in
    elim (Bool-cases (w.renders (codes "_ports.html"))) [
      | inl ok ↦ rw ok after
      | inr broken ↦ rw broken after
    ]

pub handle_ports_json-IsSound :
    (host : Host) (w : World) (s : Server) → IsSound s → IsSound (handle_ports_json host w s).server
unfolding handle_ports_json
handle_ports_json-IsSound host w s v = shown-IsSound s (build_snapshot host w s) v

remembering-IsSound :
    (host : Host) (w : World) (s : Server) (st : Option Store) (r : Option Remembered)
    → IsSound s
    → StoreIsValid st
    → IsSound (remembering host w s st r)
unfolding remembering
remembering-IsSound host w s none r v h = v
remembering-IsSound host w s (some st) none v h = v
remembering-IsSound host w s (some st) (some r) v h = record {
  bounded = v.bounded;
  valid = remember-IsValid host w.faults w.acted_at w.entropy st r h;
}

kill_error-IsSound : (s : Server) (e : ProcessError) → IsSound s → IsSound (kill_error s e).server
unfolding kill_error
kill_error-IsSound s e v = ground arith

after_kill-IsSound :
    (host : Host) (w : World) (s : Server) (entry : Option Remembered) (k : Killed)
    (e : Option ProcessError)
    → IsSound s
    → IsSound (after_kill host w s entry k e).server
unfolding after_kill
after_kill-IsSound host w s entry k (some e) v = kill_error-IsSound s e v
after_kill-IsSound host w s entry k none v =
    write_ports_fragment-IsSound host w (remembering host w s s.store entry)
      (remembering-IsSound host w s s.store entry v v.valid)

with_port-IsSound :
    (s : Server) (o : Option ℤ) (next : ℤ → Effect)
    → IsSound s
    → ((p : ℤ) → IsSound (next p).server)
    → IsSound (with_port s o next).server
unfolding with_port
with_port-IsSound s none next v h = v
with_port-IsSound s (some p) next v h =
    if-IsSound (not (port_in_range s p)) (fail s 400 (codes "port out of range")) (next p) v (h p)

kill_found-IsSound :
    (host : Host) (w : World) (s : Server) (port : ℤ) (o : Option ℤ)
    → IsSound s
    → IsSound (kill_found host w s port o).server
unfolding kill_found
kill_found-IsSound host w s port none v = v
kill_found-IsSound host w s port (some pid) v =
    let k = kill s.self w.system w.guard (record { pid = pid; port = port }) in
    if-IsSound (int_eq pid s.self) (fail s 403 (codes "refusing to kill self"))
      (after_kill host w s (snapshot_of w s port pid) k k.error) v
      (after_kill-IsSound host w s (snapshot_of w s port pid) k k.error v)

kill_scanned-IsSound :
    (host : Host) (w : World) (s : Server) (port : ℤ) (x : ScanFault ⊎ List Listener)
    → IsSound s
    → IsSound (kill_scanned host w s port x).server
unfolding kill_scanned
kill_scanned-IsSound host w s port (inl fault) v = v
kill_scanned-IsSound host w s port (inr ls) v = kill_found-IsSound host w s port (pid_on port ls) v

-- Two guards on what the server has, and what lies behind them.
wired-IsSound :
    (b c : Bool) (s : Server) (message message' : Bytes) (e : Effect)
    → IsSound s
    → IsSound e.server
    → IsSound
        (if not b then fail s 503 message else if not c then fail s 503 message' else e).server
wired-IsSound b c s message message' e v h =
    if-IsSound (not b) (fail s 503 message) (if not c then fail s 503 message' else e) v
      (if-IsSound (not c) (fail s 503 message') e v h)

pub handle_kill_mutation-IsSound :
    (host : Host) (w : World) (port : Bytes) (s : Server)
    → IsSound s
    → IsSound (handle_kill_mutation host w port s).server
unfolding handle_kill_mutation
handle_kill_mutation-IsSound host w port s v =
    with_port-IsSound s (atoi port)
      (λ p.
        if not s.has_process
        then fail s 503 (codes "process manager not wired")
        else if not s.has_scanner
        then fail s 503 (codes "scanner not wired")
        else kill_scanned host w s p w.before)
      v
      (λ p.
        wired-IsSound s.has_process s.has_scanner s (codes "process manager not wired")
          (codes "scanner not wired") (kill_scanned host w s p w.before) v
          (kill_scanned-IsSound host w s p w.before v))

pub handle_kill-IsSound :
    (host : Host) (w : World) (port : Bytes) (s : Server)
    → IsSound s
    → IsSound (handle_kill host w port s).server
unfolding handle_kill
handle_kill-IsSound host w port s v =
    with_port-IsSound s (atoi port) (λ p. handle_kill_mutation host w port s) v
      (λ p. handle_kill_mutation-IsSound host w port s v)

restarted-IsSound :
    (s : Server) (k : Spawned) (e : Option ProcessError)
    → IsSound s
    → IsSound (restarted s k e).server
unfolding restarted
restarted-IsSound s k e v = ground arith

restart_stored-IsSound :
    (w : World) (s : Server) (id : Bytes) (o : Option Store)
    → IsSound s
    → IsSound (restart_stored w s id o).server
unfolding restart_stored
restart_stored-IsSound w s id none v = v
restart_stored-IsSound w s id (some st) v =
    let k = restart w.launcher (some st) id in restarted-IsSound s k k.error v

pub handle_restart-IsSound :
    (w : World) (raw : Bytes) (s : Server) → IsSound s → IsSound (handle_restart w raw s).server
unfolding handle_restart
handle_restart-IsSound w raw s v =
    let id = trim_space raw in
    let rest =
      if not s.has_process
      then fail s 503 (codes "process manager not wired")
      else restart_stored w s id s.store in
    if-IsSound (is_empty id) (fail s 400 (codes "missing remembered id")) rest v (
      if-IsSound (not s.has_process) (fail s 503 (codes "process manager not wired"))
        (restart_stored w s id s.store) v (restart_stored-IsSound w s id s.store v))

listed-IsSound :
    (w : World) (s : Server) (o : Option Store) → IsSound s → IsSound (listed w s o).server
unfolding listed
listed-IsSound w s none v = v
listed-IsSound w s (some st) v = ground arith

pub handle_remembered_list-IsSound :
    (w : World) (s : Server) → IsSound s → IsSound (handle_remembered_list w s).server
unfolding handle_remembered_list
handle_remembered_list-IsSound w s v = listed-IsSound w s s.store v
