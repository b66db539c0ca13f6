-- ===== src/Server/Mutations/Killing.antt =====
-- What POST /kill/{port} can do, behind the middleware.
use my_home_index_server.Prelude.{
  ℕ, ◌≡◌, ◌≤◌, refl, ◌⊎◌, inl, inr, true, Option, none, some, List, [], ◌∷◌, arith,
}
use my_home_index_server.Prelude.Tests.{Bool-cases, Option-cases}
use my_home_index_server.Prelude.Bytes.{Bytes, codes}
use my_home_index_server.Prelude.Int.{ℤ, int_eq}
use my_home_index_server.Prelude.Text.{atoi}
use my_home_index_server.Store.{Host, Remembered}
use my_home_index_server.Process.{Listener, Target, Signal, Killed, kill}
use my_home_index_server.Process.Guards.{Outcome, Permitted, kill-Outcome}
use my_home_index_server.Server.{Server, World, ScanFault, Effect, fail}
use my_home_index_server.Server.Mutations.{
  port_in_range, pid_on, with_port, kill_error, after_kill, kill_found, kill_scanned, snapshot_of,
  handle_kill_mutation, handle_kill, remembering,
}
use my_home_index_server.Server.Mutations.Resolving.{FirstOn, pid_on-FirstOn}
use my_home_index_server.Server.Snapshot.{write_ports_fragment}

-- Nothing was changed and nothing was done to any process.
pub record Idle (s : Server) (e : Effect) : Type 0 where
  pub server_same : e.server ≡ s
  pub unsent : e.sent ≡ []
  pub no_escalation : e.escalates ≡ none
  pub childless : e.child ≡ none

-- The one process that a request has signalled.
pub record Terminated (w : World) (s : Server) (path_port : Bytes) (e : Effect) : Type 0 where
  pub port : ℤ
  pub parsed : atoi path_port ≡ some port
  pub ranged : port_in_range s port ≡ true
  pub listeners : List Listener
  pub scan : w.before ≡ inr listeners
  pub pid : ℤ
  pub resolved : FirstOn port pid listeners
  pub permitted : Permitted s.self w.guard pid
  pub sent_is : e.sent ≡ record { pid = pid; signal = Signal.sigterm } ∷ []
  pub escalates_is : e.escalates ≡ some pid
  pub childless : e.child ≡ none

pub data Report (w : World) (s : Server) (path_port : Bytes) (e : Effect) : Type 0 where
  idle : Idle s e → 400 ≤ e.response.status → Report w s path_port e
  terminated : Terminated w s path_port e → Report w s path_port e

idle_fail :
    (w : World) (s : Server) (path_port : Bytes) (code : ℕ) (message : Bytes)
    → 400 ≤ code
    → Report w s path_port (fail s code message)
idle_fail w s path_port code message h =
    Report.idle
      (record { server_same = refl; unsent = refl; no_escalation = refl; childless = refl }) h

-- What is known when a process is found on a port in range.
record Resolved (w : World) (s : Server) (path_port : Bytes) (port pid : ℤ) : Type 0 where
  parsed : atoi path_port ≡ some port
  ranged : port_in_range s port ≡ true
  listeners : List Listener
  scan : w.before ≡ inr listeners
  resolved : FirstOn port pid listeners

fragment_childless :
    (host : Host) (w : World) (s : Server) → (write_ports_fragment host w s).child ≡ none
unfolding write_ports_fragment
fragment_childless host w s = ground arith

after_kill-Report :
    (host : Host) (w : World) (s : Server) (path_port : Bytes) (port pid : ℤ)
    (entry : Option Remembered) (k : Killed)
    → Resolved w s path_port port pid
    → Outcome s.self w.system w.guard pid k
    → Report w s path_port (after_kill host w s entry k k.error)
unfolding after_kill kill_error
after_kill-Report host w s path_port port pid entry k known (Outcome.is_self a) =
    idle_fail w s path_port 403 (codes "refusing to kill self") (omega arith)
after_kill-Report host w s path_port port pid entry k known (Outcome.reserved a b) =
    idle_fail w s path_port 500 (codes "kill failed") (omega arith)
after_kill-Report host w s path_port port pid entry k known (Outcome.no_scanner a b) =
    idle_fail w s path_port 500 (codes "kill failed") (omega arith)
after_kill-Report host w s path_port port pid entry k known (Outcome.scan_error a b) =
    idle_fail w s path_port 500 (codes "kill failed") (omega arith)
after_kill-Report host w s path_port port pid entry k known (Outcome.not_live a ls b c) =
    idle_fail w s path_port 500 (codes "kill failed") (omega arith)
after_kill-Report host w s path_port port pid entry k known (Outcome.not_found a b) =
    idle_fail w s path_port 500 (codes "kill failed") (omega arith)
after_kill-Report host w s path_port port pid entry k known (Outcome.undelivered a b c) =
    idle_fail w s path_port 500 (codes "kill failed") (omega arith)
after_kill-Report host w s path_port port pid entry k known (Outcome.terminated ok b c) =
    Report.terminated (record {
      port = port;
      parsed = known.parsed;
      ranged = known.ranged;
      listeners = known.listeners;
      scan = known.scan;
      pid = pid;
      resolved = known.resolved;
      permitted = ok;
      sent_is = refl;
      escalates_is = refl;
      childless = fragment_childless host w (remembering host w s s.store entry);
    })

kill_scanned-Report :
    (host : Host) (w : World) (s : Server) (path_port : Bytes) (port : ℤ)
    → atoi path_port ≡ some port
    → port_in_range s port ≡ true
    → (found : ScanFault ⊎ List Listener) → w.before ≡ found
    → Report w s path_port (kill_scanned host w s port found)
unfolding kill_scanned kill_found
kill_scanned-Report host w s path_port port a b (inl fault) h =
    idle_fail w s path_port 502 (codes "scan failed") (omega arith)
kill_scanned-Report host w s path_port port a b (inr ls) h = elim (Option-cases (pid_on port ls)) [
  | inl e ↦ rw e (idle_fail w s path_port 404 (codes "no listener on port") (omega arith))
  | inr (pid, e) ↦ elim (Bool-cases (int_eq pid s.self)) [
    | inl same ↦
        rw (e, same) (idle_fail w s path_port 403 (codes "refusing to kill self") (omega arith))
    | inr other ↦
        let known : Resolved w s path_port port pid = record {
          parsed = a;
          ranged = b;
          listeners = ls;
          scan = h;
          resolved = pid_on-FirstOn port pid ls e;
        } in
        let target : Target = record { pid = pid; port = port } in
        rw (e, other)
          (after_kill-Report host w s path_port port pid (snapshot_of w s port pid)
            (kill s.self w.system w.guard target) known
            (kill-Outcome s.self w.system w.guard target))
  ]
]

-- `POST /kill/{port}` either sends one SIGTERM, to the process of the first listener on that port in
-- the handler's own scan, the port being in the configured range and the process permitted to `Kill`; or it answers
-- with a status of 400 or more, changes nothing, remembers nothing and signals nobody.
pub handle_kill-Report :
    (host : Host) (w : World) (path_port : Bytes) (s : Server)
    → Report w s path_port (handle_kill host w path_port s)
unfolding handle_kill handle_kill_mutation with_port
handle_kill-Report host w path_port s = elim (Option-cases (atoi path_port)) [
  | inl e ↦ rw e (idle_fail w s path_port 400 (codes "bad port") (omega arith))
  | inr (port, e) ↦ elim (Bool-cases (port_in_range s port)) [
    | inr out ↦ rw (e, out) (idle_fail w s path_port 400 (codes "port out of range") (omega arith))
    | inl within ↦ elim (Bool-cases s.has_process) [
      | inr missing ↦
          simp (e, within, missing)
            (idle_fail w s path_port 503 (codes "process manager not wired") (omega arith))
      | inl manager ↦ elim (Bool-cases s.has_scanner) [
        | inr missing ↦
            simp (e, within, manager, missing)
              (idle_fail w s path_port 503 (codes "scanner not wired") (omega arith))
        | inl scanner ↦
            simp (e, within, manager, scanner)
              (kill_scanned-Report host w s path_port port e within w.before refl)
      ]
    ]
  ]
]
