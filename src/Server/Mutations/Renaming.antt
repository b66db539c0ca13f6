-- ===== src/Server/Mutations/Renaming.antt =====
-- What POST /rename/{port} can do to the store, behind the middleware.
use my_home_index_server.Prelude.{
  ℕ, ◌≡◌, ◌≤◌, refl, ◌⊎◌, ◌↔◌, inl, inr, Bool, true, false, Option, none, some, List, arith,
}
use my_home_index_server.Prelude.Tests.{Bool-cases, Option-cases}
use my_home_index_server.Prelude.Bytes.{Bytes, codes}
use my_home_index_server.Prelude.Int.{ℤ}
use my_home_index_server.Prelude.Text.{atoi}
use my_home_index_server.Prelude.Utf8.{runes, rune_count}
use my_home_index_server.Store.{Store, Host, StoreError, max_label_len}
use my_home_index_server.Store.Ops.{set_label}
use my_home_index_server.Process.{Listener}
use my_home_index_server.Model.{PortVm}
use my_home_index_server.Inspector.{ProcInfo}
use my_home_index_server.Server.{Server, Request, World, ScanFault, Effect, fail}
use my_home_index_server.Server.Headers.{validate_label, any_control}
use my_home_index_server.Server.Mutations.{
  port_in_range, pid_on, with_port, after_label, rename_info, rename_found, rename_scanned,
  rename_valid, rename_form, rename_stored, handle_rename_mutation, handle_rename,
}
use my_home_index_server.Server.Mutations.Resolving.{FirstOn, pid_on-FirstOn}
use my_home_index_server.Server.Snapshot.{shown, build_snapshot, write_ports_fragment}

-- The one call of the store that a request has made.
pub record Renamed (host : Host) (w : World) (s : Server) (r : Request) (path_port : Bytes)
    (e : Effect) : Type 0 where
  pub st : Store
  pub was : s.store ≡ some st
  pub form : Bytes → Bytes
  pub parsed : r.form ≡ some form
  pub label_ok : validate_label (form (codes "label")) ≡ none
  pub port : ℤ
  pub named : atoi path_port ≡ some port
  pub ranged : port_in_range s port ≡ true
  pub listeners : List Listener
  pub scan : w.before ≡ inr listeners
  pub pid : ℤ
  pub resolved : FirstOn port pid listeners
  pub info : ProcInfo
  pub inspected : (w.inspect pid).info ≡ some info
  pub store_is :
      e.server.store
      ≡ some (set_label host w.faults w.acted_at st info.cwd info.command (form (codes "label"))).0

pub data RenameReport (host : Host) (w : World) (s : Server) (r : Request) (path_port : Bytes)
    (e : Effect) : Type 0 where
  unchanged : e.server ≡ s → 400 ≤ e.response.status → RenameReport host w s r path_port e
  renamed : Renamed host w s r path_port e → RenameReport host w s r path_port e

module _ (host : Host) (w : World) (s : Server) (r : Request) (path_port : Bytes) where
  failed : (code : ℕ) (m : Bytes) → 400 ≤ code → RenameReport host w s r path_port (fail s code m)
  failed code m h = RenameReport.unchanged refl h

  shown-store : (t : Server) (x : ScanFault ⊎ List PortVm) → (shown t x).server.store ≡ t.store
  unfolding shown
  shown-store t (inl fault) = refl
  shown-store t (inr rows) = refl

  fragment-store : (t : Server) → (write_ports_fragment host w t).server.store ≡ t.store
  unfolding write_ports_fragment
  fragment-store t = elim (Bool-cases (w.renders (codes "_ports.html"))) [
    | inl ok ↦ rw ok (shown-store t (build_snapshot host w t))
    | inr broken ↦ rw broken (shown-store t (build_snapshot host w t))
  ]

  after_label-store :
      (x : Store × Option StoreError) → (after_label host w s x).server.store ≡ some x.0
  unfolding after_label
  after_label-store (st, none) = fragment-store (record s { store = some st })
  after_label-store (st, some e) = ground arith

  -- The store, the form and the port are known: what is left is the scan and the inspection.
  module _ (st : Store) (was : s.store ≡ some st) (form : Bytes → Bytes)
      (parsed : r.form ≡ some form) (label_ok : validate_label (form (codes "label")) ≡ none)
      (port : ℤ) (named : atoi path_port ≡ some port) (ranged : port_in_range s port ≡ true) where
    rename_info-RenameReport :
        (ls : List Listener)
        → w.before ≡ inr ls
        → (pid : ℤ) → pid_on port ls ≡ some pid
        → (o : Option ProcInfo) → (w.inspect pid).info ≡ o
        → (bad : Bool)
        → RenameReport host w s r path_port (rename_info host w s st (form (codes "label")) o bad)
    unfolding rename_info
    rename_info-RenameReport ls scan pid found none e bad =
        failed 502 (codes "inspect failed") (omega arith)
    rename_info-RenameReport ls scan pid found (some info) e true =
        failed 502 (codes "inspect failed") (omega arith)
    rename_info-RenameReport ls scan pid found (some info) e false = RenameReport.renamed (record {
      st = st;
      was = was;
      form = form;
      parsed = parsed;
      label_ok = label_ok;
      port = port;
      named = named;
      ranged = ranged;
      listeners = ls;
      scan = scan;
      pid = pid;
      resolved = pid_on-FirstOn port pid ls found;
      info = info;
      inspected = e;
      store_is =
          after_label-store
            (set_label host w.faults w.acted_at st info.cwd info.command (form (codes "label")));
    })

    rename_found-RenameReport :
        (ls : List Listener)
        → w.before ≡ inr ls
        → (o : Option ℤ) → pid_on port ls ≡ o
        → RenameReport host w s r path_port (rename_found host w s st (form (codes "label")) o)
    unfolding rename_found
    rename_found-RenameReport ls scan none e =
        failed 404 (codes "no listener on port") (omega arith)
    rename_found-RenameReport ls scan (some pid) e =
        rename_info-RenameReport ls scan pid e (w.inspect pid).info refl (w.inspect pid).failed

    rename_scanned-RenameReport :
        (x : ScanFault ⊎ List Listener)
        → w.before ≡ x
        → RenameReport host w s r path_port
            (rename_scanned host w s st port (form (codes "label")) x)
    unfolding rename_scanned
    rename_scanned-RenameReport (inl fault) e = failed 502 (codes "scan failed") (omega arith)
    rename_scanned-RenameReport (inr ls) e = rename_found-RenameReport ls e (pid_on port ls) refl

  rename_valid-RenameReport :
      (st : Store)
      → s.store ≡ some st
      → (form : Bytes → Bytes) → r.form ≡ some form
      → (port : ℤ) → atoi path_port ≡ some port
      → port_in_range s port ≡ true
      → (o : Option Bytes) → validate_label (form (codes "label")) ≡ o
      → RenameReport host w s r path_port (rename_valid host w s st port (form (codes "label")) o)
  unfolding rename_valid
  rename_valid-RenameReport st was form parsed port named ranged (some m) e =
      failed 400 m (omega arith)
  rename_valid-RenameReport st was form parsed port named ranged none e =
      rename_scanned-RenameReport st was form parsed e port named ranged w.before refl

  rename_form-RenameReport :
      (st : Store)
      → s.store ≡ some st
      → (port : ℤ) → atoi path_port ≡ some port
      → port_in_range s port ≡ true
      → (o : Option (Bytes → Bytes)) → r.form ≡ o
      → RenameReport host w s r path_port (rename_form host w s st port o)
  unfolding rename_form
  rename_form-RenameReport st was port named ranged none e =
      failed 400 (codes "bad form") (omega arith)
  rename_form-RenameReport st was port named ranged (some form) e =
      rename_valid-RenameReport st was form e port named ranged
        (validate_label (form (codes "label"))) refl

  rename_stored-RenameReport :
      (port : ℤ)
      → atoi path_port ≡ some port
      → port_in_range s port ≡ true
      → (o : Option Store) → s.store ≡ o
      → RenameReport host w s r path_port (rename_stored host w s r port o)
  unfolding rename_stored
  rename_stored-RenameReport port named ranged none e =
      failed 503 (codes "store not wired") (omega arith)
  rename_stored-RenameReport port named ranged (some st) e =
      rename_form-RenameReport st e port named ranged r.form refl

-- `POST /rename/{port}` either calls `SetLabel`, for the directory and the argv of the process
-- of the first listener on that port in its own scan, the port being in the configured range and the label in the form valid;
-- or it answers with a status of 400 or more and leaves the state as it was.
pub handle_rename-RenameReport :
    (host : Host) (w : World) (r : Request) (path_port : Bytes) (s : Server)
    → RenameReport host w s r path_port (handle_rename host w r path_port s)
unfolding handle_rename handle_rename_mutation with_port
handle_rename-RenameReport host w r path_port s = elim (Option-cases (atoi path_port)) [
  | inl e ↦ simp e (failed host w s r path_port 400 (codes "bad port") (omega arith))
  | inr (port, e) ↦ elim (Bool-cases (port_in_range s port)) [
    | inr out ↦
        simp (e, out) (failed host w s r path_port 400 (codes "port out of range") (omega arith))
    | inl within ↦ elim (Bool-cases s.has_scanner) [
      | inr missing ↦
          simp (e, within, missing)
            (failed host w s r path_port 503 (codes "scanner not wired") (omega arith))
      | inl scanner ↦ elim (Bool-cases s.has_inspector) [
        | inr missing ↦
            simp (e, within, scanner, missing)
              (failed host w s r path_port 503 (codes "inspector not wired") (omega arith))
        | inl inspector ↦
            simp (e, within, scanner, inspector)
              (rename_stored-RenameReport host w s r path_port port e within s.store refl)
      ]
    ]
  ]
]

-- A label is valid exactly when it has at most 64 runes and none of them is a control character.
pub validate_label_iff :
    (v : Bytes)
    → (validate_label v ≡ none) ↔ ((rune_count v ≤ max_label_len) × (any_control (runes v) ≡ false))
unfolding validate_label rune_count runes any_control
validate_label_iff v = ground arith
