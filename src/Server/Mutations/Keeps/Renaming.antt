-- ===== src/Server/Mutations/Keeps/Renaming.antt =====
-- The handler of a rename keeps the invariants of the server.
use my_home_index_server.Prelude.{◌⊎◌, inl, inr, Bool, not, Option, none, some, List, arith}
use my_home_index_server.Prelude.Tests.{if◌then◌else◌}
use my_home_index_server.Prelude.Bytes.{Bytes, codes}
use my_home_index_server.Prelude.Int.{ℤ}
use my_home_index_server.Prelude.Text.{atoi}
use my_home_index_server.Store.{Store, Host, StoreError}
use my_home_index_server.Store.Ops.{set_label}
use my_home_index_server.Store.Ops.Invariant.{IsValid, set_label-IsValid}
use my_home_index_server.Process.{Listener}
use my_home_index_server.Inspector.{ProcInfo}
use my_home_index_server.Server.{Server, Request, World, ScanFault, fail}
use my_home_index_server.Server.Sound.{StoreIsValid, IsSound, if-IsSound}
use my_home_index_server.Server.Headers.{validate_label}
use my_home_index_server.Server.Mutations.{
  after_label, rename_info, rename_found, rename_scanned, rename_valid, rename_form, rename_stored,
  handle_rename_mutation, handle_rename, pid_on,
}
use my_home_index_server.Server.Mutations.Keeps.{
  write_ports_fragment-IsSound, with_port-IsSound, wired-IsSound,
}

after_label-IsSound :
    (host : Host) (w : World) (s : Server) (x : Store × Option StoreError)
    → IsSound s
    → IsValid x.0.content
    → IsSound (after_label host w s x).server
unfolding after_label
after_label-IsSound host w s (st, none) v h =
    write_ports_fragment-IsSound host w (record s { store = some st })
      (record { bounded = v.bounded; valid = h })
after_label-IsSound host w s (st, some e) v h =
    let after : IsSound (record s { store = some st }) = record {
      bounded = v.bounded;
      valid = h;
    } in
    ground arith

rename_info-IsSound :
    (host : Host) (w : World) (s : Server) (st : Store) (label : Bytes) (o : Option ProcInfo)
    (failed : Bool)
    → IsSound s
    → IsValid st.content
    → IsSound (rename_info host w s st label o failed).server
unfolding rename_info
rename_info-IsSound host w s st label none failed v h = v
rename_info-IsSound host w s st label (some info) failed v h =
    let set = set_label host w.faults w.acted_at st info.cwd info.command label in
    if-IsSound failed (fail s 502 (codes "inspect failed")) (after_label host w s set) v (
      after_label-IsSound host w s set v
        (set_label-IsValid host w.faults w.acted_at st info.cwd info.command label h))

rename_found-IsSound :
    (host : Host) (w : World) (s : Server) (st : Store) (label : Bytes) (o : Option ℤ)
    → IsSound s
    → IsValid st.content
    → IsSound (rename_found host w s st label o).server
unfolding rename_found
rename_found-IsSound host w s st label none v h = v
rename_found-IsSound host w s st label (some pid) v h =
    rename_info-IsSound host w s st label (w.inspect pid).info (w.inspect pid).failed v h

rename_scanned-IsSound :
    (host : Host) (w : World) (s : Server) (st : Store) (port : ℤ) (label : Bytes)
    (x : ScanFault ⊎ List Listener)
    → IsSound s
    → IsValid st.content
    → IsSound (rename_scanned host w s st port label x).server
unfolding rename_scanned
rename_scanned-IsSound host w s st port label (inl fault) v h = v
rename_scanned-IsSound host w s st port label (inr ls) v h =
    rename_found-IsSound host w s st label (pid_on port ls) v h

rename_valid-IsSound :
    (host : Host) (w : World) (s : Server) (st : Store) (port : ℤ) (label : Bytes)
    (o : Option Bytes)
    → IsSound s
    → IsValid st.content
    → IsSound (rename_valid host w s st port label o).server
unfolding rename_valid
rename_valid-IsSound host w s st port label (some message) v h = v
rename_valid-IsSound host w s st port label none v h =
    rename_scanned-IsSound host w s st port label w.before v h

rename_form-IsSound :
    (host : Host) (w : World) (s : Server) (st : Store) (port : ℤ) (o : Option (Bytes → Bytes))
    → IsSound s
    → IsValid st.content
    → IsSound (rename_form host w s st port o).server
unfolding rename_form
rename_form-IsSound host w s st port none v h = v
rename_form-IsSound host w s st port (some form) v h =
    let label = form (codes "label") in
    rename_valid-IsSound host w s st port label (validate_label label) v h

rename_stored-IsSound :
    (host : Host) (w : World) (s : Server) (r : Request) (port : ℤ) (o : Option Store)
    → IsSound s
    → StoreIsValid o
    → IsSound (rename_stored host w s r port o).server
unfolding rename_stored
rename_stored-IsSound host w s r port none v h = v
rename_stored-IsSound host w s r port (some st) v h =
    rename_form-IsSound host w s st port r.form v h

handle_rename_mutation-IsSound :
    (host : Host) (w : World) (r : Request) (port : Bytes) (s : Server)
    → IsSound s
    → IsSound (handle_rename_mutation host w r port s).server
unfolding handle_rename_mutation
handle_rename_mutation-IsSound host w r port s v =
    with_port-IsSound s (atoi port)
      (λ p.
        if not s.has_scanner
        then fail s 503 (codes "scanner not wired")
        else if not s.has_inspector
        then fail s 503 (codes "inspector not wired")
        else rename_stored host w s r p s.store)
      v
      (λ p.
        wired-IsSound s.has_scanner s.has_inspector s (codes "scanner not wired")
          (codes "inspector not wired") (rename_stored host w s r p s.store) v
          (rename_stored-IsSound host w s r p s.store v v.valid))

pub handle_rename-IsSound :
    (host : Host) (w : World) (r : Request) (port : Bytes) (s : Server)
    → IsSound s
    → IsSound (handle_rename host w r port s).server
unfolding handle_rename
handle_rename-IsSound host w r port s v =
    with_port-IsSound s (atoi port) (λ p. handle_rename_mutation host w r port s) v
      (λ p. handle_rename_mutation-IsSound host w r port s v)
