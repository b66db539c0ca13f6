-- ===== src/Server/Snapshot.antt =====
-- The rows that are shown, and the cache of them: internal/server/ports_handler.go, and
-- writePortsFragment of mutation_handlers.go.
use my_home_index_server.Prelude.{◌⊎◌, inl, inr, not, Option, none, some, List, [], ◌∷◌}
use my_home_index_server.Prelude.Tests.{if◌then◌else◌}
use my_home_index_server.Prelude.Bytes.{Bytes, codes}
use my_home_index_server.Store.{Host}
use my_home_index_server.Process.{Listener}
use my_home_index_server.Model.{PortVm, build_view_models}
use my_home_index_server.Server.{Server, World, ScanFault, Body, Header, Response, Effect, answer}

unfoldable pub rows_built : World → List PortVm → Option ScanFault → ScanFault ⊎ List PortVm
rows_built w rows none = inr rows
rows_built w rows (some fault) = inl fault

unfoldable pub scanned_rows :
    Host → World → Server → ScanFault ⊎ List Listener → ScanFault ⊎ List PortVm
unfolding rows_built
scanned_rows host w s (inl fault) = inl fault
scanned_rows host w s (inr ls) =
    let insp = if s.has_inspector then some w.inspect_after else none in
    let rows = build_view_models host w.whole_seconds insp s.store s.self w.shown_at ls in
    rows_built w rows w.expired

-- `buildSnapshot`. The rows that it returns beside an error are not used.
unfoldable pub build_snapshot : Host → World → Server → ScanFault ⊎ List PortVm
unfolding scanned_rows
build_snapshot host w s = if not s.has_scanner then inr [] else scanned_rows host w s w.after

unfoldable pub fault_name : ScanFault → Bytes
fault_name ScanFault.deadline = codes "timeout"
fault_name ScanFault.other = codes "error"

-- The cache and the headers behind a snapshot, and the rows to show.
pub record Shown : Type 0 where
  pub server : Server
  pub rows : List PortVm
  pub headers : List Header

unfoldable pub shown : Server → ScanFault ⊎ List PortVm → Shown
unfolding fault_name
shown s (inl fault) = record {
  server = s;
  rows = s.snapshot;
  headers = Header.scan_error (fault_name fault) ∷ [];
}
shown s (inr rows) = record { server = record s { snapshot = rows }; rows = rows; headers = [] }

-- `writePortsFragment`, and `handlePortsHTML`, which has the same steps.
unfoldable pub write_ports_fragment : Host → World → Server → Effect
unfolding shown
write_ports_fragment host w s =
    let v = shown s (build_snapshot host w s) in
    let page : Response = record {
      status = 200;
      headers = v.headers;
      body = Body.ports_page v.rows;
    } in
    let broken : Response = record {
      status = 500;
      headers = v.headers;
      body = Body.text (codes "internal error");
    } in
    if w.renders (codes "_ports.html") then answer v.server page else answer v.server broken

-- `handlePortsJSON`
unfoldable pub handle_ports_json : Host → World → Server → Effect
unfolding shown
handle_ports_json host w s =
    let v = shown s (build_snapshot host w s) in
    let page : Response = record {
      status = 200;
      headers = v.headers;
      body = Body.ports_json v.rows;
    } in
    answer v.server page
