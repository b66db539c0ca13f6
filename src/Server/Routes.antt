-- ===== src/Server/Routes.antt =====
-- The routes of internal/server/router.go, behind the logging and recovery that change no state.
pub mod Guarded
pub mod Soundness
use my_home_index_server.Prelude.Bytes.{Bytes}
use my_home_index_server.Auth.{Crypto}
use my_home_index_server.Store.{Host}
use my_home_index_server.Prelude.Bytes.{codes}
use my_home_index_server.Prelude.{[]}
use my_home_index_server.Server.{Server, Request, World, Body, Effect, plain, answer}
use my_home_index_server.Server.Access.{
  AuthKind, require_auth, require_auth_or_redirect, with_csrf, with_rate_limit, handle_login_get,
  handle_login_post, handle_logout, handle_dashboard,
}
use my_home_index_server.Server.Mutations.{
  handle_kill, handle_restart, handle_rename, handle_remembered_list,
}
use my_home_index_server.Server.Snapshot.{write_ports_fragment, handle_ports_json}

-- The patterns of the mux apart from GET /static/, with the value of the path's variable.
pub data Route : Type 0 where
  healthz login_get login_post logout dashboard ports ports_json remembered : Route
  kill restart rename : Bytes → Route

-- `buildHandler`
unfoldable pub serve : Crypto → Host → World → Server → Request → Route → Effect
serve crypto host w s r Route.healthz = answer s (plain 200 (codes "ok"))
serve crypto host w s r Route.login_get = handle_login_get crypto w r s
serve crypto host w s r Route.login_post = with_rate_limit w s r (handle_login_post crypto w r)
serve crypto host w s r Route.logout =
    require_auth crypto w s r (with_csrf s r (λ k. handle_logout r s))
serve crypto host w s r Route.dashboard =
    require_auth_or_redirect crypto w s r (λ k. handle_dashboard w s)
serve crypto host w s r (Route.kill port) =
    require_auth crypto w s r (with_csrf s r (λ k. handle_kill host w port s))
serve crypto host w s r (Route.restart id) =
    require_auth crypto w s r (with_csrf s r (λ k. handle_restart w id s))
serve crypto host w s r (Route.rename port) =
    require_auth crypto w s r (with_csrf s r (λ k. handle_rename host w r port s))
serve crypto host w s r Route.ports = require_auth crypto w s r (λ k. write_ports_fragment host w s)
serve crypto host w s r Route.ports_json =
    require_auth crypto w s r (λ k. handle_ports_json host w s)
serve crypto host w s r Route.remembered =
    require_auth crypto w s r (λ k. handle_remembered_list w s)
