-- ===== src/Server/Routes/Soundness.antt =====
-- Any sequence of requests keeps the invariants of the server.
use my_home_index_server.Prelude.{List, [], ◌∷◌}
use my_home_index_server.Auth.{Crypto}
use my_home_index_server.Store.{Host}
use my_home_index_server.Server.{Server, Request, World, Effect}
use my_home_index_server.Server.Sound.{IsSound}
use my_home_index_server.Server.Access.{
  require_auth, with_csrf, handle_login_post, handle_logout, handle_dashboard,
}
use my_home_index_server.Server.Access.Keeps.{
  require_auth-IsSound, require_auth_or_redirect-IsSound, with_csrf-IsSound,
  with_rate_limit-IsSound, handle_login_post-IsSound, handle_login_get-IsSound,
  handle_dashboard-IsSound,
}
use my_home_index_server.Server.Mutations.{
  handle_kill, handle_restart, handle_rename, handle_remembered_list,
}
use my_home_index_server.Server.Snapshot.{write_ports_fragment, handle_ports_json}
use my_home_index_server.Server.Mutations.Keeps.{
  write_ports_fragment-IsSound, handle_ports_json-IsSound, handle_kill-IsSound,
  handle_restart-IsSound, handle_remembered_list-IsSound,
}
use my_home_index_server.Server.Mutations.Keeps.Renaming.{handle_rename-IsSound}
use my_home_index_server.Server.Routes.{Route, serve}

handle_logout-IsSound : (r : Request) (s : Server) → IsSound s → IsSound (handle_logout r s).server
unfolding handle_logout
handle_logout-IsSound r s v = v

-- A mutation handler behind authentication and the CSRF guard.
guarded-IsSound :
    (crypto : Crypto) (w : World) (s : Server) (r : Request) (e : Effect)
    → IsSound s
    → IsSound e.server
    → IsSound (require_auth crypto w s r (with_csrf s r (λ k. e))).server
guarded-IsSound crypto w s r e v h =
    require_auth-IsSound crypto w s r (with_csrf s r (λ k. e)) v
      (λ k. with_csrf-IsSound s r (λ k. e) k v (λ k. h))

serve-IsSound :
    (crypto : Crypto) (host : Host) (w : World) (s : Server) (r : Request) (route : Route)
    → IsSound s
    → IsSound (serve crypto host w s r route).server
unfolding serve
serve-IsSound crypto host w s r Route.healthz v = v
serve-IsSound crypto host w s r Route.login_get v = handle_login_get-IsSound crypto w r s v
serve-IsSound crypto host w s r Route.login_post v =
    with_rate_limit-IsSound w s r (handle_login_post crypto w r) v
      (handle_login_post-IsSound crypto w r)
serve-IsSound crypto host w s r Route.logout v =
    guarded-IsSound crypto w s r (handle_logout r s) v (handle_logout-IsSound r s v)
serve-IsSound crypto host w s r Route.dashboard v =
    require_auth_or_redirect-IsSound crypto w s r (λ k. handle_dashboard w s) v
      (λ k. handle_dashboard-IsSound w s v)
serve-IsSound crypto host w s r (Route.kill port) v =
    guarded-IsSound crypto w s r (handle_kill host w port s) v (handle_kill-IsSound host w port s v)
serve-IsSound crypto host w s r (Route.restart id) v =
    guarded-IsSound crypto w s r (handle_restart w id s) v (handle_restart-IsSound w id s v)
serve-IsSound crypto host w s r (Route.rename port) v =
    guarded-IsSound crypto w s r (handle_rename host w r port s) v
      (handle_rename-IsSound host w r port s v)
serve-IsSound crypto host w s r Route.ports v =
    require_auth-IsSound crypto w s r (λ k. write_ports_fragment host w s) v
      (λ k. write_ports_fragment-IsSound host w s v)
serve-IsSound crypto host w s r Route.ports_json v =
    require_auth-IsSound crypto w s r (λ k. handle_ports_json host w s) v
      (λ k. handle_ports_json-IsSound host w s v)
serve-IsSound crypto host w s r Route.remembered v =
    require_auth-IsSound crypto w s r (λ k. handle_remembered_list w s) v
      (λ k. handle_remembered_list-IsSound w s v)

-- One request, with what the world answers meanwhile.
pub record Exchange : Type 0 where
  pub world : World
  pub request : Request
  pub route : Route

-- The requests of a server, one after the other.
unfoldable pub serve_all : Crypto → Host → Server → List Exchange → Server
serve_all crypto host s [] = s
serve_all crypto host s (x ∷ xs) =
    serve_all crypto host (serve crypto host x.world s x.request x.route).server xs

-- From a state within these limits, whatever requests come one after the other, from whomever and with
-- whatever failures, the rate limiter keeps at most ten thousand addresses under distinct keys, and
-- the store at most five remembered listeners of a key and a hundred in all, and labels that are not
-- empty, at most 64 runes long and under distinct keys.
pub serve_all-IsSound :
    (crypto : Crypto) (host : Host) (s : Server) (xs : List Exchange)
    → IsSound s
    → IsSound (serve_all crypto host s xs)
unfolding serve_all
serve_all-IsSound crypto host s [] v = v
serve_all-IsSound crypto host s (x ∷ xs) v =
    serve_all-IsSound crypto host (serve crypto host x.world s x.request x.route).server xs
      (serve-IsSound crypto host x.world s x.request x.route v)
