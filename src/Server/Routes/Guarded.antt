-- ===== src/Server/Routes/Guarded.antt =====
-- Which requests can act: authentication and the CSRF guard in front of every mutation.
use my_home_index_server.Prelude.{ℕ, ◌≡◌, refl, inl, inr, Bool, true, false, none, some}
use my_home_index_server.Prelude.Tests.{Bool-cases, Option-cases}
use my_home_index_server.Prelude.Bytes.{Bytes, codes, bytes_eq, bytes_eq_iff}
use my_home_index_server.Auth.{Crypto}
use my_home_index_server.Store.{Host}
use my_home_index_server.Server.{Server, Request, World, Effect, fail}
use my_home_index_server.Server.Access.{
  AuthKind, authenticate, require_auth, with_csrf, admit, handle_logout,
}
use my_home_index_server.Server.Mutations.{handle_kill, handle_restart, handle_rename}
use my_home_index_server.Server.Mutations.Killing.{Idle}
use my_home_index_server.Server.Routes.{Route, serve}

-- The routes that change the store or other processes, or end a session.
abbrev pub is_mutation : Route → Bool
is_mutation (Route.kill port) = true
is_mutation (Route.restart id) = true
is_mutation (Route.rename port) = true
is_mutation Route.logout = true
is_mutation Route.healthz = false
is_mutation Route.login_get = false
is_mutation Route.login_post = false
is_mutation Route.dashboard = false
is_mutation Route.ports = false
is_mutation Route.ports_json = false
is_mutation Route.remembered = false

-- What a request must show before it may act.
pub data Admitted (crypto : Crypto) (w : World) (s : Server) (r : Request) : Type 0 where
  by_token : authenticate crypto w s r ≡ some AuthKind.bearer → Admitted crypto w s r
  by_session :
      authenticate crypto w s r ≡ some AuthKind.session
      → r.requested_with ≡ codes "XMLHttpRequest"
      → Admitted crypto w s r

-- How a request on such a route ends.
pub data Gate (crypto : Crypto) (w : World) (s : Server) (r : Request) (e : Effect) : Type 0 where
  passed : Admitted crypto w s r → Gate crypto w s r e
  unauthorized :
      authenticate crypto w s r ≡ none → Idle s e → e.response.status ≡ 401 → Gate crypto w s r e
  forged :
      authenticate crypto w s r ≡ some AuthKind.session
      → Idle s e
      → e.response.status ≡ 403
      → Gate crypto w s r e

fail-Idle : (s : Server) (code : ℕ) (message : Bytes) → Idle s (fail s code message)
fail-Idle s code message = record {
  server_same = refl;
  unsent = refl;
  no_escalation = refl;
  childless = refl;
}

by_kind :
    (crypto : Crypto) (w : World) (s : Server) (r : Request) (next : AuthKind → Effect)
    (kind : AuthKind)
    → authenticate crypto w s r ≡ some kind
    → Gate crypto w s r (with_csrf s r next kind)
unfolding with_csrf
by_kind crypto w s r next AuthKind.bearer e = Gate.passed (Admitted.by_token e)
by_kind crypto w s r next AuthKind.session e =
    elim (Bool-cases (bytes_eq r.requested_with (codes "XMLHttpRequest"))) [
      | inl same ↦
          Gate.passed (
            Admitted.by_session e ((bytes_eq_iff r.requested_with (codes "XMLHttpRequest")).0 same))
      | inr differs ↦
          simp differs
            (Gate.forged e (fail-Idle s 403 (codes "csrf: missing X-Requested-With")) refl)
    ]

gate :
    (crypto : Crypto) (w : World) (s : Server) (r : Request) (next : AuthKind → Effect)
    → Gate crypto w s r (require_auth crypto w s r (with_csrf s r next))
unfolding require_auth admit
gate crypto w s r next = elim (Option-cases (authenticate crypto w s r)) [
  | inl e ↦ rw e (Gate.unauthorized e (fail-Idle s 401 (codes "unauthorized")) refl)
  | inr (kind, e) ↦ rw e (by_kind crypto w s r next kind e)
]

-- A request on a mutating route has a bearer token or a session cookie that is accepted, and with a
-- cookie the header X-Requested-With: XMLHttpRequest; or nothing is changed, no signal sent and no
-- process started, and the answer is 401 without credentials and 403 without the header.
pub serve-Gate :
    (crypto : Crypto) (host : Host) (w : World) (s : Server) (r : Request) (route : Route)
    → is_mutation route ≡ true
    → Gate crypto w s r (serve crypto host w s r route)
unfolding serve
serve-Gate crypto host w s r (Route.kill port) h =
    gate crypto w s r (λ k. handle_kill host w port s)
serve-Gate crypto host w s r (Route.restart id) h = gate crypto w s r (λ k. handle_restart w id s)
serve-Gate crypto host w s r (Route.rename port) h =
    gate crypto w s r (λ k. handle_rename host w r port s)
serve-Gate crypto host w s r Route.logout h = gate crypto w s r (λ k. handle_logout r s)
serve-Gate crypto host w s r Route.healthz h = cc h
serve-Gate crypto host w s r Route.login_get h = cc h
serve-Gate crypto host w s r Route.login_post h = cc h
serve-Gate crypto host w s r Route.dashboard h = cc h
serve-Gate crypto host w s r Route.ports h = cc h
serve-Gate crypto host w s r Route.ports_json h = cc h
serve-Gate crypto host w s r Route.remembered h = cc h
