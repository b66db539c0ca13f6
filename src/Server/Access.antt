-- ===== src/Server/Access.antt =====
-- Who may do what: authentication, the CSRF guard, the rate limit of POST /login, and the handlers of
-- the login and the logout (internal/server/middleware.go and handlers.go).
pub mod Keeps
pub mod Guessing
pub mod Login
use my_home_index_server.Prelude.{ℕ, ◌/◌, Bool, true, false, not, Option, none, some, List, [], ◌∷◌}
use my_home_index_server.Prelude.Tests.{ltb, if◌then◌else◌}
use my_home_index_server.Prelude.Lists.{drop}
use my_home_index_server.Prelude.Bytes.{Bytes, codes, bytes_eq, is_empty, has_prefix}
use my_home_index_server.Prelude.Int.{ℤ, pos}
use my_home_index_server.Prelude.Time.{second}
use my_home_index_server.Prelude.Text.{trim_space}
use my_home_index_server.Auth.{Auth, Crypto, check_bearer}
use my_home_index_server.Auth.Cookie.{issue_cookie, verify_cookie}
use my_home_index_server.Auth.Limiter.{Verdict, rate_limit_check, record_failure, record_success}
use my_home_index_server.Config.{Config}
use my_home_index_server.Server.{
  Server, Request, World, Body, Header, Response, Effect, plain, answer, fail,
}
use my_home_index_server.Server.Headers.{remote_ip, sanitise_next}

-- AuthKindBearer and AuthKindCookie
pub data AuthKind : Type 0 where
  bearer session : AuthKind

with_cookie : Crypto → World → Auth → Option Bytes → Option AuthKind
with_cookie crypto w a none = none
with_cookie crypto w a (some value) =
    if is_empty value
    then none
    else if verify_cookie crypto a value w.checked_at
    then some AuthKind.session
    else none

authenticated : Crypto → World → Option Auth → Request → Option AuthKind
unfolding with_cookie
authenticated crypto w none r = none
authenticated crypto w (some a) r =
    if has_prefix r.authorization (codes "Bearer ")
    then (if check_bearer crypto a (trim_space (drop 7 r.authorization))
        then some AuthKind.bearer
        else none)
    else with_cookie crypto w a r.cookie

-- `authenticate`
unfoldable pub authenticate : Crypto → World → Server → Request → Option AuthKind
unfolding authenticated
authenticate crypto w s r = authenticated crypto w s.auth r

unfoldable pub admit : (AuthKind → Effect) → Effect → Option AuthKind → Effect
admit next refusal none = refusal
admit next refusal (some kind) = next kind

-- `requireAuth`
unfoldable pub require_auth : Crypto → World → Server → Request → (AuthKind → Effect) → Effect
unfolding admit
require_auth crypto w s r next =
    admit next (fail s 401 (codes "unauthorized")) (authenticate crypto w s r)

redirect : Bytes → List Header → Response
redirect url headers = record {
  status = 303;
  headers = Header.location url ∷ headers;
  body = Body.no_body;
}

-- `requireAuthOrRedirect`
unfoldable pub require_auth_or_redirect :
    Crypto → World → Server → Request → (AuthKind → Effect) → Effect
unfolding admit redirect
require_auth_or_redirect crypto w s r next =
    admit next (answer s (redirect (codes "/login") [])) (authenticate crypto w s r)

-- `withCSRF`
unfoldable pub with_csrf : Server → Request → (AuthKind → Effect) → AuthKind → Effect
with_csrf s r next AuthKind.bearer = next AuthKind.bearer
with_csrf s r next AuthKind.session =
    if bytes_eq r.requested_with (codes "XMLHttpRequest")
    then next AuthKind.session
    else fail s 403 (codes "csrf: missing X-Requested-With")

-- `trustXFF`
unfoldable pub trust_xff : Option Config → Bool
trust_xff none = false
trust_xff (some c) = c.trust_xff

public_host : Option Config → Bytes
public_host none = []
public_host (some c) = c.public_host

-- `remoteIP(r, s.trustXFF())`: the key of a request in the rate limiter.
unfoldable pub client : Server → Request → Bytes
unfolding trust_xff
client s r = remote_ip r (trust_xff s.cfg)

-- The Retry-After of a refusal, at least 1. A wait of at most 15 minutes has its whole seconds exactly
-- in floating point.
retry_seconds : ℕ → ℕ
retry_seconds wait = if ltb (wait / second) 1 then 1 else wait / second

judged : (Server → Effect) → Server → Auth × Verdict → Effect
unfolding retry_seconds
judged next s (a, v) =
    let after = record s { auth = some a } in
    let refusal : Response = record {
      status = 429;
      headers = Header.retry_after (retry_seconds v.retry_after) ∷ [];
      body = Body.text (codes "too many login attempts; try again later");
    } in
    if v.allowed then next after else answer after refusal

limited : World → Server → Request → Option Auth → (Server → Effect) → Effect
unfolding judged
limited w s r none next = next s
limited w s r (some a) next = judged next s (rate_limit_check a (client s r) w.checked_at)

-- `withRateLimit`
unfoldable pub with_rate_limit : World → Server → Request → (Server → Effect) → Effect
unfolding limited
with_rate_limit w s r next = limited w s r s.auth next

-- `handleLoginPost` with a form: the error of the template is discarded.
login : Crypto → World → Server → Request → Auth → (Bytes → Bytes) → Effect
unfolding redirect public_host
login crypto w s r a form =
    let next = sanitise_next (form (codes "next")) in
    let ip = client s r in
    let retry : Response = record {
      status = 401;
      headers = [];
      body = Body.login_page (public_host s.cfg) next (codes "invalid token");
    } in
    if not (check_bearer crypto a (form (codes "token")))
    then answer (record s { auth = some (record_failure a ip w.acted_at) }) retry
    else answer (record s { auth = some (record_success a ip) })
        (redirect (if is_empty next then codes "/" else next)
          (Header.session (issue_cookie crypto a w.acted_at) ∷ []))

login_form : Crypto → World → Server → Request → Auth → Option (Bytes → Bytes) → Effect
unfolding login
login_form crypto w s r a none = fail s 400 (codes "bad form")
login_form crypto w s r a (some form) = login crypto w s r a form

login_auth : Crypto → World → Server → Request → Option Auth → Effect
unfolding login_form
login_auth crypto w s r none = fail s 503 (codes "auth not configured")
login_auth crypto w s r (some a) = login_form crypto w s r a r.form

-- `handleLoginPost`
unfoldable pub handle_login_post : Crypto → World → Request → Server → Effect
unfolding login_auth
handle_login_post crypto w r s = login_auth crypto w s r s.auth

cookie_ok : Crypto → World → Option Auth → Option Bytes → Bool
cookie_ok crypto w none cookie = false
cookie_ok crypto w (some a) none = false
cookie_ok crypto w (some a) (some value) =
    if is_empty value then false else verify_cookie crypto a value w.checked_at

-- `handleLoginGet`, with `cookieAuthed`
unfoldable pub handle_login_get : Crypto → World → Request → Server → Effect
unfolding cookie_ok redirect public_host
handle_login_get crypto w r s =
    let page : Response = record {
      status = 200;
      headers = [];
      body = Body.login_page (public_host s.cfg) (sanitise_next r.query_next) [];
    } in
    if cookie_ok crypto w s.auth r.cookie
    then answer s (redirect (codes "/") [])
    else if w.renders (codes "login.html")
    then answer s page
    else fail s 500 (codes "internal error")

-- `handleLogout`
unfoldable pub handle_logout : Request → Server → Effect
unfolding redirect
handle_logout r s =
    let by_script = bytes_eq r.requested_with (codes "XMLHttpRequest") in
    let more = if by_script then Header.hx_redirect (codes "/login") ∷ [] else [] in
    answer s (redirect (codes "/login") (Header.clear_session ∷ more))

port_min : Option Config → ℤ
port_min none = pos 0
port_min (some c) = c.port_min

port_max : Option Config → ℤ
port_max none = pos 0
port_max (some c) = c.port_max

-- `handleDashboard`
unfoldable pub handle_dashboard : World → Server → Effect
unfolding public_host port_min port_max
handle_dashboard w s =
    let page : Response = record {
      status = 200;
      headers = [];
      body = Body.dashboard_page (public_host s.cfg) (port_min s.cfg) (port_max s.cfg) s.user;
    } in
    if w.renders (codes "dashboard.html")
    then answer s page
    else fail s 500 (codes "internal error")
