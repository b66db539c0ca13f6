-- ===== src/Server/Access/Keeps.antt =====
-- Authentication, login and logout keep the invariants of the server.
use my_home_index_server.Prelude.{Option, none, some, [], arith, inl, inr}
use my_home_index_server.Prelude.Tests.{Bool-cases}
use my_home_index_server.Prelude.Bytes.{Bytes, codes, bytes_eq}
use my_home_index_server.Auth.{Auth, Crypto, check_bearer}
use my_home_index_server.Auth.Limiter.{Verdict, rate_limit_check}
use my_home_index_server.Auth.Limiter.Bound.{
  IsBounded, rate_limit_check-IsBounded, record_failure-IsBounded, record_success-IsBounded,
}
use my_home_index_server.Server.{Server, Request, World, Effect, answer, fail}
use my_home_index_server.Server.Sound.{AuthIsBounded, StoreIsValid, IsSound, if-IsSound}
use my_home_index_server.Server.Access.{
  AuthKind, admit, redirect, client, judged, limited, login, login_form, login_auth,
  with_rate_limit, with_csrf, require_auth, require_auth_or_redirect, authenticate,
  handle_login_get, handle_login_post, handle_dashboard,
}

admit-IsSound :
    (next : AuthKind → Effect) (refusal : Effect) (o : Option AuthKind)
    → IsSound refusal.server
    → ((k : AuthKind) → IsSound (next k).server)
    → IsSound (admit next refusal o).server
unfolding admit
admit-IsSound next refusal none v h = v
admit-IsSound next refusal (some k) v h = h k

pub require_auth-IsSound :
    (crypto : Crypto) (w : World) (s : Server) (r : Request) (next : AuthKind → Effect)
    → IsSound s
    → ((k : AuthKind) → IsSound (next k).server)
    → IsSound (require_auth crypto w s r next).server
unfolding require_auth
require_auth-IsSound crypto w s r next v h =
    admit-IsSound next (fail s 401 (codes "unauthorized")) (authenticate crypto w s r) v h

pub require_auth_or_redirect-IsSound :
    (crypto : Crypto) (w : World) (s : Server) (r : Request) (next : AuthKind → Effect)
    → IsSound s
    → ((k : AuthKind) → IsSound (next k).server)
    → IsSound (require_auth_or_redirect crypto w s r next).server
unfolding require_auth_or_redirect
require_auth_or_redirect-IsSound crypto w s r next v h =
    admit-IsSound next (answer s (redirect (codes "/login") [])) (authenticate crypto w s r) v h

pub with_csrf-IsSound :
    (s : Server) (r : Request) (next : AuthKind → Effect) (k : AuthKind)
    → IsSound s
    → ((k : AuthKind) → IsSound (next k).server)
    → IsSound (with_csrf s r next k).server
unfolding with_csrf
with_csrf-IsSound s r next AuthKind.bearer v h = h AuthKind.bearer
with_csrf-IsSound s r next AuthKind.session v h =
    if-IsSound (bytes_eq r.requested_with (codes "XMLHttpRequest")) (next AuthKind.session)
      (fail s 403 (codes "csrf: missing X-Requested-With")) (h AuthKind.session) v

login-IsSound :
    (crypto : Crypto) (w : World) (s : Server) (r : Request) (a : Auth) (form : Bytes → Bytes)
    → IsBounded a
    → StoreIsValid s.store
    → IsSound (login crypto w s r a form).server
unfolding login
login-IsSound crypto w s r a form b v =
    elim (Bool-cases (check_bearer crypto a (form (codes "token")))) [
      | inl ok ↦ simp ok (record { bounded = record_success-IsBounded a (client s r) b; valid = v })
      | inr wrong ↦
          simp wrong
            (record { bounded = record_failure-IsBounded a (client s r) w.acted_at b; valid = v })
    ]

login_form-IsSound :
    (crypto : Crypto) (w : World) (s : Server) (r : Request) (a : Auth) (o : Option (Bytes → Bytes))
    → IsSound s
    → IsBounded a
    → IsSound (login_form crypto w s r a o).server
unfolding login_form
login_form-IsSound crypto w s r a none v b = v
login_form-IsSound crypto w s r a (some form) v b = login-IsSound crypto w s r a form b v.valid

login_auth-IsSound :
    (crypto : Crypto) (w : World) (s : Server) (r : Request) (o : Option Auth)
    → IsSound s
    → AuthIsBounded o
    → IsSound (login_auth crypto w s r o).server
unfolding login_auth
login_auth-IsSound crypto w s r none v b = v
login_auth-IsSound crypto w s r (some a) v b = login_form-IsSound crypto w s r a r.form v b

pub handle_login_post-IsSound :
    (crypto : Crypto) (w : World) (r : Request) (s : Server)
    → IsSound s
    → IsSound (handle_login_post crypto w r s).server
unfolding handle_login_post
handle_login_post-IsSound crypto w r s v = login_auth-IsSound crypto w s r s.auth v v.bounded

judged-IsSound :
    (next : Server → Effect) (s : Server) (av : Auth × Verdict)
    → IsBounded av.0
    → StoreIsValid s.store
    → ((t : Server) → IsSound t → IsSound (next t).server)
    → IsSound (judged next s av).server
unfolding judged
judged-IsSound next s (a, v) b h k =
    let after : IsSound (record s { auth = some a }) = record { bounded = b; valid = h } in
    elim (Bool-cases v.allowed) [
      | inl ok ↦ simp ok (k (record s { auth = some a }) after)
      | inr refused ↦ simp refused after
    ]

limited-IsSound :
    (w : World) (s : Server) (r : Request) (o : Option Auth) (next : Server → Effect)
    → IsSound s
    → AuthIsBounded o
    → ((t : Server) → IsSound t → IsSound (next t).server)
    → IsSound (limited w s r o next).server
unfolding limited
limited-IsSound w s r none next v b k = k s v
limited-IsSound w s r (some a) next v b k =
    judged-IsSound next s (rate_limit_check a (client s r) w.checked_at)
      (rate_limit_check-IsBounded a (client s r) w.checked_at b) v.valid k

pub with_rate_limit-IsSound :
    (w : World) (s : Server) (r : Request) (next : Server → Effect)
    → IsSound s
    → ((t : Server) → IsSound t → IsSound (next t).server)
    → IsSound (with_rate_limit w s r next).server
unfolding with_rate_limit
with_rate_limit-IsSound w s r next v k = limited-IsSound w s r s.auth next v v.bounded k

pub handle_login_get-IsSound :
    (crypto : Crypto) (w : World) (r : Request) (s : Server)
    → IsSound s
    → IsSound (handle_login_get crypto w r s).server
unfolding handle_login_get
handle_login_get-IsSound crypto w r s v = ground arith

pub handle_dashboard-IsSound :
    (w : World) (s : Server) → IsSound s → IsSound (handle_dashboard w s).server
unfolding handle_dashboard
handle_dashboard-IsSound w s v = ground arith
