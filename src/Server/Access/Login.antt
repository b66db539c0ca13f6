-- ===== src/Server/Access/Login.antt =====
-- How a login ends.
use my_home_index_server.Prelude.{
  ℕ, ◌≡◌, ◌≤◌, ◌<◌, refl, true, false, Option, none, some, [], ◌∷◌, arith, inl, inr,
}
use my_home_index_server.Prelude.Tests.{Bool-cases, if◌then◌else◌}
use my_home_index_server.Prelude.Lists.{length}
use my_home_index_server.Prelude.Bytes.{Bytes, codes, is_empty, has_prefix}
use my_home_index_server.Auth.{Auth, Crypto, check_bearer, rate_limit_capacity}
use my_home_index_server.Auth.Cookie.{issue_cookie}
use my_home_index_server.Auth.Limiter.{rate_limit_check, record_failure, record_success}
use my_home_index_server.Auth.Limiter.Window.{live, rate_limit_check-allowed}
use my_home_index_server.Server.{Server, Request, World, Body, Header, Effect, fail, answer}
use my_home_index_server.Server.Headers.{sanitise_next}
use my_home_index_server.Server.Headers.Redirects.{IsLocal, sanitise_next-IsLocal}
use my_home_index_server.Server.Access.{
  client, judged, limited, login, login_form, login_auth, with_rate_limit, handle_login_post,
  public_host, retry_seconds,
}

-- The limiter behind the check of a request.
abbrev pub checked : World → Server → Request → Auth → Auth
checked w s r a = (rate_limit_check a (client s r) w.checked_at).0

-- The ends of `POST /login` on a server with a rate limiter `a`.
pub data Ending (crypto : Crypto) (w : World) (s : Server) (r : Request) (a : Auth)
    : Effect → Type 0 where
  locked :
      rate_limit_capacity ≤ length (live a (client s r) w.checked_at)
      → (wait : ℕ)
      → Ending crypto w s r a (
          answer
            (record s { auth = some (checked w s r a) })
            (record {
              status = 429;
              headers = Header.retry_after wait ∷ [];
              body = Body.text (codes "too many login attempts; try again later");
            }))
  bad_form :
      length (live a (client s r) w.checked_at) < rate_limit_capacity
      → r.form ≡ none
      → Ending crypto w s r a
          (fail (record s { auth = some (checked w s r a) }) 400 (codes "bad form"))
  refused :
      length (live a (client s r) w.checked_at) < rate_limit_capacity
      → (form : Bytes → Bytes) → r.form ≡ some form
      → check_bearer crypto (checked w s r a) (form (codes "token")) ≡ false
      → (page : Body)
      → Ending crypto w s r a (
          answer
            (record s { auth = some (record_failure (checked w s r a) (client s r) w.acted_at) })
            (record { status = 401; headers = []; body = page }))
  granted :
      length (live a (client s r) w.checked_at) < rate_limit_capacity
      → (form : Bytes → Bytes) → r.form ≡ some form
      → check_bearer crypto (checked w s r a) (form (codes "token")) ≡ true
      → (destination : Bytes) → IsLocal destination
      → Ending crypto w s r a (
          answer
            (record s { auth = some (record_success (checked w s r a) (client s r)) })
            (record {
              status = 303;
              headers =
                  Header.location destination
                  ∷ Header.session (issue_cookie crypto (checked w s r a) w.acted_at)
                  ∷ [];
              body = Body.no_body;
            }))

or_root-IsLocal : (v : Bytes) → IsLocal v → IsLocal (if is_empty v then codes "/" else v)
unfolding has_prefix
or_root-IsLocal [] l = record { rest = []; begins = refl; single = refl }
or_root-IsLocal (b ∷ v) l = l

destination-IsLocal :
    (v : Bytes) → IsLocal (if is_empty (sanitise_next v) then codes "/" else sanitise_next v)
unfolding has_prefix
destination-IsLocal v =
    let root : IsLocal (codes "/") = record { rest = []; begins = refl; single = refl } in
    elim (sanitise_next-IsLocal v) [
      | inl kept ↦ rw kept.0 (or_root-IsLocal v kept.1)
      | inr dropped ↦ rw dropped.0 root
    ]

login_form-Ending :
    (crypto : Crypto) (w : World) (s : Server) (r : Request) (a : Auth) (o : Option (Bytes → Bytes))
    → length (live a (client s r) w.checked_at) < rate_limit_capacity
    → r.form ≡ o
    → Ending crypto w s r a
        (login_form crypto w (record s { auth = some (checked w s r a) }) r (checked w s r a) o)
unfolding login_form login client
login_form-Ending crypto w s r a none few e = Ending.bad_form few e
login_form-Ending crypto w s r a (some form) few e =
    elim (Bool-cases (check_bearer crypto (checked w s r a) (form (codes "token")))) [
      | inl ok ↦ simp ok (
          Ending.granted few form e ok
            (if is_empty (sanitise_next (form (codes "next")))
              then codes "/"
              else sanitise_next (form (codes "next")))
            (destination-IsLocal (form (codes "next"))))
      | inr wrong ↦ simp wrong (
          Ending.refused few form e wrong (
            Body.login_page (public_host s.cfg) (sanitise_next (form (codes "next")))
              (codes "invalid token")))
    ]

judged-Ending :
    (crypto : Crypto) (w : World) (s : Server) (r : Request) (a : Auth)
    → Ending crypto w s r a
        (judged (handle_login_post crypto w r) s (rate_limit_check a (client s r) w.checked_at))
unfolding judged handle_login_post login_auth
judged-Ending crypto w s r a =
    let allowed = rate_limit_check-allowed a (client s r) w.checked_at in
    let verdict = (rate_limit_check a (client s r) w.checked_at).1 in
    elim (Bool-cases verdict.allowed) [
      | inl ok ↦ simp ok (login_form-Ending crypto w s r a r.form (ground arith) refl)
      | inr over ↦ simp over (Ending.locked (ground arith) (retry_seconds verdict.retry_after))
    ]

-- `POST /login` with a rate limiter ends in one of four ways. An address with five failures or more
-- in the window is turned away with 429, whatever token it sends. Otherwise a form with the right token
-- resets its failures, and is answered with a session cookie and a redirect to a local path; one with
-- a wrong token is recorded as a failure and gets 401 and no cookie; and a bad form gets 400.
pub login-Ending :
    (crypto : Crypto) (w : World) (s : Server) (r : Request) (a : Auth)
    → s.auth ≡ some a
    → Ending crypto w s r a (with_rate_limit w s r (handle_login_post crypto w r))
unfolding with_rate_limit limited
login-Ending crypto w s r a e = simp e (judged-Ending crypto w s r a)
