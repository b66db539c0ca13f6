-- ===== src/Tests/AuthTests.antt =====
-- The theorems on tokens, cookies and the rate limiter at concrete inputs.
use my_home_index_server.Prelude.{◌+◌, ◌*◌, ◌-◌, ◌/◌, ◌≡◌, refl, inl, false, ◌&&◌, arith}
use my_home_index_server.Prelude.Tests.{ltb, leb}
use my_home_index_server.Prelude.Lists.{length}
use my_home_index_server.Prelude.Bytes.{bytes_eq}
use my_home_index_server.Prelude.Base64.{encode, decode}
use my_home_index_server.Prelude.Dict.{lookup}
use my_home_index_server.Prelude.Time.{second}
use my_home_index_server.Auth.{cookie_ttl, rate_limit_capacity}
use my_home_index_server.Auth.Cookie.{issue_cookie, verify_cookie}
use my_home_index_server.Auth.Cookie.Valid.{
  Accepted, verify_cookie-Accepted, verify_cookie-issue_cookie,
}
use my_home_index_server.Auth.Limiter.{rate_limit_check, evict_oldest}
use my_home_index_server.Auth.Limiter.Window.{live, rate_limit_check-allowed}
use my_home_index_server.Auth.Limiter.Room.{HasRoom}
use my_home_index_server.Auth.Limiter.Lockout.{record_all, lockout}
use my_home_index_server.Auth.Limiter.Evict.{Evicted, evict_oldest-Evicted}
use my_home_index_server.Tests.{noon, crypto, auth, address, five, locked_auth}

verify_cookie-issue_cookie_example :
    verify_cookie crypto auth (issue_cookie crypto auth noon) (noon + 60 * second) ≡ (
      leb (noon / second * second) (noon + 60 * second)
      && ltb (noon + 60 * second - noon / second * second) cookie_ttl)
verify_cookie-issue_cookie_example =
    verify_cookie-issue_cookie crypto auth noon (noon + 60 * second) refl (ground arith)
      (omega arith) (omega arith)

verify_cookie-Accepted_example :
    Accepted crypto auth (issue_cookie crypto auth noon) (noon + 60 * second)
unfolding verify_cookie issue_cookie encode decode bytes_eq
verify_cookie-Accepted_example =
    verify_cookie-Accepted crypto auth (issue_cookie crypto auth noon) (noon + 60 * second) refl

has_room : HasRoom auth address
has_room = inl (omega arith)

lockout_example :
    (rate_limit_check (record_all auth address five) address (noon + second)).1.allowed ≡ false
lockout_example = lockout auth address five (noon + second) has_room (ground arith) (omega arith)

rate_limit_check-allowed_example :
    (rate_limit_check locked_auth address (noon + second)).1.allowed
    ≡ ltb (length (live locked_auth address (noon + second))) rate_limit_capacity
rate_limit_check-allowed_example = rate_limit_check-allowed locked_auth address (noon + second)

evict_oldest-Evicted_example : Evicted locked_auth.failures (evict_oldest locked_auth.failures)
unfolding lookup
evict_oldest-Evicted_example = evict_oldest-Evicted locked_auth.failures (refl, tt)
