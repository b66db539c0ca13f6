-- ===== src/Auth.antt =====
-- internal/auth/auth.go: the token, the session cookies and the rate limiter. The clock is an argument
-- of each method, and a method that holds the mutex is one step.
pub mod Cookie
pub mod Limiter
use my_home_index_server.Prelude.{ℕ, ◌+◌, ◌*◌, Bool, true, false, List, []}
use my_home_index_server.Prelude.Tests.{ltb, ◌==◌, if◌then◌else◌}
use my_home_index_server.Prelude.Lists.{length}
use my_home_index_server.Prelude.Bytes.{Bytes, bytes_eq}
use my_home_index_server.Prelude.Dict.{Dict}
use my_home_index_server.Prelude.Time.{Time, Duration, second}

abbrev pub cookie_ttl : Duration
cookie_ttl = 24 * 3600 * second

abbrev pub rate_limit_window : Duration
rate_limit_window = 15 * 60 * second

abbrev pub rate_limit_capacity : ℕ
rate_limit_capacity = 5

abbrev pub rate_limit_max_ips : ℕ
rate_limit_max_ips = 10000

abbrev pub cookie_timestamp_bytes : ℕ
cookie_timestamp_bytes = 8

abbrev pub cookie_mac_bytes : ℕ
cookie_mac_bytes = 32

abbrev pub cookie_body_bytes : ℕ
cookie_body_bytes = cookie_timestamp_bytes + cookie_mac_bytes

-- config.MinTokenBytes
abbrev pub min_token_bytes : ℕ
min_token_bytes = 16

-- The failures of one address are oldest first.
pub record Auth : Type 0 where
  pub token : Bytes
  pub secret : Bytes
  pub failures : Dict (List Time)

-- crypto/sha256, and HMAC-SHA256 of a key and a message.
pub record Crypto : Type 0 where
  pub sha256 : Bytes → Bytes
  pub hmac : Bytes → Bytes → Bytes

-- `newAuth`
abbrev pub new_auth : Bytes → Bytes → Auth
new_auth token secret = record { token = token; secret = secret; failures = [] }

-- `CheckBearer`: subtle.ConstantTimeCompare is 1 for equal contents.
unfoldable pub check_bearer : Crypto → Auth → Bytes → Bool
check_bearer crypto a token =
    if length a.token == 0
    then false
    else if ltb (length token) min_token_bytes
    then false
    else bytes_eq (crypto.sha256 a.token) (crypto.sha256 token)
