-- ===== src/Auth/Cookie.antt =====
-- The session cookies of internal/auth/auth.go: base64url of an issue time and its MAC.
pub mod Valid
use my_home_index_server.Prelude.{
  ℕ, zero, suc, ◌+◌, ◌-◌, ◌*◌, ◌/◌, ◌%◌, ◌^◌, Bool, true, false, Option, none, some, List, [], ◌∷◌,
  ◌++◌,
}
use my_home_index_server.Prelude.Tests.{ltb, leb, ◌==◌, if◌then◌else◌}
use my_home_index_server.Prelude.Lists.{length, take, drop}
use my_home_index_server.Prelude.Bytes.{Bytes, bytes_eq, is_empty}
use my_home_index_server.Prelude.Time.{Time, second, unix_u64, unix_to_internal}
use my_home_index_server.Prelude.Base64.{encode, decode}
use my_home_index_server.Auth.{
  Auth, Crypto, cookie_ttl, cookie_timestamp_bytes, cookie_mac_bytes, cookie_body_bytes,
}

-- binary.BigEndian.PutUint64 and Uint64
abbrev pub put_u64 : ℕ → Bytes
put_u64 n =
    (n / 2 ^ 56 % 256)
    ∷ (n / 2 ^ 48 % 256)
    ∷ (n / 2 ^ 40 % 256)
    ∷ (n / 2 ^ 32 % 256)
    ∷ (n / 2 ^ 24 % 256)
    ∷ (n / 2 ^ 16 % 256)
    ∷ (n / 2 ^ 8 % 256)
    ∷ (n % 256)
    ∷ []

abbrev pub read_be : ℕ → Bytes → ℕ
read_be acc [] = acc
read_be acc (b ∷ s) = read_be (acc * 256 + b) s

-- `copy` into a slice of `n` zero bytes.
abbrev pub copy_into : ℕ → Bytes → Bytes
copy_into zero s = []
copy_into (suc n) [] = 0 ∷ copy_into n []
copy_into (suc n) (b ∷ s) = b ∷ copy_into n s

-- The forty bytes of a cookie.
abbrev pub cookie_body : Crypto → Bytes → Time → Bytes
cookie_body crypto secret issued =
    let stamp = put_u64 (unix_u64 issued) in
    stamp ++ copy_into cookie_mac_bytes (crypto.hmac secret stamp)

-- `IssueCookie`
unfoldable pub issue_cookie : Crypto → Auth → Time → Bytes
issue_cookie crypto a issued = encode (cookie_body crypto a.secret issued)

-- The end of `VerifyCookie`: `time.Unix(int64(ts), 0)` counts from the zero time in an int64 that
-- wraps around, so the upper half of its values are instants before year 1, which are before any `now`.
unfoldable pub is_fresh : ℕ → Time → Bool
is_fresh ts now =
    let issued = (ts + unix_to_internal) % 2 ^ 64 in
    if leb (2 ^ 63) issued
    then ltb (now + (2 ^ 64 - issued) * second) cookie_ttl
    else if ltb now (issued * second)
    then false
    else ltb (now - issued * second) cookie_ttl

verify_raw : Crypto → Auth → Time → Option Bytes → Bool
verify_raw crypto a now none = false
verify_raw crypto a now (some raw) =
    let stamp = take cookie_timestamp_bytes raw in
    if length raw == cookie_body_bytes
    then (if bytes_eq (crypto.hmac a.secret stamp) (drop cookie_timestamp_bytes raw)
        then is_fresh (read_be 0 stamp) now
        else false)
    else false

-- `VerifyCookie`
unfoldable pub verify_cookie : Crypto → Auth → Bytes → Time → Bool
unfolding verify_raw is_fresh
verify_cookie crypto a value now =
    if is_empty value then false else verify_raw crypto a now (decode value)
