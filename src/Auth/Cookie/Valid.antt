-- ===== src/Auth/Cookie/Valid.antt =====
-- Which cookies and which tokens are accepted.
use my_home_index_server.Prelude.{
  ℕ, ◌+◌, ◌-◌, ◌*◌, ◌/◌, ◌%◌, ◌^◌, ◌≤◌, ◌<◌, ◌≡◌, ◌↔◌, refl, sym, ap, ◌∙◌, inl, inr, true, false,
  ◌&&◌, some, [], ◌∷◌, ◌++◌, arith,
}
use my_home_index_server.Prelude.Tests.{ltb, leb, Bool-cases, Option-cases}
use my_home_index_server.Prelude.Lists.{length, take, drop, All, All-append}
use my_home_index_server.Prelude.Bytes.{Bytes, bytes_eq_iff, bytes_eq_refl, is_empty}
use my_home_index_server.Prelude.Time.{Time, second, unix_u64, unix_to_internal}
use my_home_index_server.Prelude.Base64.{encode, decode, decode-encode}
use my_home_index_server.Auth.{
  Auth, Crypto, cookie_ttl, cookie_timestamp_bytes, cookie_mac_bytes, cookie_body_bytes,
  check_bearer, min_token_bytes,
}
use my_home_index_server.Auth.Cookie.{
  put_u64, read_be, copy_into, cookie_body, issue_cookie, is_fresh, verify_raw, verify_cookie,
}

-- The seconds from Go's zero time to a Unix time, in an int64 that wraps around.
abbrev pub zero_based : ℕ → ℕ
zero_based ts = (ts + unix_to_internal) % 2 ^ 64

-- A Unix time that is not in the future and less than 24 hours ago. The upper half of the int64 lies
-- before the zero time.
pub data IsRecent (ts : ℕ) (now : Time) : Type 0 where
  since :
      zero_based ts < 2 ^ 63
      → zero_based ts * second ≤ now
      → now < zero_based ts * second + cookie_ttl
      → IsRecent ts now
  before_zero :
      2 ^ 63 ≤ zero_based ts
      → now + (2 ^ 64 - zero_based ts) * second < cookie_ttl
      → IsRecent ts now

is_fresh-IsRecent : (ts : ℕ) (now : Time) → is_fresh ts now ≡ true → IsRecent ts now
unfolding is_fresh
is_fresh-IsRecent ts now h = elim (Bool-cases (leb (2 ^ 63) (zero_based ts))) [
  | inl early ↦ IsRecent.before_zero (ground arith) (ground arith)
  | inr late ↦ elim (Bool-cases (ltb now (zero_based ts * second))) [
    | inl future ↦ cc (rw (late, future) at h)
    | inr past ↦ IsRecent.since (ground arith) (ground arith) (ground arith)
  ]
]

-- What a value must be for `VerifyCookie` to accept it.
pub record Accepted (crypto : Crypto) (a : Auth) (value : Bytes) (now : Time) : Type 0 where
  pub raw : Bytes
  pub decodes : decode value ≡ some raw
  pub forty : length raw ≡ cookie_body_bytes
  pub signed :
      crypto.hmac a.secret (take cookie_timestamp_bytes raw) ≡ drop cookie_timestamp_bytes raw
  pub fresh : IsRecent (read_be 0 (take cookie_timestamp_bytes raw)) now

verify_raw-true :
    (crypto : Crypto) (a : Auth) (now : Time) (raw : Bytes)
    → verify_raw crypto a now (some raw) ≡ true
    → (length raw ≡ cookie_body_bytes)
      × (crypto.hmac a.secret (take cookie_timestamp_bytes raw) ≡ drop cookie_timestamp_bytes raw)
      × (is_fresh (read_be 0 (take cookie_timestamp_bytes raw)) now ≡ true)
unfolding verify_raw
verify_raw-true crypto a now raw h =
    let mac = crypto.hmac a.secret (take cookie_timestamp_bytes raw) in
    (ground arith, ground (arith, bytes_eq_iff mac (drop cookie_timestamp_bytes raw)), ground arith)

-- An accepted cookie decodes to forty bytes whose last 32 are the MAC of the first eight under the
-- session secret, and those eight are a Unix time that is not in the future and less than 24 hours
-- ago.
pub verify_cookie-Accepted :
    (crypto : Crypto) (a : Auth) (value : Bytes) (now : Time)
    → verify_cookie crypto a value now ≡ true
    → Accepted crypto a value now
unfolding verify_cookie
verify_cookie-Accepted crypto a value now h = elim (Bool-cases (is_empty value)) [
  | inl empty ↦ cc (rw (empty, verify_cookie) at h)
  | inr full ↦ elim (Option-cases (decode value)) [
    | inl e ↦ cc (rw (full, e) at h)
    | inr (raw, e) ↦
        let v = verify_raw-true crypto a now raw (rw (full, e) at h) in
        record {
          raw = raw;
          decodes = e;
          forty = v.0;
          signed = v.1;
          fresh = is_fresh-IsRecent _ now v.2;
        }
  ]
]

-- The time since the issue second, for a timestamp that an instant after 1970 gave.
is_fresh-unix :
    (issued now : Time)
    → unix_to_internal * second ≤ issued
    → issued < 2 ^ 63 * second
    → is_fresh (unix_u64 issued) now
      ≡ (leb (issued / second * second) now && ltb (now - issued / second * second) cookie_ttl)
unfolding is_fresh
is_fresh-unix issued now h k =
    let e : (unix_u64 issued + unix_to_internal) % 2 ^ 64 ≡ issued / second = omega arith in
    rw e (ground arith)

read_be-put_u64 : (n : ℕ) → n < 2 ^ 64 → read_be 0 (put_u64 n) ≡ n
read_be-put_u64 n h = omega arith

copy_into_lem : (s : Bytes) → copy_into (length s) s ≡ s
copy_into_lem [] = refl
copy_into_lem (b ∷ s) = ap (λ t. b ∷ t) (copy_into_lem s)

put_u64-bytes : (n : ℕ) → All (λ b. b < 256) (put_u64 n)
put_u64-bytes n = (
  omega arith,
  (
    omega arith,
    (omega arith, (omega arith, (omega arith, (omega arith, (omega arith, (omega arith, tt)))))),
  ),
)

encode-put_u64 : (n : ℕ) (s : Bytes) → is_empty (encode (put_u64 n ++ s)) ≡ false
unfolding encode
encode-put_u64 n s = refl

cookie_body_lem :
    (crypto : Crypto) (secret : Bytes) (issued : Time)
    → (length (crypto.hmac secret (put_u64 (unix_u64 issued))) ≡ cookie_mac_bytes)
    → cookie_body crypto secret issued
      ≡ put_u64 (unix_u64 issued) ++ crypto.hmac secret (put_u64 (unix_u64 issued))
cookie_body_lem crypto secret issued mac =
    let m = crypto.hmac secret (put_u64 (unix_u64 issued)) in
    ap (λ t. put_u64 (unix_u64 issued) ++ t) (ap (λ k. copy_into k m) (sym mac) ∙ copy_into_lem m)

verify_raw-body :
    (crypto : Crypto) (a : Auth) (issued now : Time)
    → (length (crypto.hmac a.secret (put_u64 (unix_u64 issued))) ≡ cookie_mac_bytes)
    → unix_u64 issued < 2 ^ 64
    → verify_raw crypto a now
        (some (put_u64 (unix_u64 issued) ++ crypto.hmac a.secret (put_u64 (unix_u64 issued))))
      ≡ is_fresh (unix_u64 issued) now
unfolding verify_raw
verify_raw-body crypto a issued now mac fits =
    let m = crypto.hmac a.secret (put_u64 (unix_u64 issued)) in
    let e : read_be 0 (put_u64 (unix_u64 issued)) ≡ unix_u64 issued =
      read_be-put_u64 (unix_u64 issued) fits in
    rw (mac, bytes_eq_refl m) (ap (λ t. is_fresh t now) e)

-- A cookie is accepted from the second of its issue on, for 24 hours and no longer, if the MAC has 32
-- bytes and the time lies behind 1970 and fits 63 bits of seconds.
pub verify_cookie-issue_cookie :
    (crypto : Crypto) (a : Auth) (issued now : Time)
    → (length (crypto.hmac a.secret (put_u64 (unix_u64 issued))) ≡ cookie_mac_bytes)
    → All (λ b. b < 256) (crypto.hmac a.secret (put_u64 (unix_u64 issued)))
    → unix_to_internal * second ≤ issued
    → issued < 2 ^ 63 * second
    → verify_cookie crypto a (issue_cookie crypto a issued) now
      ≡ (leb (issued / second * second) now && ltb (now - issued / second * second) cookie_ttl)
unfolding verify_cookie issue_cookie
verify_cookie-issue_cookie crypto a issued now mac bytes h k =
    let stamp = put_u64 (unix_u64 issued) in
    let m = crypto.hmac a.secret stamp in
    let body = cookie_body_lem crypto a.secret issued mac in
    let small = All-append (λ b. b < 256) stamp m (put_u64-bytes (unix_u64 issued)) bytes in
    let back = decode-encode (stamp ++ m) small in
    rw (body, encode-put_u64 (unix_u64 issued) m, back)
      (verify_raw-body crypto a issued now mac (omega arith) ∙ is_fresh-unix issued now h k)

-- A token is accepted exactly when it is the configured one and has at least 16 bytes, unless its hash
-- collides with that of the configured token.
pub check_bearer_iff :
    (crypto : Crypto) (a : Auth) (token : Bytes)
    → (crypto.sha256 a.token ≡ crypto.sha256 token → a.token ≡ token)
    → (check_bearer crypto a token ≡ true) ↔ ((a.token ≡ token) × (min_token_bytes ≤ length token))
unfolding check_bearer
check_bearer_iff crypto a token no_collision =
    ground (arith, bytes_eq_iff (crypto.sha256 a.token) (crypto.sha256 token))
