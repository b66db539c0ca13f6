-- ===== src/Auth/Limiter/Lockout.antt =====
-- Failures add up, five of them lock an address out, and waiting lets it in again.
use my_home_index_server.Prelude.{
  ◌+◌, ◌-◌, ◌≤◌, ◌<◌, ◌≡◌, refl, sym, ap, ◌∙◌, inl, inr, false, List, [], ◌∷◌, ◌++◌, append_assoc,
  append-nil, arith,
}
use my_home_index_server.Prelude.Tests.{Bool-cases, if◌then◌else◌}
use my_home_index_server.Prelude.Lists.{length, select, select-append, length-append, All}
use my_home_index_server.Prelude.Bytes.{Bytes, bytes_eq, bytes_eq_refl}
use my_home_index_server.Prelude.Dict.{lookup-insert, lookup-delete}
use my_home_index_server.Prelude.Time.{Time}
use my_home_index_server.Auth.{Auth, rate_limit_window, rate_limit_capacity}
use my_home_index_server.Auth.Limiter.{
  in_window, recorded, prune, judge, rate_limit_check, record_failure, record_success,
}
use my_home_index_server.Auth.Limiter.Window.{
  live, prune-live, live-prune, select-select, rate_limit_check-allowed,
}
use my_home_index_server.Auth.Limiter.Room.{HasRoom, full_without-prune, record_failure-HasRoom}

recorded-record_failure :
    (a : Auth) (ip j : Bytes) (now : Time)
    → HasRoom a ip
    → recorded (record_failure a ip now) j
      ≡ (if bytes_eq ip j then live a ip now ++ now ∷ [] else recorded (prune a ip now).0 j)
unfolding record_failure
recorded-record_failure a ip j now h =
    rw (full_without-prune a ip now h, prune-live a ip now)
      (ground (arith, lookup-insert ip j (live a ip now ++ now ∷ []) (prune a ip now).0.failures))

-- Where the map has room for the address, a failure is added to the address's own, and the others
-- keep theirs, in what counts at that instant and at every later one.
pub live-record_failure :
    (a : Auth) (ip j : Bytes) (now later : Time)
    → HasRoom a ip
    → now ≤ later
    → live (record_failure a ip now) j later ≡ (
        if bytes_eq ip j
        then live a ip later ++ select (in_window later) (now ∷ [])
        else live a j later)
live-record_failure a ip j now later room h = elim (Bool-cases (bytes_eq ip j)) [
  | inl same ↦
      ap (select (in_window later)) (recorded-record_failure a ip j now room ∙ rw same)
      ∙ select-append (in_window later) (live a ip now) (now ∷ [])
      ∙ ap (λ (ts : List Time). ts ++ select (in_window later) (now ∷ []))
          (select-select now later (recorded a ip) h)
      ∙ sym (rw same)
  | inr differs ↦
      ap (select (in_window later)) (recorded-record_failure a ip j now room ∙ rw differs)
      ∙ live-prune a ip j now later h
      ∙ sym (rw differs)
]

-- Failed attempts of one address, one after the other.
abbrev pub record_all : Auth → Bytes → List Time → Auth
record_all a ip [] = a
record_all a ip (t ∷ ts) = record_all (record_failure a ip t) ip ts

-- The failures of an address that count later are those that counted before and the recorded ones
-- that lie in the window.
pub live-record_all :
    (a : Auth) (ip : Bytes) (ts : List Time) (later : Time)
    → HasRoom a ip
    → All (λ t. t ≤ later) ts
    → live (record_all a ip ts) ip later ≡ live a ip later ++ select (in_window later) ts
live-record_all a ip [] later room h = sym (append-nil (live a ip later))
live-record_all a ip (t ∷ ts) later room h =
    live-record_all (record_failure a ip t) ip ts later (record_failure-HasRoom a ip t room) h.1
    ∙ ap (λ (us : List Time). us ++ select (in_window later) ts)
        (live-record_failure a ip ip t later room h.0 ∙ rw (bytes_eq_refl ip))
    ∙ append_assoc (live a ip later) (select (in_window later) (t ∷ []))
        (select (in_window later) ts)
    ∙ ap (◌++◌ (live a ip later)) (sym (select-append (in_window later) (t ∷ []) ts))

-- An address for which the map has room is refused when failures of it are recorded of which none is
-- later than now and five or more lie within the last 15 minutes.
pub lockout :
    (a : Auth) (ip : Bytes) (ts : List Time) (now : Time)
    → HasRoom a ip
    → All (λ t. t ≤ now) ts
    → rate_limit_capacity ≤ length (select (in_window now) ts)
    → (rate_limit_check (record_all a ip ts) ip now).1.allowed ≡ false
lockout a ip ts now room past many =
    rate_limit_check-allowed (record_all a ip ts) ip now
    ∙ ground (
      arith,
      ap length (live-record_all a ip ts now room past),
      length-append (live a ip now) (select (in_window now) ts),
    )

-- What a refusal tells the client to wait for.
pub record Refusal (a : Auth) (ip : Bytes) (now : Time) : Type 0 where
  pub oldest : Time
  pub rest : List Time
  pub counted : live a ip now ≡ oldest ∷ rest
  pub wait_is : now + (rate_limit_check a ip now).1.retry_after ≡ oldest + rate_limit_window
  pub positive : 0 < (rate_limit_check a ip now).1.retry_after

select-in_window :
    (now : Time) (ts : List Time)
    → All (λ t. now < t + rate_limit_window) (select (in_window now) ts)
select-in_window now [] = tt
select-in_window now (t ∷ ts) = ground (arith, select-in_window now ts)

retry_of :
    (a : Auth) (ip : Bytes) (now : Time) (ts : List Time)
    → live a ip now ≡ ts
    → (rate_limit_check a ip now).1 ≡ judge ts now
unfolding rate_limit_check
retry_of a ip now ts e = rw (prune-live a ip now, e)

judge-retry :
    (oldest : Time) (rest : List Time) (now : Time)
    → (judge (oldest ∷ rest) now).allowed ≡ false
    → (judge (oldest ∷ rest) now).retry_after ≡ oldest + rate_limit_window - now
unfolding judge
judge-retry oldest rest now h = ground arith

Refusal-oldest :
    (a : Auth) (ip : Bytes) (now : Time) (ts : List Time)
    → live a ip now ≡ ts
    → (rate_limit_check a ip now).1.allowed ≡ false
    → All (λ t. now < t + rate_limit_window) (live a ip now)
    → Refusal a ip now
Refusal-oldest a ip now [] e h inside =
    absurd (unfold judge in cc (ap (λ v. v.allowed) (retry_of a ip now [] e), h))
Refusal-oldest a ip now (t ∷ ts) e h inside =
    let v = retry_of a ip now (t ∷ ts) e in
    let retry =
      ap (λ x. x.retry_after) v ∙ judge-retry t ts now (sym (ap (λ x. x.allowed) v) ∙ h) in
    let counts = (rw e at inside).0 in
    record { oldest = t; rest = ts; counted = e; wait_is = omega arith; positive = omega arith }

-- A refused address is told to wait, for a positive time, until the moment at which the oldest of its
-- failures in the window leaves the window.
pub rate_limit_check-Refusal :
    (a : Auth) (ip : Bytes) (now : Time)
    → (rate_limit_check a ip now).1.allowed ≡ false
    → Refusal a ip now
rate_limit_check-Refusal a ip now h =
    Refusal-oldest a ip now (live a ip now) refl h (select-in_window now (recorded a ip))

-- A successful login resets the failures of its address and leaves those of the others.
pub live-record_success :
    (a : Auth) (ip j : Bytes) (now : Time)
    → live (record_success a ip) j now ≡ (if bytes_eq ip j then [] else live a j now)
unfolding record_success
live-record_success a ip j now = ground (arith, lookup-delete ip j a.failures)
