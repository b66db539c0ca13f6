-- ===== src/Auth/Limiter/Attempts.antt =====
-- What one attempt to log in does to the failures that count later.
use my_home_index_server.Prelude.{
  ℕ, ◌-◌, ◌≤◌, ◌<◌, ◌≡◌, refl, ap, ◌∙◌, inl, inr, false, ◌&&◌, Option, none, List, [], ◌∷◌, ◌++◌,
  arith,
}
use my_home_index_server.Prelude.Tests.{leb, leb→lt, Option-cases}
use my_home_index_server.Prelude.Lists.{length, select, length-append, length-select-le}
use my_home_index_server.Prelude.Bytes.{Bytes, bytes_eq_refl}
use my_home_index_server.Prelude.Dict.{lookup}
use my_home_index_server.Prelude.Time.{Time}
use my_home_index_server.Auth.{Auth, rate_limit_max_ips, rate_limit_capacity}
use my_home_index_server.Auth.Limiter.{
  in_window, is_absent, keep_pruned, prune, prune_list, rate_limit_check, record_failure, recorded,
}
use my_home_index_server.Auth.Limiter.Window.{live, select-select, live-rate_limit_check}
use my_home_index_server.Auth.Limiter.Room.{
  HasRoom, HasRoom-le, full_without-prune, prune-length-le,
}
use my_home_index_server.Auth.Limiter.Lockout.{live-record_failure}

room_of :
    (o : Option (List Time)) (n : ℕ)
    → o ≡ none
    → (is_absent o && leb rate_limit_max_ips n) ≡ false
    → n < rate_limit_max_ips
unfolding is_absent
room_of o n e h = leb→lt rate_limit_max_ips n (cc (e, h))

pub HasRoom-rate_limit_check :
    (a : Auth) (ip : Bytes) (now : Time) → HasRoom a ip → HasRoom (rate_limit_check a ip now).0 ip
unfolding rate_limit_check
HasRoom-rate_limit_check a ip now h =
    let m = (prune a ip now).0.failures in
    let fits : length m ≤ rate_limit_max_ips =
      omega (arith, prune-length-le a ip now, HasRoom-le a ip h) in
    elim (Option-cases (lookup ip m)) [
      | inl absent ↦
          let full : (is_absent (lookup ip m) && leb rate_limit_max_ips (length m)) ≡ false =
            full_without-prune a ip now h in
          inl (room_of (lookup ip m) (length m) absent full)
      | inr (ts, e) ↦ inr (λ x. cc (e, x), fits)
    ]

-- Fewer failures count later.
live-later-le :
    (a : Auth) (ip : Bytes) (now later : Time)
    → now ≤ later
    → length (live a ip later) ≤ length (live a ip now)
live-later-le a ip now later h = omega (
  arith,
  ap length (select-select now later (recorded a ip) h),
  length-select-le (in_window later) (live a ip now),
)

pub token-rate_limit_check :
    (a : Auth) (ip : Bytes) (now : Time) → (rate_limit_check a ip now).0.token ≡ a.token
unfolding rate_limit_check prune prune_list keep_pruned
token-rate_limit_check a ip now = ground arith

pub token-record_failure :
    (a : Auth) (ip : Bytes) (now : Time) → (record_failure a ip now).token ≡ a.token
unfolding record_failure
token-record_failure a ip now = refl

-- A check alone forgets no failure that counts later.
pub not_counted_le :
    (a : Auth) (ip : Bytes) (now later : Time) (n : ℕ)
    → now ≤ later
    → n ≤ rate_limit_capacity - length (live (rate_limit_check a ip now).0 ip later)
    → n ≤ rate_limit_capacity - length (live a ip later)
not_counted_le a ip now later n past h =
    ground (arith, h, ap length (live-rate_limit_check a ip ip now later past))

-- One attempt that is let through uses up one of the five, if it still counts later.
pub counted_le :
    (a : Auth) (ip : Bytes) (now at later : Time) (more : List Time)
    → HasRoom a ip
    → now ≤ later
    → at ≤ later
    → length (live a ip now) < rate_limit_capacity
    → length (select (in_window later) more)
      ≤ rate_limit_capacity
        - length (live (record_failure (rate_limit_check a ip now).0 ip at) ip later)
    → length (select (in_window later) (at ∷ more)) ≤ rate_limit_capacity - length (live a ip later)
counted_le a ip now at later more room past done few rest =
    let checked = (rate_limit_check a ip now).0 in
    let one = select (in_window later) (at ∷ []) in
    let counted : live (record_failure checked ip at) ip later ≡ live a ip later ++ one =
      (live-record_failure checked ip ip at later (HasRoom-rate_limit_check a ip now room) done
        ∙ rw (bytes_eq_refl ip))
      ∙ ap (λ (us : List Time). us ++ one) (live-rate_limit_check a ip ip now later past) in
    ground (
      arith,
      few,
      rest,
      live-later-le a ip now later past,
      ap length counted,
      length-append (live a ip later) one,
    )
