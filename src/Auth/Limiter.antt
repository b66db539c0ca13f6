-- ===== src/Auth/Limiter.antt =====
-- The sliding-window rate limiter of internal/auth/auth.go.
pub mod Window
pub mod Room
pub mod Lockout
pub mod Evict
pub mod Bound
pub mod Attempts
pub mod Overlap
use my_home_index_server.Prelude.{
  ℕ, ◌+◌, ◌-◌, Bool, true, false, not, ◌&&◌, ◌||◌, Option, none, some, List, [], ◌∷◌, ◌++◌,
}
use my_home_index_server.Prelude.Tests.{ltb, leb, if◌then◌else◌}
use my_home_index_server.Prelude.Lists.{length, select}
use my_home_index_server.Prelude.Bytes.{Bytes}
use my_home_index_server.Prelude.Dict.{Dict, lookup, insert, delete}
use my_home_index_server.Prelude.Time.{Time, Duration}
use my_home_index_server.Auth.{Auth, rate_limit_window, rate_limit_capacity, rate_limit_max_ips}

-- t.After(now.Add(-RateLimitWindow)), with the window on the other side.
abbrev pub in_window : Time → Time → Bool
in_window now t = ltb now (t + rate_limit_window)

-- a.failures[ip], which is nil for an address that the map does not hold.
abbrev pub or_nil : Option (List Time) → List Time
or_nil none = []
or_nil (some fails) = fails

abbrev pub recorded : Auth → Bytes → List Time
recorded a ip = or_nil (lookup ip a.failures)

keep_pruned : Auth → Bytes → List Time → Auth × List Time
keep_pruned a ip [] = (record a { failures = delete ip a.failures }, [])
keep_pruned a ip (t ∷ keep) = (record a { failures = insert ip (t ∷ keep) a.failures }, t ∷ keep)

prune_list : Auth → Bytes → Time → List Time → Auth × List Time
unfolding keep_pruned
prune_list a ip now [] = (a, [])
prune_list a ip now (t ∷ fails) = keep_pruned a ip (select (in_window now) (t ∷ fails))

-- `pruneLocked`
unfoldable pub prune : Auth → Bytes → Time → Auth × List Time
unfolding prune_list
prune a ip now = prune_list a ip now (recorded a ip)

pub record Verdict : Type 0 where
  pub allowed : Bool
  pub retry_after : Duration

-- `wait` is the window less the age of the oldest failure, and 0 where that is negative.
judge : List Time → Time → Verdict
judge [] now = record { allowed = true; retry_after = 0 }
judge (oldest ∷ fails) now =
    if leb rate_limit_capacity (length (oldest ∷ fails))
    then record { allowed = false; retry_after = oldest + rate_limit_window - now }
    else record { allowed = true; retry_after = 0 }

-- `RateLimitCheck`
unfoldable pub rate_limit_check : Auth → Bytes → Time → Auth × Verdict
unfolding judge
rate_limit_check a ip now = let pruned = prune a ip now in (pruned.0, judge pruned.1 now)

-- fails[len(fails)-1]
abbrev pub newest : List Time → Option Time
newest [] = none
newest (t ∷ []) = some t
newest (t ∷ u ∷ fails) = newest (u ∷ fails)

still_live : Time → Option Time → Bool
still_live now none = false
still_live now (some t) = in_window now t

-- `sweepExpiredLocked`
unfoldable pub sweep_expired : Time → Dict (List Time) → Dict (List Time)
unfolding still_live
sweep_expired now = select (λ entry. still_live now (newest entry.1))

abbrev pub has_failures : Bytes × List Time → Bool
has_failures (ip, []) = false
has_failures (ip, t ∷ fails) = true

-- One visit of the loop of `evictOldestLocked`: `none` is `seen == false`.
consider : Option (Bytes × Time) → Bytes → Option Time → Option (Bytes × Time)
consider oldest ip none = oldest
consider none ip (some t) = some (ip, t)
consider (some (oldest_ip, oldest_time)) ip (some t) =
    if ltb t oldest_time then some (ip, t) else some (oldest_ip, oldest_time)

unfoldable pub scan_oldest : Option (Bytes × Time) → Dict (List Time) → Option (Bytes × Time)
unfolding consider
scan_oldest oldest [] = oldest
scan_oldest oldest ((ip, fails) ∷ m) = scan_oldest (consider oldest ip (newest fails)) m

delete_seen : Option (Bytes × Time) → Dict (List Time) → Dict (List Time)
delete_seen none m = m
delete_seen (some (ip, t)) m = delete ip m

-- `evictOldestLocked`: the loop also deletes the addresses without failures.
unfoldable pub evict_oldest : Dict (List Time) → Dict (List Time)
unfolding scan_oldest delete_seen
evict_oldest m = delete_seen (scan_oldest none m) (select has_failures m)

unfoldable pub is_absent : Option (List Time) → Bool
is_absent none = true
is_absent (some fails) = false

-- What makes room for a new address.
unfoldable pub make_room : Time → Dict (List Time) → Dict (List Time)
make_room now m =
    let swept = sweep_expired now m in
    if leb rate_limit_max_ips (length swept) then evict_oldest swept else swept

-- `RateLimitRecordFailure`
unfoldable pub record_failure : Auth → Bytes → Time → Auth
unfolding is_absent
record_failure a ip now =
    let pruned = prune a ip now in
    let m = pruned.0.failures in
    let room =
      if is_absent (lookup ip m) && leb rate_limit_max_ips (length m) then make_room now m else m in
    record a { failures = insert ip (pruned.1 ++ now ∷ []) room }

-- `RateLimitRecordSuccess`
unfoldable pub record_success : Auth → Bytes → Auth
record_success a ip = record a { failures = delete ip a.failures }
