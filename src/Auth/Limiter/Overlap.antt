-- ===== src/Auth/Limiter/Overlap.antt =====
-- Attempts that are checked before any of them is recorded: the check and the record of a failure
-- take the mutex separately (withRateLimit of internal/server/middleware.go and handleLoginPost).
use my_home_index_server.Prelude.{
  ℕ, zero, suc, ◌+◌, ◌≤◌, ◌<◌, ◌≡◌, refl, ap, ◌∙◌, true, List, ◌++◌, arith,
}
use my_home_index_server.Prelude.Lists.{length, select, length-append, All}
use my_home_index_server.Prelude.Bytes.{Bytes}
use my_home_index_server.Prelude.Time.{Time}
use my_home_index_server.Auth.{Auth, rate_limit_capacity}
use my_home_index_server.Auth.Limiter.{in_window, rate_limit_check}
use my_home_index_server.Auth.Limiter.Window.{live, live-rate_limit_check, rate_limit_check-allowed}
use my_home_index_server.Auth.Limiter.Room.{HasRoom}
use my_home_index_server.Auth.Limiter.Attempts.{HasRoom-rate_limit_check}
use my_home_index_server.Auth.Limiter.Lockout.{record_all, live-record_all}

-- The state behind `n` checks at one instant.
abbrev pub check_all : ℕ → Auth → Bytes → Time → Auth
check_all zero a ip now = a
check_all (suc n) a ip now = (rate_limit_check (check_all n a ip now) ip now).0

HasRoom-check_all :
    (n : ℕ) (a : Auth) (ip : Bytes) (now : Time) → HasRoom a ip → HasRoom (check_all n a ip now) ip
HasRoom-check_all zero a ip now room = room
HasRoom-check_all (suc n) a ip now room =
    HasRoom-rate_limit_check (check_all n a ip now) ip now (HasRoom-check_all n a ip now room)

live-check_all :
    (n : ℕ) (a : Auth) (ip : Bytes) (now later : Time)
    → now ≤ later
    → live (check_all n a ip now) ip later ≡ live a ip later
live-check_all zero a ip now later past = refl
live-check_all (suc n) a ip now later past =
    live-rate_limit_check (check_all n a ip now) ip ip now later past
    ∙ live-check_all n a ip now later past

-- If the map has room for an address and fewer than five failures of it count, then however many of
-- its attempts are checked at one instant before any of them is recorded, the next one is let
-- through as well; and every failure that is recorded behind these checks counts as long as it is
-- less than 15 minutes old.
pub check_all-allowed :
    (n : ℕ) (a : Auth) (ip : Bytes) (now later : Time) (ts : List Time)
    → HasRoom a ip
    → length (live a ip now) < rate_limit_capacity
    → now ≤ later
    → All (λ t. t ≤ later) ts
    → ((rate_limit_check (check_all n a ip now) ip now).1.allowed ≡ true)
      × (length (live (record_all (check_all n a ip now) ip ts) ip later)
          ≡ length (live a ip later) + length (select (in_window later) ts))
check_all-allowed n a ip now later ts room few past done =
    let b = check_all n a ip now in
    let let_in : (rate_limit_check b ip now).1.allowed ≡ true =
      rate_limit_check-allowed b ip now
      ∙ ground (arith, few, ap length (live-check_all n a ip now now (omega arith))) in
    let counted : live (record_all b ip ts) ip later
        ≡ live a ip later ++ select (in_window later) ts =
      live-record_all b ip ts later (HasRoom-check_all n a ip now room) done
      ∙ ap (λ (us : List Time). us ++ select (in_window later) ts)
          (live-check_all n a ip now later past) in
    (let_in, ap length counted ∙ length-append (live a ip later) (select (in_window later) ts))
