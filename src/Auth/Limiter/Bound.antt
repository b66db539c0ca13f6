-- ===== src/Auth/Limiter/Bound.antt =====
-- The map of failures never holds more than 10000 addresses.
use my_home_index_server.Prelude.{
  ◌≤◌, ◌<◌, ◌≡◌, refl, inl, inr, Bool, none, List, [], ◌∷◌, ◌++◌, arith,
}
use my_home_index_server.Prelude.Tests.{leb, leb→le, leb→lt, Bool-cases}
use my_home_index_server.Prelude.Lists.{length, select, length-select-le}
use my_home_index_server.Prelude.Bytes.{Bytes}
use my_home_index_server.Prelude.Dict.{
  Dict, lookup, Distinct, insert-Distinct, delete-Distinct, length-insert-le, length-delete-le,
}
use my_home_index_server.Prelude.Time.{Time}
use my_home_index_server.Auth.{Auth, rate_limit_max_ips}
use my_home_index_server.Auth.Limiter.{
  in_window, has_failures, evict_oldest, sweep_expired, make_room, prune_list, keep_pruned,
  recorded, prune, rate_limit_check, record_failure, record_success,
}
use my_home_index_server.Auth.Limiter.Room.{full_without, prune-length-le, insert_fits}
use my_home_index_server.Auth.Limiter.Evict.{
  Evicted, emptied, without, evict_oldest-Evicted, Evicted-length,
}

lookup-select-none :
    (p : Bytes × List Time → Bool) (j : Bytes) (m : Dict (List Time))
    → lookup j m ≡ none
    → lookup j (select p m) ≡ none
unfolding lookup
lookup-select-none p j [] h = refl
lookup-select-none p j ((i, w) ∷ m) h = ground (arith, lookup-select-none p j m)

select-Distinct :
    (p : Bytes × List Time → Bool) (m : Dict (List Time)) → Distinct m → Distinct (select p m)
select-Distinct p [] d = tt
select-Distinct p ((i, w) ∷ m) d = ground (arith, select-Distinct p m d.1, lookup-select-none p i m)

pub record IsBounded (a : Auth) : Type 0 where
  pub distinct : Distinct a.failures
  pub bounded : length a.failures ≤ rate_limit_max_ips

sweep-length-le : (now : Time) (m : Dict (List Time)) → length (sweep_expired now m) ≤ length m
unfolding sweep_expired
sweep-length-le now m = length-select-le _ m

sweep-Distinct : (now : Time) (m : Dict (List Time)) → Distinct m → Distinct (sweep_expired now m)
unfolding sweep_expired
sweep-Distinct now m d = select-Distinct _ m d

Evicted-Distinct : (m m' : Dict (List Time)) → Evicted m m' → Distinct m → Distinct m'
Evicted-Distinct m m' (emptied _ e) d = rw e tt
Evicted-Distinct m m' (without j u o e) d =
    rw e (delete-Distinct j _ (select-Distinct has_failures m d))

make_room-Distinct : (now : Time) (m : Dict (List Time)) → Distinct m → Distinct (make_room now m)
unfolding make_room
make_room-Distinct now m d =
    let swept = sweep_expired now m in
    let kept = sweep-Distinct now m d in
    elim (Bool-cases (leb rate_limit_max_ips (length swept))) [
      | inl full ↦
          rw full
            (Evicted-Distinct swept (evict_oldest swept) (evict_oldest-Evicted swept kept) kept)
      | inr room ↦ rw room kept
    ]

keep_pruned-Distinct :
    (a : Auth) (ip : Bytes) (ks : List Time)
    → Distinct a.failures
    → Distinct (keep_pruned a ip ks).0.failures
unfolding keep_pruned
keep_pruned-Distinct a ip [] d = delete-Distinct ip a.failures d
keep_pruned-Distinct a ip (t ∷ ks) d = insert-Distinct ip (t ∷ ks) a.failures d

prune_list-Distinct :
    (a : Auth) (ip : Bytes) (now : Time) (ts : List Time)
    → Distinct a.failures
    → Distinct (prune_list a ip now ts).0.failures
unfolding prune_list
prune_list-Distinct a ip now [] d = d
prune_list-Distinct a ip now (t ∷ ts) d =
    keep_pruned-Distinct a ip (select (in_window now) (t ∷ ts)) d

prune-IsBounded : (a : Auth) (ip : Bytes) (now : Time) → IsBounded a → IsBounded (prune a ip now).0
prune-IsBounded a ip now b = record {
  distinct = unfold prune in prune_list-Distinct a ip now (recorded a ip) b.distinct;
  bounded = omega (arith, prune-length-le a ip now, b.bounded);
}

length-make_room :
    (now : Time) (m : Dict (List Time))
    → Distinct m
    → length m ≤ rate_limit_max_ips
    → length (make_room now m) < rate_limit_max_ips
unfolding make_room
length-make_room now m d h =
    let swept = sweep_expired now m in
    elim (Bool-cases (leb rate_limit_max_ips (length swept))) [
      | inl full ↦ rw full (
          omega (
            arith,
            Evicted-length swept (evict_oldest swept)
                (evict_oldest-Evicted swept (sweep-Distinct now m d))
                (omega (arith, leb→le rate_limit_max_ips (length swept) full)),
            sweep-length-le now m,
          ))
      | inr room ↦ rw room (leb→lt rate_limit_max_ips (length swept) room)
    ]

-- Recording a failure, from whatever address and at whatever time, keeps the map within 10000
-- addresses.
pub record_failure-IsBounded :
    (a : Auth) (ip : Bytes) (now : Time) → IsBounded a → IsBounded (record_failure a ip now)
unfolding record_failure
record_failure-IsBounded a ip now b =
    let p = prune-IsBounded a ip now b in
    let m = (prune a ip now).0.failures in
    let ts = (prune a ip now).1 ++ now ∷ [] in
    elim (Bool-cases (full_without ip m)) [
      | inl full ↦ rw full (record {
        distinct = insert-Distinct ip ts (make_room now m) (make_room-Distinct now m p.distinct);
        bounded = omega (
          arith,
          length-insert-le ip ts (make_room now m),
          length-make_room now m p.distinct p.bounded,
        );
      })
      | inr room ↦ rw room (record {
        distinct = insert-Distinct ip ts m p.distinct;
        bounded = insert_fits ip ts m p.bounded room;
      })
    ]

-- A check and a successful login keep it within them, too.
pub rate_limit_check-IsBounded :
    (a : Auth) (ip : Bytes) (now : Time) → IsBounded a → IsBounded (rate_limit_check a ip now).0
unfolding rate_limit_check
rate_limit_check-IsBounded a ip now b = prune-IsBounded a ip now b

pub record_success-IsBounded :
    (a : Auth) (ip : Bytes) → IsBounded a → IsBounded (record_success a ip)
unfolding record_success
record_success-IsBounded a ip b = record {
  distinct = delete-Distinct ip a.failures b.distinct;
  bounded = omega (arith, length-delete-le ip a.failures, b.bounded);
}
