-- ===== src/Auth/Limiter/Room.antt =====
-- When a failure can be recorded without another address being forgotten.
use my_home_index_server.Prelude.{
  ◌≤◌, ◌<◌, ◌≡◌, ◌≢◌, refl, ap, ◌⊎◌, inl, inr, Bool, false, ◌&&◌, none, List, [], ◌∷◌, ◌++◌, arith,
}
use my_home_index_server.Prelude.Tests.{leb, leb→lt, Option-cases}
use my_home_index_server.Prelude.Lists.{length, select}
use my_home_index_server.Prelude.Bytes.{Bytes, bytes_eq_refl}
use my_home_index_server.Prelude.Dict.{
  Dict, lookup, insert, delete, lookup-insert, length-insert-le, length-delete-le,
  length-delete_present, length-insert_present,
}
use my_home_index_server.Prelude.Time.{Time}
use my_home_index_server.Auth.{Auth, rate_limit_max_ips}
use my_home_index_server.Auth.Limiter.{
  in_window, or_nil, recorded, prune_list, keep_pruned, prune, is_absent, record_failure,
}

-- A failure of the address needs no other to be forgotten: there is room in the map, or the address
-- stands in it.
abbrev pub HasRoom : Auth → Bytes → Type 0
HasRoom a ip =
    (length a.failures < rate_limit_max_ips)
    ⊎ ((lookup ip a.failures ≢ none) × (length a.failures ≤ rate_limit_max_ips))

-- The test that makes `RateLimitRecordFailure` clear other addresses away.
abbrev pub full_without : Bytes → Dict (List Time) → Bool
full_without ip m = is_absent (lookup ip m) && leb rate_limit_max_ips (length m)

full_without_few :
    (ip : Bytes) (m : Dict (List Time)) → length m < rate_limit_max_ips → full_without ip m ≡ false
unfolding is_absent
full_without_few ip m h = ground arith

full_without_present :
    (ip : Bytes) (m : Dict (List Time)) → lookup ip m ≢ none → full_without ip m ≡ false
unfolding is_absent
full_without_present ip m h = ground arith

full_without-insert :
    (ip : Bytes) (ts : List Time) (m : Dict (List Time)) → full_without ip (insert ip ts m) ≡ false
full_without-insert ip ts m =
    full_without_present ip (insert ip ts m)
      (λ e. ground (arith, lookup-insert ip ip ts m, bytes_eq_refl ip))

full_without-delete :
    (a : Auth) (ip : Bytes) → HasRoom a ip → full_without ip (delete ip a.failures) ≡ false
full_without-delete a ip (inl few) =
    full_without_few ip _ (omega (arith, length-delete-le ip a.failures))
full_without-delete a ip (inr (present, fits)) = elim (Option-cases (lookup ip a.failures)) [
  | inl e ↦ absurd (present e)
  | inr (ts, e) ↦ full_without_few ip _ (omega (arith, length-delete_present ip ts a.failures e))
]

full_without-prune_list :
    (a : Auth) (ip : Bytes) (now : Time) (ts : List Time)
    → HasRoom a ip
    → full_without ip (prune_list a ip now ts).0.failures ≡ false
unfolding prune_list
full_without-prune_list a ip now [] (inl few) = full_without_few ip a.failures few
full_without-prune_list a ip now [] (inr (present, fits)) =
    full_without_present ip a.failures present
full_without-prune_list a ip now (t ∷ ts) h = go (select (in_window now) (t ∷ ts))
  where
    go : (ks : List Time) → full_without ip (keep_pruned a ip ks).0.failures ≡ false
    go [] = unfold keep_pruned in full_without-delete a ip h
    go (k ∷ ks) = unfold keep_pruned in full_without-insert ip (k ∷ ks) a.failures

pub full_without-prune :
    (a : Auth) (ip : Bytes) (now : Time)
    → HasRoom a ip
    → full_without ip (prune a ip now).0.failures ≡ false
unfolding prune
full_without-prune a ip now h = full_without-prune_list a ip now (recorded a ip) h

keep_pruned-length-le :
    (a : Auth) (ip : Bytes) (ks : List Time)
    → lookup ip a.failures ≢ none
    → length (keep_pruned a ip ks).0.failures ≤ length a.failures
unfolding keep_pruned
keep_pruned-length-le a ip [] present = length-delete-le ip a.failures
keep_pruned-length-le a ip (t ∷ ks) present =
    omega (arith, length-insert_present ip (t ∷ ks) a.failures present)

present_of_recorded :
    (a : Auth) (ip : Bytes) (t : Time) (ts : List Time)
    → recorded a ip ≡ t ∷ ts
    → lookup ip a.failures ≢ none
present_of_recorded a ip t ts e absent = cc (e, ap or_nil absent)

prune_list-length-le :
    (a : Auth) (ip : Bytes) (now : Time) (ts : List Time)
    → recorded a ip ≡ ts
    → length (prune_list a ip now ts).0.failures ≤ length a.failures
unfolding prune_list
prune_list-length-le a ip now [] e = omega arith
prune_list-length-le a ip now (t ∷ ts) e =
    keep_pruned-length-le a ip (select (in_window now) (t ∷ ts)) (present_of_recorded a ip t ts e)

pub prune-length-le :
    (a : Auth) (ip : Bytes) (now : Time) → length (prune a ip now).0.failures ≤ length a.failures
unfolding prune
prune-length-le a ip now = prune_list-length-le a ip now (recorded a ip) refl

pub insert_fits :
    (ip : Bytes) (ts : List Time) (m : Dict (List Time))
    → length m ≤ rate_limit_max_ips
    → full_without ip m ≡ false
    → length (insert ip ts m) ≤ rate_limit_max_ips
unfolding is_absent
insert_fits ip ts m h room = elim (Option-cases (lookup ip m)) [
  | inl e ↦
      omega (arith, length-insert-le ip ts m, leb→lt rate_limit_max_ips (length m) (rw e at room))
  | inr (us, e) ↦ omega (arith, length-insert_present ip ts m (λ x. cc), h)
]

pub HasRoom-le : (a : Auth) (ip : Bytes) → HasRoom a ip → length a.failures ≤ rate_limit_max_ips
HasRoom-le a ip (inl few) = omega arith
HasRoom-le a ip (inr (present, fits)) = fits

pub record_failure-HasRoom :
    (a : Auth) (ip : Bytes) (now : Time) → HasRoom a ip → HasRoom (record_failure a ip now) ip
unfolding record_failure
record_failure-HasRoom a ip now h = rw (full_without-prune a ip now h) (
    inr (
      λ e. ground (
        arith,
        lookup-insert ip ip ((prune a ip now).1 ++ now ∷ []) (prune a ip now).0.failures,
        bytes_eq_refl ip,
      ),
      insert_fits ip _ (prune a ip now).0.failures
          (omega (arith, prune-length-le a ip now, HasRoom-le a ip h))
          (full_without-prune a ip now h),
    ))
