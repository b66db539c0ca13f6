-- ===== src/Auth/Limiter/Window.antt =====
-- The limiter against its specification: the failures of an address within the last 15 minutes.
use my_home_index_server.Prelude.{◌≤◌, ◌≡◌, refl, sym, ap, ◌∙◌, inl, inr, List, [], ◌∷◌, arith}
use my_home_index_server.Prelude.Tests.{ltb, Bool-cases, if◌then◌else◌}
use my_home_index_server.Prelude.Lists.{length, select}
use my_home_index_server.Prelude.Bytes.{Bytes, bytes_eq, bytes_eq_iff}
use my_home_index_server.Prelude.Dict.{lookup-insert, lookup-delete}
use my_home_index_server.Prelude.Time.{Time}
use my_home_index_server.Auth.{Auth, rate_limit_capacity}
use my_home_index_server.Auth.Limiter.{
  in_window, recorded, prune_list, keep_pruned, prune, judge, rate_limit_check,
}

-- The failures that count against an address at an instant.
abbrev pub live : Auth → Bytes → Time → List Time
live a ip now = select (in_window now) (recorded a ip)

-- What has left the window stays out of it.
pub select-select :
    (now later : Time) (ts : List Time)
    → now ≤ later
    → select (in_window later) (select (in_window now) ts) ≡ select (in_window later) ts
select-select now later [] h = refl
select-select now later (t ∷ ts) h = ground (arith, select-select now later ts h)

pub prune-live : (a : Auth) (ip : Bytes) (now : Time) → (prune a ip now).1 ≡ live a ip now
unfolding prune
prune-live a ip now = go (recorded a ip)
  where
    kept : (ks : List Time) → (keep_pruned a ip ks).1 ≡ ks
    kept [] = refl
    kept (t ∷ ks) = refl

    go : (ts : List Time) → (prune_list a ip now ts).1 ≡ select (in_window now) ts
    go [] = refl
    go (t ∷ ts) = kept (select (in_window now) (t ∷ ts))

recorded-keep_pruned :
    (a : Auth) (ip j : Bytes) (ks : List Time)
    → recorded (keep_pruned a ip ks).0 j ≡ (if bytes_eq ip j then ks else recorded a j)
unfolding keep_pruned
recorded-keep_pruned a ip j [] = ground (arith, lookup-delete ip j a.failures)
recorded-keep_pruned a ip j (t ∷ ks) = ground (arith, lookup-insert ip j (t ∷ ks) a.failures)

recorded-prune_list :
    (a : Auth) (ip j : Bytes) (now : Time) (ts : List Time)
    → recorded a ip ≡ ts
    → recorded (prune_list a ip now ts).0 j
      ≡ (if bytes_eq ip j then select (in_window now) ts else recorded a j)
unfolding prune_list
recorded-prune_list a ip j now [] e = elim (Bool-cases (bytes_eq ip j)) [
  | inl same ↦ rw same (ap (recorded a) (sym ((bytes_eq_iff ip j).0 same)) ∙ e)
  | inr differs ↦ rw differs
]
recorded-prune_list a ip j now (t ∷ ts) e =
    recorded-keep_pruned a ip j (select (in_window now) (t ∷ ts))

pub recorded-prune :
    (a : Auth) (ip j : Bytes) (now : Time)
    → recorded (prune a ip now).0 j ≡ (if bytes_eq ip j then live a ip now else recorded a j)
unfolding prune
recorded-prune a ip j now = recorded-prune_list a ip j now (recorded a ip) refl

-- Pruning takes nothing away that would still count later.
pub live-prune :
    (a : Auth) (ip j : Bytes) (now later : Time)
    → now ≤ later
    → live (prune a ip now).0 j later ≡ live a j later
live-prune a ip j now later h = elim (Bool-cases (bytes_eq ip j)) [
  | inl same ↦
      ap (select (in_window later)) (recorded-prune a ip j now ∙ rw same)
      ∙ select-select now later (recorded a ip) h
      ∙ ap (λ (k : Bytes). live a k later) ((bytes_eq_iff ip j).0 same)
  | inr differs ↦ ap (select (in_window later)) (recorded-prune a ip j now ∙ rw differs)
]

judge-allowed : (ts : List Time) (now : Time) → (judge ts now).allowed ≡ ltb (length ts) 5
unfolding judge
judge-allowed [] now = refl
judge-allowed (t ∷ ts) now = ground arith

-- `RateLimitCheck` allows an attempt exactly when fewer than five failures of the address lie within
-- the window.
pub rate_limit_check-allowed :
    (a : Auth) (ip : Bytes) (now : Time)
    → (rate_limit_check a ip now).1.allowed ≡ ltb (length (live a ip now)) rate_limit_capacity
unfolding rate_limit_check
rate_limit_check-allowed a ip now =
    judge-allowed (prune a ip now).1 now
    ∙ ap (λ (ts : List Time). ltb (length ts) 5) (prune-live a ip now)

-- A check changes nothing that a check of any address sees at that instant or later.
pub live-rate_limit_check :
    (a : Auth) (ip j : Bytes) (now later : Time)
    → now ≤ later
    → live (rate_limit_check a ip now).0 j later ≡ live a j later
unfolding rate_limit_check
live-rate_limit_check a ip j now later h = live-prune a ip j now later h
