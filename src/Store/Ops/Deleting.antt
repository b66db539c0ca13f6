-- ===== src/Store/Ops/Deleting.antt =====
-- What `FindRemembered` answers after `DeleteRemembered`.
use my_home_index_server.Prelude.{
  ℕ, zero, suc, ◌≤◌, ◌≡◌, ◌≢◌, refl, sym, false, inl, inr, none, some, List, [], ◌∷◌, arith,
}
use my_home_index_server.Prelude.Tests.{Bool-cases}
use my_home_index_server.Prelude.Lists.{length, drop}
use my_home_index_server.Prelude.Bytes.{Bytes, bytes_eq_iff}
use my_home_index_server.Disk.{Faults}
use my_home_index_server.Store.{Store, Host, Persisted, Remembered, max_state_bytes}
use my_home_index_server.Store.Persist.Fitting.{persist-content}
use my_home_index_server.Store.Persist.Total.{
  Step, oldest_remembered, oldest_label, Shrinks, stays, drops, persist-Result,
}
use my_home_index_server.Prelude.Dict.{Distinct}
use my_home_index_server.Store.Ops.{find_id, find_remembered, without_id, delete_remembered}

-- A lookup that the shrinking of a list cannot bring back.
find_id-without_id : (id : Bytes) (rs : List Remembered) → find_id id (without_id id rs).0 ≡ none
unfolding find_id without_id
find_id-without_id id [] = refl
find_id-without_id id (r ∷ rs) = ground (arith, find_id-without_id id rs)

find_id-without_id_other :
    (id j : Bytes) (rs : List Remembered) → j ≢ id → find_id j (without_id id rs).0 ≡ find_id j rs
unfolding find_id without_id
find_id-without_id_other id j [] h = refl
find_id-without_id_other id j (r ∷ rs) h =
    ground (arith, bytes_eq_iff r.id id, bytes_eq_iff r.id j, find_id-without_id_other id j rs h)

without_id_miss :
    (id : Bytes) (rs : List Remembered) → (without_id id rs).1 ≡ false → find_id id rs ≡ none
unfolding find_id without_id
without_id_miss id [] h = refl
without_id_miss id (r ∷ rs) h = ground (arith, without_id_miss id rs)

find_id-drop :
    (id : Bytes) (n : ℕ) (rs : List Remembered)
    → find_id id rs ≡ none
    → find_id id (drop n rs) ≡ none
unfolding find_id
find_id-drop id zero rs h = h
find_id-drop id (suc n) [] h = h
find_id-drop id (suc n) (r ∷ rs) h = ground (arith, find_id-drop id n rs)

Step-find_id :
    {host : Host} {p q : Persisted} (id : Bytes)
    → Step host p q
    → find_id id p.remembered ≡ none
    → find_id id q.remembered ≡ none
Step-find_id id (oldest_remembered {r = r} {rs = rs} big e q_is) h =
    rw q_is (find_id-drop id 1 (r ∷ rs) (rw e at h))
Step-find_id id (oldest_label big nil ev q_is) h = rw q_is h

Shrinks-find_id :
    {host : Host} {q p : Persisted} (id : Bytes)
    → Shrinks host q p
    → find_id id p.remembered ≡ none
    → find_id id q.remembered ≡ none
Shrinks-find_id id (stays e) h = rw (sym e) h
Shrinks-find_id id (drops step rest) h = Shrinks-find_id id rest (Step-find_id id step h)

-- After `DeleteRemembered` no entry has the id, whatever was evicted and whether or not the write
-- succeeded.
pub find_remembered-delete_remembered :
    (host : Host) (f : Faults) (s : Store) (id : Bytes)
    → Distinct s.labels
    → find_remembered (delete_remembered host f s id).0 id ≡ none
unfolding find_remembered delete_remembered
find_remembered-delete_remembered host f s id d = elim (Bool-cases (without_id id s.remembered).1) [
  | inl hit ↦ rw hit (
      Shrinks-find_id id
        (persist-Result host f
          (record s {
            content = record (s.content) { remembered = (without_id id s.remembered).0 };
          })
          d).shrinks
        (find_id-without_id id s.remembered))
  | inr miss ↦ rw miss (without_id_miss id s.remembered miss)
]

-- When the remaining state is within its size, every other id finds what it found before.
pub find_remembered-delete_remembered_other :
    (host : Host) (f : Faults) (s : Store) (id j buf : Bytes)
    → j ≢ id
    → host.marshal (record (s.content) { remembered = (without_id id s.remembered).0 }) ≡ some buf
    → length buf ≤ max_state_bytes
    → find_remembered (delete_remembered host f s id).0 j ≡ find_remembered s j
unfolding find_remembered delete_remembered
find_remembered-delete_remembered_other host f s id j buf h m fits =
    elim (Bool-cases (without_id id s.remembered).1) [
      | inl hit ↦
          rw
            (
              hit,
              persist-content host f
                  (record s {
                    content = record (s.content) { remembered = (without_id id s.remembered).0 };
                  })
                  buf m fits,
            )
            (find_id-without_id_other id j s.remembered h)
      | inr miss ↦ rw miss
    ]
