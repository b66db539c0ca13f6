-- ===== src/Store/Ops/Listing.antt =====
-- What the remembered listings answer after `Remember` and `DeleteRemembered`.
use mathlib.Core.List.{reverse, map, reverse-append}
use my_home_index_server.Prelude.{
  ◌-◌, ◌≤◌, ◌<◌, ◌≡◌, sym, ap, ◌∙◌, true, inl, inr, Option, some, List, [], ◌∷◌, ◌++◌, append-nil,
  arith,
}
use my_home_index_server.Prelude.Tests.{Bool-cases, if◌then◌else◌}
use my_home_index_server.Prelude.Lists.{length, take, drop, select, length-append, select-append}
use my_home_index_server.Prelude.Reverse.{reverse-drop_excess, select-reverse, take-map}
use my_home_index_server.Prelude.Bytes.{Bytes, bytes_eq, bytes_eq_iff}
use my_home_index_server.Prelude.Time.{Time}
use my_home_index_server.Disk.{Faults}
use my_home_index_server.Store.{
  Store, Host, Remembered, max_state_bytes, per_key_remembered_cap, global_remembered_cap,
}
use my_home_index_server.Store.Key.{label_key}
use my_home_index_server.Store.Evict.{has_key, evict_per_key}
use my_home_index_server.Store.Evict.PerKey.{
  of_key, of_key-evict_per_key, of_key-evict_per_key_other, evict_global_few,
  length-evict_per_key-le,
}
use my_home_index_server.Store.Persist.Fitting.{persist-content}
use my_home_index_server.Store.Ops.{
  append_remembered, remember, with_id, stamp, clone_remembered, list_remembered,
}

of_key-evict_own :
    (k key : Bytes) (rs : List Remembered)
    → k ≡ key
    → of_key key (evict_per_key k rs)
      ≡ drop (length (of_key key rs) - per_key_remembered_cap) (of_key key rs)
of_key-evict_own k key rs e = rw e (of_key-evict_per_key key rs)

of_key-snoc :
    (r : Remembered) (rs : List Remembered) (key : Bytes)
    → bytes_eq r.label_key key ≡ true
    → of_key key (rs ++ r ∷ []) ≡ of_key key rs ++ r ∷ []
of_key-snoc r rs key same = select-append (has_key key) rs (r ∷ []) ∙ rw same

-- The entries of a key after `Remember`, when the cap on all entries is not reached.
of_key-append_remembered :
    (r : Remembered) (rs : List Remembered) (key : Bytes)
    → length rs < global_remembered_cap
    → of_key key (append_remembered r rs) ≡ (
        if bytes_eq r.label_key key
        then drop
            (length (of_key key rs ++ r ∷ []) - per_key_remembered_cap)
            (of_key key rs ++ r ∷ [])
        else of_key key rs)
unfolding append_remembered
of_key-append_remembered r rs key few =
    ap (of_key key) (
      evict_global_few (evict_per_key r.label_key (rs ++ r ∷ [])) (
        omega
          (arith, length-evict_per_key-le r.label_key (rs ++ r ∷ []), length-append rs (r ∷ []))))
    ∙ elim (Bool-cases (bytes_eq r.label_key key)) [
      | inl same ↦ rw same (
          of_key-evict_own r.label_key key (rs ++ r ∷ []) ((bytes_eq_iff r.label_key key).0 same)
          ∙ ap (λ (xs : List Remembered). drop (length xs - 5) xs) (of_key-snoc r rs key same))
      | inr differs ↦ rw differs (
          of_key-evict_per_key_other r.label_key key (rs ++ r ∷ [])
            (λ e. ground (arith, bytes_eq_iff r.label_key key))
          ∙ select-append (has_key key) rs (r ∷ [])
          ∙ rw differs (append-nil (of_key key rs)))
    ]

newest_five :
    (q : Remembered) (xs : List Remembered)
    → map clone_remembered
        (reverse (drop (length (xs ++ q ∷ []) - per_key_remembered_cap) (xs ++ q ∷ [])))
      ≡ take per_key_remembered_cap (clone_remembered q ∷ map clone_remembered (reverse xs))
newest_five q xs =
    ap (map clone_remembered) (reverse-drop_excess 5 (xs ++ q ∷ []))
    ∙ sym (take-map clone_remembered 5 (reverse (xs ++ q ∷ [])))
    ∙ ap (λ (ys : List Remembered). take 5 (map clone_remembered ys)) (reverse-append xs (q ∷ []))

-- The listing of one key, as a function of the entries.
abbrev listing : Bytes → List Remembered → List Remembered
listing key rs = map clone_remembered (select (has_key key) (reverse rs))

listing-append_remembered :
    (q : Remembered) (rs : List Remembered) (key : Bytes)
    → length rs < global_remembered_cap
    → listing key (append_remembered q rs) ≡ (
        if bytes_eq q.label_key key
        then take per_key_remembered_cap (clone_remembered q ∷ listing key rs)
        else listing key rs)
listing-append_remembered q rs key few =
    ap (map clone_remembered) (
      select-reverse (has_key key) (append_remembered q rs)
      ∙ ap reverse (of_key-append_remembered q rs key few))
    ∙ elim (Bool-cases (bytes_eq q.label_key key)) [
      | inl same ↦ rw same (
          newest_five q (of_key key rs)
          ∙ ap (λ (ys : List Remembered). take 5 (clone_remembered q ∷ map clone_remembered ys))
              (sym (select-reverse (has_key key) rs)))
      | inr differs ↦ rw differs (ap (map clone_remembered) (sym (select-reverse (has_key key) rs)))
    ]

-- With fewer than a hundred entries before, an id that could be made, and a new state within its size, the
-- listing of a key after `Remember` begins with the new entry, stamped with key, time and id, goes on
-- with what it was, and is cut to five; the listings of the other keys are as they were. This holds in
-- memory even if the write to the disk fails.
pub list_remembered-remember :
    (host : Host) (f : Faults) (now : Time) (entropy : Option Bytes) (s : Store) (r q : Remembered)
    (cwd : Bytes) (command : List Bytes) (buf : Bytes)
    → with_id entropy (stamp host now r) ≡ some q
    → length s.remembered < global_remembered_cap
    → host.marshal (record (s.content) { remembered = append_remembered q s.remembered }) ≡ some buf
    → length buf ≤ max_state_bytes
    → list_remembered host (remember host f now entropy s r).0 cwd command ≡ (
        if bytes_eq q.label_key (label_key host cwd command)
        then take per_key_remembered_cap (clone_remembered q ∷ list_remembered host s cwd command)
        else list_remembered host s cwd command)
unfolding list_remembered remember
list_remembered-remember host f now entropy s r q cwd command buf id few m fits =
    let stored : Store = record s {
      content = record (s.content) { remembered = append_remembered q s.remembered };
    } in
    rw (id, persist-content host f stored buf m fits)
      (listing-append_remembered q s.remembered (label_key host cwd command) few)
