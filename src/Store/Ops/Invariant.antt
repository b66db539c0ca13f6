-- ===== src/Store/Ops/Invariant.antt =====
-- What every method of the store keeps: the caps, distinct label keys, and labels within their
-- length. A state file that somebody else wrote need not satisfy it.
use mathlib.Core.Path.{subst}
use my_home_index_server.Prelude.{
  ◌≤◌, ◌≡◌, sym, false, inl, inr, Option, List, [], ◌∷◌, ◌++◌, arith, ap, ◌∙◌, append-nil,
}
use my_home_index_server.Prelude.Tests.{ltb, Bool-cases, Option-cases}
use my_home_index_server.Prelude.Lists.{length, All, select-append}
use my_home_index_server.Prelude.Bytes.{Bytes, is_empty, bytes_eq, bytes_eq_iff}
use my_home_index_server.Prelude.Dict.{
  Dict, insert, delete, Distinct, insert-Distinct, delete-Distinct,
}
use my_home_index_server.Prelude.Utf8.{rune_count}
use my_home_index_server.Prelude.Time.{Time}
use my_home_index_server.Disk.{Faults}
use my_home_index_server.Store.{
  Store, Host, Persisted, Remembered, LabelEntry, max_label_len, per_key_remembered_cap,
  global_remembered_cap,
}
use my_home_index_server.Store.Evict.{has_key, evict_per_key}
use my_home_index_server.Store.Evict.PerKey.{
  of_key, of_key-evict_per_key_other, length-of_key-evict_per_key, length-evict_global,
  length-of_key-evict_global-le,
}
use my_home_index_server.Store.Persist.{persist}
use my_home_index_server.Store.Persist.Total.{
  Step, oldest_remembered, oldest_label, Shrinks, stays, drops, persist-Result,
}
use my_home_index_server.Store.Ops.{
  put_label, set_label, append_remembered, remember, with_id, stamp, without_id, delete_remembered,
}

-- A stored label is not empty and has at most 64 runes.
abbrev pub IsLabel : LabelEntry → Type 0
IsLabel e = (is_empty e.label ≡ false) × (rune_count e.label ≤ max_label_len)

pub record IsValid (p : Persisted) : Type 0 where
  pub per_key : (key : Bytes) → length (of_key key p.remembered) ≤ per_key_remembered_cap
  pub global : length p.remembered ≤ global_remembered_cap
  pub distinct : Distinct p.labels
  pub labelled : All (λ e. IsLabel e.1) p.labels

All-delete :
    (P : Bytes × LabelEntry → Type 0) (k : Bytes) (m : Dict LabelEntry)
    → All P m
    → All P (delete k m)
unfolding delete
All-delete P k [] h = tt
All-delete P k ((j, e) ∷ m) h = ground (arith, All-delete P k m h.1)

All-insert :
    (k : Bytes) (e : LabelEntry) (m : Dict LabelEntry)
    → IsLabel e
    → All (λ x. IsLabel x.1) m
    → All (λ x. IsLabel x.1) (insert k e m)
unfolding insert
All-insert k e [] he h = (he, tt)
All-insert k e ((j, w) ∷ m) he h = ground (arith, All-insert k e m he h.1)

tail-of_key :
    (key : Bytes) (r : Remembered) (rs : List Remembered)
    → length (of_key key rs) ≤ length (of_key key (r ∷ rs))
tail-of_key key r rs = ground arith

Step-IsValid : {host : Host} {p q : Persisted} → Step host p q → IsValid p → IsValid q
Step-IsValid {p = p} (oldest_remembered {r = r} {rs = rs} big e q_is) v = rw q_is (record {
  per_key = λ key. omega (arith, tail-of_key key r rs, rw e at (v.per_key key));
  global = omega (arith, rw e at v.global);
  distinct = v.distinct;
  labelled = v.labelled;
})
Step-IsValid {p = p} (oldest_label big nil ev q_is) v = rw q_is (record {
  per_key = v.per_key;
  global = v.global;
  distinct = rw ev.rest (delete-Distinct ev.key p.labels v.distinct);
  labelled = rw ev.rest (All-delete _ ev.key p.labels v.labelled);
})

Shrinks-IsValid : {host : Host} {q p : Persisted} → Shrinks host q p → IsValid p → IsValid q
Shrinks-IsValid (stays e) v = rw (sym e) v
Shrinks-IsValid (drops step rest) v = Shrinks-IsValid rest (Step-IsValid step v)

pub persist-IsValid :
    (host : Host) (f : Faults) (s : Store)
    → IsValid s.content
    → IsValid (persist host f s).0.content
persist-IsValid host f s v = Shrinks-IsValid (persist-Result host f s v.distinct).shrinks v

put_label-IsValid :
    (key : Bytes) (e : LabelEntry) (p : Persisted)
    → rune_count e.label ≤ max_label_len
    → IsValid p
    → IsValid (record p { labels = put_label key e p.labels })
unfolding put_label
put_label-IsValid key e p short v = elim (Bool-cases (is_empty e.label)) [
  | inl empty ↦ rw empty (record {
    per_key = v.per_key;
    global = v.global;
    distinct = delete-Distinct key p.labels v.distinct;
    labelled = All-delete _ key p.labels v.labelled;
  })
  | inr full ↦ rw full (record {
    per_key = v.per_key;
    global = v.global;
    distinct = insert-Distinct key e p.labels v.distinct;
    labelled = All-insert key e p.labels (full, short) v.labelled;
  })
]

-- `SetLabel` keeps the invariant, whether it succeeds or not.
pub set_label-IsValid :
    (host : Host) (f : Faults) (now : Time) (s : Store) (cwd : Bytes) (command : List Bytes)
    (text : Bytes)
    → IsValid s.content
    → IsValid (set_label host f now s cwd command text).0.content
unfolding set_label
set_label-IsValid host f now s cwd command text v =
    elim (Bool-cases (ltb max_label_len (rune_count text))) [
      | inl long ↦ rw long v
      | inr short ↦
          rw short (persist-IsValid host f _ (put_label-IsValid _ _ s.content (ground arith) v))
    ]

of_key-append_other :
    (r : Remembered) (rs : List Remembered) (key : Bytes)
    → bytes_eq r.label_key key ≡ false
    → of_key key (evict_per_key r.label_key (rs ++ r ∷ [])) ≡ of_key key rs
of_key-append_other r rs key differs =
    of_key-evict_per_key_other r.label_key key (rs ++ r ∷ [])
      (λ e. ground (arith, bytes_eq_iff r.label_key key))
    ∙ select-append (has_key key) rs (r ∷ [])
    ∙ rw differs (append-nil (of_key key rs))

length-append_remembered :
    (r : Remembered) (rs : List Remembered)
    → length (append_remembered r rs) ≤ global_remembered_cap
unfolding append_remembered
length-append_remembered r rs = length-evict_global (evict_per_key r.label_key (rs ++ r ∷ []))

per_key-append :
    (r : Remembered) (rs : List Remembered) (key : Bytes)
    → length (of_key key rs) ≤ per_key_remembered_cap
    → length (of_key key (append_remembered r rs)) ≤ per_key_remembered_cap
unfolding append_remembered
per_key-append r rs key h = elim (Bool-cases (bytes_eq r.label_key key)) [
  | inl same ↦
      let e = (bytes_eq_iff r.label_key key).0 same in
      let bound =
        subst (λ k. length (of_key k (evict_per_key r.label_key (rs ++ r ∷ []))) ≤ 5) e
          (length-of_key-evict_per_key r.label_key (rs ++ r ∷ [])) in
      omega
        (arith, length-of_key-evict_global-le key (evict_per_key r.label_key (rs ++ r ∷ [])), bound)
  | inr differs ↦ omega (
    arith,
    length-of_key-evict_global-le key (evict_per_key r.label_key (rs ++ r ∷ [])),
    ap length (of_key-append_other r rs key differs),
    h,
  )
]

-- `Remember` keeps the invariant, whether it succeeds or not.
pub remember-IsValid :
    (host : Host) (f : Faults) (now : Time) (entropy : Option Bytes) (s : Store) (r : Remembered)
    → IsValid s.content
    → IsValid (remember host f now entropy s r).0.content
unfolding remember
remember-IsValid host f now entropy s r v =
    elim (Option-cases (with_id entropy (stamp host now r))) [
      | inl e ↦ rw e v
      | inr (q, e) ↦ rw e (
          persist-IsValid host f _ (record {
            per_key = λ key. per_key-append q s.remembered key (v.per_key key);
            global = length-append_remembered q s.remembered;
            distinct = v.distinct;
            labelled = v.labelled;
          }))
    ]

length-without_id : (id : Bytes) (rs : List Remembered) → length (without_id id rs).0 ≤ length rs
unfolding without_id
length-without_id id [] = omega arith
length-without_id id (r ∷ rs) = ground (arith, length-without_id id rs)

of_key-without_id :
    (id key : Bytes) (rs : List Remembered)
    → length (of_key key (without_id id rs).0) ≤ length (of_key key rs)
unfolding without_id
of_key-without_id id key [] = omega arith
of_key-without_id id key (r ∷ rs) = ground (arith, of_key-without_id id key rs)

-- `DeleteRemembered` keeps the invariant, whether it succeeds or not.
pub delete_remembered-IsValid :
    (host : Host) (f : Faults) (s : Store) (id : Bytes)
    → IsValid s.content
    → IsValid (delete_remembered host f s id).0.content
unfolding delete_remembered
delete_remembered-IsValid host f s id v = elim (Bool-cases (without_id id s.remembered).1) [
  | inl hit ↦ rw hit (
      persist-IsValid host f _ (record {
        per_key = λ key. omega (arith, of_key-without_id id key s.remembered, v.per_key key);
        global = omega (arith, length-without_id id s.remembered, v.global);
        distinct = v.distinct;
        labelled = v.labelled;
      }))
  | inr miss ↦ rw miss v
]
