-- ===== src/Store/Evict/PerKey.antt =====
-- What the caps on remembered entries keep: of one key the newest five, of the rest everything.
use my_home_index_server.Prelude.{
  ℕ, zero, suc, ◌-◌, ◌≤◌, ◌≡◌, ◌≢◌, refl, sym, ap, ◌∙◌, Bool, true, false, inl, inr, List, [], ◌∷◌,
  arith,
}
use my_home_index_server.Prelude.Tests.{leb, leb→le, tests, Bool-cases}
use my_home_index_server.Prelude.Lists.{
  length, drop, select, length-select-drop-le, drop_excess, length-drop_excess-le,
}
use my_home_index_server.Prelude.Bytes.{Bytes, bytes_eq_iff}
use my_home_index_server.Store.{Remembered, per_key_remembered_cap, global_remembered_cap}
use my_home_index_server.Store.Evict.{
  has_key, count_matches, drop_matches, evict_per_key, evict_global,
}

-- The entries of one key, oldest first.
abbrev pub of_key : Bytes → List Remembered → List Remembered
of_key key = select (has_key key)

pub count_matches-length :
    (key : Bytes) (rs : List Remembered) → count_matches key rs ≡ length (of_key key rs)
unfolding count_matches
count_matches-length key [] = refl
count_matches-length key (r ∷ rs) = ground (arith, count_matches-length key rs)

-- Leaving out the first `n` entries of the key.
of_key-drop_matches :
    (key : Bytes) (n : ℕ) (rs : List Remembered)
    → of_key key (drop_matches key n rs) ≡ drop n (of_key key rs)
unfolding drop_matches
of_key-drop_matches key zero [] = refl
of_key-drop_matches key (suc n) [] = refl
of_key-drop_matches key zero (r ∷ rs) = ground (arith, of_key-drop_matches key zero rs)
of_key-drop_matches key (suc n) (r ∷ rs) =
    ground (arith, of_key-drop_matches key n rs, of_key-drop_matches key (suc n) rs)

select-drop_matches :
    (p : Remembered → Bool) (key : Bytes) (n : ℕ) (rs : List Remembered)
    → ((r : Remembered) → has_key key r ≡ true → p r ≡ false)
    → select p (drop_matches key n rs) ≡ select p rs
unfolding drop_matches
select-drop_matches p key zero [] h = refl
select-drop_matches p key (suc n) [] h = refl
select-drop_matches p key zero (r ∷ rs) h = ground (arith, select-drop_matches p key zero rs h)
select-drop_matches p key (suc n) (r ∷ rs) h =
    ground (arith, h r, select-drop_matches p key n rs h, select-drop_matches p key (suc n) rs h)

-- Of its key the eviction keeps exactly the newest five entries, in order.
pub of_key-evict_per_key :
    (key : Bytes) (rs : List Remembered)
    → of_key key (evict_per_key key rs)
      ≡ drop (length (of_key key rs) - per_key_remembered_cap) (of_key key rs)
unfolding evict_per_key
of_key-evict_per_key key rs = elim (Bool-cases (leb (count_matches key rs) 5)) [
  | inl few ↦ rw few (
      sym (
        drop_excess 5 (of_key key rs)
          (omega (tests, leb→le (count_matches key rs) 5 few, count_matches-length key rs))))
  | inr many ↦ rw many (
      of_key-drop_matches key (count_matches key rs - 5) rs
      ∙ ap (λ (n : ℕ). drop (n - 5) (of_key key rs)) (count_matches-length key rs))
]

-- An entry that is not of the key is kept, in its place among the others of its kind.
pub select-evict_per_key :
    (p : Remembered → Bool) (key : Bytes) (rs : List Remembered)
    → ((r : Remembered) → has_key key r ≡ true → p r ≡ false)
    → select p (evict_per_key key rs) ≡ select p rs
unfolding evict_per_key
select-evict_per_key p key rs h =
    ground (arith, select-drop_matches p key (count_matches key rs - 5) rs h)

pub of_key-evict_per_key_other :
    (key other : Bytes) (rs : List Remembered)
    → other ≢ key
    → of_key other (evict_per_key key rs) ≡ of_key other rs
of_key-evict_per_key_other key other rs h =
    select-evict_per_key (has_key other) key rs
      (λ r e. ground (arith, bytes_eq_iff r.label_key key, bytes_eq_iff r.label_key other))

-- After the eviction the key has at most five entries.
pub length-of_key-evict_per_key :
    (key : Bytes) (rs : List Remembered)
    → length (of_key key (evict_per_key key rs)) ≤ per_key_remembered_cap
length-of_key-evict_per_key key rs =
    rw of_key-evict_per_key (length-drop_excess-le 5 (of_key key rs))

-- The global eviction keeps the newest hundred entries.
pub evict_global-drop :
    (rs : List Remembered) → evict_global rs ≡ drop (length rs - global_remembered_cap) rs
unfolding evict_global
evict_global-drop rs = elim (Bool-cases (leb (length rs) 100)) [
  | inl few ↦ rw few (sym (drop_excess 100 rs (leb→le (length rs) 100 few)))
  | inr many ↦ rw many
]

pub length-evict_global : (rs : List Remembered) → length (evict_global rs) ≤ global_remembered_cap
length-evict_global rs = rw evict_global-drop (length-drop_excess-le 100 rs)

-- No eviction lets the entries of a key grow.
pub length-of_key-evict_global-le :
    (key : Bytes) (rs : List Remembered)
    → length (of_key key (evict_global rs)) ≤ length (of_key key rs)
length-of_key-evict_global-le key rs =
    rw evict_global-drop (length-select-drop-le (has_key key) (length rs - 100) rs)

length-drop_matches-le :
    (key : Bytes) (n : ℕ) (rs : List Remembered) → length (drop_matches key n rs) ≤ length rs
unfolding drop_matches
length-drop_matches-le key zero [] = omega arith
length-drop_matches-le key (suc n) [] = omega arith
length-drop_matches-le key zero (r ∷ rs) = omega (arith, length-drop_matches-le key zero rs)
length-drop_matches-le key (suc n) (r ∷ rs) =
    ground (arith, length-drop_matches-le key n rs, length-drop_matches-le key (suc n) rs)

pub length-evict_per_key-le :
    (key : Bytes) (rs : List Remembered) → length (evict_per_key key rs) ≤ length rs
unfolding evict_per_key
length-evict_per_key-le key rs =
    ground (arith, length-drop_matches-le key (count_matches key rs - 5) rs)

-- Up to a hundred entries the global eviction does nothing.
pub evict_global_few :
    (rs : List Remembered) → length rs ≤ global_remembered_cap → evict_global rs ≡ rs
evict_global_few rs h = evict_global-drop rs ∙ drop_excess 100 rs h
