-- ===== src/Auth/Limiter/Evict.antt =====
-- What `evict_oldest` removes from a full map of failures.
use my_home_index_server.Prelude.{
  ◌≤◌, ◌<◌, ◌≡◌, refl, inl, inr, Option, none, some, List, [], ◌∷◌, arith,
}
use my_home_index_server.Prelude.Tests.{ltb, ltb→lt, Bool-cases, Option-cases}
use my_home_index_server.Prelude.Lists.{length, select, length-select-le, All}
use my_home_index_server.Prelude.Bytes.{Bytes}
use my_home_index_server.Prelude.Dict.{
  Dict, lookup, delete, lookup_later, lookup_head, Distinct, length-delete_present,
}
use my_home_index_server.Prelude.Time.{Time}
use my_home_index_server.Auth.Limiter.{newest, has_failures, scan_oldest, delete_seen, evict_oldest}

-- The newest failure of an entry, if it has one, is not before `t`.
abbrev NotBefore : Time → Option Time → Type 0
NotBefore t none = Unit
NotBefore t (some u) = t ≤ u

abbrev pub NoneOlder : Time → Dict (List Time) → Type 0
NoneOlder t = All (λ e. NotBefore t (newest e.1))

-- An address of the map whose newest failure is the oldest of all newest failures.
pub record Oldest (j : Bytes) (u : Time) (m : Dict (List Time)) : Type 0 where
  pub fails : List Time
  pub found : lookup j m ≡ some fails
  pub newest_is : newest fails ≡ some u
  pub none_older : NoneOlder u m

NotBefore-le : (t u : Time) (o : Option Time) → u ≤ t → NotBefore t o → NotBefore u o
NotBefore-le t u none h b = tt
NotBefore-le t u (some x) h b = omega arith

-- The scan keeps what it has seen, or finds an older one in the rest.
data Scanned (k : Bytes) (t : Time) (m : Dict (List Time)) : Option (Bytes × Time) → Type 0 where
  keeps : {o : Option (Bytes × Time)} → o ≡ some (k, t) → NoneOlder t m → Scanned k t m o
  finds :
      {o : Option (Bytes × Time)} {j : Bytes} {u : Time}
      → o ≡ some (j, u)
      → u < t
      → Oldest j u m
      → Scanned k t m o

Oldest-cons :
    (i : Bytes) (fails : List Time) (m : Dict (List Time)) (j : Bytes) (u : Time)
    → lookup i m ≡ none
    → NotBefore u (newest fails)
    → Oldest j u m
    → Oldest j u ((i, fails) ∷ m)
Oldest-cons i fails m j u absent b o = record {
  fails = o.fails;
  found = lookup_later i j fails o.fails m absent o.found;
  newest_is = o.newest_is;
  none_older = (b, o.none_older);
}

Scanned-kept :
    {k i : Bytes} {t : Time} {fails : List Time} {m : Dict (List Time)} {o : Option (Bytes × Time)}
    → lookup i m ≡ none
    → NotBefore t (newest fails)
    → Scanned k t m o
    → Scanned k t ((i, fails) ∷ m) o
Scanned-kept absent b (keeps e n) = keeps e (b, n)
Scanned-kept {i = i} {t = t} {fails = fails} {m = m} absent b (finds {j = j} {u = u} e lt o) =
    finds e lt
      (Oldest-cons i fails m j u absent (NotBefore-le t u (newest fails) (omega arith) b) o)

NotBefore-some : (u v : Time) (o : Option Time) → o ≡ some v → u ≤ v → NotBefore u o
NotBefore-some u v o e h = rw e h

Scanned-taken :
    {k i : Bytes} {t : Time} {fails : List Time} {m : Dict (List Time)} {o : Option (Bytes × Time)}
    (u : Time)
    → lookup i m ≡ none
    → newest fails ≡ some u
    → u < t
    → Scanned i u m o
    → Scanned k t ((i, fails) ∷ m) o
Scanned-taken {i = i} {fails = fails} {m = m} u absent n lt (keeps e rest) = finds e lt (record {
  fails = fails;
  found = lookup_head i fails m;
  newest_is = n;
  none_older = (NotBefore-some u u (newest fails) n (omega arith), rest);
})
Scanned-taken {i = i} {fails = fails} {m = m} u absent n lt (finds {j = j} {u = v} e older o) =
    finds e (omega arith)
      (Oldest-cons i fails m j v absent (NotBefore-some v u (newest fails) n (omega arith)) o)

scan-Scanned :
    (k : Bytes) (t : Time) (m : Dict (List Time))
    → Distinct m
    → Scanned k t m (scan_oldest (some (k, t)) m)
unfolding scan_oldest
scan-Scanned k t [] d = keeps refl tt
scan-Scanned k t ((i, fails) ∷ m) d = elim (Option-cases (newest fails)) [
  | inl e ↦ rw e (Scanned-kept d.0 (rw e tt) (scan-Scanned k t m d.1))
  | inr (u, e) ↦ elim (Bool-cases (ltb u t)) [
    | inl older ↦ rw (e, older) (Scanned-taken u d.0 e (ltb→lt u t older) (scan-Scanned i u m d.1))
    | inr newer ↦
        rw (e, newer)
          (Scanned-kept d.0 (NotBefore-some t u (newest fails) e (ground arith))
            (scan-Scanned k t m d.1))
  ]
]

newest-cons : (t : Time) (ts : List Time) → (u : Time) × (newest (t ∷ ts) ≡ some u)
newest-cons t [] = (t, refl)
newest-cons t (u ∷ ts) = newest-cons u ts

Evicted_scan :
    {m : Dict (List Time)} (i : Bytes) (u : Time) (fails : List Time) {o : Option (Bytes × Time)}
    → lookup i m ≡ none
    → newest fails ≡ some u
    → Scanned i u m o
    → (j : Bytes) × (v : Time) × (o ≡ some (j, v)) × Oldest j v ((i, fails) ∷ m)
Evicted_scan {m} i u fails absent n (keeps e rest) = (
  i,
  u,
  e,
  record {
    fails = fails;
    found = lookup_head i fails m;
    newest_is = n;
    none_older = (NotBefore-some u u (newest fails) n (omega arith), rest);
  },
)
Evicted_scan {m} i u fails absent n (finds {j = j} {u = v} e lt o) = (
  j,
  v,
  e,
  Oldest-cons i fails m j v absent (NotBefore-some v u (newest fails) n (omega arith)) o,
)

Oldest-skip :
    (i j : Bytes) (u : Time) (m : Dict (List Time))
    → lookup i m ≡ none
    → Oldest j u m
    → Oldest j u ((i, []) ∷ m)
Oldest-skip i j u m absent o = Oldest-cons i [] m j u absent tt o

-- What the scan of the whole map finds.
data Found (m : Dict (List Time)) : Option (Bytes × Time) → Type 0 where
  nothing : {o : Option (Bytes × Time)} → o ≡ none → All (λ e. e.1 ≡ []) m → Found m o
  victim :
      {o : Option (Bytes × Time)} (j : Bytes) (u : Time)
      → o ≡ some (j, u)
      → Oldest j u m
      → Found m o

Found-skip :
    {i : Bytes} {m : Dict (List Time)} {o : Option (Bytes × Time)}
    → lookup i m ≡ none
    → Found m o
    → Found ((i, []) ∷ m) o
Found-skip absent (nothing e n) = nothing e (refl, n)
Found-skip {i} {m} absent (victim j u e o) = victim j u e (Oldest-skip i j u m absent o)

scan-Found : (m : Dict (List Time)) → Distinct m → Found m (scan_oldest none m)
unfolding scan_oldest
scan-Found [] d = nothing refl tt
scan-Found ((i, []) ∷ m) d = Found-skip d.0 (scan-Found m d.1)
scan-Found ((i, t ∷ ts) ∷ m) d =
    let (u, e) = newest-cons t ts in
    let (j, v, found, o) = Evicted_scan i u (t ∷ ts) d.0 e (scan-Scanned i u m d.1) in
    rw e (victim j v found o)

-- What the eviction leaves of a map.
pub data Evicted (m : Dict (List Time)) : Dict (List Time) → Type 0 where
  emptied : {m' : Dict (List Time)} → All (λ e. e.1 ≡ []) m → m' ≡ [] → Evicted m m'
  without :
      {m' : Dict (List Time)} (j : Bytes) (u : Time)
      → Oldest j u m
      → m' ≡ delete j (select has_failures m)
      → Evicted m m'

none_left : (m : Dict (List Time)) → All (λ e. e.1 ≡ []) m → select has_failures m ≡ []
none_left [] h = refl
none_left ((i, fails) ∷ m) h = rw (h.0, none_left m h.1) refl

Evicted-Found :
    (m : Dict (List Time)) {o : Option (Bytes × Time)}
    → Found m o
    → Evicted m (delete_seen o (select has_failures m))
unfolding delete_seen
Evicted-Found m (nothing e n) = emptied n (rw e (none_left m n))
Evicted-Found m (victim j u e o) = without j u o (rw e)

-- In a map with distinct keys the eviction removes the addresses without failures, and of the others
-- one whose newest failure is not newer than anybody's newest, whatever the order of iteration.
pub evict_oldest-Evicted : (m : Dict (List Time)) → Distinct m → Evicted m (evict_oldest m)
unfolding evict_oldest
evict_oldest-Evicted m d = Evicted-Found m (scan-Found m d)

lookup-select :
    (j : Bytes) (t : Time) (ts : List Time) (m : Dict (List Time))
    → lookup j m ≡ some (t ∷ ts)
    → lookup j (select has_failures m) ≡ some (t ∷ ts)
unfolding lookup
lookup-select j t ts [] h = cc
lookup-select j t ts ((i, []) ∷ m) h = ground (arith, lookup-select j t ts m)
lookup-select j t ts ((i, u ∷ us) ∷ m) h = ground (arith, lookup-select j t ts m)

victim_shrinks :
    (j : Bytes) (u : Time) (m : Dict (List Time)) (fails : List Time)
    → lookup j m ≡ some fails
    → newest fails ≡ some u
    → length (delete j (select has_failures m)) < length m
victim_shrinks j u m [] found n = cc
victim_shrinks j u m (t ∷ ts) found n = omega (
  arith,
  length-delete_present j (t ∷ ts) (select has_failures m) (lookup-select j t ts m found),
  length-select-le has_failures m,
)

pub Evicted-length : (m m' : Dict (List Time)) → Evicted m m' → 0 < length m → length m' < length m
Evicted-length m m' (emptied _ e) h = rw e h
Evicted-length m m' (without j u o e) h = rw e (victim_shrinks j u m o.fails o.found o.newest_is)
