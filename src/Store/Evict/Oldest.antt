-- ===== src/Store/Evict/Oldest.antt =====
-- `evict_oldest_label` removes one entry, and none of the others is older than it.
use my_home_index_server.Prelude.{◌≤◌, ◌<◌, ◌≡◌, refl, none, some, inl, inr, ◌⊎◌, [], ◌∷◌, arith}
use my_home_index_server.Prelude.Tests.{ltb, Bool-cases}
use my_home_index_server.Prelude.Lists.{length, All}
use my_home_index_server.Prelude.Bytes.{Bytes}
use my_home_index_server.Prelude.Dict.{
  Dict, lookup, delete, lookup_later, lookup_head, length-delete_present, Distinct,
}
use my_home_index_server.Prelude.Time.{Time}
use my_home_index_server.Store.{LabelEntry}
use my_home_index_server.Store.Evict.{oldest_label, evict_oldest_label}

-- Every entry of the map is at least as new as the instant.
abbrev pub NoneOlder : Time → Dict LabelEntry → Type 0
NoneOlder t = All (λ p. t ≤ p.1.updated_at)

-- The loop ends with the entry that it began with, or with a strictly older one of the map.
abbrev Older : Bytes → Time → Dict LabelEntry → Type 0
Older j t m =
    (v : LabelEntry) × (lookup j m ≡ some v) × (v.updated_at < t) × NoneOlder v.updated_at m

oldest_label-cases :
    (k : Bytes) (t : Time) (m : Dict LabelEntry)
    → Distinct m
    → ((oldest_label k t m ≡ k) × NoneOlder t m) ⊎ Older (oldest_label k t m) t m
unfolding oldest_label
oldest_label-cases k t [] d = inl (refl, tt)
oldest_label-cases k t ((i, e) ∷ m) d = elim (Bool-cases (ltb e.updated_at t)) [
  | inl older ↦ rw older (elim (oldest_label-cases i e.updated_at m d.1) [
    | inl (same, rest) ↦ inr (e, rw same (lookup_head i e m), ground arith, (omega arith, rest))
    | inr (v, found, lt, rest) ↦
        inr (v, lookup_later i _ e v m d.0 found, ground arith, (omega arith, rest))
  ])
  | inr newer ↦ rw newer (elim (oldest_label-cases k t m d.1) [
    | inl (same, rest) ↦ inl (same, (ground arith, rest))
    | inr (v, found, lt, rest) ↦ inr (v, lookup_later i _ e v m d.0 found, lt, (ground arith, rest))
  ])
]

-- What the eviction removes: the entry of one key, and no entry is older than it.
pub record Evicts (m m' : Dict LabelEntry) : Type 0 where
  pub key : Bytes
  pub entry : LabelEntry
  pub found : lookup key m ≡ some entry
  pub oldest : NoneOlder entry.updated_at m
  pub rest : m' ≡ delete key m

-- When the eviction removes anything from a map with distinct keys, it removes exactly one entry, an
-- oldest one, whatever the order in which the map is visited.
pub evict_oldest_label-Evicts :
    (m m' : Dict LabelEntry) → Distinct m → evict_oldest_label m ≡ some m' → Evicts m m'
unfolding evict_oldest_label
evict_oldest_label-Evicts [] m' d h = cc
evict_oldest_label-Evicts ((k, e) ∷ m) m' d h = elim (oldest_label-cases k e.updated_at m d.1) [
  | inl (same, rest) ↦ record {
    key = k;
    entry = e;
    found = lookup_head k e m;
    oldest = (omega arith, rest);
    rest = cc;
  }
  | inr (v, found, lt, rest) ↦ record {
    key = oldest_label k e.updated_at m;
    entry = v;
    found = lookup_later k _ e v m d.0 found;
    oldest = (omega arith, rest);
    rest = cc;
  }
]

pub Evicts-length : (m m' : Dict LabelEntry) → Evicts m m' → length m' < length m
Evicts-length m m' r = rw r.rest (length-delete_present r.key r.entry m r.found)

pub evict_oldest_label-none : (m : Dict LabelEntry) → evict_oldest_label m ≡ none → m ≡ []
unfolding evict_oldest_label
evict_oldest_label-none [] h = refl
evict_oldest_label-none ((k, e) ∷ m) h = cc
