-- ===== src/Store/Evict.antt =====
-- The evictions of internal/store/store.go. The remembered list is oldest first.
pub mod PerKey
pub mod Oldest
use my_home_index_server.Prelude.{
  ℕ, zero, suc, ◌+◌, ◌-◌, Bool, true, false, ◌&&◌, ◌||◌, Option, none, some, List, [], ◌∷◌,
}
use my_home_index_server.Prelude.Tests.{ltb, leb, if◌then◌else◌}
use my_home_index_server.Prelude.Lists.{length, drop, select}
use my_home_index_server.Prelude.Bytes.{Bytes, bytes_eq}
use my_home_index_server.Prelude.Dict.{Dict, delete}
use my_home_index_server.Prelude.Time.{Time}
use my_home_index_server.Store.{
  Remembered, LabelEntry, per_key_remembered_cap, global_remembered_cap,
}

-- r.LabelKey == key
abbrev pub has_key : Bytes → Remembered → Bool
has_key key r = bytes_eq r.label_key key

-- The first loop of `evictPerKeyLocked`.
unfoldable pub count_matches : Bytes → List Remembered → ℕ
count_matches key [] = 0
count_matches key (r ∷ rs) = (if has_key key r then 1 else 0) + count_matches key rs

-- Its second loop: the first `to_drop` entries of the key are left out.
unfoldable pub drop_matches : Bytes → ℕ → List Remembered → List Remembered
drop_matches key to_drop [] = []
drop_matches key zero (r ∷ rs) = r ∷ drop_matches key zero rs
drop_matches key (suc to_drop) (r ∷ rs) = elim (has_key key r) [
  | true ↦ drop_matches key to_drop rs
  | false ↦ r ∷ drop_matches key (suc to_drop) rs
]

unfoldable pub evict_per_key : Bytes → List Remembered → List Remembered
unfolding count_matches drop_matches
evict_per_key key rs =
    let matches = count_matches key rs in
    if leb matches per_key_remembered_cap
    then rs
    else drop_matches key (matches - per_key_remembered_cap) rs

unfoldable pub evict_global : List Remembered → List Remembered
evict_global rs =
    if leb (length rs) global_remembered_cap
    then rs
    else drop (length rs - global_remembered_cap) rs

-- The loop of `evictOldestLabelLocked` behind the first entry, which the loop takes as it is.
unfoldable pub oldest_label : Bytes → Time → Dict LabelEntry → Bytes
oldest_label oldest_key oldest_at [] = oldest_key
oldest_label oldest_key oldest_at ((k, e) ∷ m) =
    oldest_label (if ltb e.updated_at oldest_at then k else oldest_key)
      (if ltb e.updated_at oldest_at then e.updated_at else oldest_at) m

-- `none` is the result false: there was no entry to remove.
unfoldable pub evict_oldest_label : Dict LabelEntry → Option (Dict LabelEntry)
unfolding oldest_label
evict_oldest_label [] = none
evict_oldest_label ((k, e) ∷ m) = some (delete (oldest_label k e.updated_at m) ((k, e) ∷ m))
