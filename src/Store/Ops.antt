-- ===== src/Store/Ops.antt =====
-- The methods of `Store` in internal/store/store.go, behind the mutex.
pub mod Invariant
pub mod Labels
pub mod Listing
pub mod Deleting
pub mod Runs
use mathlib.Core.Option
use mathlib.Core.List.{reverse, map}
use my_home_index_server.Prelude.{
  ℕ, Bool, true, false, ◌||◌, Option, none, some, List, [], ◌∷◌, ◌++◌,
}
use my_home_index_server.Prelude.Tests.{ltb, ◌==◌, if◌then◌else◌}
use my_home_index_server.Prelude.Lists.{select}
use my_home_index_server.Prelude.Bytes.{Bytes, bytes_eq, is_empty}
use my_home_index_server.Prelude.Dict.{Dict, lookup, insert, delete}
use my_home_index_server.Prelude.Utf8.{rune_count}
use my_home_index_server.Prelude.Time.{Time}
use my_home_index_server.Disk.{Faults}
use my_home_index_server.Store.{
  Store, Host, Persisted, Remembered, LabelEntry, StoreError, max_label_len, copy_slice,
}
use my_home_index_server.Store.Key.{label_key}
use my_home_index_server.Store.Ulid.{new_ulid}
use my_home_index_server.Store.Evict.{has_key, evict_per_key, evict_global}
use my_home_index_server.Store.Persist.{persist}

label_of : Option LabelEntry → Bytes
label_of none = []
label_of (some entry) = entry.label

-- `Label`; its error is always nil.
unfoldable pub label : Host → Store → Bytes → List Bytes → Bytes
unfolding label_of
label host s cwd command = label_of (lookup (label_key host cwd command) s.labels)

-- The map after `SetLabel`: an empty label clears the entry.
unfoldable pub put_label : Bytes → LabelEntry → Dict LabelEntry → Dict LabelEntry
put_label key entry labels =
    if is_empty entry.label then delete key labels else insert key entry labels

unfoldable pub set_label :
    Host → Faults → Time → Store → Bytes → List Bytes → Bytes → Store × Option StoreError
set_label host f now s cwd command text =
    let entry : LabelEntry = record {
      cwd = cwd;
      command = command;
      label = text;
      updated_at = now;
    } in
    let content : Persisted = record (s.content) {
      labels = put_label (label_key host cwd command) entry s.labels;
    } in
    if ltb max_label_len (rune_count text)
    then (s, some StoreError.label_too_long)
    else persist host f (record s { content = content })

-- The fields that `Remember` fills in when the caller left them zero, apart from the id.
unfoldable pub stamp : Host → Time → Remembered → Remembered
stamp host now r = record r {
  label_key = if is_empty r.label_key then label_key host r.cwd r.command else r.label_key;
  killed_at = if r.killed_at == 0 then now else r.killed_at;
  env = copy_slice r.env;
}

-- `none` when the random bytes for a new id could not be read.
unfoldable pub with_id : Option Bytes → Remembered → Option Remembered
with_id entropy r =
    if is_empty r.id
    then Option.map (λ id. record r { id = id }) (new_ulid r.killed_at entropy)
    else some r

-- The list after `Remember` appends an entry and makes room.
unfoldable pub append_remembered : Remembered → List Remembered → List Remembered
append_remembered r rs = evict_global (evict_per_key r.label_key (rs ++ r ∷ []))

remember_stamped : Host → Faults → Store → Option Remembered → Store × Option StoreError
remember_stamped host f s none = (s, some StoreError.no_entropy)
remember_stamped host f s (some r) =
    let content : Persisted = record (s.content) {
      remembered = append_remembered r s.remembered;
    } in
    persist host f (record s { content = content })

unfoldable pub remember :
    Host → Faults → Time → Option Bytes → Store → Remembered → Store × Option StoreError
unfolding remember_stamped
remember host f now entropy s r = remember_stamped host f s (with_id entropy (stamp host now r))

unfoldable pub clone_remembered : Remembered → Remembered
clone_remembered r = record r { env = copy_slice r.env }

-- `ListRemembered`: the loop walks the list from its end.
unfoldable pub list_remembered : Host → Store → Bytes → List Bytes → List Remembered
list_remembered host s cwd command =
    map clone_remembered (select (has_key (label_key host cwd command)) (reverse s.remembered))

unfoldable pub all_remembered : Store → List Remembered
all_remembered s = map clone_remembered (reverse s.remembered)

unfoldable pub find_id : Bytes → List Remembered → Option Remembered
find_id id [] = none
find_id id (r ∷ rs) = if bytes_eq r.id id then some (clone_remembered r) else find_id id rs

unfoldable pub find_remembered : Store → Bytes → Option Remembered
unfolding find_id
find_remembered s id = find_id id s.remembered

-- The loop of `DeleteRemembered`: what is kept, and whether anything was left out.
unfoldable pub without_id : Bytes → List Remembered → List Remembered × Bool
without_id id [] = ([], false)
without_id id (r ∷ rs) =
    let rest = without_id id rs in if bytes_eq r.id id then (rest.0, true) else (r ∷ rest.0, rest.1)

unfoldable pub delete_remembered : Host → Faults → Store → Bytes → Store × Option StoreError
delete_remembered host f s id =
    let kept = without_id id s.remembered in
    if kept.1
    then persist host f (record s { content = record (s.content) { remembered = kept.0 } })
    else (s, none)
