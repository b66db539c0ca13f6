-- ===== src/Store/Ops/Labels.antt =====
-- What `Label` answers after `SetLabel`.
use my_home_index_server.Prelude.{◌≤◌, ◌≡◌, refl, false, some, List, [], ◌∷◌, arith}
use my_home_index_server.Prelude.Tests.{ltb, if◌then◌else◌}
use my_home_index_server.Prelude.Lists.{length}
use my_home_index_server.Prelude.Bytes.{Bytes, bytes_eq}
use my_home_index_server.Prelude.Dict.{Dict, lookup, delete, lookup-insert, lookup-delete}
use my_home_index_server.Prelude.Utf8.{rune_count}
use my_home_index_server.Prelude.Time.{Time}
use my_home_index_server.Disk.{Faults}
use my_home_index_server.Store.{Store, Host, Persisted, LabelEntry, max_label_len, max_state_bytes}
use my_home_index_server.Store.Key.{label_key}
use my_home_index_server.Store.Persist.Fitting.{persist-content}
use my_home_index_server.Store.Ops.{label_of, label, put_label, set_label}

short_passes :
    (text : Bytes) → rune_count text ≤ max_label_len → ltb max_label_len (rune_count text) ≡ false
short_passes text h = ground arith

-- The state in memory that `SetLabel` hands to `persistLocked`.
abbrev pub labelled : Host → Time → Store → Bytes → List Bytes → Bytes → Persisted
labelled host now s cwd command text = record (s.content) {
  labels =
      put_label (label_key host cwd command)
        (record { cwd = cwd; command = command; label = text; updated_at = now }) s.labels;
}

label_of-delete :
    (key j : Bytes) (m : Dict LabelEntry)
    → label_of (lookup j (delete key m)) ≡ (if bytes_eq key j then [] else label_of (lookup j m))
unfolding label_of
label_of-delete key j m = ground (arith, lookup-delete key j m)

label_of-put_label :
    (key j : Bytes) (e : LabelEntry) (text : Bytes) (m : Dict LabelEntry)
    → e.label ≡ text
    → label_of (lookup j (put_label key e m))
      ≡ (if bytes_eq key j then text else label_of (lookup j m))
unfolding put_label label_of
label_of-put_label key j e [] m h = rw h (label_of-delete key j m)
label_of-put_label key j e (b ∷ t) m h = rw h (ground (arith, lookup-insert key j e m))

-- A label of at most 64 runes that leaves the state within its size is what `Label` answers for the
-- same key, also when the write to the disk fails; the empty label clears. Every pair with another
-- key keeps its label.
pub label-set_label :
    (host : Host) (f : Faults) (now : Time) (s : Store) (cwd cwd' : Bytes)
    (command command' : List Bytes) (text buf : Bytes)
    → rune_count text ≤ max_label_len
    → host.marshal (labelled host now s cwd command text) ≡ some buf
    → length buf ≤ max_state_bytes
    → label host (set_label host f now s cwd command text).0 cwd' command' ≡ (
        if bytes_eq (label_key host cwd command) (label_key host cwd' command')
        then text
        else label host s cwd' command')
unfolding label set_label
label-set_label host f now s cwd cwd' command command' text buf short m fits =
    let stored : Store = record s { content = labelled host now s cwd command text } in
    rw (short_passes text short, persist-content host f stored buf m fits)
      (label_of-put_label _ _ _ text s.labels refl)
