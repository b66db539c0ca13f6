-- ===== src/Tests/StoreTests.antt =====
-- The theorems on the store at concrete inputs.
use my_home_index_server.Prelude.{
  ◌+◌, ◌≡◌, ◌≢◌, ◌⊎◌, refl, inl, true, false, ◌||◌, Option, none, some, [], ◌∷◌, arith,
}
use my_home_index_server.Prelude.Lists.{take, All, length-select-le}
use my_home_index_server.Prelude.Bytes.{Bytes, codes, bytes_eq, bytes_eq_iff, bytes_lt}
use my_home_index_server.Prelude.Dict.{Distinct, lookup}
use my_home_index_server.Prelude.Utf8.{rune_count}
use my_home_index_server.Prelude.Time.{second}
use my_home_index_server.Disk.{no_faults, write_atomic}
use my_home_index_server.Disk.Atomic.{OldOrNew, write_atomic-OldOrNew, write_atomic-refused}
use my_home_index_server.Store.{Remembered}
use my_home_index_server.Store.Key.{label_key, label_key-injective}
use my_home_index_server.Store.Ulid.{new_ulid}
use my_home_index_server.Store.Ulid.Sorted.{new_ulid_sorted}
use my_home_index_server.Store.Evict.{has_key}
use my_home_index_server.Store.Persist.{persist}
use my_home_index_server.Store.Persist.Total.{Result, persist-Result}
use my_home_index_server.Store.Ops.{
  label, set_label, stamp, with_id, remember, list_remembered, clone_remembered,
}
use my_home_index_server.Store.Ops.Invariant.{IsValid}
use my_home_index_server.Store.Ops.Runs.{Call, run, run-IsValid}
use my_home_index_server.Store.Ops.Labels.{label-set_label}
use my_home_index_server.Store.Ops.Listing.{list_remembered-remember}
use my_home_index_server.Store.Hydrate.{open_store, open_store-persist}
use my_home_index_server.Tests.{noon, server_argv, entry, content, disk, store, host, bad_disk}

labels-Distinct : Distinct content.labels
unfolding lookup
labels-Distinct = (refl, tt)

persist-Result_example : Result host store (persist host no_faults store)
persist-Result_example = persist-Result host no_faults store labels-Distinct

open_store-persist_example :
    open_store host (codes "/home/u") false false (persist host no_faults store).0.disk
    ≡ inl (persist host no_faults store).0
unfolding persist write_atomic
open_store-persist_example =
    open_store-persist host no_faults (codes "/home/u") store refl (ground arith) labels-Distinct
      refl (λ buf e. refl)

write_atomic-OldOrNew_example :
    All (OldOrNew (codes "new") disk) (write_atomic bad_disk (codes "new") disk).trace
write_atomic-OldOrNew_example = write_atomic-OldOrNew bad_disk (codes "new") disk

write_atomic-refused_example :
    ((write_atomic bad_disk (codes "new") disk).disk.committed ≡ disk.committed)
    × (((write_atomic bad_disk (codes "new") disk).disk.tmp ≡ none)
        ⊎ ((bad_disk.open_fails || bad_disk.remove_fails) ≡ true))
unfolding write_atomic
write_atomic-refused_example = write_atomic-refused bad_disk (codes "new") disk refl

pub store-IsValid : IsValid content
unfolding rune_count
store-IsValid = record {
  per_key = λ key. omega (arith, length-select-le (has_key key) (entry ∷ []));
  global = omega arith;
  distinct = labels-Distinct;
  labelled = ((refl, omega arith), tt);
}

run-IsValid_example :
    IsValid
      (run host store (
        record {
          faults = bad_disk;
          now = noon;
          call = Call.sets_label (codes "/srv") server_argv (codes "api");
        }
        ∷ record { faults = no_faults; now = noon; call = Call.deletes (codes "01A") }
        ∷ [])).content
run-IsValid_example =
    run-IsValid host store
      (record {
        faults = bad_disk;
        now = noon;
        call = Call.sets_label (codes "/srv") server_argv (codes "api");
      }
        ∷ record { faults = no_faults; now = noon; call = Call.deletes (codes "01A") }
        ∷ [])
      store-IsValid

-- A listener that was killed, as the handler passes it.
abbrev killed : Remembered
killed = record entry { id = codes "01B"; label_key = []; killed_at = 0 }

list_remembered-remember_example :
    list_remembered host
      (remember host bad_disk noon none store killed).0
      (codes "/srv")
      server_argv
    ≡ take 5 (clone_remembered (stamp host noon killed) ∷ [])
unfolding with_id stamp label_key list_remembered bytes_eq
list_remembered-remember_example =
    list_remembered-remember host bad_disk noon none store killed (stamp host noon killed)
      (codes "/srv") server_argv (codes "{}") refl (omega arith) refl (omega arith)

-- A text that is one word is not the other.
k_only : (s : Bytes) → bytes_eq s (codes "k") ≡ true → bytes_eq s (codes "other") ≡ false
unfolding bytes_eq
k_only s h = let e = (bytes_eq_iff s (codes "k")).0 h in rw e refl

label-set_label_example :
    label host
      (set_label host bad_disk noon store (codes "/srv") server_argv (codes "api")).0
      (codes "/srv")
      server_argv
    ≡ codes "api"
unfolding bytes_eq label_key rune_count
label-set_label_example =
    label-set_label host bad_disk noon store (codes "/srv") (codes "/srv") server_argv server_argv
      (codes "api") (codes "{}") (ground arith) refl (omega arith)

bytes_apart : (s t : Bytes) → bytes_eq s t ≡ false → s ≢ t
bytes_apart s t h e = cc (h, (bytes_eq_iff s t).1 e)

-- Ten random bytes.
abbrev random : Bytes
random = 1 ∷ 2 ∷ 3 ∷ 4 ∷ 5 ∷ 6 ∷ 7 ∷ 8 ∷ 9 ∷ 255 ∷ []

abbrev raw : Bytes
raw = 0 ∷ 1 ∷ 2 ∷ 3 ∷ 4 ∷ 5 ∷ random

label_key-injective_example : (codes "/srv" ≡ codes "/srv") × (server_argv ≡ server_argv)
label_key-injective_example =
    label_key-injective host (codes "/srv") (codes "/srv") (codes "python3") (codes "python3")
      (codes "app.py" ∷ []) (codes "app.py" ∷ []) (ground arith) (ground arith) (ground arith)
      (ground arith) (λ e. refl) refl

abbrev text_of : Option Bytes → Bytes
text_of none = []
text_of (some s) = s

-- Two ids, the second made a second later.
new_ulid_sorted_example :
    bytes_lt
      (text_of (new_ulid noon (some random)))
      (text_of (new_ulid (noon + second) (some random)))
    ≡ true
unfolding new_ulid
new_ulid_sorted_example =
    new_ulid_sorted noon (noon + second) random random (ground arith) (ground arith) refl refl
      (omega arith)
