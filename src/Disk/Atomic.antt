-- ===== src/Disk/Atomic.antt =====
-- `write_atomic` replaces the file in one step or leaves it alone, at every moment.
use my_home_index_server.Prelude.{◌≡◌, ◌⊎◌, ◌||◌, true, none, some, arith}
use my_home_index_server.Prelude.Lists.{All}
use my_home_index_server.Prelude.Bytes.{Bytes}
use my_home_index_server.Disk.{Disk, Faults, WriteError, write_atomic}

-- What stands under the path is what stood there before, or the new bytes, whole and synced.
abbrev pub OldOrNew : Bytes → Disk → Disk → Type 0
OldOrNew bytes d e =
    (e.committed ≡ d.committed) ⊎ (e.committed ≡ some (record { content = bytes; synced = true }))

-- Whatever calls fail, every state of the disk during the write, and so every state that a crash
-- can leave, has under the path either the old file or all of the new bytes, synced.
pub write_atomic-OldOrNew :
    (f : Faults) (bytes : Bytes) (d : Disk) → All (OldOrNew bytes d) (write_atomic f bytes d).trace
unfolding write_atomic
write_atomic-OldOrNew f bytes d = ground arith

-- Without an error the path holds the new bytes, synced, and no `.tmp` is left.
pub write_atomic-committed :
    (f : Faults) (bytes : Bytes) (d : Disk)
    → (write_atomic f bytes d).error ≡ none
    → ((write_atomic f bytes d).disk.committed ≡ some (record { content = bytes; synced = true }))
      × ((write_atomic f bytes d).disk.tmp ≡ none)
unfolding write_atomic
write_atomic-committed f bytes d h = ground arith

-- With an error the path holds the file that it held before, and the `.tmp` is gone unless it could
-- not be opened or not be removed.
pub write_atomic-refused :
    (f : Faults) (bytes : Bytes) (d : Disk) {e : WriteError}
    → (write_atomic f bytes d).error ≡ some e
    → ((write_atomic f bytes d).disk.committed ≡ d.committed)
      × (((write_atomic f bytes d).disk.tmp ≡ none) ⊎ ((f.open_fails || f.remove_fails) ≡ true))
unfolding write_atomic
write_atomic-refused f bytes d h = (ground arith, ground arith)
