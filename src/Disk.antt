-- ===== src/Disk.antt =====
-- The file that a component replaces atomically, with its `.tmp` neighbour: `writeAtomic` of
-- internal/store/store.go. Each system call may fail, as the caller's `Faults` say. A file knows
-- whether its bytes were synced; the result lists every state of the disk on the way, which are the
-- states that a crash can leave behind.
pub mod Atomic
use my_home_index_server.Prelude.{ℕ, Bool, true, false, Option, none, some, List, [], ◌∷◌}
use my_home_index_server.Prelude.Tests.{if◌then◌else◌}
use my_home_index_server.Prelude.Lists.{take}
use my_home_index_server.Prelude.Bytes.{Bytes}

pub record File : Type 0 where
  pub content : Bytes
  pub synced : Bool

pub record Disk : Type 0 where
  pub committed : Option File
  pub tmp : Option File

-- `written` is how much of the data is in the file at some moment of the write, which is where a write
-- that fails ends.
pub record Faults : Type 0 where
  pub open_fails : Bool
  pub write_fails : Bool
  pub written : ℕ
  pub sync_fails : Bool
  pub close_fails : Bool
  pub rename_fails : Bool
  pub remove_fails : Bool

abbrev pub no_faults : Faults
no_faults = record {
  open_fails = false;
  write_fails = false;
  written = 0;
  sync_fails = false;
  close_fails = false;
  rename_fails = false;
  remove_fails = false;
}

pub data WriteError : Type 0 where
  open_tmp write_tmp fsync_tmp close_tmp rename : WriteError

pub record Written : Type 0 where
  pub error : Option WriteError
  pub disk : Disk
  pub trace : List Disk

abbrev put_tmp : Bytes → Bool → Disk → Disk
put_tmp bytes synced d = record d { tmp = some (record { content = bytes; synced = synced }) }

-- os.Rename(tmp, path)
abbrev rename_over : Disk → Disk
rename_over d = record { committed = d.tmp; tmp = none }

-- The deferred `os.Remove(tmp)`, whose error is ignored.
abbrev cleanup : Faults → Disk → Disk
cleanup f d = if f.remove_fails then d else record d { tmp = none }

-- The calls behind a successful write: fsync, close, rename.
commit : Faults → Bytes → Disk → List Disk → Written
commit f bytes d before =
    let synced = put_tmp bytes true d in
    if f.sync_fails
    then record { error = some fsync_tmp; disk = cleanup f d; trace = cleanup f d ∷ before }
    else if f.close_fails
    then record {
      error = some close_tmp;
      disk = cleanup f synced;
      trace = cleanup f synced ∷ synced ∷ before;
    }
    else if f.rename_fails
    then record {
      error = some rename;
      disk = cleanup f synced;
      trace = cleanup f synced ∷ synced ∷ before;
    }
    else record {
      error = none;
      disk = rename_over synced;
      trace = rename_over synced ∷ synced ∷ before;
    }

-- The latest state stands first in the trace.
unfoldable pub write_atomic : Faults → Bytes → Disk → Written
unfolding commit
write_atomic f bytes d =
    let opened = put_tmp [] false d in
    let partial = put_tmp (take f.written bytes) false d in
    let full = put_tmp bytes false d in
    if f.open_fails
    then record { error = some open_tmp; disk = d; trace = d ∷ [] }
    else if f.write_fails
    then record {
      error = some write_tmp;
      disk = cleanup f partial;
      trace = cleanup f partial ∷ partial ∷ opened ∷ d ∷ [];
    }
    else commit f bytes full (full ∷ partial ∷ opened ∷ d ∷ [])
