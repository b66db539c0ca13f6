-- ===== src/Store.antt =====
-- internal/store/store.go: the labels and the remembered listeners, in memory and in state.json.
-- Each method takes the store and gives the new store back, since the mutex makes every method one
-- step; the clock, the random bytes and the failures of system calls are arguments.
pub mod Key
pub mod Ulid
pub mod Evict
pub mod Persist
pub mod Ops
pub mod Hydrate
use my_home_index_server.Prelude.{ℕ, ◌*◌, Bool, Option, none, some, List, []}
use my_home_index_server.Prelude.Bytes.{Bytes, codes}
use my_home_index_server.Prelude.Dict.{Dict}
use my_home_index_server.Prelude.Int.{ℤ, pos}
use my_home_index_server.Prelude.Time.{Time}
use my_home_index_server.Disk.{Disk, WriteError}

abbrev pub max_label_len : ℕ
max_label_len = 64

abbrev pub per_key_remembered_cap : ℕ
per_key_remembered_cap = 5

abbrev pub global_remembered_cap : ℕ
global_remembered_cap = 100

abbrev pub max_state_bytes : ℕ
max_state_bytes = 256 * 1024

abbrev pub state_version : ℤ
state_version = pos 1

-- A nil `Env` differs from an empty one for whoever spawns a process, so it is an option.
pub record Remembered : Type 0 where
  pub id : Bytes
  pub port : ℤ
  pub command : List Bytes
  pub cwd : Bytes
  pub env : Option (List Bytes)
  pub killed_at : Time
  pub label_key : Bytes

pub record LabelEntry : Type 0 where
  pub cwd : Bytes
  pub command : List Bytes
  pub label : Bytes
  pub updated_at : Time

pub record Persisted : Type 0 where
  pub version : ℤ
  pub labels : Dict LabelEntry
  pub remembered : List Remembered

pub record Store : Type 0 where
  pub content : Persisted
  pub open content use {labels, remembered}
  pub disk : Disk

-- What json.Unmarshal makes of a state file: absent maps and slices are nil.
pub record Parsed : Type 0 where
  pub version : ℤ
  pub labels : Option (Dict LabelEntry)
  pub remembered : Option (List Remembered)

-- The library routines that the store calls: crypto/sha256 and encoding/json.
pub record Host : Type 0 where
  pub sha256 : Bytes → Bytes
  pub marshal : Persisted → Option Bytes
  pub unmarshal : Bytes → Option Parsed

-- `unfinished` is the model's own: the loop of `persistLocked` ran out of fuel.
pub data StoreError : Type 0 where
  label_too_long state_size_exceeded marshal_failed no_entropy unfinished : StoreError
  empty_home mkdir_failed read_failed parse_failed : StoreError
  write_failed : WriteError → StoreError

-- `append([]T(nil), xs...)`: a copy, which is nil when there is nothing to copy.
abbrev pub copy_slice {ℓ} : {A : Type ℓ} → Option (List A) → Option (List A)
copy_slice none = none
copy_slice (some []) = none
copy_slice (some xs) = some xs
