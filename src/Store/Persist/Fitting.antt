-- ===== src/Store/Persist/Fitting.antt =====
-- `persist` on a state that fits evicts nothing.
use mathlib.Core.Option
use my_home_index_server.Prelude.{◌≤◌, ◌≡◌, refl, true, Option, none, some}
use my_home_index_server.Prelude.Tests.{le→leb}
use my_home_index_server.Prelude.Lists.{length}
use my_home_index_server.Prelude.Bytes.{Bytes}
use my_home_index_server.Disk.{Faults, WriteError, write_atomic}
use my_home_index_server.Disk.Atomic.{write_atomic-committed}
use my_home_index_server.Store.{Store, StoreError, Host, max_state_bytes}
use my_home_index_server.Store.Persist.{written, serialised, persist_round, persist_loop, persist}

module _ (host : Host) (f : Faults) (s : Store) (buf : Bytes)
    (m : host.marshal s.content ≡ some buf) (fits : length buf ≤ max_state_bytes) where
  round_fitting : persist_round host f s ≡ written s (write_atomic f buf s.disk)
  unfolding persist_round
  round_fitting = rw (m, serialised, le→leb (length buf) max_state_bytes fits)

  -- Such a state is written as it is.
  pub persist_lem : persist host f s ≡ (
    record s { disk = (write_atomic f buf s.disk).disk },
    Option.map StoreError.write_failed (write_atomic f buf s.disk).error,
  )
  unfolding persist written
  persist_lem = rw (persist_loop, round_fitting)

  -- It stays as it is in memory, even if the write fails.
  pub persist-content : (persist host f s).0.content ≡ s.content
  persist-content = rw persist_lem

  no_write_error : (e : Option WriteError) → Option.map StoreError.write_failed e ≡ none → e ≡ none
  no_write_error none h = refl
  no_write_error (some why) h = cc

  -- It is on the disk afterwards, unless an error is returned.
  pub persist-fitting :
      (persist host f s).1 ≡ none
      → (persist host f s).0.disk.committed ≡ some (record { content = buf; synced = true })
  persist-fitting h =
      rw persist_lem
        (write_atomic-committed f buf s.disk (no_write_error _ (rw persist_lem at h))).0
