-- ===== src/Store/Persist.antt =====
-- `persistLocked` of internal/store/store.go: serialise, and evict until the state fits.
pub mod Total
pub mod Fitting
use mathlib.Core.Option
use my_home_index_server.Prelude.{ℕ, zero, suc, ◌+◌, Option, none, some, List, [], ◌∷◌}
use my_home_index_server.Prelude.Tests.{leb, if◌then◌else◌}
use my_home_index_server.Prelude.Lists.{length}
use my_home_index_server.Prelude.Bytes.{Bytes}
use my_home_index_server.Prelude.Dict.{Dict}
use my_home_index_server.Disk.{Faults, Written, WriteError, write_atomic}
use my_home_index_server.Store.{
  Store, Host, Persisted, Remembered, LabelEntry, StoreError, max_state_bytes,
}
use my_home_index_server.Store.Evict.{evict_oldest_label}

-- A round of the loop returns from the method, or goes on with fewer entries.
pub data Round : Type 0 where
  returns : Store → Option StoreError → Round
  continues : Persisted → Round

written : Store → Written → Round
written s w = returns (record s { disk = w.disk }) (Option.map StoreError.write_failed w.error)

-- The state did not fit: its oldest remembered entry goes, or else its oldest label.
shrink_labels : Store → Option (Dict LabelEntry) → Round
shrink_labels s none = returns s (some StoreError.state_size_exceeded)
shrink_labels s (some m) = continues (record (s.content) { labels = m })

shrink : Store → List Remembered → Round
unfolding shrink_labels
shrink s (r ∷ rs) = continues (record (s.content) { remembered = rs })
shrink s [] = shrink_labels s (evict_oldest_label s.labels)

serialised : Faults → Store → Option Bytes → Round
unfolding written shrink
serialised f s none = returns s (some StoreError.marshal_failed)
serialised f s (some buf) =
    if leb (length buf) max_state_bytes
    then written s (write_atomic f buf s.disk)
    else shrink s s.remembered

pub persist_round : Host → Faults → Store → Round
unfolding serialised
persist_round host f s = serialised f s (host.marshal s.content)

unfoldable pub persist_loop : Host → Faults → ℕ → Store → Store × Option StoreError
unfolding persist_round
persist_loop host f zero s = (s, some StoreError.unfinished)
persist_loop host f (suc fuel) s = elim (persist_round host f s) [
  | returns s' e ↦ (s', e)
  | continues p ↦ persist_loop host f fuel (record s { content = p })
]

-- Each round that goes on has one entry less, so the entries and one more are rounds enough.
abbrev pub rounds : Persisted → ℕ
rounds p = suc (length p.remembered + length p.labels)

unfoldable pub persist : Host → Faults → Store → Store × Option StoreError
unfolding persist_loop
persist host f s = persist_loop host f (rounds s.content) s
