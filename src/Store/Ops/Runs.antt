-- ===== src/Store/Ops/Runs.antt =====
-- Any sequence of mutations of the store, each with its own clock, entropy and failures.
use my_home_index_server.Prelude.{Option, List, [], ◌∷◌}
use my_home_index_server.Prelude.Bytes.{Bytes}
use my_home_index_server.Prelude.Time.{Time}
use my_home_index_server.Disk.{Faults}
use my_home_index_server.Store.{Store, Host, Remembered}
use my_home_index_server.Store.Ops.{set_label, remember, delete_remembered}
use my_home_index_server.Store.Ops.Invariant.{
  IsValid, set_label-IsValid, remember-IsValid, delete_remembered-IsValid,
}

pub data Call : Type 0 where
  sets_label : Bytes → List Bytes → Bytes → Call
  remembers : Option Bytes → Remembered → Call
  deletes : Bytes → Call

pub record Event : Type 0 where
  pub faults : Faults
  pub now : Time
  pub call : Call

perform : Host → Faults → Time → Call → Store → Store
perform host f now (sets_label cwd command text) s = (set_label host f now s cwd command text).0
perform host f now (remembers entropy r) s = (remember host f now entropy s r).0
perform host f now (deletes id) s = (delete_remembered host f s id).0

-- The callers of a shared store, one after the other: each method holds the mutex to its end.
pub run : Host → Store → List Event → Store
unfolding perform
run host s [] = s
run host s (e ∷ es) = run host (perform host e.faults e.now e.call s) es

perform-IsValid :
    (host : Host) (f : Faults) (now : Time) (c : Call) (s : Store)
    → IsValid s.content
    → IsValid (perform host f now c s).content
unfolding perform
perform-IsValid host f now (sets_label cwd command text) s v =
    set_label-IsValid host f now s cwd command text v
perform-IsValid host f now (remembers entropy r) s v = remember-IsValid host f now entropy s r v
perform-IsValid host f now (deletes id) s v = delete_remembered-IsValid host f s id v

-- From a valid state, every history of calls, failing ones included, leaves at most five remembered
-- entries of each key and a hundred in all, and labels that are not empty, at most 64 runes long and
-- under distinct keys.
pub run-IsValid :
    (host : Host) (s : Store) (es : List Event)
    → IsValid s.content
    → IsValid (run host s es).content
unfolding run
run-IsValid host s [] v = v
run-IsValid host s (e ∷ es) v =
    run-IsValid host (perform host e.faults e.now e.call s) es
      (perform-IsValid host e.faults e.now e.call s v)
