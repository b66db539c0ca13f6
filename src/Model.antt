-- ===== src/Model.antt =====
-- internal/model/viewmodel.go: the rows of the dashboard.
pub mod Rows
use my_home_index_server.Prelude.{
  ℕ, zero, suc, ◌+◌, ◌-◌, ◌*◌, ◌/◌, ◌%◌, ◌^◌, Bool, true, false, ◌&&◌, ◌||◌, Option, none, some,
  List, [], ◌∷◌, ◌++◌,
}
use my_home_index_server.Prelude.Tests.{ltb, leb, ◌==◌, if◌then◌else◌}
use my_home_index_server.Prelude.Bytes.{Bytes, codes, join}
use my_home_index_server.Prelude.Int.{ℤ, pos, int_eq, int_le}
use my_home_index_server.Prelude.Time.{Time, Duration, second}
use my_home_index_server.Store.{Store, Host}
use my_home_index_server.Store.Ops.{label}
use my_home_index_server.Process.{Listener}
use my_home_index_server.Inspector.{ProcInfo, Inspected}

-- The display-only fields `Self` and `Disabled` are never set.
pub record PortVm : Type 0 where
  pub port : ℤ
  pub label : Bytes
  pub cmd : Bytes
  pub cwd : Bytes
  pub uptime_s : ℕ
  pub uptime : Bytes
  pub source : Bytes
  pub pid : ℤ
  pub listen_addrs : List Bytes
  pub alive : Bool
  pub remembered : Bool
  pub remembered_id : Bytes

digits_of : ℕ → ℕ → Bytes
digits_of zero n = []
digits_of (suc fuel) n =
    let rest = digits_of fuel (n / 10) in
    if ltb n 10 then (b'0' + n) ∷ [] else rest ++ (b'0' + n % 10) ∷ []

-- `%d`: twenty digits are enough for 64 bits.
unfoldable pub decimal : ℕ → Bytes
unfolding digits_of
decimal n = digits_of 20 n

-- `%02d`
two_digits : ℕ → Bytes
two_digits n = if ltb n 10 then b'0' ∷ decimal n else decimal n

-- `FormatUptime` of a whole number of seconds, and its guard for an empty duration.
unfoldable pub format_seconds : ℕ → Bytes
unfolding two_digits
format_seconds s =
    let m = s / 60 in
    let h = m / 60 in
    if ltb s 60
    then decimal s ++ codes "s"
    else if ltb m 60
    then decimal m ++ codes "m"
    else if ltb h 24
    then decimal h ++ codes "h " ++ two_digits (m % 60) ++ codes "m"
    else decimal (h / 24) ++ codes "d " ++ decimal (h % 24) ++ codes "h"

-- `whole_seconds` is int(d.Seconds()), which rounds in floating point.
unfoldable pub format_uptime : (Duration → ℕ) → Duration → Bytes
format_uptime whole_seconds d = if d == 0 then codes "0s" else format_seconds (whole_seconds d)

-- now.Sub(start) of an instant and an earlier one, which saturates at the largest Duration, and 0 if
-- it is negative.
age : Time → Time → Duration
age now start = if ltb (2 ^ 63 - 1) (now - start) then 2 ^ 63 - 1 else now - start

bare : Listener → PortVm
bare l = record {
  port = l.port;
  label = [];
  cmd = [];
  cwd = [];
  uptime_s = 0;
  uptime = [];
  source = codes "external";
  pid = l.pid;
  listen_addrs = l.addrs;
  alive = true;
  remembered = false;
  remembered_id = [];
}

-- The label of a row: empty when there is no store.
label_in : Host → Option Store → Bytes → List Bytes → Bytes
label_in host none cwd command = []
label_in host (some s) cwd command = label host s cwd command

with_info : Host → (Duration → ℕ) → Option Store → Time → ProcInfo → PortVm → PortVm
unfolding age label_in
with_info host whole_seconds st now info vm =
    let known = if info.start_time == 0 then false else true in
    record vm {
      cmd = join info.command (codes " ");
      cwd = info.cwd;
      uptime_s = if known then whole_seconds (age now info.start_time) else 0;
      uptime = if known then format_uptime whole_seconds (age now info.start_time) else [];
      label = label_in host st info.cwd info.command;
    }

-- `buildOne` after `Inspect`.
with_inspected :
    Host → (Duration → ℕ) → Option Store → Time → Option ProcInfo → Bool → PortVm → PortVm
unfolding with_info
with_inspected host whole_seconds st now none failed vm = vm
with_inspected host whole_seconds st now (some info) failed vm =
    if failed then vm else with_info host whole_seconds st now info vm

-- `buildOne`. Without an inspector the row is bare.
unfoldable pub build_one :
    Host → (Duration → ℕ) → Option (ℤ → Inspected) → Option Store → Time → Listener → PortVm
unfolding bare with_inspected
build_one host whole_seconds none st now l = bare l
build_one host whole_seconds (some inspect) st now l =
    let seen = inspect l.pid in
    with_inspected host whole_seconds st now seen.info seen.failed (bare l)

-- The rows in the order of the listeners. A row of this process is skipped, and one whose port and
-- process id are both 0 is taken for a skipped one.
unfoldable pub build_rows :
    Host
    → (Duration → ℕ)
    → Option (ℤ → Inspected)
    → Option Store
    → ℤ
    → Time
    → List Listener
    → List PortVm
build_rows host whole_seconds insp st self now [] = []
build_rows host whole_seconds insp st self now (l ∷ ls) =
    let rest = build_rows host whole_seconds insp st self now ls in
    if int_eq l.pid self || (int_eq l.port (pos 0) && int_eq l.pid (pos 0))
    then rest
    else build_one host whole_seconds insp st now l ∷ rest

-- Go sorts up to twelve rows by insertion; for more, the order of rows with one port is not defined.
unfoldable pub insert_row : PortVm → List PortVm → List PortVm
insert_row r [] = r ∷ []
insert_row r (x ∷ xs) =
    let rest = insert_row r xs in if int_le r.port x.port then r ∷ x ∷ xs else x ∷ rest

unfoldable pub sort_rows : List PortVm → List PortVm
sort_rows [] = []
sort_rows (r ∷ rs) = insert_row r (sort_rows rs)

-- `BuildViewModels`: the goroutines write to distinct slots, so their order does not show.
unfoldable pub build_view_models :
    Host
    → (Duration → ℕ)
    → Option (ℤ → Inspected)
    → Option Store
    → ℤ
    → Time
    → List Listener
    → List PortVm
build_view_models host whole_seconds insp st self now ls =
    sort_rows (build_rows host whole_seconds insp st self now ls)
