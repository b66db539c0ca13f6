-- ===== src/Prelude/Time.antt =====
-- `time.Time` and `time.Duration`, in nanoseconds. An instant counts from Go's zero time, the first
-- of January of year 1 UTC, so `IsZero` is a comparison with 0.
use Prim.Native.Nat.{ℕ, ◌+◌, ◌-◌, ◌*◌, ◌/◌, ◌%◌, ◌^◌}

abbrev pub Time : Type 0
Time = ℕ

abbrev pub Duration : Type 0
Duration = ℕ

abbrev pub second : ℕ
second = 1000000000

abbrev pub millisecond : ℕ
millisecond = 1000000

-- Seconds from the zero time to 1970.
abbrev pub unix_to_internal : ℕ
unix_to_internal = 62135596800

-- uint64(t.Unix()): 64 bits, so an instant before 1970 wraps around.
abbrev pub unix_u64 : Time → ℕ
unix_u64 t = (t / second + (2 ^ 64 - unix_to_internal)) % 2 ^ 64

-- uint64(t.UnixMilli())
abbrev pub unix_milli_u64 : Time → ℕ
unix_milli_u64 t = (t / millisecond + (2 ^ 64 - unix_to_internal * 1000)) % 2 ^ 64

-- time.UnixMilli(ms), from 1970 on
abbrev pub unix_milli : ℕ → Time
unix_milli ms = (unix_to_internal * 1000 + ms) * millisecond
