-- ===== src/Store/Ulid.antt =====
-- `newULID` of internal/store/store.go: 48 bits of milliseconds and 80 random bits in Crockford's
-- base 32. The random bytes are an argument, `none` when rand.Read fails.
pub mod Bits
pub mod Order
pub mod Sorted
use Prim.Native.Nat.{bit_and, bit_or}
use my_home_index_server.Prelude.{
  ℕ, zero, suc, ◌+◌, ◌*◌, ◌/◌, ◌%◌, ◌^◌, ◌<◌, ◌≡◌, refl, Option, none, some, List, [], ◌∷◌, ◌++◌,
  arith,
}
use my_home_index_server.Prelude.Bytes.{Bytes, codes}
use my_home_index_server.Prelude.Time.{Time, unix_milli_u64}

abbrev pub crockford : Bytes
crockford = codes "0123456789ABCDEFGHJKMNPQRSTVWXYZ"

-- A read past the end is a fault in Go; the indices below are all within bounds.
abbrev pub at : Bytes → ℕ → ℕ
at [] i = 0
at (x ∷ xs) zero = x
at (x ∷ xs) (suc i) = at xs i

-- x >> k and (x << k) as a byte
abbrev pub shr : ℕ → ℕ → ℕ
shr x k = x / 2 ^ k

abbrev pub shl : ℕ → ℕ → ℕ
shl x k = x * 2 ^ k % 256

-- The sixteen bytes: the low 48 bits of the time, the high byte first, and the random ones.
abbrev pub raw_bytes : ℕ → Bytes → Bytes
raw_bytes ms random =
    (shr ms 40 % 256)
    ∷ (shr ms 32 % 256)
    ∷ (shr ms 24 % 256)
    ∷ (shr ms 16 % 256)
    ∷ (shr ms 8 % 256)
    ∷ (ms % 256)
    ∷ random

-- The five-bit digits of the sixteen bytes.
unfoldable pub digits : Bytes → List ℕ
digits raw =
    shr (bit_and (at raw 0) 0xE0) 5
    ∷ bit_and (at raw 0) 0x1F
    ∷ shr (bit_and (at raw 1) 0xF8) 3
    ∷ bit_or (shl (bit_and (at raw 1) 0x07) 2) (shr (bit_and (at raw 2) 0xC0) 6)
    ∷ shr (bit_and (at raw 2) 0x3E) 1
    ∷ bit_or (shl (bit_and (at raw 2) 0x01) 4) (shr (bit_and (at raw 3) 0xF0) 4)
    ∷ bit_or (shl (bit_and (at raw 3) 0x0F) 1) (shr (bit_and (at raw 4) 0x80) 7)
    ∷ shr (bit_and (at raw 4) 0x7C) 2
    ∷ bit_or (shl (bit_and (at raw 4) 0x03) 3) (shr (bit_and (at raw 5) 0xE0) 5)
    ∷ bit_and (at raw 5) 0x1F
    ∷ shr (bit_and (at raw 6) 0xF8) 3
    ∷ bit_or (shl (bit_and (at raw 6) 0x07) 2) (shr (bit_and (at raw 7) 0xC0) 6)
    ∷ shr (bit_and (at raw 7) 0x3E) 1
    ∷ bit_or (shl (bit_and (at raw 7) 0x01) 4) (shr (bit_and (at raw 8) 0xF0) 4)
    ∷ bit_or (shl (bit_and (at raw 8) 0x0F) 1) (shr (bit_and (at raw 9) 0x80) 7)
    ∷ shr (bit_and (at raw 9) 0x7C) 2
    ∷ bit_or (shl (bit_and (at raw 9) 0x03) 3) (shr (bit_and (at raw 10) 0xE0) 5)
    ∷ bit_and (at raw 10) 0x1F
    ∷ shr (bit_and (at raw 11) 0xF8) 3
    ∷ bit_or (shl (bit_and (at raw 11) 0x07) 2) (shr (bit_and (at raw 12) 0xC0) 6)
    ∷ shr (bit_and (at raw 12) 0x3E) 1
    ∷ bit_or (shl (bit_and (at raw 12) 0x01) 4) (shr (bit_and (at raw 13) 0xF0) 4)
    ∷ bit_or (shl (bit_and (at raw 13) 0x0F) 1) (shr (bit_and (at raw 14) 0x80) 7)
    ∷ shr (bit_and (at raw 14) 0x7C) 2
    ∷ bit_or (shl (bit_and (at raw 14) 0x03) 3) (shr (bit_and (at raw 15) 0xE0) 5)
    ∷ bit_and (at raw 15) 0x1F
    ∷ []

abbrev pub letters : List ℕ → Bytes
letters [] = []
letters (d ∷ ds) = at crockford d ∷ letters ds

unfoldable pub new_ulid : Time → Option Bytes → Option Bytes
unfolding digits
new_ulid ts none = none
new_ulid ts (some random) = some (letters (digits (raw_bytes (unix_milli_u64 ts) random)))
