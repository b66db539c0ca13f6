-- ===== src/Store/Ulid/Bits.antt =====
-- The masks and shifts of `newULID` are divisions: each fact is checked at all 256 bytes.
use Prim.Native.Nat.{bit_and, bit_or}
use my_home_index_server.Prelude.{ℕ, ◌+◌, ◌*◌, ◌/◌, ◌%◌, ◌<◌, ◌≡◌, refl, arith}
use my_home_index_server.Prelude.Table.{passes_below, equal_below}
use my_home_index_server.Store.Ulid.{shr, shl}

pub hi3 : (x : ℕ) → x < 256 → shr (bit_and x 0xE0) 5 ≡ x / 32
unfolding passes_below
hi3 x = equal_below 256 (λ x. shr (bit_and x 0xE0) 5) (λ x. x / 32) x refl

pub lo5 : (x : ℕ) → x < 256 → bit_and x 0x1F ≡ x % 32
unfolding passes_below
lo5 x = equal_below 256 (λ x. bit_and x 0x1F) (λ x. x % 32) x refl

pub hi5 : (x : ℕ) → x < 256 → shr (bit_and x 0xF8) 3 ≡ x / 8
unfolding passes_below
hi5 x = equal_below 256 (λ x. shr (bit_and x 0xF8) 3) (λ x. x / 8) x refl

pub lo3 : (x : ℕ) → x < 256 → shl (bit_and x 0x07) 2 ≡ x % 8 * 4
unfolding passes_below
lo3 x = equal_below 256 (λ x. shl (bit_and x 0x07) 2) (λ x. x % 8 * 4) x refl

pub hi2 : (x : ℕ) → x < 256 → shr (bit_and x 0xC0) 6 ≡ x / 64
unfolding passes_below
hi2 x = equal_below 256 (λ x. shr (bit_and x 0xC0) 6) (λ x. x / 64) x refl

pub mid1 : (x : ℕ) → x < 256 → shr (bit_and x 0x3E) 1 ≡ x / 2 % 32
unfolding passes_below
mid1 x = equal_below 256 (λ x. shr (bit_and x 0x3E) 1) (λ x. x / 2 % 32) x refl

pub lo1 : (x : ℕ) → x < 256 → shl (bit_and x 0x01) 4 ≡ x % 2 * 16
unfolding passes_below
lo1 x = equal_below 256 (λ x. shl (bit_and x 0x01) 4) (λ x. x % 2 * 16) x refl

pub hi4 : (x : ℕ) → x < 256 → shr (bit_and x 0xF0) 4 ≡ x / 16
unfolding passes_below
hi4 x = equal_below 256 (λ x. shr (bit_and x 0xF0) 4) (λ x. x / 16) x refl

pub lo4 : (x : ℕ) → x < 256 → shl (bit_and x 0x0F) 1 ≡ x % 16 * 2
unfolding passes_below
lo4 x = equal_below 256 (λ x. shl (bit_and x 0x0F) 1) (λ x. x % 16 * 2) x refl

pub hi1 : (x : ℕ) → x < 256 → shr (bit_and x 0x80) 7 ≡ x / 128
unfolding passes_below
hi1 x = equal_below 256 (λ x. shr (bit_and x 0x80) 7) (λ x. x / 128) x refl

pub mid2 : (x : ℕ) → x < 256 → shr (bit_and x 0x7C) 2 ≡ x / 4 % 32
unfolding passes_below
mid2 x = equal_below 256 (λ x. shr (bit_and x 0x7C) 2) (λ x. x / 4 % 32) x refl

pub lo2 : (x : ℕ) → x < 256 → shl (bit_and x 0x03) 3 ≡ x % 4 * 8
unfolding passes_below
lo2 x = equal_below 256 (λ x. shl (bit_and x 0x03) 3) (λ x. x % 4 * 8) x refl

or_below4 : (n : ℕ) → n < 32 → bit_or (n / 4 * 4) (n % 4) ≡ n
unfolding passes_below
or_below4 n = equal_below 32 (λ n. bit_or (n / 4 * 4) (n % 4)) (λ n. n) n refl

-- Two bit fields that do not overlap are added.
pub or4 : (i j : ℕ) → i < 8 → j < 4 → bit_or (i * 4) j ≡ i * 4 + j
or4 i j hi hj =
    let a : (i * 4 + j) / 4 ≡ i = omega arith in
    let b : (i * 4 + j) % 4 ≡ j = omega arith in rw (a, b) at (or_below4 (i * 4 + j) (omega arith))

or_below16 : (n : ℕ) → n < 32 → bit_or (n / 16 * 16) (n % 16) ≡ n
unfolding passes_below
or_below16 n = equal_below 32 (λ n. bit_or (n / 16 * 16) (n % 16)) (λ n. n) n refl

-- Two bit fields that do not overlap are added.
pub or16 : (i j : ℕ) → i < 2 → j < 16 → bit_or (i * 16) j ≡ i * 16 + j
or16 i j hi hj =
    let a : (i * 16 + j) / 16 ≡ i = omega arith in
    let b : (i * 16 + j) % 16 ≡ j = omega arith in
    rw (a, b) at (or_below16 (i * 16 + j) (omega arith))

or_below2 : (n : ℕ) → n < 32 → bit_or (n / 2 * 2) (n % 2) ≡ n
unfolding passes_below
or_below2 n = equal_below 32 (λ n. bit_or (n / 2 * 2) (n % 2)) (λ n. n) n refl

-- Two bit fields that do not overlap are added.
pub or2 : (i j : ℕ) → i < 16 → j < 2 → bit_or (i * 2) j ≡ i * 2 + j
or2 i j hi hj =
    let a : (i * 2 + j) / 2 ≡ i = omega arith in
    let b : (i * 2 + j) % 2 ≡ j = omega arith in rw (a, b) at (or_below2 (i * 2 + j) (omega arith))

or_below8 : (n : ℕ) → n < 32 → bit_or (n / 8 * 8) (n % 8) ≡ n
unfolding passes_below
or_below8 n = equal_below 32 (λ n. bit_or (n / 8 * 8) (n % 8)) (λ n. n) n refl

-- Two bit fields that do not overlap are added.
pub or8 : (i j : ℕ) → i < 4 → j < 8 → bit_or (i * 8) j ≡ i * 8 + j
or8 i j hi hj =
    let a : (i * 8 + j) / 8 ≡ i = omega arith in
    let b : (i * 8 + j) % 8 ≡ j = omega arith in rw (a, b) at (or_below8 (i * 8 + j) (omega arith))
