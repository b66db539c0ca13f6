-- ===== src/Prelude/Hex.antt =====
-- Numbers and bytes in hexadecimal digits, in lower case.
use my_home_index_server.Prelude.Tests.{ltb, if◌then◌else◌}
use my_home_index_server.Prelude.Lists.{All}
use my_home_index_server.Prelude.Bytes.{Bytes}
use my_home_index_server.Prelude.Text.Trimming.{IsGraph}
use Prim.Native.Nat.{ℕ, zero, suc, ◌+◌, ◌/◌, ◌%◌, ◌≤◌}
use mathlib.Core.List.{[], ◌∷◌, ◌++◌}
use native.Mathlib.Omega.{arith}

unfoldable pub hex_digit : ℕ → ℕ
hex_digit n = if ltb n 10 then b'0' + n else 87 + n

-- hex.EncodeToString
unfoldable pub hex : Bytes → Bytes
unfolding hex_digit
hex [] = []
hex (b ∷ s) = hex_digit (b / 16 % 16) ∷ hex_digit (b % 16) ∷ hex s

-- `%016x` of a number below 2^64: the last digits, as many as asked for.
unfoldable pub hex_digits : ℕ → ℕ → Bytes
hex_digits zero n = []
hex_digits (suc k) n = hex_digits k (n / 16) ++ hex_digit (n % 16) ∷ []

hex_digit-IsGraph : (n : ℕ) → n ≤ 15 → IsGraph (hex_digit n)
unfolding hex_digit
hex_digit-IsGraph n h = ground arith

pub All-hex : (s : Bytes) → All IsGraph (hex s)
unfolding hex
All-hex [] = tt
All-hex (b ∷ s) = (
  hex_digit-IsGraph (b / 16 % 16) (omega arith),
  (hex_digit-IsGraph (b % 16) (omega arith), All-hex s),
)
