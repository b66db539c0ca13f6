-- ===== src/Prelude/Utf8.antt =====
-- `unicode/utf8` of Go's standard library: how a `range` loop over a string decodes runes, and how
-- `RuneCountInString` counts them. A byte that begins no valid encoding is one rune, U+FFFD.
use Prim.Native.Nat.{ℕ, zero, suc, ◌+◌, ◌-◌, ◌*◌, ◌≤◌}
use mathlib.Core.Bool.{Bool, ◌&&◌}
use mathlib.Core.List.{List, [], ◌∷◌}
use mathlib.Core.Path.{◌≡◌, refl}
use native.Mathlib.Omega.{arith}
use my_home_index_server.Prelude.Tests.{ltb, leb, ◌==◌, if◌then◌else◌}
use my_home_index_server.Prelude.Lists.{length}
use my_home_index_server.Prelude.Bytes.{Bytes, codes}

within : ℕ → ℕ → ℕ → Bool
within lo hi b = leb lo b && leb b hi

is_continuation : ℕ → Bool
unfolding within
is_continuation b = within 0x80 0xBF b

-- The range of the second byte depends on the first: no overlong form, no surrogate, no value
-- above U+10FFFF.
second_fits : ℕ → ℕ → Bool
unfolding within is_continuation
second_fits a b =
    if a == 0xE0
    then within 0xA0 0xBF b
    else if a == 0xED
    then within 0x80 0x9F b
    else if a == 0xF0
    then within 0x90 0xBF b
    else if a == 0xF4
    then within 0x80 0x8F b
    else is_continuation b

-- How many bytes behind the first belong to the same rune.
extra_bytes : ℕ → Bytes → ℕ
unfolding second_fits
extra_bytes a [] = 0
extra_bytes a (b ∷ []) = if within 0xC2 0xDF a && is_continuation b then 1 else 0
extra_bytes a (b ∷ c ∷ []) =
    if within 0xC2 0xDF a && is_continuation b
    then 1
    else if within 0xE0 0xEF a && (second_fits a b && is_continuation c)
    then 2
    else 0
extra_bytes a (b ∷ c ∷ d ∷ _) =
    if within 0xC2 0xDF a && is_continuation b
    then 1
    else if within 0xE0 0xEF a && (second_fits a b && is_continuation c)
    then 2
    else if within 0xF0 0xF4 a && (second_fits a b && (is_continuation c && is_continuation d))
    then 3
    else 0

compose : ℕ → ℕ → Bytes → ℕ
compose (suc zero) a (b ∷ _) = (a - 0xC0) * 64 + (b - 0x80)
compose (suc (suc zero)) a (b ∷ c ∷ _) = ((a - 0xE0) * 64 + (b - 0x80)) * 64 + (c - 0x80)
compose (suc (suc (suc zero))) a (b ∷ c ∷ d ∷ _) =
    (((a - 0xF0) * 64 + (b - 0x80)) * 64 + (c - 0x80)) * 64 + (d - 0x80)
compose _ a _ = if ltb a 0x80 then a else 0xFFFD

-- `skip` bytes belong to a rune that is decoded already.
runes_from : ℕ → Bytes → List ℕ
unfolding extra_bytes compose
runes_from skip [] = []
runes_from (suc skip) (a ∷ s) = runes_from skip s
runes_from zero (a ∷ s) = compose (extra_bytes a s) a s ∷ runes_from (extra_bytes a s) s

-- The runes that `for _, r := range s` visits.
unfoldable pub runes : Bytes → List ℕ
unfolding runes_from
runes s = runes_from 0 s

-- utf8.RuneCountInString(s)
unfoldable pub rune_count : Bytes → ℕ
unfolding runes
rune_count s = length (runes s)

runes_from-length : (skip : ℕ) (s : Bytes) → length (runes_from skip s) ≤ length s
unfolding runes_from
runes_from-length skip [] = omega arith
runes_from-length (suc skip) (a ∷ s) = omega (arith, runes_from-length skip s)
runes_from-length zero (a ∷ s) = omega (arith, runes_from-length (extra_bytes a s) s)

-- There are no more runes than bytes.
pub rune_count-le-length : (s : Bytes) → rune_count s ≤ length s
unfolding rune_count
rune_count-le-length s = runes_from-length 0 s

-- "aé€😀", then a stray continuation byte and a cut-off sequence.
runes_mixed :
    runes (
      0x61 ∷ 0xC3 ∷ 0xA9 ∷ 0xE2 ∷ 0x82 ∷ 0xAC ∷ 0xF0 ∷ 0x9F ∷ 0x98 ∷ 0x80 ∷ 0x80 ∷ 0xE2 ∷ 0x82 ∷ [])
    ≡ 0x61 ∷ 0xE9 ∷ 0x20AC ∷ 0x1F600 ∷ 0xFFFD ∷ 0xFFFD ∷ 0xFFFD ∷ []
unfolding runes
runes_mixed = refl

rune_count_ascii : rune_count (codes "api server") ≡ 10
unfolding rune_count
rune_count_ascii = refl
