-- ===== src/Store/Ulid/Order.antt =====
-- An id spells its sixteen bytes in base 32.
use Prim.Native.Nat.{bit_and, bit_or}
use my_home_index_server.Prelude.{
  ℕ, zero, suc, ◌+◌, ◌*◌, ◌/◌, ◌%◌, ◌^◌, ◌<◌, ◌≡◌, ap, ◌∙◌, List, [], ◌∷◌, arith,
}
use my_home_index_server.Prelude.Lists.{All}
use my_home_index_server.Prelude.Bytes.{Bytes}
use my_home_index_server.Store.Ulid.{at, shr, shl, digits}
use my_home_index_server.Store.Ulid.Bits.{
  hi3, lo5, hi5, lo3, hi2, mid1, lo1, hi4, lo4, hi1, mid2, lo2, or4, or16, or2, or8,
}

-- The number that digits spell behind `acc`.
abbrev pub value : ℕ → ℕ → List ℕ → ℕ
value base acc [] = acc
value base acc (d ∷ ds) = value base (acc * base + d) ds

abbrev pub IsByte : ℕ → Type 0
IsByte b = b < 256

-- Eight digits of five bytes, as `newULID` cuts them.
abbrev pub group : ℕ → ℕ → ℕ → ℕ → ℕ → List ℕ → List ℕ
group a b c d e rest =
    shr (bit_and a 0xF8) 3
    ∷ bit_or (shl (bit_and a 0x07) 2) (shr (bit_and b 0xC0) 6)
    ∷ shr (bit_and b 0x3E) 1
    ∷ bit_or (shl (bit_and b 0x01) 4) (shr (bit_and c 0xF0) 4)
    ∷ bit_or (shl (bit_and c 0x0F) 1) (shr (bit_and d 0x80) 7)
    ∷ shr (bit_and d 0x7C) 2
    ∷ bit_or (shl (bit_and d 0x03) 3) (shr (bit_and e 0xE0) 5)
    ∷ bit_and e 0x1F
    ∷ rest

abbrev pub plain_group : ℕ → ℕ → ℕ → ℕ → ℕ → List ℕ → List ℕ
plain_group a b c d e rest =
    (a / 8)
    ∷ (a % 8 * 4 + b / 64)
    ∷ (b / 2 % 32)
    ∷ (b % 2 * 16 + c / 16)
    ∷ (c % 16 * 2 + d / 128)
    ∷ (d / 4 % 32)
    ∷ (d % 4 * 8 + e / 32)
    ∷ (e % 32)
    ∷ rest

group-plain :
    (a b c d e : ℕ) (rest : List ℕ)
    → IsByte a
    → IsByte b
    → IsByte c
    → IsByte d
    → IsByte e
    → group a b c d e rest ≡ plain_group a b c d e rest
group-plain a b c d e rest ha hb hc hd he = rw (
  hi5 a ha,
  lo3 a ha,
  hi2 b hb,
  or4 (a % 8) (b / 64) (omega arith) (omega arith),
  mid1 b hb,
  lo1 b hb,
  hi4 c hc,
  or16 (b % 2) (c / 16) (omega arith) (omega arith),
  lo4 c hc,
  hi1 d hd,
  or2 (c % 16) (d / 128) (omega arith) (omega arith),
  mid2 d hd,
  lo2 d hd,
  hi3 e he,
  or8 (d % 4) (e / 32) (omega arith) (omega arith),
  lo5 e he,
)

abbrev pub five : ℕ → ℕ → ℕ → ℕ → ℕ → ℕ
five a b c d e = value 256 0 (a ∷ b ∷ c ∷ d ∷ e ∷ [])

group_number :
    (acc a b c d e : ℕ)
    → IsByte a
    → IsByte b
    → IsByte c
    → IsByte d
    → IsByte e
    → value 32 acc (plain_group a b c d e []) ≡ acc * 2 ^ 40 + five a b c d e
group_number acc a b c d e ha hb hc hd he = omega arith

-- A group reads as the number of its five bytes.
value-group :
    (acc a b c d e : ℕ) (rest : List ℕ)
    → IsByte a
    → IsByte b
    → IsByte c
    → IsByte d
    → IsByte e
    → value 32 acc (group a b c d e rest) ≡ value 32 (acc * 2 ^ 40 + five a b c d e) rest
value-group acc a b c d e rest ha hb hc hd he =
    ap (value 32 acc) (group-plain a b c d e rest ha hb hc hd he)
    ∙ ap (λ (n : ℕ). value 32 n rest) (group_number acc a b c d e ha hb hc hd he)

pub at-IsByte : (raw : Bytes) (i : ℕ) → All IsByte raw → at raw i < 256
at-IsByte [] i h = omega arith
at-IsByte (b ∷ raw) zero h = h.0
at-IsByte (b ∷ raw) (suc i) h = at-IsByte raw i h.1

abbrev pub five_at : Bytes → ℕ → ℕ
five_at raw i = five (at raw i) (at raw (i + 1)) (at raw (i + 2)) (at raw (i + 3)) (at raw (i + 4))

value-group-at :
    (acc : ℕ) (raw : Bytes) (i : ℕ) (rest : List ℕ)
    → All IsByte raw
    → value 32 acc
        (group (at raw i) (at raw (i + 1)) (at raw (i + 2)) (at raw (i + 3)) (at raw (i + 4)) rest)
      ≡ value 32 (acc * 2 ^ 40 + five_at raw i) rest
value-group-at acc raw i rest h =
    value-group acc _ _ _ _ _ rest (at-IsByte raw i h) (at-IsByte raw (i + 1) h)
      (at-IsByte raw (i + 2) h) (at-IsByte raw (i + 3) h) (at-IsByte raw (i + 4) h)

abbrev pub sixteen : Bytes → Bytes
sixteen raw =
    at raw 0
    ∷ at raw 1
    ∷ at raw 2
    ∷ at raw 3
    ∷ at raw 4
    ∷ at raw 5
    ∷ at raw 6
    ∷ at raw 7
    ∷ at raw 8
    ∷ at raw 9
    ∷ at raw 10
    ∷ at raw 11
    ∷ at raw 12
    ∷ at raw 13
    ∷ at raw 14
    ∷ at raw 15
    ∷ []

-- The digits behind the first two, the first ten and the first eighteen.
abbrev pub third_group : Bytes → List ℕ
third_group raw = group (at raw 11) (at raw 12) (at raw 13) (at raw 14) (at raw 15) []

abbrev pub second_group : Bytes → List ℕ
second_group raw = group (at raw 6) (at raw 7) (at raw 8) (at raw 9) (at raw 10) (third_group raw)

abbrev first_group : Bytes → List ℕ
first_group raw = group (at raw 1) (at raw 2) (at raw 3) (at raw 4) (at raw 5) (second_group raw)

sixteen_number :
    (raw : Bytes)
    → ((at raw 0 * 2 ^ 40 + five_at raw 1) * 2 ^ 40 + five_at raw 6) * 2 ^ 40 + five_at raw 11
      ≡ value 256 0 (sixteen raw)
sixteen_number raw = omega arith

first_digits :
    (b : ℕ) (rest : List ℕ)
    → IsByte b
    → shr (bit_and b 0xE0) 5 ∷ bit_and b 0x1F ∷ rest ≡ (b / 32) ∷ (b % 32) ∷ rest
first_digits b rest h = rw (hi3 b h, lo5 b h)

-- The first ten digits by division.
abbrev pub ten : Bytes → List ℕ → List ℕ
ten raw rest =
    (at raw 0 / 32)
    ∷ (at raw 0 % 32)
    ∷ plain_group (at raw 1) (at raw 2) (at raw 3) (at raw 4) (at raw 5) rest

pub digits-ten : (raw : Bytes) → All IsByte raw → digits raw ≡ ten raw (second_group raw)
unfolding digits
digits-ten raw h =
    first_digits (at raw 0) (first_group raw) (at-IsByte raw 0 h)
    ∙ ap (λ (ds : List ℕ). (at raw 0 / 32) ∷ (at raw 0 % 32) ∷ ds)
        (group-plain (at raw 1) (at raw 2) (at raw 3) (at raw 4) (at raw 5) (second_group raw)
          (at-IsByte raw 1 h) (at-IsByte raw 2 h) (at-IsByte raw 3 h) (at-IsByte raw 4 h)
          (at-IsByte raw 5 h))

pub value-ten :
    (raw : Bytes) (rest : List ℕ)
    → All IsByte raw
    → value 32 0 (ten raw rest) ≡ value 32 (at raw 0 * 2 ^ 40 + five_at raw 1) rest
value-ten raw rest h =
    ap
      (λ (n : ℕ).
        value 32 n (plain_group (at raw 1) (at raw 2) (at raw 3) (at raw 4) (at raw 5) rest))
      (omega arith)
    ∙ ap (λ (n : ℕ). value 32 n rest)
        (group_number (at raw 0) _ _ _ _ _ (at-IsByte raw 1 h) (at-IsByte raw 2 h)
          (at-IsByte raw 3 h) (at-IsByte raw 4 h) (at-IsByte raw 5 h))

-- The 26 digits of an id spell, in base 32, the number that its sixteen bytes spell in base 256.
pub value-digits :
    (raw : Bytes) → All IsByte raw → value 32 0 (digits raw) ≡ value 256 0 (sixteen raw)
value-digits raw h =
    ap (value 32 0) (digits-ten raw h)
    ∙ value-ten raw (second_group raw) h
    ∙ value-group-at (at raw 0 * 2 ^ 40 + five_at raw 1) raw 6 (third_group raw) h
    ∙ value-group-at ((at raw 0 * 2 ^ 40 + five_at raw 1) * 2 ^ 40 + five_at raw 6) raw 11 [] h
    ∙ sixteen_number raw
