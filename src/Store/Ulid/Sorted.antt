-- ===== src/Store/Ulid/Sorted.antt =====
-- Ids of later milliseconds are greater strings.
use mathlib.Core.Path.{subst₂}
use native.Mathlib.Decide.{dec_lt}
use my_home_index_server.Prelude.{
  ℕ, ◌+◌, ◌*◌, ◌%◌, ◌^◌, ◌<◌, ◌≡◌, refl, sym, ap, ◌∙◌, true, some, List, [], ◌∷◌, ◌++◌, arith,
}
use my_home_index_server.Prelude.Tests.{ltb, ltb→lt, lt→ltb}
use my_home_index_server.Prelude.Lists.{length, All}
use my_home_index_server.Prelude.Bytes.{Bytes, bytes_lt}
use my_home_index_server.Prelude.Time.{Time, unix_milli_u64}
use my_home_index_server.Store.Ulid.{at, raw_bytes, digits, letters, crockford, new_ulid}
use my_home_index_server.Prelude.Table.{passes_below, passes_below-lt}
use my_home_index_server.Store.Ulid.Order.{
  value, IsByte, ten, second_group, digits-ten, value-ten, five_at, at-IsByte,
}

abbrev IsDigit : ℕ → Type 0
IsDigit d = d < 32

-- Crockford's alphabet is in the order of its character codes.
crockford_sorted : (d e : ℕ) → d < e → e < 32 → at crockford d < at crockford e
unfolding passes_below
crockford_sorted d e h fits = ltb→lt _ _ (
    passes_below-lt e (λ x. ltb (at crockford x) (at crockford e)) d
      (passes_below-lt 32 (λ y. passes_below y (λ x. ltb (at crockford x) (at crockford y))) e refl
        fits)
      h)

value_mono :
    (a b : ℕ) (ds es : List ℕ)
    → a < b
    → length ds ≡ length es
    → All IsDigit ds
    → value 32 a ds < value 32 b es
value_mono a b [] [] h same hd = h
value_mono a b [] (e ∷ es) h same hd = absurd (omega arith)
value_mono a b (d ∷ ds) [] h same hd = absurd (omega arith)
value_mono a b (d ∷ ds) (e ∷ es) h same hd =
    value_mono (a * 32 + d) (b * 32 + e) ds es (omega arith) (omega arith) hd.1

bytes_lt_head : (a b : ℕ) (s t : Bytes) → a ≡ b → bytes_lt (a ∷ s) (b ∷ t) ≡ bytes_lt s t
unfolding bytes_lt
bytes_lt_head a b s t e = ground arith

some-eq : {a b : Bytes} → some a ≡ some b → a ≡ b
some-eq h = cc

-- Of two digit strings of one length, the one that spells the smaller number is the smaller text,
-- whatever follows.
letters_sorted :
    (acc : ℕ) (ds es xs ys : List ℕ)
    → length ds ≡ length es
    → All IsDigit ds
    → All IsDigit es
    → value 32 acc ds < value 32 acc es
    → bytes_lt (letters (ds ++ xs)) (letters (es ++ ys)) ≡ true
unfolding bytes_lt
letters_sorted acc [] [] xs ys same hd he h = absurd (omega arith)
letters_sorted acc [] (e ∷ es) xs ys same hd he h = absurd (omega arith)
letters_sorted acc (d ∷ ds) [] xs ys same hd he h = absurd (omega arith)
letters_sorted acc (d ∷ ds) (e ∷ es) xs ys same hd he h = elim (dec_lt d e) [
  | yes less ↦ rw (lt→ltb _ _ (crockford_sorted d e less he.0))
  | no more ↦ elim (dec_lt e d) [
    | yes greater ↦ absurd (
        omega
          (arith, value_mono (acc * 32 + e) (acc * 32 + d) es ds (omega arith) (omega arith) he.1))
    | no less ↦
        let same_digit : d ≡ e = omega arith in
        bytes_lt_head (at crockford d) (at crockford e) (letters (ds ++ xs)) (letters (es ++ ys))
          (ap (at crockford) same_digit)
        ∙ letters_sorted (acc * 32 + d) ds es xs ys (omega arith) hd.1 he.1 (rw (← same_digit) at h)
  ]
]

ten-IsDigit : (raw : Bytes) → All IsByte raw → All IsDigit (ten raw [])
ten-IsDigit raw h =
    let b0 = at-IsByte raw 0 h in
    let b1 = at-IsByte raw 1 h in
    let b2 = at-IsByte raw 2 h in
    let b3 = at-IsByte raw 3 h in
    let b4 = at-IsByte raw 4 h in let b5 = at-IsByte raw 5 h in omega arith

ms_number :
    (ms : ℕ) (random : Bytes)
    → at (raw_bytes ms random) 0 * 2 ^ 40 + five_at (raw_bytes ms random) 1 ≡ ms % 2 ^ 48
ms_number ms random = omega arith

raw_bytes-IsByte : (ms : ℕ) (random : Bytes) → All IsByte random → All IsByte (raw_bytes ms random)
raw_bytes-IsByte ms random h =
    (omega arith, (omega arith, (omega arith, (omega arith, (omega arith, (omega arith, h))))))

value-ten_raw :
    (ms : ℕ) (random : Bytes)
    → All IsByte random
    → value 32 0 (ten (raw_bytes ms random) []) ≡ ms % 2 ^ 48
value-ten_raw ms random h =
    value-ten (raw_bytes ms random) [] (raw_bytes-IsByte ms random h) ∙ ms_number ms random

letters-digits :
    (raw : Bytes) → All IsByte raw → letters (digits raw) ≡ letters (ten raw [] ++ second_group raw)
letters-digits raw h = ap letters (digits-ten raw h)

-- Of two ids the one made in an earlier millisecond is the smaller string, whatever the random bytes,
-- as long as the 48 bits of the time have not wrapped around between them.
pub new_ulid_sorted :
    (t t' : Time) (random random' : Bytes) {id id' : Bytes}
    → All IsByte random
    → All IsByte random'
    → new_ulid t (some random) ≡ some id
    → new_ulid t' (some random') ≡ some id'
    → unix_milli_u64 t % 2 ^ 48 < unix_milli_u64 t' % 2 ^ 48
    → bytes_lt id id' ≡ true
unfolding new_ulid
new_ulid_sorted t t' random random' {id} {id'} h h' e e' lt =
    let raw = raw_bytes (unix_milli_u64 t) random in
    let raw' = raw_bytes (unix_milli_u64 t') random' in
    let b = raw_bytes-IsByte (unix_milli_u64 t) random h in
    let b' = raw_bytes-IsByte (unix_milli_u64 t') random' h' in
    subst₂ (λ x y. bytes_lt x y ≡ true) (sym (letters-digits raw b) ∙ some-eq e)
      (sym (letters-digits raw' b') ∙ some-eq e')
      (letters_sorted 0 (ten raw []) (ten raw' []) (second_group raw) (second_group raw') refl
        (ten-IsDigit raw b) (ten-IsDigit raw' b')
        (rw
          (value-ten_raw (unix_milli_u64 t) random h, value-ten_raw (unix_milli_u64 t') random' h')
          lt))
