-- ===== src/Prelude/Base64.antt =====
-- `base64.RawURLEncoding` of Go's standard library: no padding; a decoder that skips line ends and
-- does not look at the bits behind the last byte.
use Prim.Native.Nat.{ℕ, ◌+◌, ◌-◌, ◌*◌, ◌/◌, ◌%◌, ◌<◌}
use mathlib.Core.Bool.{Bool, true, false, not, ◌&&◌, ◌||◌}
use mathlib.Core.List.{[], ◌∷◌}
use mathlib.Core.Option.{Option, none, some}
use mathlib.Core.Path.{◌≡◌, refl, ap, ◌∙◌}
use native.Mathlib.Omega.{arith}
use my_home_index_server.Prelude.Tests.{leb, ◌==◌, if◌then◌else◌}
use my_home_index_server.Prelude.Lists.{select, select_all, All}
use my_home_index_server.Prelude.Bytes.{Bytes}
use my_home_index_server.Prelude.Table.{passes_below, passes_below-lt}

-- The letter of a six-bit digit.
unfoldable pub letter : ℕ → ℕ
letter d =
    if leb d 25
    then b'A' + d
    else if leb d 51
    then b'a' + (d - 26)
    else if leb d 61
    then b'0' + (d - 52)
    else if d == 62
    then b'-'
    else b'_'

unfoldable pub digit : ℕ → Option ℕ
digit c =
    if leb b'A' c && leb c b'Z'
    then some (c - b'A')
    else if leb b'a' c && leb c b'z'
    then some (c - b'a' + 26)
    else if leb b'0' c && leb c b'9'
    then some (c - b'0' + 52)
    else if c == b'-'
    then some 62
    else if c == b'_'
    then some 63
    else none

unfoldable pub encode : Bytes → Bytes
unfolding letter
encode [] = []
encode (a ∷ []) = letter (a / 4) ∷ letter (a % 4 * 16) ∷ []
encode (a ∷ b ∷ []) = letter (a / 4) ∷ letter (a % 4 * 16 + b / 16) ∷ letter (b % 16 * 4) ∷ []
encode (a ∷ b ∷ c ∷ s) =
    letter (a / 4)
    ∷ letter (a % 4 * 16 + b / 16)
    ∷ letter (b % 16 * 4 + c / 64)
    ∷ letter (c % 64)
    ∷ encode s

infixl 5 ◌>>=◌
abbrev pub ◌>>=◌ {ℓ κ} : {A : Type ℓ} {B : Type κ} → Option A → (A → Option B) → Option B
none >>= f = none
some a >>= f = f a

unfoldable pub decode_quanta : Bytes → Option Bytes
unfolding digit
decode_quanta [] = some []
decode_quanta (p ∷ []) = none
decode_quanta (p ∷ q ∷ []) = do x ← digit p; y ← digit q; some ((x * 4 + y / 16) ∷ [])
decode_quanta (p ∷ q ∷ r ∷ []) = do
  x ← digit p
  y ← digit q
  z ← digit r
  some ((x * 4 + y / 16) ∷ (y % 16 * 16 + z / 4) ∷ [])
decode_quanta (p ∷ q ∷ r ∷ t ∷ s) = do
  x ← digit p
  y ← digit q
  z ← digit r
  w ← digit t
  rest ← decode_quanta s
  some ((x * 4 + y / 16) ∷ (y % 16 * 16 + z / 4) ∷ (z % 4 * 64 + w) ∷ rest)

abbrev is_text : ℕ → Bool
is_text c = not (c == b'\n' || c == b'\r')

unfoldable pub decode : Bytes → Option Bytes
unfolding decode_quanta
decode s = decode_quanta (select is_text s)

same_digit : Option ℕ → ℕ → Bool
same_digit none d = false
same_digit (some x) d = x == d

same_digit_sound : (o : Option ℕ) (d : ℕ) → same_digit o d ≡ true → o ≡ some d
unfolding same_digit
same_digit_sound o d h = ground arith

digit-letter : (d : ℕ) → d < 64 → digit (letter d) ≡ some d
unfolding passes_below digit letter same_digit
digit-letter d h =
    same_digit_sound (digit (letter d)) d
      (passes_below-lt 64 (λ x. same_digit (digit (letter x)) x) d refl h)

letter-is_text : (d : ℕ) → d < 64 → is_text (letter d) ≡ true
unfolding passes_below letter
letter-is_text d h = passes_below-lt 64 (λ x. is_text (letter x)) d refl h

encode-is_text : (s : Bytes) → All (λ b. b < 256) s → All (λ c. is_text c ≡ true) (encode s)
unfolding encode
encode-is_text [] h = tt
encode-is_text (a ∷ []) h =
    (letter-is_text (a / 4) (omega arith), (letter-is_text (a % 4 * 16) (omega arith), tt))
encode-is_text (a ∷ b ∷ []) h = (
  letter-is_text (a / 4) (omega arith),
  (
    letter-is_text (a % 4 * 16 + b / 16) (omega arith),
    (letter-is_text (b % 16 * 4) (omega arith), tt),
  ),
)
encode-is_text (a ∷ b ∷ c ∷ s) h = (
  letter-is_text (a / 4) (omega arith),
  (
    letter-is_text (a % 4 * 16 + b / 16) (omega arith),
    (
      letter-is_text (b % 16 * 4 + c / 64) (omega arith),
      (letter-is_text (c % 64) (omega arith), encode-is_text s h.1.1.1),
    ),
  ),
)

decode_quanta-encode : (s : Bytes) → All (λ b. b < 256) s → decode_quanta (encode s) ≡ some s
unfolding encode decode_quanta
decode_quanta-encode [] h = refl
decode_quanta-encode (a ∷ []) h =
    let e : a / 4 * 4 + a % 4 * 16 / 16 ≡ a = omega arith in
    rw (digit-letter (a / 4) (omega arith), digit-letter (a % 4 * 16) (omega arith)) (cc e)
decode_quanta-encode (a ∷ b ∷ []) h =
    let e : a / 4 * 4 + (a % 4 * 16 + b / 16) / 16 ≡ a = omega arith in
    let f : (a % 4 * 16 + b / 16) % 16 * 16 + b % 16 * 4 / 4 ≡ b = omega arith in
    rw
      (
        digit-letter (a / 4) (omega arith),
        digit-letter (a % 4 * 16 + b / 16) (omega arith),
        digit-letter (b % 16 * 4) (omega arith),
      )
      (cc (e, f))
decode_quanta-encode (a ∷ b ∷ c ∷ s) h =
    let e : a / 4 * 4 + (a % 4 * 16 + b / 16) / 16 ≡ a = omega arith in
    let f : (a % 4 * 16 + b / 16) % 16 * 16 + (b % 16 * 4 + c / 64) / 4 ≡ b = omega arith in
    let g : (b % 16 * 4 + c / 64) % 4 * 64 + c % 64 ≡ c = omega arith in
    rw
      (
        digit-letter (a / 4) (omega arith),
        digit-letter (a % 4 * 16 + b / 16) (omega arith),
        digit-letter (b % 16 * 4 + c / 64) (omega arith),
        digit-letter (c % 64) (omega arith),
        decode_quanta-encode s h.1.1.1,
      )
      (cc (e, f, g))

-- Bytes are decoded from their encoding.
pub decode-encode : (s : Bytes) → All (λ b. b < 256) s → decode (encode s) ≡ some s
unfolding decode
decode-encode s h =
    ap decode_quanta (select_all is_text (encode s) (encode-is_text s h)) ∙ decode_quanta-encode s h
