-- ===== src/Prelude/Text.antt =====
-- `strings` and `strconv` of Go's standard library, as far as the program uses them.
pub mod Trimming
use Prim.Native.Nat.{ℕ, zero, suc, ◌+◌, ◌-◌, ◌*◌, ◌^◌}
use mathlib.Core.Bool.{Bool, true, false, ◌&&◌}
use mathlib.Core.List.{List, [], ◌∷◌, reverse}
use mathlib.Core.Option.{Option, none, some}
use my_home_index_server.Prelude.Tests.{ltb, leb, ◌==◌, if◌then◌else◌}
use my_home_index_server.Prelude.Lists.{length, drop}
use my_home_index_server.Prelude.Bytes.{Bytes, has_prefix}
use my_home_index_server.Prelude.Int.{ℤ, pos, negsuc}

unfoldable pub cons_head : ℕ → List Bytes → List Bytes
cons_head b [] = (b ∷ []) ∷ []
cons_head b (part ∷ parts) = (b ∷ part) ∷ parts

-- strings.Split(s, sep), for a separator of one byte
unfoldable pub split : ℕ → Bytes → List Bytes
unfolding cons_head
split sep [] = [] ∷ []
split sep (b ∷ s) = let rest = split sep s in if b == sep then [] ∷ rest else cons_head b rest

-- The encodings of the characters that unicode.IsSpace accepts.
abbrev pub spaces : List Bytes
spaces =
    (9 ∷ [])
    ∷ (10 ∷ [])
    ∷ (11 ∷ [])
    ∷ (12 ∷ [])
    ∷ (13 ∷ [])
    ∷ (32 ∷ [])
    ∷ (0xC2 ∷ 0x85 ∷ [])
    ∷ (0xC2 ∷ 0xA0 ∷ [])
    ∷ (0xE1 ∷ 0x9A ∷ 0x80 ∷ [])
    ∷ (0xE2 ∷ 0x80 ∷ 0x80 ∷ [])
    ∷ (0xE2 ∷ 0x80 ∷ 0x81 ∷ [])
    ∷ (0xE2 ∷ 0x80 ∷ 0x82 ∷ [])
    ∷ (0xE2 ∷ 0x80 ∷ 0x83 ∷ [])
    ∷ (0xE2 ∷ 0x80 ∷ 0x84 ∷ [])
    ∷ (0xE2 ∷ 0x80 ∷ 0x85 ∷ [])
    ∷ (0xE2 ∷ 0x80 ∷ 0x86 ∷ [])
    ∷ (0xE2 ∷ 0x80 ∷ 0x87 ∷ [])
    ∷ (0xE2 ∷ 0x80 ∷ 0x88 ∷ [])
    ∷ (0xE2 ∷ 0x80 ∷ 0x89 ∷ [])
    ∷ (0xE2 ∷ 0x80 ∷ 0x8A ∷ [])
    ∷ (0xE2 ∷ 0x80 ∷ 0xA8 ∷ [])
    ∷ (0xE2 ∷ 0x80 ∷ 0xA9 ∷ [])
    ∷ (0xE2 ∷ 0x80 ∷ 0xAF ∷ [])
    ∷ (0xE2 ∷ 0x81 ∷ 0x9F ∷ [])
    ∷ (0xE3 ∷ 0x80 ∷ 0x80 ∷ [])
    ∷ []

-- What stands behind the first of the prefixes that the text has.
behind : List Bytes → Bytes → Option Bytes
behind [] s = none
behind (p ∷ ps) s =
    let rest = behind ps s in if has_prefix s p then some (drop (length p) s) else rest

-- Each round takes a byte off at least, so the length of the text is fuel enough.
trim_with : ℕ → List Bytes → Bytes → Bytes
unfolding behind
trim_with zero ps s = s
trim_with (suc fuel) ps s = elim (behind ps s) [ none ↦ s | some t ↦ trim_with fuel ps t ]

reverse_all : List Bytes → List Bytes
reverse_all [] = []
reverse_all (s ∷ ss) = reverse s ∷ reverse_all ss

-- Both ends without any of the given encodings: from behind, they are read backwards.
trim_both : List Bytes → Bytes → Bytes
unfolding trim_with reverse_all
trim_both ps s =
    let left = trim_with (length s) ps s in
    reverse (trim_with (length left) (reverse_all ps) (reverse left))

-- strings.TrimSpace(s)
unfoldable pub trim_space : Bytes → Bytes
unfolding trim_both
trim_space s = trim_both spaces s

-- strings.Trim(s, "\"")
unfoldable pub trim_quotes : Bytes → Bytes
unfolding trim_both
trim_quotes s = trim_both ((b'"' ∷ []) ∷ []) s

abbrev pub lower : ℕ → ℕ
lower b = if leb b'A' b && leb b b'Z' then b + 32 else b

-- Whether a text begins with U+017F, which folds to s, or with U+212A, which folds to k.
long_s : Bytes → Bool
long_s s = has_prefix s (0xC5 ∷ 0xBF ∷ [])

kelvin : Bytes → Bool
kelvin s = has_prefix s (0xE2 ∷ 0x84 ∷ 0xAA ∷ [])

fold_with : ℕ → Bytes → Bytes
unfolding long_s kelvin
fold_with zero s = []
fold_with (suc fuel) [] = []
fold_with (suc fuel) (b ∷ s) = elim (long_s (b ∷ s)) [
  | true ↦ b's' ∷ fold_with fuel (drop 1 s)
  | false ↦ elim (kelvin (b ∷ s)) [
    | true ↦ b'k' ∷ fold_with fuel (drop 2 s)
    | false ↦ lower b ∷ fold_with fuel s
  ]
]

-- The text with each character that folds to an ASCII letter in lower case, so that
-- strings.EqualFold(s, t) is fold s == t for a t of ASCII characters in lower case.
unfoldable pub fold : Bytes → Bytes
unfolding fold_with
fold s = fold_with (length s) s

-- The digits of a decimal number behind `acc`.
digits : ℕ → Bytes → Option ℕ
digits acc [] = some acc
digits acc (b ∷ s) =
    let rest = digits (acc * 10 + (b - b'0')) s in if leb b'0' b && leb b b'9' then rest else none

in_range : Bool → ℕ → Option ℤ
in_range true zero = some (pos 0)
in_range true (suc n) = if ltb n (2 ^ 63) then some (negsuc n) else none
in_range false n = if ltb n (2 ^ 63) then some (pos n) else none

number : Bool → Bytes → Option ℤ
unfolding digits in_range
number minus [] = none
number minus (b ∷ s) = elim (digits 0 (b ∷ s)) [ none ↦ none | some n ↦ in_range minus n ]

-- strconv.Atoi(s), for an int of 64 bits
unfoldable pub atoi : Bytes → Option ℤ
unfolding number
atoi [] = none
atoi (b ∷ s) =
    if b == b'-' then number true s else if b == b'+' then number false s else number false (b ∷ s)
