-- ===== src/Prelude/Text/Trimming.antt =====
-- Texts that strings.TrimSpace leaves alone.
use mathlib.Core.List.{reverse, reverse-append, reverse-reverse, List, [], ◌∷◌, ◌++◌}
use mathlib.Core.Path.{◌≡◌, refl, sym, ap, ◌∙◌}
use mathlib.Core.Bool.{Bool, true, false, ◌&&◌, ◌||◌}
use mathlib.Core.Option.{none}
use Prim.Native.Nat.{ℕ, zero, suc, ◌≤◌}
use native.Mathlib.Omega.{arith}
use my_home_index_server.Prelude.Tests.{leb}
use my_home_index_server.Prelude.Lists.{length}
use my_home_index_server.Prelude.Bytes.{Bytes, has_prefix}
use my_home_index_server.Prelude.Text.{
  spaces, behind, trim_with, reverse_all, trim_both, trim_space,
}

-- A byte of a visible ASCII character.
abbrev pub IsGraph : ℕ → Type 0
IsGraph b = (33 ≤ b) × (b ≤ 126)

-- No text of the list begins with a visible character, or is empty.
all_off : List Bytes → Bool
all_off [] = true
all_off ([] ∷ ps) = false
all_off ((c ∷ p) ∷ ps) = (leb c 32 || leb 127 c) && all_off ps

behind_graph :
    (b : ℕ) (s : Bytes) (ps : List Bytes) → IsGraph b → all_off ps ≡ true → behind ps (b ∷ s) ≡ none
unfolding behind has_prefix all_off
behind_graph b s [] h k = refl
behind_graph b s ([] ∷ ps) h k = cc
behind_graph b s ((c ∷ p) ∷ ps) h k = ground (arith, h, k, behind_graph b s ps h)

trim_with-none :
    (fuel : ℕ) (ps : List Bytes) (s : Bytes) → behind ps s ≡ none → trim_with fuel ps s ≡ s
unfolding trim_with
trim_with-none zero ps s h = refl
trim_with-none (suc fuel) ps s h = rw (trim_with, h) refl

reverse_last : (u : Bytes) (c : ℕ) → reverse (u ++ c ∷ []) ≡ c ∷ reverse u
reverse_last u c = reverse-append u (c ∷ [])

-- A text that begins and ends with a visible character.
pub trim_space_lem :
    (b : ℕ) (t u : Bytes) (c : ℕ)
    → IsGraph b
    → IsGraph c
    → b ∷ t ≡ u ++ c ∷ []
    → trim_space (b ∷ t) ≡ b ∷ t
unfolding trim_space trim_both reverse_all all_off
trim_space_lem b t u c h k e =
    let left = trim_with-none (length (b ∷ t)) spaces (b ∷ t) (behind_graph b t spaces h refl) in
    let back : reverse (b ∷ t) ≡ c ∷ reverse u = ap reverse e ∙ reverse_last u c in
    let right =
      trim_with-none (length (b ∷ t)) (reverse_all spaces) (c ∷ reverse u)
        (behind_graph c (reverse u) (reverse_all spaces) k refl) in
    ap (λ w. reverse (trim_with (length w) (reverse_all spaces) (reverse w))) left
    ∙ ap (λ w. reverse (trim_with (length (b ∷ t)) (reverse_all spaces) w)) back
    ∙ ap reverse right
    ∙ ap reverse (sym back)
    ∙ reverse-reverse (b ∷ t)
