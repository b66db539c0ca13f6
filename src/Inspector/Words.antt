-- ===== src/Inspector/Words.antt =====
-- The words of a command line.
use my_home_index_server.Prelude.{
  ℕ, ◌≡◌, refl, Bool, not, List, [], ◌∷◌, ◌++◌, append_assoc, append-nil, ◌∙◌, ap, arith, inl, inr,
}
use my_home_index_server.Prelude.Tests.{◌==◌, if◌then◌else◌, Bool-cases}
use my_home_index_server.Prelude.Lists.{select}
use my_home_index_server.Prelude.Bytes.{Bytes, is_empty}
use my_home_index_server.Prelude.Text.{split, cons_head}
use my_home_index_server.Inspector.{split_from, split_cmdline}

-- A text with blanks in place of tabs.
abbrev pub untab : Bytes → Bytes
untab [] = []
untab (b ∷ s) = (if b == b'\t' then b' ' else b) ∷ untab s

abbrev pub is_word : Bytes → Bool
is_word s = not (is_empty s)

-- The first part with some text in front of it.
before_head : Bytes → List Bytes → List Bytes
before_head word [] = word ∷ []
before_head word (p ∷ ps) = (word ++ p) ∷ ps

cons_head-before_head :
    (word : Bytes) (b : ℕ) (ps : List Bytes)
    → before_head (word ++ b ∷ []) ps ≡ before_head word (cons_head b ps)
unfolding before_head cons_head
cons_head-before_head word b [] = refl
cons_head-before_head word b (p ∷ ps) = simp append_assoc

-- A split has a first part.
split-cons : (sep : ℕ) (s : Bytes) → (p : Bytes) × (ps : List Bytes) × (split sep s ≡ p ∷ ps)
unfolding split cons_head
split-cons sep [] = ([], [], refl)
split-cons sep (b ∷ s) =
    let (p, ps, e) = split-cons sep s in
    elim (Bool-cases (b == sep)) [
      | inl same ↦ ([], split sep s, simp same refl)
      | inr other ↦ (b ∷ p, ps, simp (other, e) refl)
    ]

at_blank :
    (word : Bytes) (ps : List Bytes)
    → select is_word (before_head word ([] ∷ ps))
      ≡ (if is_empty word then select is_word ps else word ∷ select is_word ps)
unfolding before_head
at_blank [] ps = refl
at_blank (b ∷ word) ps = simp append-nil

before_head-nil : (sep : ℕ) (s : Bytes) → before_head [] (split sep s) ≡ split sep s
unfolding before_head
before_head-nil sep s = let (p, ps, e) = split-cons sep s in simp e refl

split_from-split :
    (word s : Bytes) → split_from word s ≡ select is_word (before_head word (split b' ' (untab s)))
unfolding split_from split
split_from-split word [] = grind (arith, at_blank word [])
split_from-split word (b ∷ s) = ground (
  arith,
  split_from-split [] s,
  split_from-split (word ++ b ∷ []) s,
  at_blank word (split b' ' (untab s)),
  before_head-nil b' ' (untab s),
  cons_head-before_head word b (split b' ' (untab s)),
)

-- `splitCmdline` gives the parts of the text between blanks and tabs that are not empty, in order.
pub split_cmdline-split : (s : Bytes) → split_cmdline s ≡ select is_word (split b' ' (untab s))
unfolding split_cmdline
split_cmdline-split s = split_from-split [] s ∙ ap (select is_word) (before_head-nil b' ' (untab s))
