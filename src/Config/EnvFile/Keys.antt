-- ===== src/Config/EnvFile/Keys.antt =====
-- Which key a written line sets.
use my_home_index_server.Prelude.{
  ℕ, ◌≡◌, ◌≤◌, refl, ap, sym, ◌∙◌, Bool, true, false, none, some, [], ◌∷◌, ◌++◌, append_assoc,
  arith,
}
use mathlib.Core.Path.{subst}
use my_home_index_server.Prelude.Tests.{◌==◌}
use my_home_index_server.Prelude.Lists.{All}
use my_home_index_server.Prelude.Bytes.{Bytes, codes, has_prefix}
use my_home_index_server.Prelude.Text.{trim_space}
use my_home_index_server.Prelude.Text.Trimming.{IsGraph, trim_space_lem}
use my_home_index_server.Config.EnvFile.{
  skip_spaces, strip_export, after_spaces, before_equals, with_key, setting_in, setting_of,
  setting_line, cons_to,
}

-- An upper-case letter or an underscore.
abbrev pub IsNameByte : ℕ → Type 0
IsNameByte b = (b'A' ≤ b) × (b ≤ b'_')

-- Such letters, at least one.
abbrev pub IsName : Bytes → Type 0
IsName [] = ⊥
IsName (b ∷ s) = All IsNameByte (b ∷ s)

-- Visible characters, at least one.
abbrev pub IsSecret : Bytes → Type 0
IsSecret [] = ⊥
IsSecret (b ∷ s) = All IsGraph (b ∷ s)

IsGraph-last :
    (b : ℕ) (s : Bytes)
    → All IsGraph (b ∷ s)
    → (u : Bytes) × (c : ℕ) × IsGraph c × (b ∷ s ≡ u ++ c ∷ [])
IsGraph-last b [] h = ([], b, h.0, refl)
IsGraph-last b (c ∷ s) h =
    let (u, d, k, e) = IsGraph-last c s h.1 in (b ∷ u, d, k, ap (λ t. b ∷ t) e)

IsGraph-name : (s : Bytes) → All IsNameByte s → All IsGraph s
IsGraph-name [] h = tt
IsGraph-name (b ∷ s) h = (omega arith, IsGraph-name s h.1)

trim_space-name : (s : Bytes) → IsName s → trim_space s ≡ s
trim_space-name [] h = absurd h
trim_space-name (b ∷ s) h =
    let (u, c, k, e) = IsGraph-last b s (IsGraph-name (b ∷ s) h) in
    trim_space_lem b s u c (IsGraph-name (b ∷ s) h).0 k e

-- A text that ends in a secret, behind a visible character.
trim_space-secret :
    (b : ℕ) (s v : Bytes) → IsGraph b → IsSecret v → trim_space (b ∷ (s ++ v)) ≡ b ∷ (s ++ v)
trim_space-secret b s [] h k = absurd k
trim_space-secret b s (c ∷ v) h k =
    let (u, d, l, e) = IsGraph-last c v k in
    trim_space_lem b (s ++ (c ∷ v)) (b ∷ (s ++ u)) d h l
      (ap (λ t. b ∷ (s ++ t)) e ∙ ap (λ t. b ∷ t) (sym (append_assoc s u (d ∷ []))))

before_equals_lem : (k v : Bytes) → All IsNameByte k → before_equals (k ++ (b'=' ∷ v)) ≡ some k
unfolding before_equals cons_to
before_equals_lem [] v h = refl
before_equals_lem (b ∷ k) v h = ground (arith, h, before_equals_lem k v h.1)

skip_spaces-name : (b : ℕ) (s : Bytes) → IsNameByte b → skip_spaces (b ∷ s) ≡ b ∷ s
unfolding skip_spaces
skip_spaces-name b s h = ground arith

strip_export-name : (b : ℕ) (s : Bytes) → IsNameByte b → strip_export (b ∷ s) ≡ none
unfolding strip_export has_prefix
strip_export-name b s h = rw (skip_spaces-name b s h) (ground arith)

strip_export-export :
    (b : ℕ) (s : Bytes) → IsNameByte b → strip_export (codes "export " ++ (b ∷ s)) ≡ some (b ∷ s)
unfolding strip_export has_prefix skip_spaces after_spaces
strip_export-export b s h = ap (λ t. some t) (skip_spaces-name b s h)

-- A line that begins with a letter and ends in a secret is trimmed as it is.
trimmed_line :
    (b : ℕ) (s v : Bytes)
    → IsGraph b
    → IsSecret v
    → trim_space (b ∷ (s ++ (b'=' ∷ v))) ≡ b ∷ (s ++ (b'=' ∷ v))
trimmed_line b s v h k =
    subst (λ t. trim_space (b ∷ t) ≡ b ∷ t) (append_assoc s (b'=' ∷ []) v)
      (trim_space-secret b (s ++ b'=' ∷ []) v h k)

with_key-name :
    (exported : Bool) (name v : Bytes)
    → IsName name
    → with_key exported (before_equals (name ++ (b'=' ∷ v)))
      ≡ some (record { exported = exported; key = name })
unfolding with_key
with_key-name exported [] v h = absurd h
with_key-name exported (b ∷ t) v h =
    rw (before_equals_lem (b ∷ t) v h, trim_space-name (b ∷ t) h) refl

setting_of-plain :
    (name v : Bytes)
    → IsName name
    → IsSecret v
    → setting_of (name ++ (b'=' ∷ v)) ≡ some (record { exported = false; key = name })
unfolding setting_of setting_in has_prefix
setting_of-plain [] v h k = absurd h
setting_of-plain (b ∷ t) v h k =
    let visible : IsGraph b = omega (arith, h.0) in
    let not_hash : (b == b'#') ≡ false = ground (arith, h) in
    rw (trimmed_line b t v visible k, not_hash, strip_export-name b (t ++ (b'=' ∷ v)) h.0)
      (with_key-name false (b ∷ t) v h)

setting_of-export :
    (name v : Bytes)
    → IsName name
    → IsSecret v
    → setting_of (codes "export " ++ (name ++ (b'=' ∷ v)))
      ≡ some (record { exported = true; key = name })
unfolding setting_of setting_in has_prefix
setting_of-export [] v h k = absurd h
setting_of-export (b ∷ t) v h k =
    rw
      (
        trimmed_line b'e' (codes "xport " ++ (b ∷ t)) v (omega arith) k,
        strip_export-export b (t ++ (b'=' ∷ v)) h.0,
      )
      (with_key-name true (b ∷ t) v h)

-- A line that `persistGenerated` writes sets its key.
pub setting_of-setting_line :
    (exported : Bool) (name v : Bytes)
    → IsName name
    → IsSecret v
    → setting_of (setting_line (record { exported = exported; key = name }) v)
      ≡ some (record { exported = exported; key = name })
setting_of-setting_line true name v h k = setting_of-export name v h k
setting_of-setting_line false name v h k = setting_of-plain name v h k
