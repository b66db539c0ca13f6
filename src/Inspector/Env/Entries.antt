-- ===== src/Inspector/Env/Entries.antt =====
-- What the parser can return, whatever the buffer holds.
use my_home_index_server.Prelude.{
  ℕ, zero, suc, ◌+◌, ◌≤◌, ◌≡◌, ◌≢◌, refl, inl, inr, some, List, [], ◌∷◌, arith, ap,
}
use mathlib.Core.List.{cons-ne-nil}
use mathlib.Core.Path.{subst}
use my_home_index_server.Prelude.Tests.{Option-cases}
use my_home_index_server.Prelude.Lists.{length, drop, List-cases, All, length-drop}
use my_home_index_server.Prelude.Bytes.{Bytes, Lacks}
use my_home_index_server.Prelude.Int.{ℤ, pos, negsuc}
use my_home_index_server.Inspector.Env.{
  until_nul, at_nul, skip_nuls, skip_args, env_entries, env_after, argc_of, block, parse_procargs,
}
use my_home_index_server.Inspector.Env.Layout.{IsEntry}

-- The bytes of some texts.
abbrev pub total : List Bytes → ℕ
total [] = 0
total (s ∷ ss) = length s + total ss

Lacks-until_nul : (s : Bytes) → Lacks 0 (until_nul s)
unfolding until_nul
Lacks-until_nul [] = tt
Lacks-until_nul (b ∷ s) = ground (arith, Lacks-until_nul s)

length-until_nul : (s : Bytes) → length (until_nul s) + length (at_nul s) ≡ length s
unfolding until_nul at_nul
length-until_nul [] = refl
length-until_nul (b ∷ s) = ground (arith, length-until_nul s)

-- Entries that are not empty, without a NUL, and not longer than the text that they stand in.
pub record Fits (env : List Bytes) (s : Bytes) : Type 0 where
  pub entries : All IsEntry env
  pub short : total env ≤ length s

Fits-nil : (s : Bytes) → Fits [] s
Fits-nil s = record { entries = tt; short = omega arith }

Fits-longer : (env : List Bytes) (s t : Bytes) → length s ≤ length t → Fits env s → Fits env t
Fits-longer env s t h k = record { entries = k.entries; short = omega (arith, h, k.short) }

Fits-cons :
    (s entry : Bytes) (env : List Bytes)
    → until_nul s ≡ entry
    → entry ≢ []
    → Fits env (drop 1 (at_nul s))
    → Fits (entry ∷ env) s
Fits-cons s entry env e full h = record {
  entries = ((full, subst (Lacks 0) e (Lacks-until_nul s)), h.entries);
  short = omega (arith, h.short, length-until_nul s, ap length e, length-drop 1 (at_nul s));
}

env_entries-Fits : (fuel : ℕ) (s : Bytes) → Fits (env_entries fuel s) s
unfolding env_entries
env_entries-Fits zero s = Fits-nil s
env_entries-Fits (suc fuel) s = elim (List-cases (until_nul s)) [
  | inl e ↦ simp e (Fits-nil s)
  | inr (b, entry, e) ↦ simp e (
      Fits-cons s (b ∷ entry) _ e (cons-ne-nil b entry) (env_entries-Fits fuel (drop 1 (at_nul s))))
]

skip_nuls-le : (s : Bytes) → length (skip_nuls s) ≤ length s
unfolding skip_nuls
skip_nuls-le [] = omega arith
skip_nuls-le (b ∷ s) = ground (arith, skip_nuls-le s)

skip_args-le : (argc : ℕ) (s t : Bytes) → skip_args argc s ≡ some t → length t ≤ length s
unfolding skip_args
skip_args-le zero s t h = ground arith
skip_args-le (suc argc) s t h =
    ground
      (arith, skip_args-le argc (drop 1 (at_nul s)) t, length-until_nul s, length-drop 1 (at_nul s))

env_after-Fits : (argc : ℕ) (s : Bytes) → Fits (env_after (skip_args argc s)) s
unfolding env_after
env_after-Fits argc s = elim (Option-cases (skip_args argc s)) [
  | inl e ↦ simp e (Fits-nil s)
  | inr (t, e) ↦
      simp e (Fits-longer _ t s (skip_args-le argc s t e) (env_entries-Fits (length t) t))
]

at_nul-le : (s : Bytes) → length (at_nul s) ≤ length s
at_nul-le s = omega (arith, length-until_nul s)

block-Fits : (argc : ℤ) (s : Bytes) (env : List Bytes) → block argc s ≡ inl env → Fits env s
unfolding block
block-Fits (negsuc n) s env h = cc
block-Fits (pos argc) s env h =
    let found = env_after (skip_args argc (skip_nuls (at_nul s))) in
    let e : found ≡ env = ground (arith, h) in
    subst (λ u. Fits u s) e
      (Fits-longer found (skip_nuls (at_nul s)) s
        (omega (arith, skip_nuls-le (at_nul s), at_nul-le s)) (env_after-Fits argc _))

-- Whatever the buffer holds, an environment that is read from it has entries of at least one byte
-- and without a NUL, which together are not longer than the buffer.
pub parse_procargs-Fits :
    (buf : Bytes) (env : List Bytes) → parse_procargs buf ≡ inl env → Fits env buf
unfolding parse_procargs
parse_procargs-Fits [] env h = cc
parse_procargs-Fits (a ∷ []) env h = cc
parse_procargs-Fits (a ∷ b ∷ []) env h = cc
parse_procargs-Fits (a ∷ b ∷ c ∷ []) env h = cc
parse_procargs-Fits (a ∷ b ∷ c ∷ d ∷ s) env h =
    Fits-longer env s (a ∷ b ∷ c ∷ d ∷ s) (omega arith) (block-Fits (argc_of a b c d) s env h)
