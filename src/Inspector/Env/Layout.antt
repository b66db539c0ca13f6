-- ===== src/Inspector/Env/Layout.antt =====
-- The layout that the kernel gives a buffer, and what the parser makes of it.
use my_home_index_server.Prelude.{
  ℕ, zero, suc, ◌+◌, ◌*◌, ◌^◌, ◌/◌, ◌%◌, ◌≤◌, ◌≡◌, ◌≢◌, refl, ap, ◌∙◌, inl, some, List, [], ◌∷◌,
  ◌++◌, append_assoc, arith,
}
use my_home_index_server.Prelude.Lists.{length, All, length-append}
use my_home_index_server.Prelude.Bytes.{Bytes, Lacks}
use my_home_index_server.Prelude.Int.{pos}
use my_home_index_server.Inspector.Env.{
  until_nul, at_nul, skip_nuls, skip_args, env_entries, env_after, int32, argc_of, block,
  parse_procargs,
}

-- Texts, each with a NUL behind it.
abbrev pub terminated : List Bytes → Bytes
terminated [] = []
terminated (s ∷ ss) = s ++ (0 ∷ terminated ss)

abbrev pub nuls : ℕ → Bytes
nuls zero = []
nuls (suc n) = 0 ∷ nuls n

-- The four bytes of a number, the least significant first.
abbrev pub le32 : ℕ → Bytes
le32 n = n % 2 ^ 8 ∷ n / 2 ^ 8 % 2 ^ 8 ∷ n / 2 ^ 16 % 2 ^ 8 ∷ n / 2 ^ 24 % 2 ^ 8 ∷ []

-- The buffer of a process: the number of arguments, the path with its NUL and `n` more, the
-- arguments, the environment, and what follows it.
abbrev pub layout : Bytes → ℕ → List Bytes → List Bytes → Bytes → Bytes
layout path n argv env tail =
    le32 (length argv) ++ (path ++ (nuls (suc n) ++ (terminated (argv ++ env) ++ tail)))

-- A text of at least one byte, none of which is NUL.
abbrev pub IsEntry : Bytes → Type 0
IsEntry s = (s ≢ []) × Lacks 0 s

-- What ends the environment: a NUL, or the end of the buffer.
abbrev pub Ends : Bytes → Type 0
Ends [] = Unit
Ends (b ∷ s) = b ≡ 0

-- There is a first text, and it is not empty.
abbrev pub StartsFull : List Bytes → Type 0
StartsFull [] = ⊥
StartsFull (s ∷ ss) = s ≢ []

at_nul-append : (s t : Bytes) → Lacks 0 s → at_nul (s ++ (0 ∷ t)) ≡ 0 ∷ t
unfolding at_nul
at_nul-append [] t h = refl
at_nul-append (b ∷ s) t h = ground (arith, at_nul-append s t h.1)

until_nul-append : (s t : Bytes) → Lacks 0 s → until_nul (s ++ (0 ∷ t)) ≡ s
unfolding until_nul
until_nul-append [] t h = refl
until_nul-append (b ∷ s) t h = ground (arith, until_nul-append s t h.1)

skip_nuls-nuls : (n : ℕ) (t : Bytes) → skip_nuls (nuls n ++ t) ≡ skip_nuls t
unfolding skip_nuls
skip_nuls-nuls zero t = refl
skip_nuls-nuls (suc n) t = skip_nuls-nuls n t

skip_args_step :
    (argc : ℕ) (s t : Bytes) → Lacks 0 s → skip_args (suc argc) (s ++ (0 ∷ t)) ≡ skip_args argc t
unfolding skip_args
skip_args_step argc s t h = rw (skip_args, at_nul-append s t h) refl

skip_args-terminated :
    (argv : List Bytes) (t : Bytes)
    → All (Lacks 0) argv
    → skip_args (length argv) (terminated argv ++ t) ≡ some t
skip_args-terminated [] t h = unfold skip_args in refl
skip_args-terminated (s ∷ ss) t h =
    rw (append_assoc s (0 ∷ terminated ss) t, skip_args_step (length ss) s (terminated ss ++ t) h.0)
      (skip_args-terminated ss t h.1)

env_entries-Ends : (fuel : ℕ) (t : Bytes) → Ends t → env_entries fuel t ≡ []
unfolding env_entries until_nul
env_entries-Ends zero t h = refl
env_entries-Ends (suc fuel) [] h = refl
env_entries-Ends (suc fuel) (b ∷ t) h = simp h refl

env_entries-terminated :
    (fuel : ℕ) (env : List Bytes) (t : Bytes)
    → length (terminated env) ≤ fuel
    → All IsEntry env
    → Ends t
    → env_entries fuel (terminated env ++ t) ≡ env
unfolding env_entries
env_entries-terminated fuel [] t fits h e = env_entries-Ends fuel t e
env_entries-terminated zero (s ∷ ss) t fits h e =
    absurd (omega (arith, fits, length-append s (0 ∷ terminated ss)))
env_entries-terminated (suc fuel) ([] ∷ ss) t fits h e = absurd (h.0.0 refl)
env_entries-terminated (suc fuel) ((b ∷ s) ∷ ss) t fits h e =
    let rest = terminated ss ++ t in
    simp (append_assoc, at_nul-append (b ∷ s) rest h.0.1, until_nul-append (b ∷ s) rest h.0.1)
      (ap (λ l. (b ∷ s) ∷ l)
        (env_entries-terminated fuel ss t (omega (arith, fits, length-append s (0 ∷ terminated ss)))
          h.1 e))

-- Enough fuel: the length of what is left.
env_after-terminated :
    (env : List Bytes) (t : Bytes)
    → All IsEntry env
    → Ends t
    → env_after (some (terminated env ++ t)) ≡ env
unfolding env_after
env_after-terminated env t h e =
    env_entries-terminated (length (terminated env ++ t)) env t
      (omega (arith, length-append (terminated env) t)) h e

count_of_le32 :
    (n : ℕ)
    → n ≤ 10000
    → (n % 2 ^ 8)
        + (n / 2 ^ 8 % 2 ^ 8) * 2 ^ 8
        + (n / 2 ^ 16 % 2 ^ 8) * 2 ^ 16
        + (n / 2 ^ 24 % 2 ^ 8) * 2 ^ 24
      ≡ n
count_of_le32 n h = omega arith

int32_small : (n : ℕ) → n ≤ 10000 → int32 n ≡ pos n
unfolding int32
int32_small n h = ground arith

skip_nuls-full : (b : ℕ) (s : Bytes) → b ≢ 0 → skip_nuls (b ∷ s) ≡ b ∷ s
unfolding skip_nuls
skip_nuls-full b s h = ground arith

-- The padding ends where the arguments begin.
skip_nuls-terminated :
    (ss : List Bytes) (t : Bytes)
    → StartsFull ss
    → All (Lacks 0) ss
    → skip_nuls (terminated ss ++ t) ≡ terminated ss ++ t
skip_nuls-terminated [] t h k = absurd h
skip_nuls-terminated ([] ∷ ss) t h k = absurd (h refl)
skip_nuls-terminated ((b ∷ s) ∷ ss) t h k = skip_nuls-full b ((s ++ (0 ∷ terminated ss)) ++ t) k.0.0

parse_procargs-le32 :
    (n : ℕ) (s : Bytes)
    → n ≤ 10000
    → parse_procargs (le32 n ++ s) ≡ inl (env_after (skip_args n (skip_nuls (at_nul s))))
unfolding parse_procargs argc_of block
parse_procargs-le32 n s h = rw (count_of_le32 n h, int32_small n h) (ground arith)

terminated-append : (ss ts : List Bytes) → terminated (ss ++ ts) ≡ terminated ss ++ terminated ts
terminated-append [] ts = refl
terminated-append (s ∷ ss) ts = simp (terminated-append ss ts, append_assoc)

-- The position behind the path and the padding.
behind_path :
    (path : Bytes) (n : ℕ) (ss : List Bytes) (t : Bytes)
    → Lacks 0 path
    → StartsFull ss
    → All (Lacks 0) ss
    → skip_nuls (at_nul (path ++ (nuls (suc n) ++ (terminated ss ++ t)))) ≡ terminated ss ++ t
behind_path path n ss t h k l =
    ap skip_nuls (at_nul-append path (nuls n ++ (terminated ss ++ t)) h)
    ∙ skip_nuls-nuls (suc n) (terminated ss ++ t)
    ∙ skip_nuls-terminated ss t k l

-- The environment of a buffer in the layout of the kernel is read back, if there are at most ten
-- thousand arguments, the first of which is not empty; no argument and no entry holds a NUL, and no
-- entry is empty; and the buffer ends behind the entries or goes on with a NUL.
pub parse_procargs-layout :
    (path : Bytes) (n : ℕ) (argv env : List Bytes) (tail : Bytes)
    → Lacks 0 path
    → length argv ≤ 10000
    → StartsFull argv
    → All (Lacks 0) argv
    → All IsEntry env
    → Ends tail
    → parse_procargs (layout path n argv env tail) ≡ inl env
parse_procargs-layout path n argv env tail h few full k l e =
    let rest = terminated env ++ tail in
    let regroup : terminated (argv ++ env) ++ tail ≡ terminated argv ++ rest =
      rw (terminated-append argv env) (append_assoc (terminated argv) (terminated env) tail) in
    parse_procargs-le32 (length argv) _ few
    ∙ ap
        (λ t.
          inl (
            env_after (skip_args (length argv) (skip_nuls (at_nul (path ++ (nuls (suc n) ++ t)))))))
        regroup
    ∙ ap (λ t. inl (env_after (skip_args (length argv) t))) (behind_path path n argv rest h full k)
    ∙ ap (λ o. inl (env_after o)) (skip_args-terminated argv rest k)
    ∙ ap (λ env. inl env) (env_after-terminated env tail l e)

nuls_shift : (n : ℕ) (t : Bytes) → nuls n ++ (0 ∷ t) ≡ 0 ∷ (nuls n ++ t)
nuls_shift zero t = refl
nuls_shift (suc n) t = ap (λ u. 0 ∷ u) (nuls_shift n t)

shift_layout :
    (path : Bytes) (n : ℕ) (argv env : List Bytes) (entry tail : Bytes)
    → layout path n ([] ∷ argv) (entry ∷ env) tail
      ≡ layout path (suc n) (argv ++ entry ∷ []) env tail
shift_layout path n argv env entry tail =
    let count : length (argv ++ entry ∷ []) ≡ suc (length argv) =
      omega (arith, length-append argv (entry ∷ [])) in
    rw (count, append_assoc argv (entry ∷ []) env)
      (ap (λ t. le32 (suc (length argv)) ++ (path ++ (0 ∷ t)))
        (nuls_shift n (terminated (argv ++ (entry ∷ env)) ++ tail)))

-- An empty first argument is taken for padding: the first entry of the environment is then skipped
-- in its place, and only the others are read. This is so if the text behind the empty argument, which
-- is the next argument or else the first entry, is not empty; there are at most 9999 further arguments;
-- no argument and no entry holds a NUL, and no entry behind the first is empty; and the buffer ends
-- behind the entries or goes on with a NUL.
pub parse_procargs-shifted :
    (path : Bytes) (n : ℕ) (argv env : List Bytes) (entry tail : Bytes)
    → Lacks 0 path
    → length argv ≤ 9999
    → StartsFull (argv ++ entry ∷ [])
    → All (Lacks 0) (argv ++ entry ∷ [])
    → All IsEntry env
    → Ends tail
    → parse_procargs (layout path n ([] ∷ argv) (entry ∷ env) tail) ≡ inl env
parse_procargs-shifted path n argv env entry tail h few full k l e =
    rw (shift_layout path n argv env entry tail) (
      parse_procargs-layout path (suc n) (argv ++ entry ∷ []) env tail h
        (omega (arith, few, length-append argv (entry ∷ []))) full k l e)
