-- ===== src/Inspector/Inspect/Reads.antt =====
-- What Inspect reads of the arguments and of the environment (resolveArgv of
-- internal/inspector/inspector.go, and readEnv of envp_darwin.go).
use mathlib.Core.Path.{subst}
use my_home_index_server.Prelude.{
  ◌≡◌, ◌≢◌, refl, ◌⊎◌, inl, inr, ap, sym, ◌∙◌, false, Option, none, some, List, [], ◌∷◌,
}
use my_home_index_server.Prelude.Tests.{Bool-cases, Option-cases}
use my_home_index_server.Prelude.Lists.{select}
use my_home_index_server.Prelude.Bytes.{Bytes}
use my_home_index_server.Prelude.Text.{split}
use my_home_index_server.Inspector.{
  SourceError, InspectError, Errno, ArgvSource, split_cmdline, resolve_argv, from_slice, from_line,
  slice_result,
}
use my_home_index_server.Inspector.Words.{untab, is_word, split_cmdline-split}
use my_home_index_server.Inspector.Env.{
  Sysctl, ProcargsError, parse_procargs, read_env, with_size, with_buffer, parsed, refused, probed,
}
use my_home_index_server.Inspector.Inspect.{env_slice, env_or_nil}

-- The slice of gopsutil is of no use, or its line is.
abbrev pub Unsliced : ArgvSource → Type 0
Unsliced p = (p.slice_error ≢ none) ⊎ (p.slice ≡ [])

abbrev pub Unlined : ArgvSource → Type 0
Unlined p = (p.line_error ≢ none) ⊎ (p.line ≡ [])

-- The arguments: the slice, or else the words of the line, or else none, if the slice is empty and was
-- read without an error.
pub data ArgvRead (p : ArgvSource) : List Bytes → Type 0 where
  sliced :
      (a : Bytes) (argv : List Bytes)
      → p.slice_error ≡ none
      → p.slice ≡ a ∷ argv
      → ArgvRead p (a ∷ argv)
  lined :
      Unsliced p
      → p.line_error ≡ none
      → p.line ≢ []
      → ArgvRead p (select is_word (split b' ' (untab p.line)))
  empty : p.slice_error ≡ none → p.slice ≡ [] → Unlined p → ArgvRead p []

unsliced :
    (p : ArgvSource) (o : Option SourceError) (l : List Bytes)
    → (o ≢ none) ⊎ (l ≡ [])
    → from_slice p o l ≡ from_line p p.line_error p.line
unfolding from_slice
unsliced p none [] u = refl
unsliced p none (a ∷ l) u = elim u [ inl n ↦ absurd (n refl) | inr e ↦ cc ]
unsliced p (some e) l u = refl

unlined :
    (p : ArgvSource) (o : Option SourceError) (s : Bytes)
    → (o ≢ none) ⊎ (s ≡ [])
    → from_line p o s ≡ slice_result p.slice p.slice_error
unfolding from_line
unlined p none [] u = refl
unlined p none (b ∷ s) u = elim u [ inl n ↦ absurd (n refl) | inr e ↦ cc ]
unlined p (some e) s u = refl

words_of :
    (p : ArgvSource) (s : Bytes)
    → s ≢ []
    → from_line p none s ≡ inl (select is_word (split b' ' (untab s)))
unfolding from_line
words_of p [] full = absurd (full refl)
words_of p (b ∷ s) full = ap (λ ws. inl ws) (split_cmdline-split (b ∷ s))

-- What is left when neither is of use.
ArgvRead-slice_result :
    (p : ArgvSource) (argv : List Bytes)
    → Unsliced p
    → Unlined p
    → slice_result p.slice p.slice_error ≡ inl argv
    → ArgvRead p argv
unfolding slice_result
ArgvRead-slice_result p argv u v h = elim (Option-cases p.slice_error) [
  | inr (x, e) ↦ cc (rw e at h)
  | inl e ↦ elim u [
    | inl some_error ↦ absurd (some_error e)
    | inr no_slice ↦ subst (ArgvRead p) (cc (no_slice, rw e at h)) (ArgvRead.empty e no_slice v)
  ]
]

ArgvRead-from_line :
    (p : ArgvSource) (argv : List Bytes) (o : Option SourceError) (s : Bytes)
    → Unsliced p
    → p.line_error ≡ o
    → p.line ≡ s
    → from_line p o s ≡ inl argv
    → ArgvRead p argv
unfolding from_line
ArgvRead-from_line p argv none (b ∷ s) u e f h =
    let ws : split_cmdline (b ∷ s) ≡ argv = cc h in
    subst (ArgvRead p) ((sym (split_cmdline-split p.line) ∙ ap split_cmdline f) ∙ ws)
      (ArgvRead.lined u e (λ no_line. cc (f, no_line)))
ArgvRead-from_line p argv none [] u e f h = ArgvRead-slice_result p argv u (inr f) h
ArgvRead-from_line p argv (some x) s u e f h =
    ArgvRead-slice_result p argv u (inl (λ none_is. cc (e, none_is))) h

ArgvRead-from_slice :
    (p : ArgvSource) (argv : List Bytes) (o : Option SourceError) (l : List Bytes)
    → p.slice_error ≡ o
    → p.slice ≡ l
    → from_slice p o l ≡ inl argv
    → ArgvRead p argv
unfolding from_slice
ArgvRead-from_slice p argv none (a ∷ l) e f h = subst (ArgvRead p) (cc h) (ArgvRead.sliced a l e f)
ArgvRead-from_slice p argv none [] e f h =
    ArgvRead-from_line p argv p.line_error p.line (inr f) refl refl h
ArgvRead-from_slice p argv (some x) l e f h =
    ArgvRead-from_line p argv p.line_error p.line (inl (λ none_is. cc (e, none_is))) refl refl h

pub ArgvRead-resolve_argv :
    (p : ArgvSource) (argv : List Bytes) → resolve_argv p ≡ inl argv → ArgvRead p argv
unfolding resolve_argv
ArgvRead-resolve_argv p argv h = ArgvRead-from_slice p argv p.slice_error p.slice refl refl h

pub resolve_argv-ArgvRead :
    (p : ArgvSource) (argv : List Bytes) → ArgvRead p argv → resolve_argv p ≡ inl argv
unfolding resolve_argv from_slice slice_result
resolve_argv-ArgvRead p _ (ArgvRead.sliced a argv e f) = simp (e, f) refl
resolve_argv-ArgvRead p _ (ArgvRead.lined u e full) =
    unsliced p p.slice_error p.slice u ∙ ap (λ o. from_line p o p.line) e ∙ words_of p p.line full
resolve_argv-ArgvRead p _ (ArgvRead.empty e f v) =
    unsliced p p.slice_error p.slice (inr f) ∙ unlined p p.line_error p.line v ∙ simp (e, f) refl

-- The kernel refuses to show a process of another user: at once, or when an invalid argument made the
-- code ask again.
pub data IsForeign : Errno → Option Errno → Type 0 where
  not_permitted : (probe : Option Errno) → IsForeign Errno.eperm probe
  no_access : (probe : Option Errno) → IsForeign Errno.eacces probe
  asked_again : IsForeign Errno.einval (some Errno.eperm)

-- The context is live throughout, and the size of a buffer is known.
pub record InTime (k : Sysctl) : Type 0 where
  pub before : k.done_before ≡ false
  pub size : k.argmax ≡ none
  pub between : k.done_between ≡ false

-- The environment: the entries of the buffer, or nil if there are none or if the kernel refuses to show
-- the process. Any other error, the end of the context included, is none of these.
pub data EnvRead (k : Sysctl) : Option (List Bytes) → Type 0 where
  given :
      (buf : Bytes) (env : List Bytes)
      → InTime k
      → k.procargs ≡ inl buf
      → parse_procargs buf ≡ inl env
      → EnvRead k (env_slice env)
  foreign : (e : Errno) → InTime k → k.procargs ≡ inr e → IsForeign e k.probe → EnvRead k none

refused-IsForeign :
    (e : Errno) (probe : Option Errno)
    → IsForeign e probe
    → refused e probe ≡ InspectError.permission
unfolding refused probed
refused-IsForeign e probe (IsForeign.not_permitted p) = refl
refused-IsForeign e probe (IsForeign.no_access p) = refl
refused-IsForeign e probe IsForeign.asked_again = refl

IsForeign-refused :
    (e : Errno) (probe : Option Errno)
    → refused e probe ≡ InspectError.permission
    → IsForeign e probe
unfolding refused probed
IsForeign-refused Errno.eperm probe h = IsForeign.not_permitted probe
IsForeign-refused Errno.eacces probe h = IsForeign.no_access probe
IsForeign-refused Errno.einval (some Errno.eperm) h = IsForeign.asked_again
IsForeign-refused Errno.einval (some Errno.esrch) h = cc
IsForeign-refused Errno.einval (some Errno.eacces) h = cc
IsForeign-refused Errno.einval (some Errno.einval) h = cc
IsForeign-refused Errno.einval (some Errno.other_errno) h = cc
IsForeign-refused Errno.einval none h = cc
IsForeign-refused Errno.esrch probe h = cc
IsForeign-refused Errno.other_errno probe h = cc

unread :
    (e : InspectError) (env : Option (List Bytes))
    → env_or_nil (inr e) ≡ inl env
    → (e ≡ InspectError.permission) × (none ≡ env)
unfolding env_or_nil
unread InspectError.permission env h = (refl, cc)
unread InspectError.not_found env h = cc
unread InspectError.other env h = cc

EnvRead-parsed :
    (k : Sysctl) (buf : Bytes) (env : Option (List Bytes)) (o : List Bytes ⊎ ProcargsError)
    → InTime k
    → k.procargs ≡ inl buf
    → parse_procargs buf ≡ o
    → env_or_nil (parsed o) ≡ inl env
    → EnvRead k env
unfolding parsed env_or_nil
EnvRead-parsed k buf env (inl l) t e f h = subst (EnvRead k) (cc h) (EnvRead.given buf l t e f)
EnvRead-parsed k buf env (inr x) t e f h = cc

EnvRead-with_buffer :
    (k : Sysctl) (env : Option (List Bytes)) (x : Bytes ⊎ Errno)
    → InTime k
    → k.procargs ≡ x
    → env_or_nil (with_buffer x k.probe) ≡ inl env
    → EnvRead k env
unfolding with_buffer
EnvRead-with_buffer k env (inl buf) t e h = EnvRead-parsed k buf env (parse_procargs buf) t e refl h
EnvRead-with_buffer k env (inr rc) t e h =
    let (is_foreign, is_nil) = unread (refused rc k.probe) env h in
    subst (EnvRead k) is_nil (EnvRead.foreign rc t e (IsForeign-refused rc k.probe is_foreign))

pub EnvRead-env_or_nil :
    (k : Sysctl) (env : Option (List Bytes)) → env_or_nil (read_env k) ≡ inl env → EnvRead k env
unfolding read_env with_size env_or_nil
EnvRead-env_or_nil k env h = elim (Bool-cases k.done_before) [
  | inl done ↦ cc (rw done at h)
  | inr before ↦ elim (Option-cases k.argmax) [
    | inr (e, failed) ↦ cc (rw (before, failed) at h)
    | inl size ↦ elim (Bool-cases k.done_between) [
      | inl done ↦ cc (rw (before, size, done) at h)
      | inr between ↦
          EnvRead-with_buffer k env k.procargs
            (record { before = before; size = size; between = between }) refl
            (rw (before, size, between) at h)
    ]
  ]
]

pub env_or_nil-EnvRead :
    (k : Sysctl) (env : Option (List Bytes)) → EnvRead k env → env_or_nil (read_env k) ≡ inl env
unfolding read_env with_size with_buffer parsed env_or_nil
env_or_nil-EnvRead k _ (EnvRead.given buf env t e f) = simp (t.before, t.size, t.between, e, f) refl
env_or_nil-EnvRead k _ (EnvRead.foreign rc t e h) =
    simp (t.before, t.size, t.between, e, refused-IsForeign rc k.probe h) refl
