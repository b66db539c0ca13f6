-- ===== src/Inspector/Env.antt =====
-- internal/inspector/envp_darwin.go: the environment block of a process. A buffer is read from the
-- front, and the bytes that are left stand for the position.
pub mod Layout
pub mod Entries
use my_home_index_server.Prelude.{
  ℕ, zero, suc, ◌+◌, ◌-◌, ◌*◌, ◌^◌, ◌⊎◌, inl, inr, Bool, true, false, ◌||◌, Option, none, some,
  List, [], ◌∷◌, ◌++◌,
}
use my_home_index_server.Prelude.Tests.{ltb, ◌==◌, if◌then◌else◌}
use my_home_index_server.Prelude.Lists.{length, drop}
use my_home_index_server.Prelude.Bytes.{Bytes, is_empty}
use my_home_index_server.Prelude.Int.{ℤ, pos, negsuc}
use my_home_index_server.Inspector.{Errno, InspectError}

pub data ProcargsError : Type 0 where
  short_buffer implausible_argc : ProcargsError

-- buf[start:pos], pos being the first NUL or the end.
unfoldable pub until_nul : Bytes → Bytes
until_nul [] = []
until_nul (b ∷ s) = let rest = until_nul s in if b == 0 then [] else b ∷ rest

-- The position of the first NUL, or the end.
unfoldable pub at_nul : Bytes → Bytes
at_nul [] = []
at_nul (b ∷ s) = let rest = at_nul s in if b == 0 then b ∷ s else rest

unfoldable pub skip_nuls : Bytes → Bytes
skip_nuls [] = []
skip_nuls (b ∷ s) = let rest = skip_nuls s in if b == 0 then rest else b ∷ s

-- The loop over the arguments, which is none where it runs off the end.
unfoldable pub skip_args : ℕ → Bytes → Option Bytes
skip_args zero s = some s
skip_args (suc argc) s =
    let rest = skip_args argc (drop 1 (at_nul s)) in if is_empty (at_nul s) then none else rest

-- The loop over the entries. Each round takes a byte off at least, so the length of the text is fuel
-- enough.
unfoldable pub env_entries : ℕ → Bytes → List Bytes
env_entries zero s = []
env_entries (suc fuel) s =
    let entry = until_nul s in
    let rest = env_entries fuel (drop 1 (at_nul s)) in if is_empty entry then [] else entry ∷ rest

-- int(int32(u)) of a uint32
unfoldable pub int32 : ℕ → ℤ
int32 u = if ltb u (2 ^ 31) then pos u else negsuc (2 ^ 32 - 1 - u)

-- argc, of the first four bytes
unfoldable pub argc_of : ℕ → ℕ → ℕ → ℕ → ℤ
argc_of a b c d = int32 (a + b * 2 ^ 8 + c * 2 ^ 16 + d * 2 ^ 24)

unfoldable pub env_after : Option Bytes → List Bytes
env_after none = []
env_after (some s) = env_entries (length s) s

unfoldable pub block : ℤ → Bytes → List Bytes ⊎ ProcargsError
block (negsuc n) s = inr ProcargsError.implausible_argc
block (pos argc) s =
    if ltb 10000 argc
    then inr ProcargsError.implausible_argc
    else inl (env_after (skip_args argc (skip_nuls (at_nul s))))

-- `parseProcargs`
unfoldable pub parse_procargs : Bytes → List Bytes ⊎ ProcargsError
unfolding block
parse_procargs (a ∷ b ∷ c ∷ d ∷ s) = block (argc_of a b c d) s
parse_procargs (a ∷ b ∷ c ∷ []) = inr ProcargsError.short_buffer
parse_procargs (a ∷ b ∷ []) = inr ProcargsError.short_buffer
parse_procargs (a ∷ []) = inr ProcargsError.short_buffer
parse_procargs [] = inr ProcargsError.short_buffer

-- What the kernel and the context answer to `readEnv`: whether the context is done before and
-- between the two calls, the size of a buffer, its contents, and the error of kill(pid, 0).
pub record Sysctl : Type 0 where
  pub done_before : Bool
  pub done_between : Bool
  pub argmax : Option Errno
  pub procargs : Bytes ⊎ Errno
  pub probe : Option Errno

unfoldable pub probed : Option Errno → InspectError
probed (some Errno.esrch) = InspectError.not_found
probed (some Errno.eperm) = InspectError.permission
probed (some Errno.eacces) = InspectError.other
probed (some Errno.einval) = InspectError.other
probed (some Errno.other_errno) = InspectError.other
probed none = InspectError.other

unfoldable pub refused : Errno → Option Errno → InspectError
unfolding probed
refused Errno.esrch probe = InspectError.not_found
refused Errno.eperm probe = InspectError.permission
refused Errno.eacces probe = InspectError.permission
refused Errno.einval probe = probed probe
refused Errno.other_errno probe = InspectError.other

unfoldable pub parsed : List Bytes ⊎ ProcargsError → List Bytes ⊎ InspectError
parsed (inl env) = inl env
parsed (inr e) = inr InspectError.other

unfoldable pub with_buffer : Bytes ⊎ Errno → Option Errno → List Bytes ⊎ InspectError
unfolding refused parsed
with_buffer (inl buf) probe = parsed (parse_procargs buf)
with_buffer (inr rc) probe = inr (refused rc probe)

unfoldable pub with_size :
    Option Errno → Bool → Bytes ⊎ Errno → Option Errno → List Bytes ⊎ InspectError
unfolding with_buffer
with_size (some rc) done buf probe = inr InspectError.other
with_size none true buf probe = inr InspectError.other
with_size none false buf probe = with_buffer buf probe

-- `readEnv`
unfoldable pub read_env : Sysctl → List Bytes ⊎ InspectError
unfolding with_size
read_env k =
    if k.done_before
    then inr InspectError.other
    else with_size k.argmax k.done_between k.procargs k.probe
