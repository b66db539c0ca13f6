-- ===== src/Inspector/Inspect.antt =====
-- `Inspect` of internal/inspector/inspector.go, over the answers of gopsutil and of `readEnv`.
pub mod Reads
pub mod Succeeds
use my_home_index_server.Prelude.{
  ℕ, ◌+◌, ◌-◌, ◌*◌, ◌%◌, ◌^◌, ◌⊎◌, inl, inr, Bool, true, false, not, Option, none, some, List, [],
  ◌∷◌,
}
use my_home_index_server.Prelude.Tests.{if◌then◌else◌}
use my_home_index_server.Prelude.Bytes.{Bytes}
use my_home_index_server.Prelude.Int.{ℤ, pos, negsuc, int_le}
use my_home_index_server.Prelude.Time.{unix_milli}
use my_home_index_server.Inspector.{
  ProcInfo, SourceError, InspectError, ArgvSource, classify, resolve_argv,
}
use my_home_index_server.Inspector.Env.{Sysctl, int32, read_env}

-- What gopsutil says of a process: whether it has one, its arguments, directory, milliseconds of creation
-- and user ids. `uids` are int32 in the result of gopsutil, so that the conversion keeps them.
pub record Gopsutil : Type 0 where
  pub new_process : Option SourceError
  pub argv : ArgvSource
  pub cwd : Bytes ⊎ SourceError
  pub create_time : ℕ ⊎ SourceError
  pub uids : List ℤ ⊎ SourceError

-- The system, asked for a process id; int32(pid) and C.int(pid) wrap around alike.
pub record System : Type 0 where
  pub ctx_done : Bool
  pub gopsutil : ℤ → Gopsutil
  pub sysctl : ℤ → Sysctl

-- int32(pid) of a positive number
abbrev pub as_int32 : ℤ → ℤ
as_int32 (pos n) = int32 (n % 2 ^ 32)
as_int32 (negsuc n) = negsuc n

-- The directory is a best effort: an error gives the empty text, unless the process is gone.
unfoldable pub unless_gone : InspectError → Bytes ⊎ InspectError
unless_gone InspectError.not_found = inr InspectError.not_found
unless_gone InspectError.permission = inl []
unless_gone InspectError.other = inl []

unfoldable pub cwd_or_empty : Bytes ⊎ SourceError → Bytes ⊎ InspectError
unfolding unless_gone
cwd_or_empty (inl cwd) = inl cwd
cwd_or_empty (inr e) = unless_gone (classify e)

-- A slice without entries is nil, as `readEnv` never makes an empty one.
unfoldable pub env_slice : List Bytes → Option (List Bytes)
env_slice [] = none
env_slice (e ∷ env) = some (e ∷ env)

-- The environment is a best effort as well: it is left out of a process of another user.
unfoldable pub env_or_nil : List Bytes ⊎ InspectError → Option (List Bytes) ⊎ InspectError
unfolding env_slice
env_or_nil (inl env) = inl (env_slice env)
env_or_nil (inr InspectError.permission) = inl none
env_or_nil (inr InspectError.not_found) = inr InspectError.not_found
env_or_nil (inr InspectError.other) = inr InspectError.other

-- An error of gopsutil goes through `classify`.
unfoldable pub classified {ℓ} : {A : Type ℓ} → A ⊎ SourceError → A ⊎ InspectError
classified (inl a) = inl a
classified (inr e) = inr (classify e)

unfoldable pub first_uid : List ℤ → ℤ ⊎ InspectError
first_uid [] = inr InspectError.other
first_uid (uid ∷ uids) = inl uid

infixl 5 ◌>>=◌
abbrev pub ◌>>=◌ {ℓ κ} :
    {A : Type ℓ} {B : Type κ} → A ⊎ InspectError → (A → B ⊎ InspectError) → B ⊎ InspectError
inl a >>= f = f a
inr e >>= f = inr e

-- The reads, in the order of the code; the first that fails ends the inspection.
unfoldable pub reads : ℤ → Gopsutil → Sysctl → ProcInfo ⊎ InspectError
reads pid proc k = do
  argv ← classified (resolve_argv proc.argv)
  cwd ← cwd_or_empty proc.cwd
  created ← classified proc.create_time
  uids ← classified proc.uids
  uid ← first_uid uids
  env ← env_or_nil (read_env k)
  inl (record {
    pid = pid;
    command = argv;
    cwd = cwd;
    start_time = unix_milli created;
    uid = uid;
    env = env;
  })

unfoldable pub snapshot : ℤ → Option SourceError → Gopsutil → Sysctl → ProcInfo ⊎ InspectError
unfolding reads
snapshot pid none proc k = reads pid proc k
snapshot pid (some e) proc k = inr (classify e)

-- `Inspect`
unfoldable pub inspect : System → ℤ → ProcInfo ⊎ InspectError
unfolding snapshot
inspect sys pid =
    if int_le pid (pos 0)
    then inr InspectError.other
    else if sys.ctx_done
    then inr InspectError.other
    else (let proc = sys.gopsutil (as_int32 pid) in
        snapshot pid proc.new_process proc (sys.sysctl (as_int32 pid)))
