-- ===== src/Inspector/Inspect/Succeeds.antt =====
-- When an inspection succeeds, and with what.
use my_home_index_server.Prelude.{
  ℕ, ◌≡◌, ◌≢◌, ◌↔◌, refl, ◌⊎◌, inl, inr, ap, sym, ◌∙◌, false, Option, none, some, List, [], ◌∷◌,
}
use mathlib.Core.Path.{subst}
use my_home_index_server.Prelude.Tests.{Bool-cases}
use my_home_index_server.Prelude.Bytes.{Bytes}
use my_home_index_server.Prelude.Int.{ℤ, pos, int_le}
use my_home_index_server.Prelude.Time.{unix_milli}
use my_home_index_server.Inspector.{ProcInfo, SourceError, InspectError, classify, resolve_argv}
use my_home_index_server.Inspector.Env.{Sysctl, read_env}
use my_home_index_server.Inspector.Inspect.Reads.{
  ArgvRead, EnvRead, ArgvRead-resolve_argv, resolve_argv-ArgvRead, EnvRead-env_or_nil,
  env_or_nil-EnvRead,
}
use my_home_index_server.Inspector.Inspect.{
  Gopsutil, System, as_int32, cwd_or_empty, env_or_nil, classified, first_uid, reads, snapshot,
  inspect, unless_gone, ◌>>=◌,
}

-- The directory as it is read: an error that does not say that the process is gone is an empty one.
pub data CwdRead : Bytes ⊎ SourceError → Bytes → Type 0 where
  given : (cwd : Bytes) → CwdRead (inl cwd) cwd
  missing : (e : SourceError) → classify e ≢ InspectError.not_found → CwdRead (inr e) []

-- The snapshot is complete, the directory and the environment being a best effort.
pub record IsRead (pid : ℤ) (g : Gopsutil) (k : Sysctl) (info : ProcInfo) : Type 0 where
  pub same_pid : info.pid ≡ pid
  pub exists : g.new_process ≡ none
  pub argv : ArgvRead g.argv info.command
  pub cwd : CwdRead g.cwd info.cwd
  pub created : (ms : ℕ) × (g.create_time ≡ inl ms) × (info.start_time ≡ unix_milli ms)
  pub owner : (rest : List ℤ) × (g.uids ≡ inl (info.uid ∷ rest))
  pub env : EnvRead k info.env

unless_gone_sound :
    (e : InspectError) (cwd : Bytes)
    → unless_gone e ≡ inl cwd
    → (e ≢ InspectError.not_found) × ([] ≡ cwd)
unfolding unless_gone
unless_gone_sound InspectError.not_found cwd h = cc
unless_gone_sound InspectError.permission cwd h = (λ e. cc, cc)
unless_gone_sound InspectError.other cwd h = (λ e. cc, cc)

unless_gone_complete : (e : InspectError) → e ≢ InspectError.not_found → unless_gone e ≡ inl []
unfolding unless_gone
unless_gone_complete InspectError.not_found h = absurd (h refl)
unless_gone_complete InspectError.permission h = refl
unless_gone_complete InspectError.other h = refl

CwdRead-cwd_or_empty :
    (r : Bytes ⊎ SourceError) (cwd : Bytes) → cwd_or_empty r ≡ inl cwd → CwdRead r cwd
unfolding cwd_or_empty
CwdRead-cwd_or_empty (inl c) cwd h = subst (CwdRead (inl c)) (cc) (CwdRead.given c)
CwdRead-cwd_or_empty (inr e) cwd h =
    let (here, empty) = unless_gone_sound (classify e) cwd h in
    subst (CwdRead (inr e)) empty (CwdRead.missing e here)

cwd_or_empty-CwdRead :
    (r : Bytes ⊎ SourceError) (cwd : Bytes) → CwdRead r cwd → cwd_or_empty r ≡ inl cwd
unfolding cwd_or_empty
cwd_or_empty-CwdRead r cwd (CwdRead.given c) = refl
cwd_or_empty-CwdRead r cwd (CwdRead.missing e h) = unless_gone_complete (classify e) h

module _ {ℓ} {A : Type ℓ} where
  classified_sound : (r : A ⊎ SourceError) (a : A) → classified r ≡ inl a → r ≡ inl a
  unfolding classified
  classified_sound (inl b) a h = cc
  classified_sound (inr e) a h = cc

  -- A chain that succeeds has a first link that does.
  bind_sound {κ} :
      {B : Type κ} (r : A ⊎ InspectError) (f : A → B ⊎ InspectError) (b : B)
      → (r >>= f) ≡ inl b
      → (a : A) × (r ≡ inl a) × (f a ≡ inl b)
  bind_sound (inl a) f b h = (a, refl, h)
  bind_sound (inr e) f b h = cc

first_uid_sound :
    (uids : List ℤ) (uid : ℤ) → first_uid uids ≡ inl uid → (rest : List ℤ) × (uids ≡ uid ∷ rest)
unfolding first_uid
first_uid_sound [] uid h = cc
first_uid_sound (u ∷ uids) uid h = (uids, cc)

-- The snapshot of the values that the reads give.
gathered : ℤ → List Bytes → Bytes → ℕ → ℤ → Option (List Bytes) → ProcInfo
gathered pid argv cwd created uid env = record {
  pid = pid;
  command = argv;
  cwd = cwd;
  start_time = unix_milli created;
  uid = uid;
  env = env;
}

IsRead-gathered :
    (pid : ℤ) (g : Gopsutil) (k : Sysctl) (info : ProcInfo)
    → g.new_process ≡ none
    → (argv : List Bytes) × (classified (resolve_argv g.argv) ≡ inl argv)
      × (cwd : Bytes) × (cwd_or_empty g.cwd ≡ inl cwd)
      × (created : ℕ) × (classified g.create_time ≡ inl created)
      × (uids : List ℤ) × (classified g.uids ≡ inl uids)
      × (uid : ℤ) × (first_uid uids ≡ inl uid)
      × (env : Option (List Bytes)) × (env_or_nil (read_env k) ≡ inl env)
      × (◌≡◌ {A = ProcInfo ⊎ InspectError} (inl (gathered pid argv cwd created uid env)) (inl info))
    → IsRead pid g k info
unfolding gathered
IsRead-gathered pid g k info known (argv, a, cwd, b, created, c, uids, d, uid, e, env, f, h) =
    let (rest, owner) = first_uid_sound uids uid e in
    let same : gathered pid argv cwd created uid env ≡ info = cc in
    subst (IsRead pid g k) same (record {
      same_pid = refl;
      exists = known;
      argv = ArgvRead-resolve_argv g.argv argv (classified_sound (resolve_argv g.argv) argv a);
      cwd = CwdRead-cwd_or_empty g.cwd cwd b;
      created = (created, classified_sound g.create_time created c, refl);
      owner = (rest, classified_sound g.uids uids d ∙ ap (λ l. inl l) owner);
      env = EnvRead-env_or_nil k env f;
    })

reads_sound :
    (pid : ℤ) (g : Gopsutil) (k : Sysctl) (info : ProcInfo)
    → g.new_process ≡ none
    → reads pid g k ≡ inl info
    → IsRead pid g k info
unfolding reads gathered
reads_sound pid g k info known h =
    let (argv, b, h2) = bind_sound (classified (resolve_argv g.argv)) _ info h in
    let (cwd, c, h3) = bind_sound (cwd_or_empty g.cwd) _ info h2 in
    let (created, d, h4) = bind_sound (classified g.create_time) _ info h3 in
    let (uids, e, h5) = bind_sound (classified g.uids) _ info h4 in
    let (uid, f, h6) = bind_sound (first_uid uids) _ info h5 in
    let (env, i, h7) = bind_sound (env_or_nil (read_env k)) _ info h6 in
    IsRead-gathered pid g k info known (argv, b, cwd, c, created, d, uids, e, uid, f, env, i, h7)

reads_complete :
    (pid : ℤ) (g : Gopsutil) (k : Sysctl) (info : ProcInfo)
    → IsRead pid g k info
    → reads pid g k ≡ inl info
unfolding reads classified first_uid
reads_complete pid g k info h =
    let cwd = cwd_or_empty-CwdRead g.cwd info.cwd h.cwd in
    let env = env_or_nil-EnvRead k info.env h.env in
    let argv = resolve_argv-ArgvRead g.argv info.command h.argv in
    simp (argv, cwd, h.created.1, sym h.created.2, h.owner.1, env)
      (ap (λ n. inl (record info { pid = n })) (sym h.same_pid))

snapshot_sound :
    (pid : ℤ) (o : Option SourceError) (g : Gopsutil) (k : Sysctl) (info : ProcInfo)
    → g.new_process ≡ o
    → snapshot pid o g k ≡ inl info
    → IsRead pid g k info
unfolding snapshot
snapshot_sound pid none g k info e h = reads_sound pid g k info e h
snapshot_sound pid (some err) g k info e h = cc

module _ (sys : System) (pid : ℤ) where
  -- The process id is positive, the context is live, and the process that has the id as an int32 is
  -- read.
  pub record Inspects (info : ProcInfo) : Type 0 where
    pub positive : int_le pid (pos 0) ≡ false
    pub live : sys.ctx_done ≡ false
    pub read : IsRead pid (sys.gopsutil (as_int32 pid)) (sys.sysctl (as_int32 pid)) info

  inspect_sound : (info : ProcInfo) → inspect sys pid ≡ inl info → Inspects info
  unfolding inspect
  inspect_sound info h = elim (Bool-cases (int_le pid (pos 0))) [
    | inl bad ↦ cc (h, bad)
    | inr good ↦ elim (Bool-cases sys.ctx_done) [
      | inl done ↦ cc (h, good, done)
      | inr live ↦
          let proc = sys.gopsutil (as_int32 pid) in
          let k = sys.sysctl (as_int32 pid) in
          let e : inspect sys pid ≡ snapshot pid proc.new_process proc k = simp (good, live) refl in
          record {
            positive = good;
            live = live;
            read = snapshot_sound pid proc.new_process proc k info refl (sym e ∙ h);
          }
    ]
  ]

  inspect_complete : (info : ProcInfo) → Inspects info → inspect sys pid ≡ inl info
  unfolding inspect snapshot
  inspect_complete info h =
      simp (h.positive, h.live, h.read.exists) (reads_complete pid _ _ info h.read)

  -- `Inspect` succeeds exactly if the process id is positive, the context is live, and gopsutil
  -- knows the process, a time of creation and a user id, and gives these, with the arguments, the
  -- directory and the environment as follows. The arguments are the slice, or where that cannot be
  -- had the words of the line, or none. The directory is empty if it cannot be read, unless the error
  -- says that the process is gone, which is an error. The environment is the one in the buffer, or nil
  -- if that has none or if the kernel refuses to show it; any other error of reading it fails the
  -- inspection, as does a context that ends before it or between its two calls.
  pub inspect_iff : (info : ProcInfo) → (inspect sys pid ≡ inl info) ↔ Inspects info
  inspect_iff info = (inspect_sound info, inspect_complete info)
