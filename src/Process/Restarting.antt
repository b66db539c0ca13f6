-- ===== src/Process/Restarting.antt =====
-- What Restart starts, and which descriptors stay open.
use my_home_index_server.Prelude.{
  ◌≡◌, ◌≢◌, refl, true, false, Option, none, some, List, [], ◌∷◌, inl, inr,
}
use my_home_index_server.Prelude.Tests.{Bool-cases, Option-cases}
use my_home_index_server.Prelude.Bytes.{Bytes, bytes_eq, bytes_eq_iff, bytes_eq-apart}
use my_home_index_server.Prelude.Int.{ℤ}
use my_home_index_server.Store.{Store, Remembered, copy_slice}
use my_home_index_server.Store.Ops.{find_remembered, find_id, clone_remembered}
use my_home_index_server.Prelude.Lists.{All}
use my_home_index_server.Process.{
  Spec, ProcessError, Cmd, Launcher, Descriptor, Spawned, spawn, reap, restart, restart_found,
  spawn_argv, launch, started, not_spawned, close, is_same,
}

-- The environment of a child: the one of the spec, or none, so that it has that of its parent, if the
-- spec has none or an empty one.
pub data EnvGiven : Option (List Bytes) → Option (List Bytes) → Type 0 where
  inherited : EnvGiven none none
  emptied : EnvGiven (some []) none
  given : (e : Bytes) (env : List Bytes) → EnvGiven (some (e ∷ env)) (some (e ∷ env))

copy_slice-EnvGiven : (env : Option (List Bytes)) → EnvGiven env (copy_slice env)
copy_slice-EnvGiven none = EnvGiven.inherited
copy_slice-EnvGiven (some []) = EnvGiven.emptied
copy_slice-EnvGiven (some (e ∷ env)) = EnvGiven.given e env

-- What `spawn` did, one constructor per way to return.
pub data SpawnOutcome (os : Launcher) (s : Spec) : Spawned → Type 0 where
  empty : s.command ≡ [] → SpawnOutcome os s (not_spawned [] ProcessError.empty_command)
  unread : os.opens_read ≡ false → SpawnOutcome os s (not_spawned [] ProcessError.open_read_failed)
  unwritten :
      os.opens_write ≡ false → SpawnOutcome os s (not_spawned [] ProcessError.open_write_failed)
  unstarted :
      (cmd : Cmd)
      → os.start cmd ≡ none
      → SpawnOutcome os s (not_spawned [] ProcessError.start_failed)
  running :
      (cmd : Cmd) (pid : ℤ)
      → os.start cmd ≡ some pid
      → s.command ≡ cmd.path ∷ cmd.args
      → cmd.dir ≡ s.cwd
      → EnvGiven s.env cmd.env
      → cmd.setsid ≡ true
      → SpawnOutcome os s (record {
        child = some (cmd, pid);
        descriptors = Descriptor.null_write ∷ Descriptor.null_read ∷ [];
        error = none;
      })

launch-SpawnOutcome :
    (os : Launcher) (s : Spec) (name : Bytes) (args : List Bytes)
    → s.command ≡ name ∷ args
    → SpawnOutcome os s (launch os s name args)
unfolding launch started close is_same
launch-SpawnOutcome os s name args h =
    let cmd : Cmd = record {
      path = name;
      args = args;
      dir = s.cwd;
      env = copy_slice s.env;
      setsid = true;
    } in
    elim (Bool-cases os.opens_read) [
      | inr shut ↦ simp shut (SpawnOutcome.unread shut)
      | inl read ↦ elim (Bool-cases os.opens_write) [
        | inr shut ↦ simp (read, shut) (SpawnOutcome.unwritten shut)
        | inl write ↦ elim (Option-cases (os.start cmd)) [
          | inl e ↦ simp (read, write, e) (SpawnOutcome.unstarted cmd e)
          | inr (pid, e) ↦
              simp (read, write, e)
                (SpawnOutcome.running cmd pid e h refl (copy_slice-EnvGiven s.env) refl)
        ]
      ]
    ]

spawn_argv-SpawnOutcome :
    (os : Launcher) (s : Spec) (argv : List Bytes)
    → s.command ≡ argv
    → SpawnOutcome os s (spawn_argv os s argv)
unfolding spawn_argv
spawn_argv-SpawnOutcome os s [] h = SpawnOutcome.empty h
spawn_argv-SpawnOutcome os s (name ∷ args) h = launch-SpawnOutcome os s name args h

-- `spawn` starts the given argv in the given directory, in a session of its own, with the environment
-- of the spec (which is inherited when the spec's is empty), and both null descriptors open for the
-- reaper; or it says why not, and then no child was started and no descriptor is left open.
pub spawn-SpawnOutcome : (os : Launcher) (s : Spec) → SpawnOutcome os s (spawn os s)
unfolding spawn
spawn-SpawnOutcome os s = spawn_argv-SpawnOutcome os s s.command refl

-- The first entry of the list that has the id.
pub data FirstWith (id : Bytes) (r : Remembered) : List Remembered → Type 0 where
  here : (rs : List Remembered) → r.id ≡ id → FirstWith id r (r ∷ rs)
  there :
      (q : Remembered) (rs : List Remembered)
      → q.id ≢ id
      → FirstWith id r rs
      → FirstWith id r (q ∷ rs)

-- What a search by id finds: a copy of the first entry with the id.
data Searched (id : Bytes) (rs : List Remembered) : Option Remembered → Type 0 where
  missing : All (λ r. r.id ≢ id) rs → Searched id rs none
  found :
      (r : Remembered)
      → FirstWith id r rs
      → Searched id rs (some (record r { env = copy_slice r.env }))

Searched-later :
    {id : Bytes} {rs : List Remembered} {o : Option Remembered} (q : Remembered)
    → q.id ≢ id
    → Searched id rs o
    → Searched id (q ∷ rs) o
Searched-later q apart (missing none_has) = missing (apart, none_has)
Searched-later q apart (found r first) = found r (FirstWith.there q _ apart first)

find_id-Searched : (id : Bytes) (rs : List Remembered) → Searched id rs (find_id id rs)
unfolding find_id clone_remembered
find_id-Searched id [] = missing tt
find_id-Searched id (r ∷ rs) = elim (Bool-cases (bytes_eq r.id id)) [
  | inl same ↦ rw same (found r (FirstWith.here rs ((bytes_eq_iff r.id id).0 same)))
  | inr differs ↦
      rw differs (Searched-later r (bytes_eq-apart r.id id differs) (find_id-Searched id rs))
]

-- What `Restart` did with an attached store.
pub data Restarted (os : Launcher) (s : Store) (id : Bytes) : Spawned → Type 0 where
  unknown :
      All (λ r. r.id ≢ id) s.remembered
      → Restarted os s id (not_spawned [] ProcessError.remembered_not_found)
  known :
      (r : Remembered) (k : Spawned) (env : Option (List Bytes))
      → FirstWith id r s.remembered
      → EnvGiven r.env env
      → SpawnOutcome os (record { command = r.command; cwd = r.cwd; env = env }) k
      → Restarted os s id k

restart_found-Restarted :
    (os : Launcher) (s : Store) (id : Bytes) {o : Option Remembered}
    → Searched id s.remembered o
    → Restarted os s id (restart_found os o)
unfolding restart_found
restart_found-Restarted os s id (missing h) = Restarted.unknown h
restart_found-Restarted os s id (found r first) =
    let env = copy_slice r.env in
    let spec : Spec = record { command = r.command; cwd = r.cwd; env = env } in
    Restarted.known r (spawn os spec) env first (copy_slice-EnvGiven r.env)
      (spawn-SpawnOutcome os spec)

-- `Restart` starts the first entry of the store with the id, with its argv and its directory, and with
-- its environment if that is not empty, in one of the ways of `spawn`; nothing comes from the caller,
-- but the child of an entry without an environment, or with an empty one, has that of the dashboard.
-- For an id that no entry has it starts nothing.
pub restart-Restarted :
    (os : Launcher) (s : Store) (id : Bytes) → Restarted os s id (restart os (some s) id)
unfolding restart find_remembered
restart-Restarted os s id = restart_found-Restarted os s id (find_id-Searched id s.remembered)

reaped : (os : Launcher) (s : Spec) (k : Spawned) → SpawnOutcome os s k → reap k.descriptors ≡ []
unfolding reap close is_same
reaped os s k (SpawnOutcome.empty e) = refl
reaped os s k (SpawnOutcome.unread e) = refl
reaped os s k (SpawnOutcome.unwritten e) = refl
reaped os s k (SpawnOutcome.unstarted cmd e) = refl
reaped os s k (SpawnOutcome.running cmd pid e a b c d) = refl

-- Once the reaper has run, no descriptor of `spawn` is open, however it ended.
pub reap-spawn : (os : Launcher) (s : Spec) → reap (spawn os s).descriptors ≡ []
reap-spawn os s = reaped os s (spawn os s) (spawn-SpawnOutcome os s)
