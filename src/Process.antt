-- ===== src/Process.antt =====
-- internal/process/process.go: Kill, Restart and SpawnDetached. What the operating system answers is
-- an argument, and each operation gives back what it did to the system: the signals sent, the child
-- started, the descriptors left open.
pub mod Guards
pub mod Restarting
pub mod Escalation
use my_home_index_server.Prelude.{Bool, true, false, not, Option, none, some, List, [], ◌∷◌}
use my_home_index_server.Prelude.Tests.{if◌then◌else◌}
use my_home_index_server.Prelude.Lists.{select}
use my_home_index_server.Prelude.Bytes.{Bytes, codes}
use my_home_index_server.Prelude.Int.{ℤ, pos, int_eq, int_le}
use my_home_index_server.Store.{Store, Remembered, copy_slice}
use my_home_index_server.Store.Ops.{find_remembered}

-- scanner.Listener, without the protocol and the source, which nothing reads.
pub record Listener : Type 0 where
  pub pid : ℤ
  pub port : ℤ
  pub addrs : List Bytes

pub record Target : Type 0 where
  pub pid : ℤ
  pub port : ℤ

-- A nil `Env` makes the child inherit the environment of this process.
pub record Spec : Type 0 where
  pub command : List Bytes
  pub cwd : Bytes
  pub env : Option (List Bytes)

pub data ProcessError : Type 0 where
  self_pid unknown_pid scanner_init scan_failed find_failed signal_failed : ProcessError
  empty_command store_required remembered_not_found : ProcessError
  open_read_failed open_write_failed start_failed : ProcessError

-- What the scanner of a call gives: an error on construction, an error of `Scan`, or listeners.
pub data Scan : Type 0 where
  no_scanner scan_error : Scan
  scanned : List Listener → Scan

pub data Signal : Type 0 where
  probe sigterm sigkill : Signal

pub record Sent : Type 0 where
  pub pid : ℤ
  pub signal : Signal

-- The answers of os.FindProcess and Process.Signal: whether they succeed.
pub record System : Type 0 where
  pub find_process : ℤ → Bool
  pub deliver : ℤ → Signal → Bool

-- What `Kill` did. `escalates` is the process id of the goroutine it started.
pub record Killed : Type 0 where
  pub sent : List Sent
  pub escalates : Option ℤ
  pub error : Option ProcessError

-- The loop of `verifyLive`.
find_live : ℤ → ℤ → List Listener → Option ProcessError
find_live self pid [] = some ProcessError.unknown_pid
find_live self pid (l ∷ ls) =
    let rest = find_live self pid ls in
    if int_eq l.pid pid
    then (if int_eq pid self then some ProcessError.self_pid else none)
    else rest

-- `verifyLive`
unfoldable pub verify_live : ℤ → Scan → ℤ → Option ProcessError
unfolding find_live
verify_live self Scan.no_scanner pid = some ProcessError.scanner_init
verify_live self Scan.scan_error pid = some ProcessError.scan_failed
verify_live self (Scan.scanned ls) pid = find_live self pid ls

abbrev pub refused : ProcessError → Killed
refused e = record { sent = []; escalates = none; error = some e }

-- `Kill` behind its guards. A signal whose delivery fails was not sent.
send_term : System → ℤ → Option ProcessError → Killed
send_term sys pid (some e) = refused e
send_term sys pid none =
    if not (sys.find_process pid)
    then refused ProcessError.find_failed
    else if not (sys.deliver pid Signal.sigterm)
    then refused ProcessError.signal_failed
    else record {
      sent = record { pid = pid; signal = Signal.sigterm } ∷ [];
      escalates = some pid;
      error = none;
    }

-- `Kill`
unfoldable pub kill : ℤ → System → Scan → Target → Killed
unfolding send_term
kill self sys scan t =
    if int_eq t.pid self
    then refused ProcessError.self_pid
    else if int_le t.pid (pos 1)
    then refused ProcessError.unknown_pid
    else send_term sys t.pid (verify_live self scan t.pid)

-- `isAlive`: signal 0 only asks.
unfoldable pub is_alive : System → ℤ → Bool
is_alive sys pid =
    if int_le pid (pos 0)
    then false
    else if not (sys.find_process pid)
    then false
    else sys.deliver pid Signal.probe

-- `escalate`, behind the wait for the grace window: `sys` is the system as it is then.
unfoldable pub escalate : System → ℤ → List Sent
unfolding is_alive
escalate sys pid =
    if not (is_alive sys pid)
    then []
    else if not (sys.find_process pid)
    then []
    else if sys.deliver pid Signal.sigkill
    then record { pid = pid; signal = Signal.sigkill } ∷ []
    else []

-- The fields of exec.Cmd that `spawn` sets: argv, Dir, Env and SysProcAttr.Setsid.
pub record Cmd : Type 0 where
  pub path : Bytes
  pub args : List Bytes
  pub dir : Bytes
  pub env : Option (List Bytes)
  pub setsid : Bool

-- The two descriptors of the null device.
pub data Descriptor : Type 0 where
  null_read null_write : Descriptor

is_same : Descriptor → Descriptor → Bool
is_same Descriptor.null_read Descriptor.null_read = true
is_same Descriptor.null_read Descriptor.null_write = false
is_same Descriptor.null_write Descriptor.null_read = false
is_same Descriptor.null_write Descriptor.null_write = true

close : Descriptor → List Descriptor → List Descriptor
unfolding is_same
close d ds = select (λ e. not (is_same d e)) ds

-- The answers of os.OpenFile, and of Cmd.Start: the process id of the child.
pub record Launcher : Type 0 where
  pub opens_read : Bool
  pub opens_write : Bool
  pub start : Cmd → Option ℤ

-- What `spawn` did, with the child it started and the descriptors that are open when it returns.
pub record Spawned : Type 0 where
  pub child : Option (Cmd × ℤ)
  pub descriptors : List Descriptor
  pub error : Option ProcessError

abbrev pub not_spawned : List Descriptor → ProcessError → Spawned
not_spawned ds e = record { child = none; descriptors = ds; error = some e }

-- The end of `spawn`: whether the child started, both descriptors being open.
started : Cmd → List Descriptor → Option ℤ → Spawned
unfolding close
started cmd ds none =
    not_spawned (close Descriptor.null_write (close Descriptor.null_read ds))
      ProcessError.start_failed
started cmd ds (some pid) = record { child = some (cmd, pid); descriptors = ds; error = none }

-- `spawn` with an argv[0].
launch : Launcher → Spec → Bytes → List Bytes → Spawned
unfolding started close
launch os s name args =
    let cmd : Cmd = record {
      path = name;
      args = args;
      dir = s.cwd;
      env = copy_slice s.env;
      setsid = true;
    } in
    let one = Descriptor.null_read ∷ [] in
    if not os.opens_read
    then not_spawned [] ProcessError.open_read_failed
    else if not os.opens_write
    then not_spawned (close Descriptor.null_read one) ProcessError.open_write_failed
    else started cmd (Descriptor.null_write ∷ one) (os.start cmd)

spawn_argv : Launcher → Spec → List Bytes → Spawned
unfolding launch
spawn_argv os s [] = not_spawned [] ProcessError.empty_command
spawn_argv os s (name ∷ args) = launch os s name args

-- `spawn`
unfoldable pub spawn : Launcher → Spec → Spawned
unfolding spawn_argv
spawn os s = spawn_argv os s s.command

-- `reap`, when the child has exited.
unfoldable pub reap : List Descriptor → List Descriptor
unfolding close
reap ds = close Descriptor.null_write (close Descriptor.null_read ds)

restart_found : Launcher → Option Remembered → Spawned
unfolding spawn
restart_found os none = not_spawned [] ProcessError.remembered_not_found
restart_found os (some r) = spawn os (record { command = r.command; cwd = r.cwd; env = r.env })

-- `Restart`. The error of `FindRemembered` is always nil.
unfoldable pub restart : Launcher → Option Store → Bytes → Spawned
unfolding restart_found
restart os none id = not_spawned [] ProcessError.store_required
restart os (some s) id = restart_found os (find_remembered s id)
