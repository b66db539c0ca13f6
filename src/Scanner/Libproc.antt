-- ===== src/Scanner/Libproc.antt =====
-- internal/scanner/libproc_darwin.go: the walk over the processes and their file descriptors. The C
-- functions of that file are not modelled: what they return is an argument.
pub mod Complete
use my_home_index_server.Prelude.{
  ℕ, zero, suc, ◌+◌, ◌*◌, ◌/◌, ◌⊎◌, inl, inr, Bool, true, false, not, ◌||◌, Option, none, some,
  List, [], ◌∷◌, ◌++◌,
}
use my_home_index_server.Prelude.Tests.{ltb, ◌==◌, if◌then◌else◌}
use my_home_index_server.Prelude.Bytes.{Bytes, codes, is_empty}
use my_home_index_server.Prelude.Int.{ℤ, pos, negsuc, int_eq, int_le}
use my_home_index_server.Process.{Listener}
use my_home_index_server.Scanner.Lsof.{
  add_addr, itoa, join_host_port, sort_listeners, with_sorted_addrs,
}

-- An entry of a table of file descriptors, and what `pm_inspect_fd` returns and writes.
pub record Fd : Type 0 where
  pub kind : ℕ
  pub fd : ℤ

pub record TcpListener : Type 0 where
  pub result : ℤ
  pub valid : Bool
  pub port : ℕ
  pub laddr : Bytes

-- The answers of the system. A call that fills a buffer of so many slots returns a number and the
-- contents by index; the size of an fdinfo is that of the C structure.
pub record Kernel : Type 0 where
  pub own_uid : ℕ
  pub own_pid : ℤ
  pub done_before : Bool
  pub done_at : ℕ → Bool
  pub count_pids : ℤ
  pub fill_pids : ℕ → ℤ × (ℕ → ℤ)
  pub uid_of : ℤ → Option ℕ
  pub size_fds : ℤ → ℤ
  pub fdinfo_size : ℕ
  pub fill_fds : ℤ → ℕ → ℤ × (ℕ → Fd)
  pub inspect_fd : ℤ → ℤ → TcpListener

pub data LibprocError : Type 0 where
  context_error pids_failed : LibprocError

abbrev pub prox_fd_type_socket : ℕ
prox_fd_type_socket = 2

-- buf[:n]
unfoldable pub prefix {ℓ} : {A : Type ℓ} → ℕ → (ℕ → A) → List A
prefix zero buf = []
prefix (suc n) buf = prefix n buf ++ buf n ∷ []

at_most : ℕ → ℕ → ℕ
at_most slots n = if ltb slots n then slots else n

filled : ℕ → ℤ × (ℕ → ℤ) → List ℤ ⊎ LibprocError
unfolding at_most
filled slots (negsuc n, buf) = inr LibprocError.pids_failed
filled slots (pos n, buf) =
    if n == 0 then inr LibprocError.pids_failed else inl (prefix (at_most slots n) buf)

sized : Kernel → ℤ → List ℤ ⊎ LibprocError
unfolding filled
sized k (negsuc n) = inr LibprocError.pids_failed
sized k (pos count) =
    if count == 0
    then inr LibprocError.pids_failed
    else filled (count + 128) (k.fill_pids (count + 128))

-- `listAllPIDs`
unfoldable pub list_all_pids : Kernel → List ℤ ⊎ LibprocError
unfolding sized
list_all_pids k = sized k k.count_pids

filled_fds : ℕ → ℕ → ℤ × (ℕ → Fd) → List Fd
unfolding at_most
filled_fds size slots (negsuc n, buf) = []
filled_fds size slots (pos n, buf) = prefix (at_most slots (n / size)) buf

-- The table of a process, by its size in bytes; it is empty where the code goes on to the next one.
sized_fds : Kernel → ℤ → ℤ → List Fd
unfolding filled_fds
sized_fds k pid (negsuc n) = []
sized_fds k pid (pos n) =
    let slots = n / k.fdinfo_size + 16 in
    if n == 0 then [] else filled_fds k.fdinfo_size slots (k.fill_fds pid slots)

unfoldable pub fds_of : Kernel → ℤ → List Fd
unfolding sized_fds
fds_of k pid = sized_fds k pid (k.size_fds pid)

abbrev pub host_port : TcpListener → Bytes
host_port info =
    join_host_port (if is_empty info.laddr then codes "0.0.0.0" else info.laddr)
      (itoa (pos info.port))

module _ (port_min port_max : ℤ) (k : Kernel) where
  unfoldable pub socket_step : ℤ → List Listener → TcpListener → List Listener
  socket_step pid agg info =
      if int_le info.result (pos 0)
      then agg
      else if not info.valid
      then agg
      else if not (int_le port_min (pos info.port)) || not (int_le (pos info.port) port_max)
      then agg
      else add_addr pid (pos info.port) (host_port info) agg

  -- A round of the inner loop.
  unfoldable pub fd_step : ℤ → List Listener → Fd → List Listener
  fd_step pid agg fdi =
      if fdi.kind == prox_fd_type_socket then socket_step pid agg (k.inspect_fd pid fdi.fd) else agg

  unfoldable pub fd_loop : ℤ → List Listener → List Fd → List Listener
  fd_loop pid agg [] = agg
  fd_loop pid agg (fdi ∷ fds) = fd_loop pid (fd_step pid agg fdi) fds

  unfoldable pub is_mine : Option ℕ → Bool
  is_mine none = false
  is_mine (some uid) = uid == k.own_uid

  -- A round of the outer loop, whose context is live.
  unfoldable pub pid_step : List Listener → ℤ → List Listener
  pid_step agg pid =
      if int_le pid (pos 0) || int_eq pid k.own_pid
      then agg
      else if not (is_mine (k.uid_of pid))
      then agg
      else fd_loop pid agg (fds_of k pid)

  -- The outer loop: none once the context is done.
  unfoldable pub pid_loop : ℕ → List Listener → List ℤ → Option (List Listener)
  pid_loop i agg [] = some agg
  pid_loop i agg (pid ∷ pids) =
      let rest = pid_loop (suc i) (pid_step agg pid) pids in if k.done_at i then none else rest

  sorted : Option (List Listener) → List Listener ⊎ LibprocError
  sorted none = inr LibprocError.context_error
  sorted (some agg) = inl (sort_listeners (with_sorted_addrs agg))

  over_pids : List ℤ ⊎ LibprocError → List Listener ⊎ LibprocError
  unfolding sorted
  over_pids (inl pids) = sorted (pid_loop 0 [] pids)
  over_pids (inr e) = inr e

  -- `Scan` of the libproc scanner.
  unfoldable pub scan_libproc : List Listener ⊎ LibprocError
  unfolding over_pids
  scan_libproc =
      if k.done_before then inr LibprocError.context_error else over_pids (list_all_pids k)
