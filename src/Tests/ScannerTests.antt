-- ===== src/Tests/ScannerTests.antt =====
-- The theorems on the scanners at concrete inputs.
use my_home_index_server.Prelude.{ℕ, ◌≡◌, refl, inl, false, true, Option, none, some, List, [], ◌∷◌}
use my_home_index_server.Prelude.Tests.{◌==◌, if◌then◌else◌}
use my_home_index_server.Prelude.Bytes.{codes}
use my_home_index_server.Prelude.Int.{ℤ, pos, negsuc}
use my_home_index_server.Model.{decimal}
use my_home_index_server.Process.{Listener}
use my_home_index_server.Scanner.Aggregate.{Report}
use my_home_index_server.Scanner.Libproc.{
  TcpListener, Kernel, scan_libproc, list_all_pids, fds_of, prefix, pid_loop, pid_step, fd_loop,
  fd_step, socket_step, is_mine,
}
use my_home_index_server.Scanner.Libproc.Complete.{Walk, scan_libproc-Walk}
use my_home_index_server.Scanner.Lsof.{
  add_addr, sort_listeners, with_sorted_addrs, insert_listener, join_host_port,
}
use my_home_index_server.Scanner.Auto.{Kind, Machine, scan, scan-Report}

-- The socket of each process listens on port 40123 of both families.
abbrev socket : ℤ → ℤ → TcpListener
socket pid fd = record { result = pos 1; valid = true; port = 40123; laddr = codes "127.0.0.1" }

abbrev owner : ℤ → Option ℕ
owner (pos pid) = some (if pid == 9 then 0 else 501)
owner (negsuc n) = none

-- The dashboard is process 7; process 321 is the user's, and process 9 another one's.
abbrev kernel : Kernel
kernel = record {
  own_uid = 501;
  own_pid = pos 7;
  done_before = false;
  done_at = λ i. false;
  count_pids = pos 3;
  fill_pids = λ slots. (pos 3, λ i. if i == 0 then pos 7 else if i == 1 then pos 321 else pos 9);
  uid_of = owner;
  size_fds = λ pid. pos 16;
  fdinfo_size = 8;
  fill_fds = λ pid slots. (pos 16, λ i. record { kind = if i == 0 then 2 else 1; fd = pos i });
  inspect_fd = socket;
}

abbrev machine : Machine
machine = record {
  done_before = false;
  done_after = false;
  output = [];
  exit = none;
  kernel = kernel;
}

abbrev found : List Listener
found = record { pid = pos 321; port = pos 40123; addrs = codes "127.0.0.1:40123" ∷ [] } ∷ []

libproc_found : scan_libproc (pos 40000) (pos 40500) kernel ≡ inl found
unfolding scan_libproc list_all_pids fds_of prefix pid_loop pid_step fd_loop fd_step socket_step
    is_mine add_addr sort_listeners with_sorted_addrs insert_listener join_host_port decimal
libproc_found = refl

scan_libproc-Walk_example :
    (pids : List ℤ) × (list_all_pids kernel ≡ inl pids)
    × Walk (pos 40000) (pos 40500) kernel pids found
scan_libproc-Walk_example = scan_libproc-Walk (pos 40000) (pos 40500) kernel found libproc_found

machine_found : scan Kind.libproc (pos 40000) (pos 40500) machine ≡ inl found
unfolding scan
machine_found = rw libproc_found refl

scan-Report_example : Report (pos 40000) (pos 40500) (pos 7) found
scan-Report_example = scan-Report Kind.libproc (pos 40000) (pos 40500) machine found machine_found
