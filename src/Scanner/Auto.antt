-- ===== src/Scanner/Auto.antt =====
-- internal/scanner/scanner.go: `Auto`, and the scanner that it picks, on darwin and elsewhere
-- (libproc_stub.go).
use my_home_index_server.Prelude.{
  ◌≡◌, ◌⊎◌, inl, inr, Bool, true, false, ◌||◌, Option, none, some, List, arith,
}
use mathlib.Core.Path.{subst}
use my_home_index_server.Prelude.Tests.{if◌then◌else◌}
use my_home_index_server.Prelude.Bytes.{Bytes, codes, bytes_eq, is_empty}
use my_home_index_server.Prelude.Int.{ℤ}
use my_home_index_server.Process.{Listener}
use my_home_index_server.Scanner.Lsof.{CmdError, LsofError, parse_lsof_f, judged_exit, scan_lsof}
use my_home_index_server.Scanner.Lsof.Sound.{parse_lsof_f-Report}
use my_home_index_server.Scanner.Aggregate.{Report}
use my_home_index_server.Scanner.Libproc.{Kernel, LibprocError, scan_libproc}
use my_home_index_server.Scanner.Libproc.Complete.{scan_libproc-Walk}

-- The two files that a build picks from: the name of its default scanner, and whether NewLibproc
-- makes one.
pub data Platform : Type 0 where
  darwin elsewhere : Platform

unfoldable pub default_scanner_name : Platform → Bytes
default_scanner_name Platform.darwin = codes "libproc"
default_scanner_name Platform.elsewhere = codes "lsof"

pub data Kind : Type 0 where
  libproc lsof : Kind

unfoldable pub new_libproc : Platform → Option Kind
new_libproc Platform.darwin = some Kind.libproc
new_libproc Platform.elsewhere = none

named : Platform → Bytes → Option Kind
named p name =
    if bytes_eq name (codes "libproc")
    then new_libproc p
    else if bytes_eq name (codes "lsof")
    then some Kind.lsof
    else none

-- `Auto` of a configuration with the name of a scanner, which is none where it returns an error.
unfoldable pub auto : Platform → Bytes → Option Kind
unfolding named
auto p name =
    if is_empty name || bytes_eq name (codes "auto")
    then named p (default_scanner_name p)
    else named p name

-- What a scan asks: the context, the command lsof, and the kernel.
pub record Machine : Type 0 where
  pub done_before : Bool
  pub done_after : Bool
  pub output : Bytes
  pub exit : Option CmdError
  pub kernel : Kernel

pub data ScanError : Type 0 where
  of_lsof : LsofError → ScanError
  of_libproc : LibprocError → ScanError

lsof_result : List Listener ⊎ LsofError → List Listener ⊎ ScanError
lsof_result (inl ls) = inl ls
lsof_result (inr e) = inr (ScanError.of_lsof e)

libproc_result : List Listener ⊎ LibprocError → List Listener ⊎ ScanError
libproc_result (inl ls) = inl ls
libproc_result (inr e) = inr (ScanError.of_libproc e)

-- `Scan` of either scanner: both exclude the process of the dashboard.
unfoldable pub scan : Kind → ℤ → ℤ → Machine → List Listener ⊎ ScanError
unfolding lsof_result libproc_result
scan Kind.libproc port_min port_max m = libproc_result (scan_libproc port_min port_max m.kernel)
scan Kind.lsof port_min port_max m =
    lsof_result
      (scan_lsof port_min port_max m.kernel.own_pid m.done_before m.done_after m.output m.exit)

lsof_result-inl :
    (r : List Listener ⊎ LsofError) (ls : List Listener) → lsof_result r ≡ inl ls → r ≡ inl ls
unfolding lsof_result
lsof_result-inl (inl l) ls h = cc
lsof_result-inl (inr e) ls h = cc

libproc_result-inl :
    (r : List Listener ⊎ LibprocError) (ls : List Listener) → libproc_result r ≡ inl ls → r ≡ inl ls
unfolding libproc_result
libproc_result-inl (inl l) ls h = cc
libproc_result-inl (inr e) ls h = cc

judged_exit-inl :
    (found : List Listener) (exit : Option CmdError) (ls : List Listener)
    → judged_exit found exit ≡ inl ls
    → found ≡ ls
unfolding judged_exit
judged_exit-inl found none ls h = cc
judged_exit-inl found (some CmdError.not_run) ls h = cc
judged_exit-inl found (some (CmdError.exited code)) ls h = ground (arith, h)

scan_lsof-inl :
    (port_min port_max self : ℤ) (before after : Bool) (out : Bytes) (exit : Option CmdError)
    (ls : List Listener)
    → scan_lsof port_min port_max self before after out exit ≡ inl ls
    → parse_lsof_f out port_min port_max self ≡ ls
unfolding scan_lsof
scan_lsof-inl port_min port_max self true after out exit ls h = cc
scan_lsof-inl port_min port_max self false true out exit ls h = cc
scan_lsof-inl port_min port_max self false false out exit ls h =
    judged_exit-inl (parse_lsof_f out port_min port_max self) exit ls h

-- Whichever scanner is picked, a scan that succeeds reports only processes with an id other than 0
-- and than that of the dashboard, on ports in the range, each process and port at most once, in
-- the order of the ports and, on one port, of the process ids.
pub scan-Report :
    (kind : Kind) (port_min port_max : ℤ) (m : Machine) (ls : List Listener)
    → scan kind port_min port_max m ≡ inl ls
    → Report port_min port_max m.kernel.own_pid ls
unfolding scan
scan-Report Kind.libproc port_min port_max m ls h =
    let (pids, listed, walk) =
      scan_libproc-Walk port_min port_max m.kernel ls (libproc_result-inl _ ls h) in
    walk.report
scan-Report Kind.lsof port_min port_max m ls h =
    let found =
      scan_lsof-inl port_min port_max m.kernel.own_pid m.done_before m.done_after m.output m.exit ls
        (lsof_result-inl _ ls h) in
    subst (Report port_min port_max m.kernel.own_pid) found
      (parse_lsof_f-Report m.output port_min port_max m.kernel.own_pid)
