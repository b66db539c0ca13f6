-- ===== src/Scanner/Libproc/Complete.antt =====
-- Which processes and ports the walk reports.
use my_home_index_server.Prelude.{
  ℕ, suc, ◌≡◌, sym, ap, ◌∙◌, refl, ◌⊎◌, inl, inr, Bool, true, false, not, ◌&&◌, ◌||◌, Option, none,
  some, List, [], ◌∷◌, arith,
}
use mathlib.Core.Path.{subst}
use my_home_index_server.Prelude.Tests.{◌==◌, Bool-cases, if◌then◌else◌}
use my_home_index_server.Prelude.Lists.{any}
use my_home_index_server.Prelude.Int.{ℤ, pos, int_eq, int_le, int_eq_iff, int_eq-apart}
use my_home_index_server.Process.{Listener}
use my_home_index_server.Scanner.Lsof.{sort_listeners, with_sorted_addrs}
use my_home_index_server.Scanner.Aggregate.{
  count, count-add_addr, count-sort_listeners, count-with_sorted_addrs, AllOn-count, IsTarget,
  Report, Report-sorted,
}
use my_home_index_server.Scanner.Libproc.{
  Fd, LibprocError, sorted, over_pids, Kernel, prox_fd_type_socket, list_all_pids, fds_of,
  socket_step, fd_step, fd_loop, is_mine, pid_step, pid_loop, scan_libproc, host_port,
}

or_cases : (a b : Bool) → (a || b) ≡ true → (a ≡ true) ⊎ (b ≡ true)
or_cases true b h = inl refl
or_cases false b h = inr h

module _ (port_min port_max : ℤ) (k : Kernel) where
  -- The descriptor of the process is a socket that listens on the port, which is in the range.
  abbrev pub listens : ℤ → ℤ → Fd → Bool
  listens pid port fdi =
      let info = k.inspect_fd pid fdi.fd in
      fdi.kind == prox_fd_type_socket
      && not (int_le info.result (pos 0))
      && info.valid
      && int_eq (pos info.port) port
      && int_le port_min port
      && int_le port port_max

  -- The process is one of the user's, and not the dashboard.
  abbrev pub is_own : ℤ → Bool
  is_own pid =
      not (int_le pid (pos 0))
      && not (int_eq pid k.own_pid)
      && is_mine port_min port_max k (k.uid_of pid)

  -- Some process of the list is the given one, of the user, and listens on the port.
  abbrev pub is_seen : ℤ → ℤ → List ℤ → Bool
  is_seen p q = any (λ pid. int_eq pid p && is_own pid && any (listens pid q) (fds_of k pid))

  count-fd_step :
      (pid p q : ℤ) (agg : List Listener) (fdi : Fd)
      → count p q (fd_step port_min port_max k pid agg fdi)
        ≡ (if int_eq pid p && listens pid q fdi && count p q agg == 0 then 1 else count p q agg)
  unfolding fd_step socket_step
  count-fd_step pid p q agg fdi =
      let info = k.inspect_fd pid fdi.fd in
      ground (
        arith,
        count-add_addr p q pid (pos info.port) (host_port info) agg,
        int_eq_iff (pos info.port) q,
      )

  count-fd_loop :
      (pid p q : ℤ) (agg : List Listener) (fds : List Fd)
      → count p q (fd_loop port_min port_max k pid agg fds) ≡ (
          if int_eq pid p && any (listens pid q) fds && count p q agg == 0
          then 1
          else count p q agg)
  unfolding fd_loop
  count-fd_loop pid p q agg [] = ground arith
  count-fd_loop pid p q agg (fdi ∷ fds) =
      let step = fd_step port_min port_max k pid agg fdi in
      ground (arith, count-fd_step pid p q agg fdi, count-fd_loop pid p q step fds)

  count-pid_step :
      (p q : ℤ) (agg : List Listener) (pid : ℤ)
      → count p q (pid_step port_min port_max k agg pid)
        ≡ (if is_seen p q (pid ∷ []) && count p q agg == 0 then 1 else count p q agg)
  unfolding pid_step
  count-pid_step p q agg pid = ground (arith, count-fd_loop pid p q agg (fds_of k pid))

  count-pid_loop :
      (p q : ℤ) (i : ℕ) (agg end : List Listener) (pids : List ℤ)
      → pid_loop port_min port_max k i agg pids ≡ some end
      → count p q end ≡ (if is_seen p q pids && count p q agg == 0 then 1 else count p q agg)
  unfolding pid_loop
  count-pid_loop p q i agg end [] h = let e : agg ≡ end = cc in ap (count p q) (sym e)
  count-pid_loop p q i agg end (pid ∷ pids) h = elim (Bool-cases (k.done_at i)) [
    | inl done ↦ cc (h, done)
    | inr live ↦
        let step = pid_step port_min port_max k agg pid in
        let rest : pid_loop port_min port_max k (suc i) step pids ≡ some end = ground (arith, h) in
        ground (arith, count-pid_step p q agg pid, count-pid_loop p q (suc i) step end pids rest)
  ]

  listens-bounds :
      (pid q : ℤ) (fds : List Fd)
      → any (listens pid q) fds ≡ true
      → (int_le port_min q ≡ true) × (int_le q port_max ≡ true)
  listens-bounds pid q [] h = cc
  listens-bounds pid q (fdi ∷ fds) h = ground (arith, h, listens-bounds pid q fds)

  -- A process that is seen is another one than the dashboard, and the port is in the range.
  is_seen-IsTarget :
      (p q : ℤ) (pids : List ℤ) → is_seen p q pids ≡ true → IsTarget port_min port_max k.own_pid p q
  is_seen-IsTarget p q [] h = cc
  is_seen-IsTarget p q (pid ∷ pids) h = elim (or_cases _ (is_seen p q pids) h) [
    | inr later ↦ is_seen-IsTarget p q pids later
    | inl here ↦
        let same : pid ≡ p = ground (arith, here, int_eq_iff pid p) in
        let owned : is_own pid ≡ true = ground (arith, here) in
        let positive : int_le pid (pos 0) ≡ false = ground (arith, owned) in
        let other : int_eq pid k.own_pid ≡ false = ground (arith, owned) in
        let found : any (listens pid q) (fds_of k pid) ≡ true = ground (arith, here) in
        let bounds = listens-bounds pid q (fds_of k pid) found in
        record {
          real = λ e. cc (ap (λ z. int_le z (pos 0)) (same ∙ e), positive);
          other = λ e. int_eq-apart pid k.own_pid other (same ∙ e);
          above = bounds.0;
          below = bounds.1;
        }
  ]

  -- What the walk over a list of processes reports: the processes and ports that are seen.
  pub record Walk (pids : List ℤ) (ls : List Listener) : Type 0 where
    pub report : Report port_min port_max k.own_pid ls
    pub exact : (p q : ℤ) → count p q ls ≡ (if is_seen p q pids then 1 else 0)

  Walk-pid_loop :
      (pids : List ℤ) (agg : List Listener)
      → pid_loop port_min port_max k 0 [] pids ≡ some agg
      → Walk pids (sort_listeners (with_sorted_addrs agg))
  Walk-pid_loop pids agg h =
      let gathered : (p q : ℤ) → count p q agg ≡ (if is_seen p q pids then 1 else 0) =
        λ p q. ground (arith, count-pid_loop p q 0 [] agg pids h) in
      record {
        report =
            Report-sorted port_min port_max k.own_pid agg
              (AllOn-count (IsTarget port_min port_max k.own_pid) agg λ p q some_there.
                is_seen-IsTarget p q pids (ground (arith, some_there, gathered p q)))
              (λ p q. ground (arith, gathered p q));
        exact = λ p q. omega (
          arith,
          count-sort_listeners p q (with_sorted_addrs agg),
          count-with_sorted_addrs p q agg,
          gathered p q,
        );
      }

  sorted-Walk :
      (pids : List ℤ) (o : Option (List Listener)) (ls : List Listener)
      → pid_loop port_min port_max k 0 [] pids ≡ o
      → sorted port_min port_max k o ≡ inl ls
      → Walk pids ls
  unfolding sorted
  sorted-Walk pids none ls e h = cc
  sorted-Walk pids (some agg) ls e h = subst (Walk pids) (cc) (Walk-pid_loop pids agg e)

  over_pids-Walk :
      (r : List ℤ ⊎ LibprocError) (ls : List Listener)
      → over_pids port_min port_max k r ≡ inl ls
      → (pids : List ℤ) × (r ≡ inl pids) × Walk pids ls
  unfolding over_pids
  over_pids-Walk (inl pids) ls h =
      (pids, refl, sorted-Walk pids (pid_loop port_min port_max k 0 [] pids) ls refl h)
  over_pids-Walk (inr e) ls h = cc

  -- If the scan by libproc succeeds, the system has listed its processes, and the scan reports a
  -- process and a port exactly once if one of these is the process, belongs to the user, is not the
  -- dashboard itself and has a socket that listens on the port, which is in the range; and it
  -- reports no other. The listeners are in the order of the ports and, on one port, of the process
  -- ids.
  pub scan_libproc-Walk :
      (ls : List Listener)
      → scan_libproc port_min port_max k ≡ inl ls
      → (pids : List ℤ) × (list_all_pids k ≡ inl pids) × Walk pids ls
  unfolding scan_libproc
  scan_libproc-Walk ls h = elim (Bool-cases k.done_before) [
    | inl done ↦ cc (h, done)
    | inr live ↦
        let e : scan_libproc port_min port_max k ≡ over_pids port_min port_max k (list_all_pids k) =
          simp live refl in
        over_pids-Walk (list_all_pids k) ls (sym e ∙ h)
  ]
