-- ===== src/Scanner/Aggregate.antt =====
-- The listeners of a scan, one for each process and port: counting them, and what holds of them all.
use my_home_index_server.Prelude.{
  ℕ, ◌≡◌, ◌≢◌, ◌≤◌, refl, true, inl, inr, ◌&&◌, List, [], ◌∷◌, arith,
}
use my_home_index_server.Prelude.Tests.{◌==◌, Bool-cases, if◌then◌else◌}
use my_home_index_server.Prelude.Lists.{length, select, All}
use my_home_index_server.Prelude.Bytes.{Bytes}
use my_home_index_server.Prelude.Int.{ℤ, pos, int_eq, int_le, int_eq_iff}
use my_home_index_server.Process.{Listener}
use my_home_index_server.Scanner.Lsof.Order.{InOrder, sort_listeners-InOrder}
use my_home_index_server.Scanner.Lsof.{
  same_key, add_addr, before_or_same, insert_listener, sort_listeners, with_sorted_addrs,
}

-- How many listeners have a process id and a port.
abbrev pub count : ℤ → ℤ → List Listener → ℕ
count pid port ls = length (select (same_key pid port) ls)

pub count-add_addr :
    (p q pid port : ℤ) (addr : Bytes) (ls : List Listener)
    → count p q (add_addr pid port addr ls)
      ≡ (if int_eq pid p && int_eq port q && count p q ls == 0 then 1 else count p q ls)
unfolding add_addr
count-add_addr p q pid port addr [] = ground arith
count-add_addr p q pid port addr (l ∷ ls) = ground (
  arith,
  count-add_addr p q pid port addr ls,
  int_eq_iff pid p,
  int_eq_iff port q,
  int_eq_iff l.pid pid,
  int_eq_iff l.port port,
  int_eq_iff l.pid p,
  int_eq_iff l.port q,
)

count-insert_listener :
    (p q : ℤ) (l : Listener) (ls : List Listener)
    → count p q (insert_listener l ls) ≡ count p q (l ∷ ls)
unfolding insert_listener
count-insert_listener p q l [] = refl
count-insert_listener p q l (m ∷ ms) = ground (arith, count-insert_listener p q l ms)

pub count-sort_listeners :
    (p q : ℤ) (ls : List Listener) → count p q (sort_listeners ls) ≡ count p q ls
unfolding sort_listeners
count-sort_listeners p q [] = refl
count-sort_listeners p q (l ∷ ls) =
    let rest = count-sort_listeners p q ls in
    ground (arith, count-insert_listener p q l (sort_listeners ls))

pub count-with_sorted_addrs :
    (p q : ℤ) (ls : List Listener) → count p q (with_sorted_addrs ls) ≡ count p q ls
unfolding with_sorted_addrs
count-with_sorted_addrs p q [] = refl
count-with_sorted_addrs p q (l ∷ ls) = ground (arith, count-with_sorted_addrs p q ls)

-- A property of the process and the port of every listener.
abbrev pub AllOn : (ℤ → ℤ → Type 0) → List Listener → Type 0
AllOn P = All (λ l. P l.pid l.port)

module _ (P : ℤ → ℤ → Type 0) where
  pub AllOn-add_addr :
      (pid port : ℤ) (addr : Bytes) (ls : List Listener)
      → P pid port
      → AllOn P ls
      → AllOn P (add_addr pid port addr ls)
  unfolding add_addr
  AllOn-add_addr pid port addr [] new h = (new, tt)
  AllOn-add_addr pid port addr (l ∷ ls) new h = elim (Bool-cases (same_key pid port l)) [
    | inl same ↦ simp same (h.0, h.1)
    | inr differs ↦ simp differs (h.0, AllOn-add_addr pid port addr ls new h.1)
  ]

  AllOn-insert_listener :
      (l : Listener) (ls : List Listener)
      → P l.pid l.port
      → AllOn P ls
      → AllOn P (insert_listener l ls)
  unfolding insert_listener
  AllOn-insert_listener l [] h k = (h, tt)
  AllOn-insert_listener l (m ∷ ms) h k = elim (Bool-cases (before_or_same l m)) [
    | inl first ↦ simp first (h, k)
    | inr later ↦ simp later (k.0, AllOn-insert_listener l ms h k.1)
  ]

  pub AllOn-sort_listeners : (ls : List Listener) → AllOn P ls → AllOn P (sort_listeners ls)
  unfolding sort_listeners
  AllOn-sort_listeners [] h = tt
  AllOn-sort_listeners (l ∷ ls) h =
      AllOn-insert_listener l (sort_listeners ls) h.0 (AllOn-sort_listeners ls h.1)

  pub AllOn-with_sorted_addrs : (ls : List Listener) → AllOn P ls → AllOn P (with_sorted_addrs ls)
  unfolding with_sorted_addrs
  AllOn-with_sorted_addrs [] h = tt
  AllOn-with_sorted_addrs (l ∷ ls) h = (h.0, AllOn-with_sorted_addrs ls h.1)

count_of_head : (l : Listener) (ls : List Listener) → 1 ≤ count l.pid l.port (l ∷ ls)
count_of_head l ls = ground (arith, int_eq_iff l.pid l.pid, int_eq_iff l.port l.port)

-- What holds of every process and port that is there holds of all listeners.
pub AllOn-count :
    (P : ℤ → ℤ → Type 0) (ls : List Listener) → ((p q : ℤ) → 1 ≤ count p q ls → P p q) → AllOn P ls
AllOn-count P [] h = tt
AllOn-count P (l ∷ ls) h =
    (h l.pid l.port (count_of_head l ls), AllOn-count P ls λ p q k. h p q (ground (arith, k)))

-- A process other than the excluded one, and a port in the range.
pub record IsTarget (port_min port_max exclude pid port : ℤ) : Type 0 where
  pub real : pid ≢ pos 0
  pub other : pid ≢ exclude
  pub above : int_le port_min port ≡ true
  pub below : int_le port port_max ≡ true

-- What a scan can report.
pub record Report (port_min port_max exclude : ℤ) (ls : List Listener) : Type 0 where
  pub targets : AllOn (IsTarget port_min port_max exclude) ls
  pub once : (pid port : ℤ) → count pid port ls ≤ 1
  pub in_order : InOrder ls

-- The end of a scan makes a report of the listeners that were gathered.
pub Report-sorted :
    (port_min port_max exclude : ℤ) (agg : List Listener)
    → AllOn (IsTarget port_min port_max exclude) agg
    → ((pid port : ℤ) → count pid port agg ≤ 1)
    → Report port_min port_max exclude (sort_listeners (with_sorted_addrs agg))
Report-sorted port_min port_max exclude agg targets once = record {
  targets =
      AllOn-sort_listeners (IsTarget port_min port_max exclude) (with_sorted_addrs agg)
        (AllOn-with_sorted_addrs (IsTarget port_min port_max exclude) agg targets);
  once = λ p q. omega (
    arith,
    count-sort_listeners p q (with_sorted_addrs agg),
    count-with_sorted_addrs p q agg,
    once p q,
  );
  in_order = sort_listeners-InOrder (with_sorted_addrs agg);
}
