-- ===== src/Scanner/Lsof/Order.antt =====
-- The order of the listeners in a scan.
use my_home_index_server.Prelude.{◌≡◌, refl, inl, inr, true, false, List, [], ◌∷◌, arith}
use my_home_index_server.Prelude.Tests.{Bool-cases}
use my_home_index_server.Prelude.Lists.{All}
use my_home_index_server.Prelude.Int.{int_eq_iff, int_le_trans}
use my_home_index_server.Process.{Listener}
use my_home_index_server.Scanner.Lsof.{before_or_same, insert_listener, sort_listeners}

-- No listener of the list comes before `l`.
abbrev pub NoneBefore : Listener → List Listener → Type 0
NoneBefore l = All (λ m. before_or_same l m ≡ true)

abbrev pub InOrder : List Listener → Type 0
InOrder [] = Unit
InOrder (l ∷ ls) = NoneBefore l ls × InOrder ls

before_total : (a b : Listener) → before_or_same a b ≡ false → before_or_same b a ≡ true
before_total a b h = ground (arith, int_eq_iff a.port b.port, int_eq_iff b.port a.port)

before_trans :
    (a b c : Listener)
    → before_or_same a b ≡ true
    → before_or_same b c ≡ true
    → before_or_same a c ≡ true
before_trans a b c h k = ground (
  arith,
  int_eq_iff a.port b.port,
  int_eq_iff b.port c.port,
  int_eq_iff a.port c.port,
  int_le_trans a.port b.port c.port,
  int_le_trans a.pid b.pid c.pid,
)

NoneBefore-trans :
    (a b : Listener) (ls : List Listener)
    → before_or_same a b ≡ true
    → NoneBefore b ls
    → NoneBefore a ls
NoneBefore-trans a b [] h k = tt
NoneBefore-trans a b (l ∷ ls) h k = (before_trans a b l h k.0, NoneBefore-trans a b ls h k.1)

NoneBefore-insert_listener :
    (a l : Listener) (ls : List Listener)
    → before_or_same a l ≡ true
    → NoneBefore a ls
    → NoneBefore a (insert_listener l ls)
unfolding insert_listener
NoneBefore-insert_listener a l [] h k = (h, tt)
NoneBefore-insert_listener a l (m ∷ ms) h k = elim (Bool-cases (before_or_same l m)) [
  | inl first ↦ simp first (h, k)
  | inr later ↦ simp later (k.0, NoneBefore-insert_listener a l ms h k.1)
]

insert_listener-InOrder :
    (l : Listener) (ls : List Listener) → InOrder ls → InOrder (insert_listener l ls)
unfolding insert_listener
insert_listener-InOrder l [] h = (tt, tt)
insert_listener-InOrder l (m ∷ ms) h = elim (Bool-cases (before_or_same l m)) [
  | inl first ↦ simp first ((refl, NoneBefore-trans l m ms first h.0), h)
  | inr later ↦ simp later (
    NoneBefore-insert_listener m l ms (before_total l m later) h.0,
    insert_listener-InOrder l ms h.1,
  )
]

pub sort_listeners-InOrder : (ls : List Listener) → InOrder (sort_listeners ls)
unfolding sort_listeners
sort_listeners-InOrder [] = tt
sort_listeners-InOrder (l ∷ ls) =
    insert_listener-InOrder l (sort_listeners ls) (sort_listeners-InOrder ls)
