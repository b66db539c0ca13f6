-- ===== src/Server/Mutations/Resolving.antt =====
-- Which process a handler takes for the one on a port (resolvePIDForPort of
-- internal/server/mutation_handlers.go).
use my_home_index_server.Prelude.{◌≡◌, ◌≢◌, inl, inr, some, List, [], ◌∷◌}
use my_home_index_server.Prelude.Tests.{Bool-cases}
use my_home_index_server.Prelude.Int.{ℤ, int_eq, int_eq_iff, int_eq-apart}
use my_home_index_server.Process.{Listener}
use my_home_index_server.Server.Mutations.{pid_on}

-- The first listener of the list that has the port belongs to the process.
pub data FirstOn (port pid : ℤ) : List Listener → Type 0 where
  here :
      (l : Listener) (ls : List Listener) → l.port ≡ port → l.pid ≡ pid → FirstOn port pid (l ∷ ls)
  there :
      (l : Listener) (ls : List Listener)
      → l.port ≢ port
      → FirstOn port pid ls
      → FirstOn port pid (l ∷ ls)

pub pid_on-FirstOn :
    (port pid : ℤ) (ls : List Listener) → pid_on port ls ≡ some pid → FirstOn port pid ls
unfolding pid_on
pid_on-FirstOn port pid [] h = cc
pid_on-FirstOn port pid (l ∷ ls) h = elim (Bool-cases (int_eq l.port port)) [
  | inl same ↦ FirstOn.here l ls ((int_eq_iff l.port port).0 same) (cc (rw same at h))
  | inr differs ↦
      FirstOn.there l ls (int_eq-apart l.port port differs)
        (pid_on-FirstOn port pid ls (rw differs at h))
]
