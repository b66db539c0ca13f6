-- ===== src/Prelude/Table.antt =====
-- Facts about small numbers, checked by evaluation at every value.
use my_home_index_server.Prelude.Tests.{◌==◌, ==_iff, if◌then◌else◌}
use Prim.Native.Nat.{ℕ, zero, suc, ◌<◌}
use mathlib.Core.Bool.{Bool, true, false}
use mathlib.Core.Path.{◌≡◌}
use native.Mathlib.Omega.{arith}

-- The test passes at every number under the bound.
unfoldable pub passes_below : ℕ → (ℕ → Bool) → Bool
passes_below zero test = true
passes_below (suc top) test = let rest = passes_below top test in if test top then rest else false

pub passes_below-lt :
    (bound : ℕ) (test : ℕ → Bool) (i : ℕ)
    → passes_below bound test ≡ true
    → i < bound
    → test i ≡ true
unfolding passes_below
passes_below-lt zero test i passed under = elim under [ ]
passes_below-lt (suc top) test i passed under = ground (arith, passes_below-lt top test i)

pub equal_below :
    (n : ℕ) (f g : ℕ → ℕ) (x : ℕ) → passes_below n (λ y. f y == g y) ≡ true → x < n → f x ≡ g x
equal_below n f g x h lt = (==_iff (f x) (g x)).0 (passes_below-lt n (λ y. f y == g y) x h lt)
