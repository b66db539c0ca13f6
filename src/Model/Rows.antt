-- ===== src/Model/Rows.antt =====
-- The order and the origin of the rows.
use mathlib.Core.List.{map}
use my_home_index_server.Prelude.{
  ℕ, ◌≡◌, ◌≢◌, refl, ap, ◌∙◌, Bool, true, false, not, ◌&&◌, Option, List, [], ◌∷◌, arith, inl, inr,
}
use my_home_index_server.Prelude.Tests.{Bool-cases}
use my_home_index_server.Prelude.Lists.{length, select, All}
use my_home_index_server.Prelude.Int.{ℤ, pos, int_eq, int_le, int_eq_iff, int_le_trans}
use my_home_index_server.Prelude.Time.{Time, Duration}
use my_home_index_server.Store.{Store, Host}
use my_home_index_server.Process.{Listener}
use my_home_index_server.Model.{
  PortVm, bare, with_info, with_inspected, build_one, build_rows, insert_row, sort_rows,
  build_view_models,
}
use my_home_index_server.Inspector.{Inspected}

-- No row of the list has a smaller port.
abbrev pub LeastPort : ℤ → List PortVm → Type 0
LeastPort port = All (λ r. int_le port r.port ≡ true)

abbrev pub IsSorted : List PortVm → Type 0
IsSorted [] = Unit
IsSorted (r ∷ rs) = LeastPort r.port rs × IsSorted rs

int_le_total : (a b : ℤ) → int_le a b ≡ false → int_le b a ≡ true
int_le_total a b h = ground arith

LeastPort-trans : (p q : ℤ) (rs : List PortVm) → int_le p q ≡ true → LeastPort q rs → LeastPort p rs
LeastPort-trans p q [] h k = tt
LeastPort-trans p q (r ∷ rs) h k = (int_le_trans p q r.port h k.0, LeastPort-trans p q rs h k.1)

LeastPort-insert_row :
    (p : ℤ) (r : PortVm) (rs : List PortVm)
    → int_le p r.port ≡ true
    → LeastPort p rs
    → LeastPort p (insert_row r rs)
unfolding insert_row
LeastPort-insert_row p r [] h k = (h, tt)
LeastPort-insert_row p r (x ∷ xs) h k = ground (arith, LeastPort-insert_row p r xs h k.1)

insert_row-IsSorted : (r : PortVm) (rs : List PortVm) → IsSorted rs → IsSorted (insert_row r rs)
unfolding insert_row
insert_row-IsSorted r [] h = (tt, tt)
insert_row-IsSorted r (x ∷ xs) h = elim (Bool-cases (int_le r.port x.port)) [
  | inl le ↦ simp le ((refl, LeastPort-trans r.port x.port xs le h.0), h)
  | inr gt ↦ simp gt (
    LeastPort-insert_row x.port r xs (int_le_total r.port x.port gt) h.0,
    insert_row-IsSorted r xs h.1,
  )
]

sort_rows-IsSorted : (rs : List PortVm) → IsSorted (sort_rows rs)
unfolding sort_rows
sort_rows-IsSorted [] = tt
sort_rows-IsSorted (r ∷ rs) = insert_row-IsSorted r (sort_rows rs) (sort_rows-IsSorted rs)

-- How many rows pass a test.
abbrev pub count : (PortVm → Bool) → List PortVm → ℕ
count p rs = length (select p rs)

count-insert_row :
    (p : PortVm → Bool) (r : PortVm) (rs : List PortVm)
    → count p (insert_row r rs) ≡ count p (r ∷ rs)
unfolding insert_row
count-insert_row p r [] = refl
count-insert_row p r (x ∷ xs) = ground (arith, count-insert_row p r xs)

count-sort_rows : (p : PortVm → Bool) (rs : List PortVm) → count p (sort_rows rs) ≡ count p rs
unfolding sort_rows
count-sort_rows p [] = refl
count-sort_rows p (r ∷ rs) =
    let e = count-sort_rows p rs in ground (arith, count-insert_row p r (sort_rows rs))

module _ (P : PortVm → Type 0) where
  All-insert_row : (r : PortVm) (rs : List PortVm) → P r → All P rs → All P (insert_row r rs)
  unfolding insert_row
  All-insert_row r [] h k = (h, tt)
  All-insert_row r (x ∷ xs) h k = ground (arith, All-insert_row r xs h k.1)

  All-sort_rows : (rs : List PortVm) → All P rs → All P (sort_rows rs)
  unfolding sort_rows
  All-sort_rows [] h = tt
  All-sort_rows (r ∷ rs) h = All-insert_row r (sort_rows rs) h.0 (All-sort_rows rs h.1)

build_one-pid :
    (host : Host) (ws : Duration → ℕ) (insp : Option (ℤ → Inspected)) (st : Option Store)
    (now : Time) (l : Listener)
    → (build_one host ws insp st now l).pid ≡ l.pid
unfolding build_one with_inspected with_info bare
build_one-pid host ws insp st now l = ground arith

-- The listeners that get a row.
abbrev pub has_row : ℤ → Listener → Bool
has_row self l = not (int_eq l.pid self) && not (int_eq l.port (pos 0) && int_eq l.pid (pos 0))

build_rows-map :
    (host : Host) (ws : Duration → ℕ) (insp : Option (ℤ → Inspected)) (st : Option Store) (self : ℤ)
    (now : Time) (ls : List Listener)
    → build_rows host ws insp st self now ls
      ≡ map (build_one host ws insp st now) (select (has_row self) ls)
unfolding build_rows
build_rows-map host ws insp st self now [] = refl
build_rows-map host ws insp st self now (l ∷ ls) =
    ground (arith, build_rows-map host ws insp st self now ls)

others-pid :
    (host : Host) (ws : Duration → ℕ) (insp : Option (ℤ → Inspected)) (st : Option Store) (self : ℤ)
    (now : Time) (ls : List Listener)
    → All (λ r. r.pid ≢ self) (build_rows host ws insp st self now ls)
unfolding build_rows
others-pid host ws insp st self now [] = tt
others-pid host ws insp st self now (l ∷ ls) = ground (
  arith,
  others-pid host ws insp st self now ls,
  build_one-pid host ws insp st now l,
  int_eq_iff l.pid self,
)

-- What the dashboard shows for the listeners of a scan.
pub record Dashboard (host : Host) (ws : Duration → ℕ) (insp : Option (ℤ → Inspected))
    (st : Option Store) (self : ℤ) (now : Time) (ls : List Listener) (rows : List PortVm)
    : Type 0 where
  pub sorted : IsSorted rows
  pub others : All (λ r. r.pid ≢ self) rows
  pub complete :
      (p : PortVm → Bool)
      → count p rows ≡ count p (map (build_one host ws insp st now) (select (has_row self) ls))

-- `BuildViewModels` gives rows in the order of their ports, none of them of this process, and with as
-- many of every kind as the rows of the single listeners of other processes have.
pub build_view_models-Dashboard :
    (host : Host) (ws : Duration → ℕ) (insp : Option (ℤ → Inspected)) (st : Option Store) (self : ℤ)
    (now : Time) (ls : List Listener)
    → Dashboard host ws insp st self now ls (build_view_models host ws insp st self now ls)
unfolding build_view_models
build_view_models-Dashboard host ws insp st self now ls =
    let rows = build_rows host ws insp st self now ls in
    record {
      sorted = sort_rows-IsSorted rows;
      others = All-sort_rows (λ r. r.pid ≢ self) rows (others-pid host ws insp st self now ls);
      complete =
          λ p. count-sort_rows p rows ∙ ap (count p) (build_rows-map host ws insp st self now ls);
    }
