-- ===== src/Prelude/Dict.antt =====
-- Go maps with string keys, as association lists. The order of the list is the order in which one
-- `range` loop visits the map, so a statement over every list covers every order of iteration.
use Prim.Native.Nat.{◌+◌, ◌≤◌, ◌<◌}
use mathlib.Core.Path.{◌≡◌, refl, subst}
use mathlib.Core.Logic.{◌≢◌, inl, inr}
use mathlib.Core.List.{List, [], ◌∷◌}
use mathlib.Core.Option.{Option, none, some}
use native.Mathlib.Omega.{arith}
use my_home_index_server.Prelude.Tests.{Bool-cases, if◌then◌else◌}
use my_home_index_server.Prelude.Lists.{length, All}
use my_home_index_server.Prelude.Bytes.{Bytes, bytes_eq, bytes_eq_iff, bytes_eq_refl}

abbrev pub Dict {ℓ} : Type ℓ → Type ℓ
Dict V = List (Bytes × V)

module _ {ℓ} {V : Type ℓ} where
  -- v, ok := m[k]
  unfoldable pub lookup : Bytes → Dict V → Option V
  lookup k [] = none
  lookup k ((j, v) ∷ m) = if bytes_eq j k then some v else lookup k m

  -- m[k] = v
  unfoldable pub insert : Bytes → V → Dict V → Dict V
  insert k v [] = (k, v) ∷ []
  insert k v ((j, w) ∷ m) = if bytes_eq j k then (k, v) ∷ m else (j, w) ∷ insert k v m

  -- delete(m, k)
  unfoldable pub delete : Bytes → Dict V → Dict V
  delete k [] = []
  delete k ((j, w) ∷ m) = let rest = delete k m in if bytes_eq j k then rest else (j, w) ∷ rest

  pub lookup-insert :
      (key other : Bytes) (value : V) (d : Dict V)
      → lookup other (insert key value d)
        ≡ (if bytes_eq key other then some value else lookup other d)
  unfolding lookup insert
  lookup-insert key other value [] = refl
  lookup-insert key other value ((first, w) ∷ d) =
      let rest = lookup-insert key other value d in
      ground (arith, rest, bytes_eq_iff first key, bytes_eq_iff first other, bytes_eq_iff key other)

  pub lookup-delete :
      (k j : Bytes) (m : Dict V)
      → lookup j (delete k m) ≡ (if bytes_eq k j then none else lookup j m)
  unfolding lookup delete
  lookup-delete k j [] = ground arith
  lookup-delete k j ((i, w) ∷ m) =
      ground (arith, bytes_eq_iff k j, bytes_eq_iff i k, bytes_eq_iff i j, lookup-delete k j m)

  -- Each key stands once in the list, as in a Go map.
  abbrev pub Distinct : Dict V → Type ℓ
  Distinct [] = Unit
  Distinct ((k, v) ∷ m) = (lookup k m ≡ none) × Distinct m

  pub insert-Distinct : (k : Bytes) (v : V) (m : Dict V) → Distinct m → Distinct (insert k v m)
  unfolding insert lookup
  insert-Distinct k v [] h = (refl, tt)
  insert-Distinct k v ((j, w) ∷ m) h =
      ground (
        arith,
        bytes_eq_iff j k,
        bytes_eq_iff k j,
        lookup-insert k j v m,
        insert-Distinct k v m h.1,
      )

  pub delete-Distinct : (k : Bytes) (m : Dict V) → Distinct m → Distinct (delete k m)
  unfolding delete lookup
  delete-Distinct k [] h = tt
  delete-Distinct k ((j, w) ∷ m) h = ground (arith, lookup-delete k j m, delete-Distinct k m h.1)

  pub length-delete-le : (k : Bytes) (m : Dict V) → length (delete k m) ≤ length m
  unfolding delete
  length-delete-le k [] = omega arith
  length-delete-le k ((j, w) ∷ m) = ground (arith, length-delete-le k m)

  pub length-insert-le : (k : Bytes) (v : V) (m : Dict V) → length (insert k v m) ≤ length m + 1
  unfolding insert
  length-insert-le k v [] = omega arith
  length-insert-le k v ((j, w) ∷ m) = ground (arith, length-insert-le k v m)

  -- Overwriting a key that is there does not grow the map.
  pub length-insert_present :
      (k : Bytes) (v : V) (m : Dict V) → lookup k m ≢ none → length (insert k v m) ≡ length m
  unfolding insert lookup
  length-insert_present k v [] h = absurd (h refl)
  length-insert_present k v ((j, w) ∷ m) h = ground (arith, length-insert_present k v m)

  -- A key found further down is not the key at the head.
  pub lookup_later :
      (i j : Bytes) (w v : V) (m : Dict V)
      → lookup i m ≡ none
      → lookup j m ≡ some v
      → lookup j ((i, w) ∷ m) ≡ some v
  unfolding lookup
  lookup_later i j w v m absent found = ground (arith, bytes_eq_iff i j)

  pub lookup_head : (i : Bytes) (w : V) (m : Dict V) → lookup i ((i, w) ∷ m) ≡ some w
  unfolding lookup
  lookup_head i w m = rw (bytes_eq_refl i)

  pub length-delete_present :
      (k : Bytes) (v : V) (m : Dict V) → lookup k m ≡ some v → length (delete k m) < length m
  unfolding lookup delete
  length-delete_present k v [] h = cc
  length-delete_present k v ((j, w) ∷ m) h =
      ground (arith, length-delete-le k m, length-delete_present k v m)

-- What holds of every entry holds of a value that is found.
pub lookup-All {ℓ κ} :
    {V : Type ℓ} (P : Bytes → V → Type κ) (m : Dict V) (k : Bytes) (v : V)
    → All (λ e. P (e.0) (e.1)) m
    → lookup k m ≡ some v
    → P k v
unfolding lookup
lookup-All P [] k v h e = cc
lookup-All P ((j, w) ∷ m) k v h e = elim (Bool-cases (bytes_eq j k)) [
  | inl same ↦
      let key : j ≡ k = (bytes_eq_iff j k).0 same in
      let value : w ≡ v = cc (e, same) in subst (P k) value (subst (λ i. P i w) key h.0)
  | inr other ↦ lookup-All P m k v h.1 (cc (e, other))
]
