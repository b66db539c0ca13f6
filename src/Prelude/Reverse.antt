-- ===== src/Prelude/Reverse.antt =====
-- Lists backwards: the newest first.
use mathlib.Core.List.{reverse, map, reverse-cons, List, [], ◌∷◌, ◌++◌, append-nil}
use mathlib.Core.Path.{◌≡◌, refl, sym, ap, ◌∙◌}
use mathlib.Core.Logic.{inl, inr}
use mathlib.Core.Bool.{Bool, false}
use Prim.Native.Nat.{ℕ, zero, suc, ◌-◌, ◌≤◌}
use native.Mathlib.Omega.{arith}
use my_home_index_server.Prelude.Tests.{leb, leb→le, leb→lt, Bool-cases}
use my_home_index_server.Prelude.Lists.{
  length, take, drop, select, length-append, select-append, drop_excess,
}

suc_sub : (n m : ℕ) → leb (suc m) n ≡ false → suc m - n ≡ suc (m - n)
suc_sub n m h = omega (arith, leb→lt (suc m) n h)

module _ {ℓ} {A : Type ℓ} where
  drop_nil : (n : ℕ) → drop {A = A} n [] ≡ []
  drop_nil zero = refl
  drop_nil (suc n) = refl

  take_all : (n : ℕ) (xs : List A) → length xs ≤ n → take n xs ≡ xs
  take_all zero [] h = refl
  take_all zero (x ∷ xs) h = elim h [ ]
  take_all (suc n) [] h = refl
  take_all (suc n) (x ∷ xs) h = ap (◌∷◌ x) (take_all n xs (omega arith))

  take-append_le : (n : ℕ) (xs ys : List A) → n ≤ length xs → take n (xs ++ ys) ≡ take n xs
  take-append_le zero xs ys h = refl
  take-append_le (suc n) [] ys h = elim h [ ]
  take-append_le (suc n) (x ∷ xs) ys h = ap (◌∷◌ x) (take-append_le n xs ys (omega arith))

  length-reverse : (l : List A) → length (reverse l) ≡ length l
  length-reverse [] = refl
  length-reverse (a ∷ l) =
      rw (reverse-cons a l) (omega (arith, length-reverse l, length-append (reverse l) (a ∷ [])))

  -- The last `n` elements backwards are the first `n` of the reversed list.
  pub reverse-drop_excess :
      (n : ℕ) (xs : List A) → reverse (drop (length xs - n) xs) ≡ take n (reverse xs)
  reverse-drop_excess n [] = rw (drop_nil (0 - n)) (sym (take_all n [] (omega arith)))
  reverse-drop_excess n (x ∷ xs) = elim (Bool-cases (leb (suc (length xs)) n)) [
    | inl few ↦ rw (drop_excess n (x ∷ xs) (leb→le _ _ few)) (
        sym
          (take_all n (reverse (x ∷ xs)) (omega (arith, length-reverse (x ∷ xs), leb→le _ _ few))))
    | inr many ↦
        let e = suc_sub n (length xs) many in
        rw (e, reverse-cons x xs)
          (reverse-drop_excess n xs
            ∙ sym (
                take-append_le n (reverse xs) (x ∷ [])
                  (omega (arith, length-reverse xs, leb→lt _ _ many))))
  ]

  pub select-reverse : (p : A → Bool) (xs : List A) → select p (reverse xs) ≡ reverse (select p xs)
  select-reverse p [] = refl
  select-reverse p (x ∷ xs) =
      rw (reverse-cons x xs, select-append p (reverse xs), select-reverse p xs)
        (elim (Bool-cases (p x)) [
          | inl hit ↦ rw hit (sym (reverse-cons x (select p xs)))
          | inr miss ↦ rw miss (append-nil (reverse (select p xs)))
        ])

  pub take-map {κ} :
      {B : Type κ} (f : A → B) (n : ℕ) (xs : List A) → take n (map f xs) ≡ map f (take n xs)
  take-map f zero xs = refl
  take-map f (suc n) [] = refl
  take-map f (suc n) (x ∷ xs) = ap (◌∷◌ (f x)) (take-map f n xs)
