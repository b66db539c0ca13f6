-- ===== src/Command/Roots.antt =====
-- Where the state of a configured directory is kept.
use mathlib.Core.Option
use my_home_index_server.Prelude.{
  ℕ, ◌≡◌, refl, sym, ap, ◌∙◌, inl, inr, false, Option, none, some, [], ◌∷◌, ◌++◌, arith,
}
use my_home_index_server.Prelude.Tests.{Bool-cases, if◌then◌else◌}
use my_home_index_server.Prelude.Lists.{All}
use my_home_index_server.Prelude.Bytes.{Bytes, codes, bytes_eq, bytes_eq_iff}
use my_home_index_server.Command.{
  is_separator, after_separator, basename_of, before_separator, parent_of, parent_from, or_whole,
  store_root, state_dir_of,
}

-- A text without a separator.
abbrev pub IsPlain : Bytes → Type 0
IsPlain = All (λ b. is_separator b ≡ false)

after_separator-plain : (p : Bytes) → IsPlain p → after_separator p ≡ none
unfolding after_separator
after_separator-plain [] h = refl
after_separator-plain (b ∷ p) h = rw (after_separator-plain p h.1, h.0) refl

before_separator-plain : (p : Bytes) → IsPlain p → before_separator p ≡ none
unfolding before_separator
before_separator-plain [] h = refl
before_separator-plain (b ∷ p) h = rw (before_separator-plain p h.1, h.0) refl

after_separator-append :
    (front base : Bytes) → IsPlain base → after_separator (front ++ (b'/' ∷ base)) ≡ some base
unfolding after_separator
after_separator-append [] base h = rw (after_separator-plain base h) refl
after_separator-append (b ∷ front) base h = rw (after_separator-append front base h) refl

before_separator-append :
    (front base : Bytes) → IsPlain base → before_separator (front ++ (b'/' ∷ base)) ≡ some front
unfolding before_separator
before_separator-append [] base h = rw (before_separator-plain base h) refl
before_separator-append (b ∷ front) base h = rw (before_separator-append front base h) refl

basename-append : (front base : Bytes) → IsPlain base → basename_of (front ++ (b'/' ∷ base)) ≡ base
unfolding basename_of or_whole
basename-append front base h = rw (after_separator-append front base h) refl

IsPlain-dir : IsPlain (codes ".port-manager")
IsPlain-dir = ground arith

root_of :
    (b : ℕ) (front base : Bytes) (home : Option Bytes)
    → IsPlain base
    → store_root ((b ∷ front) ++ (b'/' ∷ base)) home ≡ (
        if bytes_eq base (codes ".port-manager")
        then some (b ∷ front)
        else some ((b ∷ front) ++ (b'/' ∷ base)))
unfolding store_root parent_of parent_from
root_of b front base home h =
    rw (basename-append (b ∷ front) base h, before_separator-append front base h) refl

joined :
    (b : ℕ) (front base : Bytes)
    → Option.map state_dir_of (
        if bytes_eq base (codes ".port-manager")
        then some (b ∷ front)
        else some ((b ∷ front) ++ (b'/' ∷ base)))
      ≡ (if bytes_eq base (codes ".port-manager")
          then some ((b ∷ front) ++ (b'/' ∷ base))
          else some (((b ∷ front) ++ (b'/' ∷ base)) ++ codes "/.port-manager"))
joined b front base = elim (Bool-cases (bytes_eq base (codes ".port-manager"))) [
  | inl same ↦
      let base_is : base ≡ codes ".port-manager" =
        (bytes_eq_iff base (codes ".port-manager")).0 same in
      rw same (ap (λ (t : Bytes). some ((b ∷ front) ++ (b'/' ∷ t))) (sym base_is))
  | inr differs ↦ rw differs refl
]

-- For a configured directory `front/base`, whose front is not empty and whose base has no separator:
-- if the base is .port-manager, the root that `Open` gets is the front, and the directory that it joins
-- to is the configured one; otherwise the root is the configured directory, and the state is kept in
-- .port-manager below it. The join does not clean the path here.
pub store_root-append :
    (b : ℕ) (front base : Bytes) (home : Option Bytes)
    → IsPlain base
    → (store_root ((b ∷ front) ++ (b'/' ∷ base)) home ≡ (
        if bytes_eq base (codes ".port-manager")
        then some (b ∷ front)
        else some ((b ∷ front) ++ (b'/' ∷ base))))
      × (Option.map state_dir_of (store_root ((b ∷ front) ++ (b'/' ∷ base)) home) ≡ (
          if bytes_eq base (codes ".port-manager")
          then some ((b ∷ front) ++ (b'/' ∷ base))
          else some (((b ∷ front) ++ (b'/' ∷ base)) ++ codes "/.port-manager")))
store_root-append b front base home h = (
  root_of b front base home h,
  ap (Option.map state_dir_of) (root_of b front base home h) ∙ joined b front base,
)

-- The directory itself, in the root of the file system: its parent is taken for the current one.
pub store_root-top :
    (home : Option Bytes) → store_root (codes "/.port-manager") home ≡ some (codes ".")
unfolding store_root basename_of or_whole after_separator parent_of parent_from before_separator
    bytes_eq
store_root-top home = refl
