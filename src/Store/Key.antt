-- ===== src/Store/Key.antt =====
-- `LabelKey` of internal/store/store.go: the identifier of a working directory and an argv.
use mathlib.Core.Path.{subst}
use my_home_index_server.Prelude.{ℕ, ◌+◌, ◌-◌, ◌/◌, ◌%◌, ◌≡◌, refl, sym, List, [], ◌∷◌, ◌++◌}
use my_home_index_server.Prelude.Tests.{ltb, if◌then◌else◌}
use my_home_index_server.Prelude.Lists.{take, All}
use my_home_index_server.Prelude.Bytes.{Bytes, join, Lacks}
use my_home_index_server.Store.{Host}

abbrev hex_digit : ℕ → ℕ
hex_digit d = if ltb d 10 then b'0' + d else b'a' + (d - 10)

-- hex.EncodeToString
unfoldable pub hex : Bytes → Bytes
hex [] = []
hex (b ∷ s) = hex_digit (b / 16) ∷ hex_digit (b % 16) ∷ hex s

-- The text that is hashed.
unfoldable pub key_input : Bytes → List Bytes → Bytes
key_input cwd command = cwd ++ (0 ∷ join command (0 ∷ []))

unfoldable pub label_key : Host → Bytes → List Bytes → Bytes
unfolding hex key_input
label_key host cwd command = take 16 (hex (host.sha256 (key_input cwd command)))

-- A prefix without NUL in front of a NUL is determined by the whole.
split_at_nul :
    (a b x y : Bytes) → Lacks 0 a → Lacks 0 b → a ++ (0 ∷ x) ≡ b ++ (0 ∷ y) → (a ≡ b) × (x ≡ y)
split_at_nul [] [] x y ha hb e = (refl, cc)
split_at_nul [] (c ∷ b) x y ha hb e = absurd (hb.0 (cc))
split_at_nul (c ∷ a) [] x y ha hb e = absurd (ha.0 (cc))
split_at_nul (c ∷ a) (d ∷ b) x y ha hb e =
    let (p, q) = split_at_nul a b x y ha.1 hb.1 (cc) in (cc, q)

Lacks-append_nul : (a x : Bytes) → Lacks 0 (a ++ (0 ∷ x)) → Lacks 0 (0 ∷ [])
Lacks-append_nul [] x h = (h.0, tt)
Lacks-append_nul (c ∷ a) x h = Lacks-append_nul a x h.1

join_injective :
    (p : Bytes) (ps : List Bytes) (q : Bytes) (qs : List Bytes)
    → All (Lacks 0) (p ∷ ps)
    → All (Lacks 0) (q ∷ qs)
    → join (p ∷ ps) (0 ∷ []) ≡ join (q ∷ qs) (0 ∷ [])
    → p ∷ ps ≡ q ∷ qs
join_injective p [] q [] hp hq e = cc
join_injective p [] q (r ∷ qs) hp hq e =
    absurd ((Lacks-append_nul q (join (r ∷ qs) (0 ∷ [])) (subst (Lacks 0) e hp.0)).0 refl)
join_injective p (r ∷ ps) q [] hp hq e =
    absurd ((Lacks-append_nul p (join (r ∷ ps) (0 ∷ [])) (subst (Lacks 0) (sym e) hq.0)).0 refl)
join_injective p (r ∷ ps) q (t ∷ qs) hp hq e =
    let (a, b) = split_at_nul p q (join (r ∷ ps) (0 ∷ [])) (join (t ∷ qs) (0 ∷ [])) hp.0 hq.0 e in
    let rest = join_injective r ps t qs hp.1 hq.1 b in cc

-- Two working directories without NUL and two argvs of at least one argument each, without NUL,
-- have one key only if they are equal, unless the truncated hashes of their two texts collide.
pub label_key-injective :
    (host : Host) (cwd cwd' : Bytes) (arg0 arg0' : Bytes) (args args' : List Bytes)
    → Lacks 0 cwd
    → Lacks 0 cwd'
    → All (Lacks 0) (arg0 ∷ args)
    → All (Lacks 0) (arg0' ∷ args')
    → (take 16 (hex (host.sha256 (key_input cwd (arg0 ∷ args))))
          ≡ take 16 (hex (host.sha256 (key_input cwd' (arg0' ∷ args'))))
        → key_input cwd (arg0 ∷ args) ≡ key_input cwd' (arg0' ∷ args'))
    → label_key host cwd (arg0 ∷ args) ≡ label_key host cwd' (arg0' ∷ args')
    → (cwd ≡ cwd') × (arg0 ∷ args ≡ arg0' ∷ args')
unfolding label_key
label_key-injective host cwd cwd' a a' as' as'' hc hc' ha ha' no_collision same =
    let (p, q) =
      split_at_nul cwd cwd' (join (a ∷ as') (0 ∷ [])) (join (a' ∷ as'') (0 ∷ [])) hc hc'
        (no_collision same) in
    (p, join_injective a as' a' as'' ha ha' q)

-- No argv and an argv of one empty argument have the same key.
pub label_key-nil :
    (host : Host) (cwd : Bytes) → label_key host cwd [] ≡ label_key host cwd ([] ∷ [])
unfolding label_key
label_key-nil host cwd = refl
