-- ===== src/Config/EnvFile/Again.antt =====
-- A second run of persistGenerated, on the file that the first one left.
use mathlib.Core.Path.{subst}
use my_home_index_server.Prelude.{
  ℕ, ◌≡◌, ◌≢◌, refl, ap, sym, ◌∙◌, inl, inr, true, ◌||◌, Option, none, some, List, [], ◌∷◌, ◌++◌,
  append-nil, append_assoc, arith,
}
use my_home_index_server.Prelude.Tests.{◌==◌, Bool-cases}
use my_home_index_server.Prelude.Lists.{All, All-append, any-append}
use my_home_index_server.Prelude.Bytes.{Bytes, codes, Lacks, join}
use my_home_index_server.Prelude.Dict.{Dict, lookup, lookup-All, Distinct}
use my_home_index_server.Prelude.Text.{split, cons_head, trim_space}
use my_home_index_server.Prelude.Text.Trimming.{IsGraph}
use my_home_index_server.Disk.{File}
use my_home_index_server.Server.Headers.Redaction.{split-join}
use my_home_index_server.Config.EnvFile.{
  Setting, setting_of, setting_line, sets_key, is_seen, rewrite_setting, rewrite_lines,
  missing_lines, new_lines, env_content, ends_in_newline, old_lines,
}
use my_home_index_server.Config.EnvFile.Keys.{IsNameByte, IsName, IsSecret}
use my_home_index_server.Config.EnvFile.Lines.{
  AreSecrets, HasValue, line_cases, rewrite_other, rewrite_sets,
}
use my_home_index_server.Config.EnvFile.Rewriting.{new_lines-Rewritten, new_lines-settled}

IsLine : Bytes → Type 0
IsLine = Lacks b'\n'

first_longer : (b : ℕ) (ps : List Bytes) → b ≢ b'\n' → All IsLine ps → All IsLine (cons_head b ps)
unfolding cons_head IsLine
first_longer b [] h k = ((h, tt), tt)
first_longer b (p ∷ ps) h k = ((h, k.0), k.1)

split-IsLine : (s : Bytes) → All IsLine (split b'\n' s)
unfolding split cons_head IsLine
split-IsLine [] = (tt, tt)
split-IsLine (b ∷ s) = elim (Bool-cases (b == b'\n')) [
  | inl same ↦ rw same (tt, split-IsLine s)
  | inr differs ↦
      rw differs (first_longer b (split b'\n' s) (ground (arith, differs)) (split-IsLine s))
]

name-IsLine : (s : Bytes) → All IsNameByte s → IsLine s
unfolding IsLine
name-IsLine [] h = tt
name-IsLine (b ∷ s) h = (omega arith, name-IsLine s h.1)

graph-IsLine : (s : Bytes) → All IsGraph s → IsLine s
unfolding IsLine
graph-IsLine [] h = tt
graph-IsLine (b ∷ s) h = (omega arith, graph-IsLine s h.1)

pair-IsLine : (k v : Bytes) → IsName k × IsSecret v → IsLine (k ++ (b'=' ∷ v))
unfolding IsLine
pair-IsLine [] v h = absurd h.0
pair-IsLine (a ∷ k) [] h = absurd h.1
pair-IsLine (a ∷ k) (b ∷ v) h =
    All-append (λ c. c ≢ b'\n') (a ∷ k) (b'=' ∷ (b ∷ v)) (name-IsLine (a ∷ k) h.0)
      (omega arith, graph-IsLine (b ∷ v) h.1)

setting_line-IsLine :
    (s : Setting) (v : Bytes) → IsName s.key × IsSecret v → IsLine (setting_line s v)
unfolding IsLine
setting_line-IsLine s v h = elim (Bool-cases s.exported) [
  | inl on ↦ rw on (
      All-append (λ c. c ≢ b'\n') (codes "export ") (s.key ++ (b'=' ∷ v)) (omega arith)
        (pair-IsLine s.key v h))
  | inr off ↦ rw off (pair-IsLine s.key v h)
]

module _ (kv : Dict Bytes) (secrets : AreSecrets kv) where
  rewrite-IsLine : (line : Bytes) → IsLine line → IsLine (rewrite_setting kv line (setting_of line))
  rewrite-IsLine line h = elim (line_cases kv line) [
    | inl other ↦ subst IsLine (sym (rewrite_other kv secrets line other)) h
    | inr k ↦ subst IsLine (sym (rewrite_sets kv secrets line k)) (
        setting_line-IsLine k.setting k.value
          (lookup-All (λ k v. IsName k × IsSecret v) kv k.setting.key k.value secrets k.found))
  ]

  rewrite_lines-IsLine : (ls : List Bytes) → All IsLine ls → All IsLine (rewrite_lines kv ls)
  unfolding rewrite_lines
  rewrite_lines-IsLine [] h = tt
  rewrite_lines-IsLine (line ∷ ls) h = (rewrite-IsLine line h.0, rewrite_lines-IsLine ls h.1)

missing_lines-IsLine :
    (ls : List Bytes) (m : Dict Bytes) → AreSecrets m → All IsLine (missing_lines ls m)
unfolding missing_lines
missing_lines-IsLine ls [] h = tt
missing_lines-IsLine ls ((k, v) ∷ m) h = elim (Bool-cases (is_seen k ls)) [
  | inl seen ↦ rw seen (missing_lines-IsLine ls m h.1)
  | inr new ↦ rw new (pair-IsLine k v h.0, missing_lines-IsLine ls m h.1)
]

old_lines-IsLine : (o : Option File) → All IsLine (old_lines o)
unfolding old_lines
old_lines-IsLine none = tt
old_lines-IsLine (some file) = split-IsLine file.content

new_lines-IsLine :
    (kv : Dict Bytes) (o : Option File) → AreSecrets kv → All IsLine (new_lines kv (old_lines o))
unfolding new_lines
new_lines-IsLine kv o secrets =
    All-append IsLine (rewrite_lines kv (old_lines o)) (missing_lines (old_lines o) kv)
      (rewrite_lines-IsLine kv secrets (old_lines o) (old_lines-IsLine o))
      (missing_lines-IsLine (old_lines o) kv secrets)

join_nil :
    (p : Bytes) (ps : List Bytes)
    → join ((p ∷ ps) ++ ([] ∷ [])) (codes "\n") ≡ join (p ∷ ps) (codes "\n") ++ codes "\n"
join_nil p [] = refl
join_nil p (q ∷ ps) =
    ap (λ (t : Bytes). p ++ (b'\n' ∷ t)) (join_nil q ps)
    ∙ sym (append_assoc p (b'\n' ∷ join (q ∷ ps) (codes "\n")) (codes "\n"))

ends_append : (s : Bytes) → ends_in_newline (s ++ codes "\n") ≡ true
unfolding ends_in_newline
ends_append [] = refl
ends_append (b ∷ []) = refl
ends_append (b ∷ c ∷ s) = ends_append (c ∷ s)

-- The lines that are read back are those that were written, or these and an empty one, and then they
-- are written as they were read.
read_back :
    (p : Bytes) (ps : List Bytes)
    → All IsLine (p ∷ ps)
    → (end : List Bytes) × All (λ line. line ≡ []) end
      × (split b'\n' (env_content (p ∷ ps)) ≡ (p ∷ ps) ++ end)
      × (env_content ((p ∷ ps) ++ end) ≡ env_content (p ∷ ps))
unfolding env_content IsLine
read_back p ps h = elim (Bool-cases (ends_in_newline (join (p ∷ ps) (codes "\n")))) [
  | inl ends ↦ (
    [],
    tt,
    rw ends (split-join b'\n' p ps h ∙ sym (append-nil (p ∷ ps))),
    ap env_content (append-nil (p ∷ ps)),
  )
  | inr open_end ↦ (
    [] ∷ [],
    (refl, tt),
    rw open_end (
        ap (split b'\n') (sym (join_nil p ps))
        ∙ split-join b'\n' p (ps ++ [] ∷ [])
            (All-append (Lacks b'\n') (p ∷ ps) ([] ∷ []) h (tt, tt))),
    rw (join_nil p ps, ends_append (join (p ∷ ps) (codes "\n")), open_end) refl,
  )
]

setting_of-nil : setting_of [] ≡ none
unfolding setting_of trim_space
setting_of-nil = refl

empty-HasValue :
    (kv : Dict Bytes) (ls : List Bytes) → All (λ line. line ≡ []) ls → All (HasValue kv) ls
empty-HasValue kv [] h = tt
empty-HasValue kv (line ∷ ls) h = (
  subst (HasValue kv) (sym h.0) (λ s v e there. cc (setting_of-nil, e)),
  empty-HasValue kv ls h.1,
)

-- The file that `persistGenerated` leaves of a file.
abbrev pub left_by : Dict Bytes → Option File → Option File
left_by kv o = some (record { content = env_content (new_lines kv (old_lines o)); synced = true })

module _ (kv : Dict Bytes) (secrets : AreSecrets kv) (distinct : Distinct kv) (key value : Bytes)
    (there : lookup key kv ≡ some value) where
  rerun :
      (ls : List Bytes)
      → All IsLine ls
      → All (HasValue kv) ls
      → ((k v : Bytes) → lookup k kv ≡ some v → is_seen k ls ≡ true)
      → env_content (new_lines kv (split b'\n' (env_content ls))) ≡ env_content ls
  unfolding is_seen
  rerun [] lines given present = cc (present key value there)
  rerun (p ∷ ps) lines given present =
      let (end, empties, read, write) = read_back p ps lines in
      let again : new_lines kv ((p ∷ ps) ++ end) ≡ (p ∷ ps) ++ end =
        new_lines-settled kv ((p ∷ ps) ++ end) secrets distinct
          (All-append (HasValue kv) (p ∷ ps) end given (empty-HasValue kv end empties))
          (λ k v e.
            any-append (λ line. sets_key k (setting_of line)) (p ∷ ps) end
            ∙ ap (λ b. b || is_seen k end) (present k v e)) in
      ap (λ ls. env_content (new_lines kv ls)) read ∙ ap env_content again ∙ write

  -- If the keys of the map are names of letters in upper case, each once, and there is one, and the
  -- values consist of visible characters, then `persistGenerated` with the same map, run again on the
  -- file that it left, writes that file once more, byte for byte.
  pub persist_again :
      (o : Option File)
      → env_content (new_lines kv (old_lines (left_by kv o)))
        ≡ env_content (new_lines kv (old_lines o))
  unfolding old_lines
  persist_again o =
      let done = new_lines-Rewritten kv secrets distinct (old_lines o) in
      rerun (new_lines kv (old_lines o)) (new_lines-IsLine kv o secrets) done.given done.present
