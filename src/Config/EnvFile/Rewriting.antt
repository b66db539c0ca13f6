-- ===== src/Config/EnvFile/Rewriting.antt =====
-- What persistGenerated leaves in the .env file, line by line.
use my_home_index_server.Prelude.{
  ◌≡◌, ap, ◌∙◌, true, ◌||◌, none, some, List, [], ◌∷◌, ◌++◌, append-nil,
}
use my_home_index_server.Prelude.Lists.{All, All-append, any-append, select, select-append}
use my_home_index_server.Prelude.Bytes.{Bytes}
use my_home_index_server.Prelude.Dict.{Dict, lookup, lookup_head, lookup_later, Distinct}
use my_home_index_server.Config.EnvFile.{
  setting_of, sets_key, is_seen, rewrite_lines, missing_lines, new_lines,
}
use my_home_index_server.Config.EnvFile.Lines.{
  AreSecrets, HasValue, Stand, is_other, kept_in_place, HasValue-rewrite_lines,
  HasValue-missing_lines, select-missing_lines, is_seen-rewrite_lines, seen_or_missing, all_seen,
  rewrite_lines_same,
}

-- The lines that set no key of the map are kept in their order; a line that sets one sets it to its
-- value; and every key is set.
pub record Rewritten (kv : Dict Bytes) (old new : List Bytes) : Type 0 where
  pub kept : select (is_other kv) new ≡ select (is_other kv) old
  pub given : All (HasValue kv) new
  pub present : (k v : Bytes) → lookup k kv ≡ some v → is_seen k new ≡ true

later : (k v : Bytes) (m n : Dict Bytes) → lookup k m ≡ none → Stand m n → Stand ((k, v) ∷ m) n
unfolding Stand
later k v m [] h s = tt
later k v m ((j, w) ∷ n) h s = (lookup_later k j v w m h s.0, later k v m n h s.1)

-- In a map whose keys differ, every entry is found.
pub stands : (m : Dict Bytes) → Distinct m → Stand m m
unfolding Stand
stands [] h = tt
stands ((k, v) ∷ m) h = (lookup_head k v m, later k v m m h.0 (stands m h.1))

pub seen_in :
    (kv m : Dict Bytes) (ls : List Bytes)
    → Stand kv m
    → ((k v : Bytes) → lookup k kv ≡ some v → is_seen k ls ≡ true)
    → All (λ e. is_seen (e.0) ls ≡ true) m
unfolding Stand
seen_in kv [] ls s h = tt
seen_in kv ((k, v) ∷ m) ls s h = (h k v s.0, seen_in kv m ls s.1 h)

module _ (kv : Dict Bytes) (secrets : AreSecrets kv) (distinct : Distinct kv)
    (ls : List Bytes) where
  present : (k v : Bytes) → lookup k kv ≡ some v → is_seen k (new_lines kv ls) ≡ true
  unfolding new_lines is_seen
  present k v e =
      any-append (λ line. sets_key k (setting_of line)) (rewrite_lines kv ls) (missing_lines ls kv)
      ∙ ap (λ b. b || is_seen k (missing_lines ls kv)) (is_seen-rewrite_lines kv secrets k ls)
      ∙ seen_or_missing kv secrets ls kv k v secrets e

  -- If the keys of the map are names of letters in upper case, each once, and the values consist of
  -- visible characters, then `persistGenerated` keeps the lines that set none of these keys, as they
  -- are and in their order; a line that sets one of them sets it to the value of the map; and there
  -- is a line for every key.
  pub new_lines-Rewritten : Rewritten kv ls (new_lines kv ls)
  unfolding new_lines
  new_lines-Rewritten = record {
    kept =
        select-append (is_other kv) (rewrite_lines kv ls) (missing_lines ls kv)
        ∙ ap (λ t. select (is_other kv) (rewrite_lines kv ls) ++ t)
            (select-missing_lines kv secrets ls kv secrets (stands kv distinct))
        ∙ append-nil (select (is_other kv) (rewrite_lines kv ls))
        ∙ kept_in_place kv secrets ls;
    given =
        All-append (HasValue kv) (rewrite_lines kv ls) (missing_lines ls kv)
          (HasValue-rewrite_lines kv secrets ls)
          (HasValue-missing_lines kv secrets ls kv secrets (stands kv distinct));
    present = present;
  }

-- Lines that set every key of the map, each to its value, are left as they are.
pub new_lines-settled :
    (kv : Dict Bytes) (ls : List Bytes)
    → AreSecrets kv
    → Distinct kv
    → All (HasValue kv) ls
    → ((k v : Bytes) → lookup k kv ≡ some v → is_seen k ls ≡ true)
    → new_lines kv ls ≡ ls
unfolding new_lines
new_lines-settled kv ls secrets distinct given present =
    let none_left = all_seen kv secrets ls kv (seen_in kv kv ls (stands kv distinct) present) in
    ap (λ t. rewrite_lines kv ls ++ t) none_left
    ∙ append-nil (rewrite_lines kv ls)
    ∙ rewrite_lines_same kv secrets ls given
