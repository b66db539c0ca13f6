-- ===== src/Config/EnvFile.antt =====
-- internal/config/config.go: persistGenerated, which writes generated secrets into the .env file.
pub mod Keys
pub mod Lines
pub mod Rewriting
pub mod Again
use my_home_index_server.Prelude.{
  ℕ, zero, suc, Bool, true, false, ◌||◌, Option, none, some, List, [], ◌∷◌, ◌++◌,
}
use my_home_index_server.Prelude.Tests.{◌==◌, if◌then◌else◌}
use my_home_index_server.Prelude.Lists.{length, drop, any}
use my_home_index_server.Prelude.Bytes.{Bytes, codes, bytes_eq, is_empty, has_prefix, join}
use my_home_index_server.Prelude.Dict.{Dict, lookup}
use my_home_index_server.Prelude.Text.{split, trim_space}
use my_home_index_server.Disk.{Disk, File, Faults, Written, write_atomic}

-- `\s` of a Go regular expression
abbrev pub is_space : ℕ → Bool
is_space b = b == b'\t' || b == b'\n' || b == 12 || b == b'\r' || b == b' '

unfoldable pub skip_spaces : Bytes → Bytes
skip_spaces [] = []
skip_spaces (b ∷ s) = let rest = skip_spaces s in if is_space b then rest else b ∷ s

-- What stands behind `\s+`, if the text begins so.
after_spaces : Bytes → Option Bytes
after_spaces [] = none
after_spaces (b ∷ s) = if is_space b then some (skip_spaces s) else none

-- body[exportLoc[1]:], for `exportPrefix`, or none if that does not match.
unfoldable pub strip_export : Bytes → Option Bytes
unfolding after_spaces
strip_export s =
    let t = skip_spaces s in if has_prefix t (codes "export") then after_spaces (drop 6 t) else none

cons_to : ℕ → Option Bytes → Option Bytes
cons_to b none = none
cons_to b (some s) = some (b ∷ s)

-- body[:eq], if there is an equals sign.
unfoldable pub before_equals : Bytes → Option Bytes
unfolding cons_to
before_equals [] = none
before_equals (b ∷ s) =
    let rest = cons_to b (before_equals s) in if b == b'=' then some [] else rest

-- A line that sets a key, and whether it exports it.
pub record Setting : Type 0 where
  pub exported : Bool
  pub key : Bytes

unfoldable pub with_key : Bool → Option Bytes → Option Setting
with_key exported none = none
with_key exported (some name) = some (record { exported = exported; key = trim_space name })

unfoldable pub setting_in : Bytes → Option Bytes → Option Setting
setting_in trimmed none = with_key false (before_equals trimmed)
setting_in trimmed (some body) = with_key true (before_equals body)

-- The key of a line, which the loop goes over if there is none.
unfoldable pub setting_of : Bytes → Option Setting
setting_of line =
    let trimmed = trim_space line in
    if is_empty trimmed || has_prefix trimmed (codes "#")
    then none
    else setting_in trimmed (strip_export trimmed)

-- key + "=" + val, with the prefix that the line had.
abbrev pub setting_line : Setting → Bytes → Bytes
setting_line s val = (if s.exported then codes "export " else []) ++ (s.key ++ (b'=' ∷ val))

unfoldable pub replaced : Bytes → Setting → Option Bytes → Bytes
replaced line s none = line
replaced line s (some val) = setting_line s val

unfoldable pub rewrite_setting : Dict Bytes → Bytes → Option Setting → Bytes
rewrite_setting kv line none = line
rewrite_setting kv line (some s) = replaced line s (lookup s.key kv)

-- The loop over the lines: lines[i] = …
unfoldable pub rewrite_lines : Dict Bytes → List Bytes → List Bytes
rewrite_lines kv [] = []
rewrite_lines kv (line ∷ rest) = rewrite_setting kv line (setting_of line) ∷ rewrite_lines kv rest

unfoldable pub sets_key : Bytes → Option Setting → Bool
sets_key k none = false
sets_key k (some s) = bytes_eq s.key k

-- Whether seen[k] is set by the loop, for a key of the map.
unfoldable pub is_seen : Bytes → List Bytes → Bool
is_seen k = any (λ line. sets_key k (setting_of line))

-- The loop over the map, which appends what was not seen.
unfoldable pub missing_lines : List Bytes → Dict Bytes → List Bytes
missing_lines lines [] = []
missing_lines lines ((k, v) ∷ kv) =
    let rest = missing_lines lines kv in if is_seen k lines then rest else (k ++ (b'=' ∷ v)) ∷ rest

unfoldable pub new_lines : Dict Bytes → List Bytes → List Bytes
new_lines kv lines = rewrite_lines kv lines ++ missing_lines lines kv

ends_in_newline : Bytes → Bool
ends_in_newline [] = false
ends_in_newline (b ∷ []) = b == b'\n'
ends_in_newline (b ∷ c ∷ s) = ends_in_newline (c ∷ s)

unfoldable pub env_content : List Bytes → Bytes
unfolding ends_in_newline
env_content lines =
    let text = join lines (codes "\n") in if ends_in_newline text then text else text ++ codes "\n"

-- The lines of the file, none of them if there is no file.
unfoldable pub old_lines : Option File → List Bytes
old_lines none = []
old_lines (some file) = split b'\n' file.content

-- `atomicWriteFile` makes the calls of writeAtomic in internal/store, in their order. It also syncs
-- the directory in the end, without looking at the result.
abbrev pub atomic_write_file : Faults → Bytes → Disk → Written
atomic_write_file = write_atomic

-- `persistGenerated`, which is none if the file is there and cannot be read.
unfoldable pub persist_generated : Bool → Faults → Dict Bytes → Disk → Option Written
persist_generated readable f kv d =
    if readable
    then some (atomic_write_file f (env_content (new_lines kv (old_lines d.committed))) d)
    else none
