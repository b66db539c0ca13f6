-- ===== src/Inspector.antt =====
-- internal/inspector/inspector.go: the snapshot of a process, its errors, and the helpers on text.
pub mod Words
pub mod Env
pub mod Inspect
use my_home_index_server.Prelude.{
  ℕ, zero, suc, ◌+◌, ◌⊎◌, inl, inr, Bool, true, false, ◌||◌, Option, none, some, List, [], ◌∷◌,
  ◌++◌,
}
use my_home_index_server.Prelude.Tests.{ltb, ◌==◌, if◌then◌else◌}
use my_home_index_server.Prelude.Lists.{length, take, drop}
use my_home_index_server.Prelude.Bytes.{Bytes, codes, bytes_eq, is_empty}
use my_home_index_server.Prelude.Int.{ℤ}
use my_home_index_server.Prelude.Time.{Time}

pub record ProcInfo : Type 0 where
  pub pid : ℤ
  pub command : List Bytes
  pub cwd : Bytes
  pub start_time : Time
  pub uid : ℤ
  pub env : Option (List Bytes)

-- What `Inspect` returns: an information that may be nil, and whether there was an error.
pub record Inspected : Type 0 where
  pub info : Option ProcInfo
  pub failed : Bool

-- The codes of syscall.Errno that the code tells apart.
pub data Errno : Type 0 where
  eperm eacces esrch einval other_errno : Errno

-- An error of gopsutil, as far as `classify` looks at it: whether errors.Is finds one of the two
-- sentinels, what errors.As finds, and the message.
pub record SourceError : Type 0 where
  pub not_running : Bool
  pub not_permitted : Bool
  pub errno : Option Errno
  pub message : Bytes

-- ErrNotFound, ErrPermission, or another error.
pub data InspectError : Type 0 where
  not_found permission other : InspectError

-- The rounds of `indexOf`, `i` being the bytes passed so far.
index_from : Bytes → Bytes → ℕ → Option ℕ
index_from [] sub i = if bytes_eq [] sub then some i else none
index_from (b ∷ s) sub i =
    let rest = index_from s sub (suc i) in
    if ltb (length (b ∷ s)) (length sub)
    then none
    else if bytes_eq (take (length sub) (b ∷ s)) sub
    then some i
    else rest

-- `indexOf`, which is none where Go gives -1.
unfoldable pub index_of : Bytes → Bytes → Option ℕ
unfolding index_from
index_of s [] = some 0
index_of s (b ∷ sub) = if ltb (length s) (length (b ∷ sub)) then none else index_from s (b ∷ sub) 0

is_found : Option ℕ → Bool
is_found none = false
is_found (some i) = true

-- `containsAny`
unfoldable pub contains_any : Bytes → List Bytes → Bool
unfolding is_found
contains_any s [] = false
contains_any s (sub ∷ subs) =
    let rest = contains_any s subs in if is_found (index_of s sub) then true else rest

-- The end of `classify`.
by_message : Bytes → InspectError
by_message msg =
    if contains_any msg (codes "no such process" ∷ codes "process does not exist" ∷ [])
    then InspectError.not_found
    else if contains_any msg (codes "operation not permitted" ∷ codes "permission denied" ∷ [])
    then InspectError.permission
    else InspectError.other

by_errno : Option Errno → Bytes → InspectError
unfolding by_message
by_errno (some Errno.eperm) msg = InspectError.permission
by_errno (some Errno.eacces) msg = InspectError.permission
by_errno (some Errno.esrch) msg = InspectError.not_found
by_errno (some Errno.einval) msg = by_message msg
by_errno (some Errno.other_errno) msg = by_message msg
by_errno none msg = by_message msg

-- `classify` of an error that is not nil.
unfoldable pub classify : SourceError → InspectError
unfolding by_errno
classify err =
    if err.not_running
    then InspectError.not_found
    else if err.not_permitted
    then InspectError.permission
    else by_errno err.errno err.message

-- The loop of `splitCmdline`: `word` is s[start:i], which is empty exactly if start is negative.
unfoldable pub split_from : Bytes → Bytes → List Bytes
split_from word [] = if is_empty word then [] else word ∷ []
split_from word (b ∷ s) =
    let next = split_from [] s in
    let longer = split_from (word ++ b ∷ []) s in
    if b == b' ' || b == b'\t' then (if is_empty word then next else word ∷ next) else longer

-- `splitCmdline`
unfoldable pub split_cmdline : Bytes → List Bytes
split_cmdline s = split_from [] s

-- The two calls of `argvSource`.
pub record ArgvSource : Type 0 where
  pub slice : List Bytes
  pub slice_error : Option SourceError
  pub line : Bytes
  pub line_error : Option SourceError

-- `resolveArgv` when the slice is of no use: the line, else the error of the slice.
slice_result : List Bytes → Option SourceError → List Bytes ⊎ SourceError
slice_result argv none = inl argv
slice_result argv (some e) = inr e

from_line : ArgvSource → Option SourceError → Bytes → List Bytes ⊎ SourceError
unfolding slice_result
from_line p none (b ∷ s) = inl (split_cmdline (b ∷ s))
from_line p none [] = slice_result p.slice p.slice_error
from_line p (some e) s = slice_result p.slice p.slice_error

from_slice : ArgvSource → Option SourceError → List Bytes → List Bytes ⊎ SourceError
unfolding from_line
from_slice p none (a ∷ argv) = inl (a ∷ argv)
from_slice p none [] = from_line p p.line_error p.line
from_slice p (some e) argv = from_line p p.line_error p.line

-- `resolveArgv`
unfoldable pub resolve_argv : ArgvSource → List Bytes ⊎ SourceError
unfolding from_slice
resolve_argv p = from_slice p p.slice_error p.slice
