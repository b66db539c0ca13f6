-- ===== src/Scanner/Lsof.antt =====
-- internal/scanner/lsof.go: the parser of `lsof -F pPn`, and how Scan judges the exit code. A slice of
-- listeners in the order of their first line stands for the map, which is sorted by its keys in the
-- end.
pub mod Order
pub mod Sound
use my_home_index_server.Prelude.{
  ℕ, zero, suc, ◌+◌, ◌-◌, ◌⊎◌, inl, inr, Bool, true, false, not, ◌&&◌, ◌||◌, Option, none, some,
  List, [], ◌∷◌, ◌++◌,
}
use my_home_index_server.Prelude.Tests.{ltb, leb, ◌==◌, if◌then◌else◌}
use my_home_index_server.Prelude.Lists.{length, take, drop}
use my_home_index_server.Prelude.Bytes.{Bytes, codes, bytes_eq, bytes_lt, is_empty, has_prefix}
use my_home_index_server.Prelude.Int.{ℤ, pos, negsuc, int_eq, int_le}
use my_home_index_server.Prelude.Text.{atoi, fold, split}
use my_home_index_server.Model.{decimal}
use my_home_index_server.Process.{Listener}

-- strings.LastIndex(s, b) of one byte, which is none where Go gives -1.
unfoldable pub last_index : Bytes → ℕ → Option ℕ
last_index [] b = none
last_index (c ∷ s) b = elim (last_index s b) [
  | some i ↦ some (suc i)
  | none ↦ if c == b then some 0 else none
]

with_port_of : Bytes → Option ℤ → Option (Bytes × ℤ)
with_port_of host none = none
with_port_of host (some port) = some (host, port)

-- `splitHostPort` of "[host]:port", the bracket being at `end`.
split_bracket : Bytes → Option ℕ → Option (Bytes × ℤ)
unfolding with_port_of
split_bracket node none = none
split_bracket node (some end) =
    if ltb (length node) (end + 2)
    then none
    else if not (bytes_eq (take 1 (drop (suc end) node)) (codes ":"))
    then none
    else with_port_of (drop 1 (take end node)) (atoi (drop (end + 2) node))

split_colon : Bytes → Option ℕ → Option (Bytes × ℤ)
unfolding with_port_of
split_colon node none = none
split_colon node (some idx) =
    let host = take idx node in
    with_port_of (if bytes_eq host (codes "*") then codes "0.0.0.0" else host)
      (atoi (drop (suc idx) node))

-- `splitHostPort`
unfoldable pub split_host_port : Bytes → Option (Bytes × ℤ)
unfolding split_bracket split_colon
split_host_port node =
    if has_prefix node (codes "[")
    then split_bracket node (last_index node b']')
    else split_colon node (last_index node b':')

-- bytes.TrimRight(raw, "\r")
trim_returns : Bytes → Bytes
trim_returns [] = []
trim_returns (b ∷ s) =
    let rest = trim_returns s in if is_empty rest && b == b'\r' then [] else b ∷ rest

contains : Bytes → ℕ → Bool
contains [] b = false
contains (c ∷ s) b = c == b || contains s b

-- strconv.Itoa
abbrev pub itoa : ℤ → Bytes
itoa (pos n) = decimal n
itoa (negsuc n) = b'-' ∷ decimal (suc n)

-- net.JoinHostPort
unfoldable pub join_host_port : Bytes → Bytes → Bytes
unfolding contains
join_host_port host port =
    if contains host b':' || contains host b'%'
    then codes "[" ++ host ++ codes "]:" ++ port
    else host ++ codes ":" ++ port

-- The variables that the loop carries from line to line.
pub record ParseState : Type 0 where
  pub cur_pid : ℤ
  pub cur_proto : Bytes
  pub agg : List Listener

abbrev pub same_key : ℤ → ℤ → Listener → Bool
same_key pid port l = int_eq l.pid pid && int_eq l.port port

-- The listener of the key, made when it is not there yet, gets one more address.
unfoldable pub add_addr : ℤ → ℤ → Bytes → List Listener → List Listener
add_addr pid port addr [] = record { pid = pid; port = port; addrs = addr ∷ [] } ∷ []
add_addr pid port addr (l ∷ ls) =
    let rest = add_addr pid port addr ls in
    if same_key pid port l then record l { addrs = l.addrs ++ addr ∷ [] } ∷ ls else l ∷ rest

pid_line : ParseState → Option ℤ → ParseState
pid_line st none = record st { cur_pid = pos 0 }
pid_line st (some pid) = record st { cur_pid = pid; cur_proto = [] }

-- An address of a socket of the current process.
unfoldable pub addr_line : ℤ → ℤ → ParseState → Option (Bytes × ℤ) → ParseState
addr_line port_min port_max st none = st
addr_line port_min port_max st (some (host, port)) =
    if not (int_le port_min port) || not (int_le port port_max)
    then st
    else record st { agg = add_addr st.cur_pid port (join_host_port host (itoa port)) st.agg }

node_line : ℤ → ℤ → ℤ → ParseState → Bytes → ParseState
unfolding addr_line
node_line port_min port_max exclude st body =
    if int_eq st.cur_pid (pos 0) || int_eq st.cur_pid exclude
    then st
    else if not (bytes_eq (fold st.cur_proto) (codes "tcp"))
    then st
    else addr_line port_min port_max st (split_host_port body)

-- One round of the loop of `parseLsofF`.
unfoldable pub parse_line : ℤ → ℤ → ℤ → ParseState → Bytes → ParseState
unfolding pid_line node_line
parse_line port_min port_max exclude st [] = st
parse_line port_min port_max exclude st (tag ∷ body) =
    if tag == b'p'
    then pid_line st (atoi body)
    else if tag == b'P'
    then record st { cur_proto = body }
    else if tag == b'n'
    then node_line port_min port_max exclude st body
    else st

unfoldable pub parse_lines : ℤ → ℤ → ℤ → ParseState → List Bytes → ParseState
unfolding trim_returns
parse_lines port_min port_max exclude st [] = st
parse_lines port_min port_max exclude st (raw ∷ rest) =
    parse_lines port_min port_max exclude
      (parse_line port_min port_max exclude st (trim_returns raw)) rest

-- sort.Strings
insert_text : Bytes → List Bytes → List Bytes
insert_text s [] = s ∷ []
insert_text s (t ∷ ts) =
    let rest = insert_text s ts in if bytes_lt t s then t ∷ rest else s ∷ t ∷ ts

sort_texts : List Bytes → List Bytes
unfolding insert_text
sort_texts [] = []
sort_texts (s ∷ ss) = insert_text s (sort_texts ss)

-- The order of the result: by port, and by process id where the ports are equal.
abbrev pub before_or_same : Listener → Listener → Bool
before_or_same a b = if int_eq a.port b.port then int_le a.pid b.pid else int_le a.port b.port

unfoldable pub insert_listener : Listener → List Listener → List Listener
insert_listener l [] = l ∷ []
insert_listener l (m ∷ ms) =
    let rest = insert_listener l ms in if before_or_same l m then l ∷ m ∷ ms else m ∷ rest

unfoldable pub sort_listeners : List Listener → List Listener
sort_listeners [] = []
sort_listeners (l ∷ ls) = insert_listener l (sort_listeners ls)

unfoldable pub with_sorted_addrs : List Listener → List Listener
unfolding sort_texts
with_sorted_addrs [] = []
with_sorted_addrs (l ∷ ls) = record l { addrs = sort_texts l.addrs } ∷ with_sorted_addrs ls

-- `parseLsofF`
unfoldable pub parse_lsof_f : Bytes → ℤ → ℤ → ℤ → List Listener
parse_lsof_f data_ port_min port_max exclude =
    let start : ParseState = record { cur_pid = pos 0; cur_proto = []; agg = [] } in
    let end = parse_lines port_min port_max exclude start (split b'\n' data_) in
    sort_listeners (with_sorted_addrs end.agg)

-- How the command ended: exec.ExitError with its code, or another error.
pub data CmdError : Type 0 where
  exited : ℤ → CmdError
  not_run : CmdError

pub data LsofError : Type 0 where
  context_error lsof_exited lsof_failed : LsofError

unfoldable pub judged_exit : List Listener → Option CmdError → List Listener ⊎ LsofError
judged_exit ls none = inl ls
judged_exit ls (some CmdError.not_run) = inr LsofError.lsof_failed
judged_exit ls (some (CmdError.exited code)) =
    if int_le code (pos 1)
    then inl ls
    else if length ls == 0
    then inr LsofError.lsof_exited
    else inl ls

-- `Scan` of the lsof scanner: whether the context was done before and after, and what the command gave.
unfoldable pub scan_lsof :
    ℤ → ℤ → ℤ → Bool → Bool → Bytes → Option CmdError → List Listener ⊎ LsofError
unfolding judged_exit
scan_lsof port_min port_max self done_before done_after out err =
    if done_before
    then inr LsofError.context_error
    else if done_after
    then inr LsofError.context_error
    else judged_exit (parse_lsof_f out port_min port_max self) err
