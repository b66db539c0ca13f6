-- ===== src/Server/Headers.antt =====
-- The helpers of internal/server that read or rewrite text: handlers.go, middleware.go and
-- mutation_handlers.go.
pub mod Redirects
pub mod Redaction
use mathlib.Core.List.{map}
use my_home_index_server.Prelude.{
  ℕ, zero, suc, ◌+◌, ◌-◌, Bool, true, false, not, ◌&&◌, ◌||◌, Option, none, some, List, [], ◌∷◌,
  ◌++◌,
}
use my_home_index_server.Prelude.Tests.{ltb, leb, ◌==◌, if◌then◌else◌}
use my_home_index_server.Prelude.Lists.{length, take, drop}
use my_home_index_server.Prelude.Bytes.{Bytes, codes, bytes_eq, is_empty, has_prefix, join}
use my_home_index_server.Prelude.Utf8.{runes, rune_count}
use my_home_index_server.Prelude.Text.{split, trim_space, trim_quotes, fold}
use my_home_index_server.Store.{max_label_len}
use my_home_index_server.Server.{Request}

-- `sanitiseNext`
unfoldable pub sanitise_next : Bytes → Bytes
sanitise_next v =
    if is_empty v
    then []
    else if not (has_prefix v (codes "/")) || has_prefix v (codes "//")
    then []
    else v

-- strings.IndexByte(s, b), which is none where Go gives -1.
unfoldable pub index_byte : Bytes → ℕ → Option ℕ
index_byte [] b = none
index_byte (c ∷ s) b =
    let rest = index_byte s b in
    if c == b then some 0 else elim rest [ none ↦ none | some i ↦ some (suc i) ]

scheme : Bytes → Option ℕ → Bytes
scheme v none = v
scheme v (some i) = if ltb 0 i then take i v else v

-- `redactAuthHeader`
unfoldable pub redact_auth_header : Bytes → Bytes
unfolding scheme
redact_auth_header v =
    if is_empty v then [] else scheme v (index_byte v b' ') ++ codes " [REDACTED]"

-- strings.TrimLeft(s, " ")
unfoldable pub trim_blanks : Bytes → Bytes
trim_blanks [] = []
trim_blanks (b ∷ s) = let rest = trim_blanks s in if b == b' ' then rest else b ∷ s

redacted_pair : Bytes → Bytes → Option ℕ → Bytes
redacted_pair part kv none = part
redacted_pair part kv (some eq) =
    if ltb 0 eq && bytes_eq (fold (take eq kv)) (codes "pm_session")
    then take (length part - length kv) part ++ (take (suc eq) kv ++ codes "[REDACTED]")
    else part

-- One round of the loop of `redactCookieHeader`.
unfoldable pub redact_part : Bytes → Bytes
unfolding redacted_pair
redact_part part = let kv = trim_blanks part in redacted_pair part kv (index_byte kv b'=')

-- `redactCookieHeader`
unfoldable pub redact_cookie_header : Bytes → Bytes
redact_cookie_header v =
    if is_empty v then [] else join (map redact_part (split b';' v)) (codes ";")

hop_of : Bytes → Bytes
hop_of part = trim_space (trim_quotes (trim_space part))

first_hop : List Bytes → Bytes
unfolding hop_of
first_hop [] = []
first_hop (part ∷ parts) =
    let rest = first_hop parts in if is_empty (hop_of part) then rest else hop_of part

-- `firstXFFHop`
unfoldable pub first_xff_hop : Bytes → Bytes
unfolding first_hop
first_xff_hop v = if is_empty v then [] else first_hop (split b',' v)

or_else : Option Bytes → Bytes → Bytes
or_else none d = d
or_else (some v) d = v

-- `remoteAddr`, with the answer of net.SplitHostPort in the request.
unfoldable pub remote_addr : Request → Bytes
unfolding or_else
remote_addr r = or_else r.remote_host r.remote_addr

-- `remoteIP`
unfoldable pub remote_ip : Request → Bool → Bytes
remote_ip r trust_xff =
    let hop = first_xff_hop r.forwarded_for in
    if trust_xff then (if is_empty hop then remote_addr r else hop) else remote_addr r

-- unicode.IsControl
abbrev pub is_control : ℕ → Bool
is_control r = leb r 0x1F || (leb 0x7F r && leb r 0x9F)

unfoldable pub any_control : List ℕ → Bool
any_control [] = false
any_control (r ∷ rs) = is_control r || any_control rs

-- `validateLabel`: the message of its error.
unfoldable pub validate_label : Bytes → Option Bytes
validate_label label =
    if is_empty label
    then none
    else if ltb max_label_len (rune_count label)
    then some (codes "label exceeds 64 characters")
    else if any_control (runes label)
    then some (codes "label contains a control character")
    else none
