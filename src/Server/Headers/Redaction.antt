-- ===== src/Server/Headers/Redaction.antt =====
-- What the log lines of the server do not show.
use mathlib.Core.List.{map}
use my_home_index_server.Prelude.{
  ℕ, zero, suc, ◌-◌, ◌≡◌, refl, ap, ◌∙◌, true, none, some, List, [], ◌∷◌, ◌++◌, arith,
}
use my_home_index_server.Prelude.Tests.{ltb}
use my_home_index_server.Prelude.Lists.{length, take, All, All-append, length-append}
use my_home_index_server.Prelude.Bytes.{Bytes, codes, bytes_eq, has_prefix, Lacks, join}
use my_home_index_server.Prelude.Text.{split, cons_head, fold}
use my_home_index_server.Server.Headers.{
  index_byte, scheme, redact_auth_header, trim_blanks, redacted_pair, redact_part,
  redact_cookie_header,
}

-- The first byte of its kind.
index_byte-append :
    (s t : Bytes) (b : ℕ) → Lacks b s → index_byte (s ++ (b ∷ t)) b ≡ some (length s)
unfolding index_byte
index_byte-append [] t b h = ground arith
index_byte-append (c ∷ s) t b h = ground (arith, index_byte-append s t b h.1)

take-append : (s t : Bytes) → take (length s) (s ++ t) ≡ s
take-append [] t = refl
take-append (c ∷ s) t = ap (λ u. c ∷ u) (take-append s t)

-- Of an Authorization header with a scheme the log shows the scheme and nothing of the credential
-- behind the first blank.
pub redact_auth_header-scheme :
    (b : ℕ) (name credential : Bytes)
    → Lacks b' ' (b ∷ name)
    → redact_auth_header ((b ∷ name) ++ (b' ' ∷ credential)) ≡ (b ∷ name) ++ codes " [REDACTED]"
unfolding redact_auth_header scheme
redact_auth_header-scheme b name credential h =
    let found = index_byte-append (b ∷ name) credential b' ' h in
    let some_name : ltb 0 (length (b ∷ name)) ≡ true = ground arith in
    rw (found, some_name)
      (ap (λ u. u ++ codes " [REDACTED]") (take-append (b ∷ name) (b' ' ∷ credential)))

index_byte-none : (s : Bytes) (b : ℕ) → Lacks b s → index_byte s b ≡ none
unfolding index_byte
index_byte-none [] b h = refl
index_byte-none (c ∷ s) b h = ground (arith, index_byte-none s b h.1)

-- A header without a blank, such as a token without a scheme, is shown in full.
pub redact_auth_header-bare :
    (b : ℕ) (s : Bytes)
    → Lacks b' ' (b ∷ s)
    → redact_auth_header (b ∷ s) ≡ (b ∷ s) ++ codes " [REDACTED]"
unfolding redact_auth_header scheme
redact_auth_header-bare b s h = rw (index_byte-none (b ∷ s) b' ' h) refl

split-Lacks : (sep : ℕ) (s : Bytes) → Lacks sep s → split sep s ≡ s ∷ []
unfolding split cons_head
split-Lacks sep [] h = refl
split-Lacks sep (b ∷ s) h = ground (arith, split-Lacks sep s h.1)

split-append : (sep : ℕ) (s t : Bytes) → Lacks sep s → split sep (s ++ (sep ∷ t)) ≡ s ∷ split sep t
unfolding split cons_head
split-append sep [] t h = ground arith
split-append sep (b ∷ s) t h = ground (arith, split-append sep s t h.1)

pub split-join :
    (sep : ℕ) (p : Bytes) (ps : List Bytes)
    → All (Lacks sep) (p ∷ ps)
    → split sep (join (p ∷ ps) (sep ∷ [])) ≡ p ∷ ps
split-join sep p [] h = split-Lacks sep p h.0
split-join sep p (q ∷ ps) h =
    split-append sep p (join (q ∷ ps) (sep ∷ [])) h.0 ∙ ap (λ u. p ∷ u) (split-join sep q ps h.1)

-- A number of blanks.
abbrev pub blanks : ℕ → Bytes
blanks zero = []
blanks (suc n) = b' ' ∷ blanks n

-- The cookie of a session.
abbrev pub session_pair : Bytes → Bytes
session_pair value = codes "pm_session=" ++ value

trim_blanks-blanks : (n : ℕ) (v : Bytes) → trim_blanks (blanks n ++ session_pair v) ≡ session_pair v
unfolding trim_blanks
trim_blanks-blanks zero v = refl
trim_blanks-blanks (suc n) v = trim_blanks-blanks n v

take-blanks :
    (n : ℕ) (t : Bytes) → take (length (blanks n ++ t) - length t) (blanks n ++ t) ≡ blanks n
take-blanks n t =
    let e : length (blanks n ++ t) - length t ≡ length (blanks n) =
      omega (arith, length-append (blanks n) t) in
    rw e (take-append (blanks n) t)

redact_part-session :
    (n : ℕ) (v : Bytes)
    → redact_part (blanks n ++ session_pair v) ≡ blanks n ++ session_pair (codes "[REDACTED]")
unfolding redact_part redacted_pair index_byte bytes_eq fold has_prefix
redact_part-session n v =
    rw (trim_blanks-blanks n v)
      (ap (λ u. u ++ session_pair (codes "[REDACTED]")) (take-blanks n (session_pair v)))

map-append : (f : Bytes → Bytes) (ps qs : List Bytes) → map f (ps ++ qs) ≡ map f ps ++ map f qs
map-append f [] qs = refl
map-append f (p ∷ ps) qs = ap (λ u. f p ∷ u) (map-append f ps qs)

blanks-Lacks : (n : ℕ) (v : Bytes) → Lacks b';' v → Lacks b';' (blanks n ++ session_pair v)
blanks-Lacks zero v h = ground arith
blanks-Lacks (suc n) v h = (ground arith, blanks-Lacks n v h)

redact_cookie_header-parts :
    (p : Bytes) (ps : List Bytes)
    → All (Lacks b';') (p ∷ ps)
    → redact_cookie_header (join (p ∷ ps) (codes ";")) ≡ join (map redact_part (p ∷ ps)) (codes ";")
unfolding redact_cookie_header redact_part redacted_pair trim_blanks index_byte
redact_cookie_header-parts [] [] h = refl
redact_cookie_header-parts (b ∷ p) [] h =
    ap (λ qs. join (map redact_part qs) (codes ";")) (split-join b';' (b ∷ p) [] h)
redact_cookie_header-parts [] (q ∷ ps) h =
    ap (λ qs. join (map redact_part qs) (codes ";")) (split-join b';' [] (q ∷ ps) h)
redact_cookie_header-parts (b ∷ p) (q ∷ ps) h =
    ap (λ qs. join (map redact_part qs) (codes ";")) (split-join b';' (b ∷ p) (q ∷ ps) h)

-- Wherever a session cookie stands in a Cookie header, the log shows the header with its value
-- replaced, so that no two values can be told apart, and the other cookies each redacted alike.
pub redact_cookie_header-session :
    (before after : List Bytes) (n : ℕ) (value : Bytes)
    → All (Lacks b';') before
    → All (Lacks b';') after
    → Lacks b';' value
    → redact_cookie_header (join (before ++ ((blanks n ++ session_pair value) ∷ after)) (codes ";"))
      ≡ join
          (map redact_part before
            ++ ((blanks n ++ session_pair (codes "[REDACTED]")) ∷ map redact_part after))
          (codes ";")
redact_cookie_header-session [] after n value hb ha hv =
    redact_cookie_header-parts (blanks n ++ session_pair value) after (blanks-Lacks n value hv, ha)
    ∙ ap (λ u. join (u ∷ map redact_part after) (codes ";")) (redact_part-session n value)
redact_cookie_header-session (p ∷ before) after n value hb ha hv =
    let mine = blanks n ++ session_pair value in
    let all =
      All-append (Lacks b';') (p ∷ before) (mine ∷ after) hb (blanks-Lacks n value hv, ha) in
    redact_cookie_header-parts p (before ++ (mine ∷ after)) all
    ∙ ap (λ u. join u (codes ";")) (map-append redact_part (p ∷ before) (mine ∷ after))
    ∙ ap (λ u. join (map redact_part (p ∷ before) ++ (u ∷ map redact_part after)) (codes ";"))
        (redact_part-session n value)
