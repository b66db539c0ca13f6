-- ===== src/Config.antt =====
-- internal/config/config.go: Load, with its precedence of options, the .env file and the environment,
-- the secrets that it generates, and the validation of the result.
pub mod Valid
pub mod EnvFile
pub mod Loading
use my_home_index_server.Prelude.{
  ℕ, ◌+◌, ◌⊎◌, inl, inr, Bool, true, false, not, ◌&&◌, ◌||◌, Option, none, some, List, [], ◌∷◌,
  ◌++◌,
}
use my_home_index_server.Prelude.Tests.{ltb, leb, ◌==◌, if◌then◌else◌}
use my_home_index_server.Prelude.Lists.{length, take, drop}
use my_home_index_server.Prelude.Bytes.{Bytes, codes, bytes_eq, is_empty}
use my_home_index_server.Prelude.Dict.{Dict, lookup}
use my_home_index_server.Prelude.Int.{ℤ, pos, negsuc, int_eq, int_le}
use my_home_index_server.Prelude.Text.{atoi, trim_space, lower}

abbrev pub default_public_host : Bytes
default_public_host = codes "yourhost.example"

pub record Config : Type 0 where
  pub auth_token : Bytes
  pub session_secret : Bytes
  pub public_host : Bytes
  pub port : ℤ
  pub port_min : ℤ
  pub port_max : ℤ
  pub kill_grace_ms : ℤ
  pub scanner : Bytes
  pub state_dir : Bytes
  pub trust_xff : Bool

-- The overrides that the caller gives: empty, 0 and false mean none.
pub record Options : Type 0 where
  pub auth_token : Bytes
  pub session_secret : Bytes
  pub public_host : Bytes
  pub port : Option ℤ
  pub port_min : ℤ
  pub port_max : ℤ
  pub kill_grace_ms : ℤ
  pub scanner : Bytes
  pub state_dir : Bytes
  pub trust_xff : Bool

-- What Load reads: godotenv's map of the .env file (none if it cannot be read, empty if there is no
-- file), os.Getenv, ".port-manager" under os.UserHomeDir, and what crypto/rand gives for the two
-- secrets.
pub record Surroundings : Type 0 where
  pub file : Option (Dict Bytes)
  pub getenv : Bytes → Bytes
  pub home_dir : Option Bytes
  pub token_entropy : Option Bytes
  pub secret_entropy : Option Bytes

pub data LoadError : Type 0 where
  unreadable no_home no_token no_secret not_persisted : LoadError
  token_short secret_short no_public_host : LoadError
  bad_port bad_port_min bad_port_max empty_range bad_grace bad_scanner : LoadError

unfoldable pub first_non_empty : List Bytes → Bytes
first_non_empty [] = []
first_non_empty (v ∷ vs) = let rest = first_non_empty vs in if is_empty v then rest else v

unfoldable pub first_non_zero : List ℤ → ℤ
first_non_zero [] = pos 0
first_non_zero (v ∷ vs) = let rest = first_non_zero vs in if int_eq v (pos 0) then rest else v

from_file : Option Bytes → Bytes → Bytes
from_file none fallback = fallback
from_file (some v) fallback = if is_empty v then fallback else v

-- The closure `lookup` of Load.
unfoldable pub lookup_env : Surroundings → Dict Bytes → Bytes → Bytes
unfolding from_file
lookup_env w file key = from_file (lookup key file) (w.getenv key)

abbrev number_or : ℤ → Option ℤ → ℤ
number_or default none = default
number_or default (some n) = n

-- The closure `lookupInt`.
unfoldable pub lookup_int : Surroundings → Dict Bytes → Bytes → ℤ → ℤ
lookup_int w file key default =
    let v = lookup_env w file key in if is_empty v then default else number_or default (atoi v)

lower_all : Bytes → Bytes
lower_all [] = []
lower_all (b ∷ s) = lower b ∷ lower_all s

-- `parseBool`: no character outside ASCII has a letter of these words as its lower case.
unfoldable pub parse_bool : Bytes → Bool
unfolding lower_all
parse_bool s =
    let word = lower_all (trim_space s) in
    bytes_eq word (codes "1")
    || bytes_eq word (codes "true")
    || bytes_eq word (codes "yes")
    || bytes_eq word (codes "on")

-- strings.SplitN(s, "-", 2), when it gives two parts.
unfoldable pub cut_dash : Bytes → Option (Bytes × Bytes)
cut_dash [] = none
cut_dash (b ∷ s) = elim (b == b'-') [
  | true ↦ some ([], s)
  | false ↦ elim (cut_dash s) [ none ↦ none | some (u, v) ↦ some (b ∷ u, v) ]
]

both : Option ℤ → Option ℤ → ℤ × ℤ
both (some lo) (some hi) = (lo, hi)
both (some lo) none = (pos 0, pos 0)
both none hi = (pos 0, pos 0)

parsed_range : Option (Bytes × Bytes) → ℤ × ℤ
unfolding both
parsed_range none = (pos 0, pos 0)
parsed_range (some (lo, hi)) = both (atoi (trim_space lo)) (atoi (trim_space hi))

-- `parsePortRange`
unfoldable pub parse_port_range : Bytes → ℤ × ℤ
unfolding parsed_range
parse_port_range s = if is_empty s then (pos 0, pos 0) else parsed_range (cut_dash s)

is_port : ℤ → Bool
is_port p = int_le (pos 1) p && int_le p (pos 65535)

-- `validate`
unfoldable pub validate : Config → Option LoadError
unfolding is_port
validate c =
    if ltb (length c.auth_token) 16
    then some LoadError.token_short
    else if ltb (length c.session_secret) 16
    then some LoadError.secret_short
    else if is_empty c.public_host
    then some LoadError.no_public_host
    else if not (int_le (pos 0) c.port && int_le c.port (pos 65535))
    then some LoadError.bad_port
    else if not (is_port c.port_min)
    then some LoadError.bad_port_min
    else if not (is_port c.port_max)
    then some LoadError.bad_port_max
    else if int_le c.port_max c.port_min
    then some LoadError.empty_range
    else if int_le c.kill_grace_ms (pos 0)
    then some LoadError.bad_grace
    else if not (
        bytes_eq c.scanner (codes "auto")
        || bytes_eq c.scanner (codes "libproc")
        || bytes_eq c.scanner (codes "lsof"))
    then some LoadError.bad_scanner
    else none

-- The configuration before the state directory and the secrets are filled in.
unfoldable pub resolved : Options → Surroundings → Dict Bytes → Config
resolved o w file =
    let env = lookup_env w file in
    let range = parse_port_range (env (codes "PORT_RANGE")) in
    record {
      auth_token = first_non_empty (o.auth_token ∷ env (codes "AUTH_TOKEN") ∷ []);
      session_secret = first_non_empty (o.session_secret ∷ env (codes "SESSION_SECRET") ∷ []);
      public_host =
          first_non_empty (o.public_host ∷ env (codes "PUBLIC_HOST") ∷ default_public_host ∷ []);
      port = number_or (lookup_int w file (codes "PORT") (pos 40000)) o.port;
      port_min = first_non_zero (o.port_min ∷ range.0 ∷ pos 40000 ∷ []);
      port_max = first_non_zero (o.port_max ∷ range.1 ∷ pos 40500 ∷ []);
      kill_grace_ms =
          first_non_zero
            (o.kill_grace_ms ∷ lookup_int w file (codes "KILL_GRACE_MS") (pos 3000) ∷ []);
      scanner = first_non_empty (o.scanner ∷ env (codes "SCANNER") ∷ codes "auto" ∷ []);
      state_dir = first_non_empty (o.state_dir ∷ env (codes "STATE_DIR") ∷ []);
      trust_xff = o.trust_xff || parse_bool (env (codes "TRUST_XFF"));
    }
