-- ===== src/Tests/StartTests.antt =====
-- The theorems on the kill over time, the attempts to log in and the start at concrete inputs.
use my_home_index_server.Prelude.{
  ◌+◌, ◌-◌, ◌≤◌, ◌≡◌, refl, inl, true, false, Option, none, some, [], ◌∷◌, ◌++◌, arith,
}
use my_home_index_server.Prelude.Lists.{length, select}
use my_home_index_server.Prelude.Tests.{if◌then◌else◌}
use my_home_index_server.Prelude.Bytes.{Bytes, codes, bytes_eq}
use my_home_index_server.Prelude.Int.{pos}
use my_home_index_server.Prelude.Time.{second}
use my_home_index_server.Process.{Scan, kill, verify_live}
use my_home_index_server.Process.Escalation.{Escalates, kill_over_time, kill_over_time-Escalates}
use my_home_index_server.Auth.{check_bearer, rate_limit_capacity}
use my_home_index_server.Auth.Limiter.{in_window, rate_limit_check}
use my_home_index_server.Auth.Limiter.Lockout.{record_all}
use my_home_index_server.Auth.Limiter.Overlap.{check_all, check_all-allowed}
use my_home_index_server.Auth.Limiter.Window.{live}
use my_home_index_server.Server.Access.Guessing.{Try, IsWrong, guesses, guesses-le}
use my_home_index_server.Server.Access.{trust_xff}
use my_home_index_server.Server.Headers.{remote_ip, remote_addr}
use mathlib.Core.Path.{subst}
use mathlib.Core.Option
use my_home_index_server.Disk.{no_faults}
use my_home_index_server.Scanner.Auto.{Platform}
use my_home_index_server.Server.{Server}
use my_home_index_server.Server.Routes.{Route}
use my_home_index_server.Server.Routes.Soundness.{serve_all}
use my_home_index_server.Server.Sound.{IsSound}
use my_home_index_server.Prelude.Dict.{lookup, insert}
use my_home_index_server.Prelude.Text.{trim_space}
use my_home_index_server.Prelude.Hex.{hex}
use my_home_index_server.Store.Hydrate.{empty_state, open_store, hydrate}
use my_home_index_server.Disk.{write_atomic}
use my_home_index_server.Auth.{new_auth}
use my_home_index_server.Scanner.Auto.{auto, new_libproc, default_scanner_name}
use my_home_index_server.Config.{
  Config, resolved, validate, lookup_env, lookup_int, parse_bool, parse_port_range, first_non_empty,
  first_non_zero,
}
use my_home_index_server.Config.EnvFile.{persist_generated}
use my_home_index_server.Config.Loading.{
  load, load_file, with_state_dir, with_token, with_secret, secret_for, checked, filled,
  generate_secret, persisted, announced, printed,
}
use my_home_index_server.Command.{
  Boot, start, state_dir_of, store_root, with_config, with_store, with_scanner, new_server,
  open_store_for_cfg, open_root, as_start, basename_of, parent_of, after_separator,
  before_separator,
}
use my_home_index_server.Command.Roots.{store_root-append}
use my_home_index_server.Command.Starting.{Started, start-IsSound}
use my_home_index_server.Tests.{
  noon, token, host, crypto, auth, address, system, listeners, request, world, options,
  surroundings, env_disk, config, server, five,
}

kill_succeeds :
    (kill
      (pos 7)
      system
      (Scan.scanned listeners)
      (record { pid = pos 321; port = pos 40123 })).error
    ≡ none
unfolding kill verify_live
kill_succeeds = refl

kill_over_time-Escalates_example :
    Escalates
      (pos 3000)
      (λ t. system)
      (pos 321)
      noon
      5
      (kill_over_time
        (pos 3000)
        (pos 7)
        (λ t. system)
        (Scan.scanned listeners)
        (record { pid = pos 321; port = pos 40123 })
        noon
        5)
kill_over_time-Escalates_example =
    kill_over_time-Escalates (pos 3000) (pos 7) (λ t. system) (Scan.scanned listeners)
      (record { pid = pos 321; port = pos 40123 }) noon 5 kill_succeeds

abbrev wrong_token : Bytes
wrong_token = codes "0123456789abcdeg"

abbrev try : Try
try = record { world = world; request = record request { form = some (λ key. wrong_token) } }

abbrev chosen : Option (Bytes → Bytes) → Bytes
chosen none = []
chosen (some form) = form (codes "token")

refuses : check_bearer crypto auth wrong_token ≡ false
unfolding check_bearer bytes_eq
refuses = refl

from_address : remote_ip try.request (trust_xff (some config)) ≡ address
unfolding remote_ip trust_xff remote_addr
from_address = refl

try-IsWrong : IsWrong crypto (some config) auth address (noon + second) try
try-IsWrong = record {
  from = from_address;
  was_checked = omega arith;
  was_answered = omega arith;
  wrong = λ form e.
      subst (λ (o : Option (Bytes → Bytes)). check_bearer crypto auth (chosen o) ≡ false) e refuses;
}

guesses-le_example :
    length (select (in_window (noon + second)) (guesses crypto server (try ∷ try ∷ [])))
    ≤ rate_limit_capacity - length (live auth address (noon + second))
guesses-le_example =
    guesses-le crypto server auth address (noon + second) (try ∷ try ∷ []) refl (inl (omega arith))
      (try-IsWrong, (try-IsWrong, tt))

check_all-allowed_example :
    ((rate_limit_check (check_all 9 auth address noon) address noon).1.allowed ≡ true)
    × (length (live (record_all (check_all 9 auth address noon) address five) address noon)
        ≡ length (live auth address noon) + length (select (in_window noon) five))
unfolding lookup
check_all-allowed_example =
    check_all-allowed 9 auth address noon noon five (inl (omega arith)) (omega arith) (omega arith)
      (omega arith)

abbrev boot : Boot
boot = record {
  options = options;
  surroundings = surroundings;
  readable = true;
  env_faults = no_faults;
  env_disk = env_disk;
  user_home = none;
  mkdir_fails = false;
  read_fails = false;
  state_disk = λ root. record { committed = none; tmp = none };
  platform = Platform.darwin;
  user = codes "u";
  self = pos 7;
}

store_root-append_example :
    (store_root (codes "/home/u" ++ codes "/.port-manager") none ≡ (
      if bytes_eq (codes ".port-manager") (codes ".port-manager")
      then some (codes "/home/u")
      else some (codes "/home/u" ++ codes "/.port-manager")))
    × (Option.map state_dir_of (store_root (codes "/home/u" ++ codes "/.port-manager") none) ≡ (
        if bytes_eq (codes ".port-manager") (codes ".port-manager")
        then some (codes "/home/u" ++ codes "/.port-manager")
        else some ((codes "/home/u" ++ codes "/.port-manager") ++ codes "/.port-manager")))
store_root-append_example =
    store_root-append b'/' (codes "home/u") (codes ".port-manager") none (ground arith)

-- The token that the start makes.
abbrev made : Bytes
made = codes "3031323334353637383961626364656630313233343536373839616263646566"

abbrev cfg : Config
cfg = record {
  auth_token = made;
  session_secret = token;
  public_host = codes "yourhost.example";
  port = pos 40000;
  port_min = pos 40000;
  port_max = pos 40500;
  kill_grace_ms = pos 3000;
  scanner = codes "auto";
  state_dir = codes "/home/u/.port-manager";
  trust_xff = false;
}

abbrev started : Server
started = record {
  cfg = some cfg;
  auth = some (new_auth made token);
  store = some (record { content = empty_state; disk = record { committed = none; tmp = none } });
  has_scanner = true;
  has_inspector = true;
  has_process = true;
  self = pos 7;
  user = codes "u";
  snapshot = [];
}

starts : start host boot ≡ inl started
unfolding start load load_file with_state_dir with_token with_secret secret_for checked filled
    generate_secret hex persisted announced printed persist_generated write_atomic resolved validate
    lookup_env lookup_int parse_bool parse_port_range first_non_empty first_non_zero lookup bytes_eq
    trim_space with_config with_store with_scanner new_server open_store_for_cfg open_root as_start
    open_store store_root basename_of parent_of after_separator before_separator auto new_libproc
    default_scanner_name insert hydrate
starts = refl

start-IsSound_example :
    Started host boot started
    × IsSound (
        serve_all crypto host started
          (record { world = world; request = request; route = Route.login_post } ∷ []))
start-IsSound_example =
    start-IsSound host boot started crypto
      (record { world = world; request = request; route = Route.login_post } ∷ []) (refl, tt)
      (λ r. refl) starts
