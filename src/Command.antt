-- ===== src/Command.antt =====
-- cmd/port-manager/main.go: which directory the store is opened in, and how `run` puts the parts of
-- the program together before it listens.
pub mod Roots
pub mod Starting
use my_home_index_server.Prelude.{
  ℕ, ◌⊎◌, inl, inr, Bool, true, false, ◌||◌, Option, none, some, List, [], ◌∷◌, ◌++◌,
}
use my_home_index_server.Prelude.Tests.{◌==◌, if◌then◌else◌}
use my_home_index_server.Prelude.Bytes.{Bytes, codes, bytes_eq, is_empty}
use my_home_index_server.Prelude.Int.{ℤ}
use my_home_index_server.Disk.{Disk, Faults}
use my_home_index_server.Store.{Store, Host, StoreError}
use my_home_index_server.Store.Hydrate.{open_store}
use my_home_index_server.Auth.{new_auth}
use my_home_index_server.Config.{Config, Options, Surroundings, LoadError}
use my_home_index_server.Config.Loading.{load}
use my_home_index_server.Scanner.Auto.{Platform, Kind, auto}
use my_home_index_server.Server.{Server}

abbrev pub is_separator : ℕ → Bool
is_separator b = b == b'/' || b == b'\\'

-- p[i+1:] for the last separator, if there is one.
unfoldable pub after_separator : Bytes → Option Bytes
after_separator [] = none
after_separator (b ∷ p) = elim (after_separator p) [
  | some rest ↦ some rest
  | none ↦ if is_separator b then some p else none
]

or_whole : Option Bytes → Bytes → Bytes
or_whole none p = p
or_whole (some rest) p = rest

-- `basenameOf`
unfoldable pub basename_of : Bytes → Bytes
unfolding or_whole
basename_of p = or_whole (after_separator p) p

-- p[:i] for the last separator, if there is one.
unfoldable pub before_separator : Bytes → Option Bytes
before_separator [] = none
before_separator (b ∷ p) = elim (before_separator p) [
  | some front ↦ some (b ∷ front)
  | none ↦ if is_separator b then some [] else none
]

parent_from : ℕ → Option Bytes → Bytes
parent_from b none = codes "."
parent_from b (some front) = b ∷ front

-- `parentOf`: the loop stops before the first byte.
unfoldable pub parent_of : Bytes → Bytes
unfolding parent_from
parent_of [] = codes "."
parent_of (b ∷ p) = parent_from b (before_separator p)

-- The root that `openStoreForCfg` opens, which is none where os.UserHomeDir fails.
unfoldable pub store_root : Bytes → Option Bytes → Option Bytes
store_root [] home = home
store_root (b ∷ p) home =
    if bytes_eq (basename_of (b ∷ p)) (codes ".port-manager")
    then some (parent_of (b ∷ p))
    else some (b ∷ p)

-- filepath.Join(root, ".port-manager"), the directory of `Open`, for a root that has nothing for
-- filepath.Clean to take away.
abbrev pub state_dir_of : Bytes → Bytes
state_dir_of root = root ++ codes "/.port-manager"

-- What the program starts from. `state_disk` is the disk of state.json in a
-- directory.
pub record Boot : Type 0 where
  pub options : Options
  pub surroundings : Surroundings
  pub readable : Bool
  pub env_faults : Faults
  pub env_disk : Disk
  pub user_home : Option Bytes
  pub mkdir_fails : Bool
  pub read_fails : Bool
  pub state_disk : Bytes → Disk
  pub platform : Platform
  pub user : Bytes
  pub self : ℤ

pub data StartError : Type 0 where
  load_config : LoadError → StartError
  user_home_dir init_scanner : StartError
  open_failed : StoreError → StartError

unfoldable pub as_start : Store ⊎ StoreError → Store ⊎ StartError
as_start (inl st) = inl st
as_start (inr e) = inr (StartError.open_failed e)

unfoldable pub open_root : Host → Boot → Option Bytes → Store ⊎ StartError
open_root host boot none = inr StartError.user_home_dir
open_root host boot (some root) =
    as_start
      (open_store host root boot.mkdir_fails boot.read_fails (boot.state_disk (state_dir_of root)))

-- `openStoreForCfg`
unfoldable pub open_store_for_cfg : Host → Boot → Config → Store ⊎ StartError
open_store_for_cfg host boot cfg = open_root host boot (store_root cfg.state_dir boot.user_home)

-- server.New of these parts: auth.New copies the token and the session secret.
unfoldable pub new_server : Boot → Config → Store → Server
new_server boot cfg st = record {
  cfg = some cfg;
  auth = some (new_auth cfg.auth_token cfg.session_secret);
  store = some st;
  has_scanner = true;
  has_inspector = true;
  has_process = true;
  self = boot.self;
  user = boot.user;
  snapshot = [];
}

unfoldable pub with_scanner : Boot → Config → Store → Option Kind → Server ⊎ StartError
with_scanner boot cfg st none = inr StartError.init_scanner
with_scanner boot cfg st (some kind) = inl (new_server boot cfg st)

unfoldable pub with_store : Boot → Config → Store ⊎ StartError → Server ⊎ StartError
with_store boot cfg (inr e) = inr e
with_store boot cfg (inl st) = with_scanner boot cfg st (auto boot.platform cfg.scanner)

unfoldable pub with_config : Host → Boot → LoadError ⊎ Config → Server ⊎ StartError
with_config host boot (inl e) = inr (StartError.load_config e)
with_config host boot (inr cfg) = with_store boot cfg (open_store_for_cfg host boot cfg)

-- `run` up to the server that it lets listen.
unfoldable pub start : Host → Boot → Server ⊎ StartError
start host boot =
    with_config host boot
      (load boot.options boot.surroundings boot.readable boot.env_faults boot.env_disk).result
