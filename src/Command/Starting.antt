-- ===== src/Command/Starting.antt =====
-- What `run` starts, and what stays true of it.
use my_home_index_server.Prelude.{◌≡◌, refl, sym, ◌⊎◌, inl, inr, Option, none, some, List, arith}
use mathlib.Core.Path.{subst}
use my_home_index_server.Prelude.Bytes.{Bytes}
use my_home_index_server.Disk.{Disk}
use my_home_index_server.Store.{Store, Host, StoreError}
use my_home_index_server.Store.Hydrate.{empty_state, open_store-first}
use my_home_index_server.Store.Ops.Invariant
use my_home_index_server.Auth.{Crypto}
use my_home_index_server.Config.{Config, LoadError}
use my_home_index_server.Config.Valid.{IsValid}
use my_home_index_server.Config.Loading.{Run, load}
use my_home_index_server.Config.Loading.Secrets.{AreFull}
use my_home_index_server.Config.Loading.Ending.{Loaded, load-Loaded}
use my_home_index_server.Scanner.Auto.{Kind, auto}
use my_home_index_server.Server.{Server}
use my_home_index_server.Server.Sound.{IsSound}
use my_home_index_server.Server.Routes.Soundness.{Exchange, serve_all, serve_all-IsSound}
use my_home_index_server.Command.{
  state_dir_of, Boot, StartError, open_root, as_start, open_store_for_cfg, new_server, with_scanner,
  with_store, with_config, start,
}

-- What a server starts with.
pub record Started (host : Host) (boot : Boot) (s : Server) : Type 0 where
  pub cfg : Config
  pub st : Store
  pub kind : Kind
  pub is_valid : IsValid cfg
  pub opened : open_store_for_cfg host boot cfg ≡ inl st
  pub scanner : auto boot.platform cfg.scanner ≡ some kind
  pub server_is : s ≡ new_server boot cfg st

Loaded-IsValid :
    {token secret : Bytes} (d : Disk) (r : Run) (cfg : Config)
    → Loaded token secret d r
    → r.result ≡ inr cfg
    → IsValid cfg
Loaded-IsValid d r cfg (Loaded.refused e after x) h = cc
Loaded-IsValid d r cfg (Loaded.complete c v _) h = subst IsValid (cc) v
Loaded-IsValid d r cfg (Loaded.generated c kv after v _ m _ w x) h = subst IsValid (cc) v

with_scanner-Started :
    (host : Host) (boot : Boot) (cfg : Config) (st : Store) (o : Option Kind) (s : Server)
    → IsValid cfg
    → open_store_for_cfg host boot cfg ≡ inl st
    → auto boot.platform cfg.scanner ≡ o
    → with_scanner boot cfg st o ≡ inl s
    → Started host boot s
unfolding with_scanner
with_scanner-Started host boot cfg st none s v e k h = cc
with_scanner-Started host boot cfg st (some kind) s v e k h = record {
  cfg = cfg;
  st = st;
  kind = kind;
  is_valid = v;
  opened = e;
  scanner = k;
  server_is = cc;
}

with_store-Started :
    (host : Host) (boot : Boot) (cfg : Config) (o : Store ⊎ StartError) (s : Server)
    → IsValid cfg
    → open_store_for_cfg host boot cfg ≡ o
    → with_store boot cfg o ≡ inl s
    → Started host boot s
unfolding with_store
with_store-Started host boot cfg (inr e) s v k h = cc
with_store-Started host boot cfg (inl st) s v k h =
    with_scanner-Started host boot cfg st (auto boot.platform cfg.scanner) s v k refl h

with_config-Started :
    {token secret : Bytes} (host : Host) (boot : Boot) (r : Run) (s : Server)
    → Loaded token secret boot.env_disk r
    → with_config host boot r.result ≡ inl s
    → Started host boot s
unfolding with_config
with_config-Started host boot r s l h = go r.result refl h
  where
    go :
        (o : LoadError ⊎ Config)
        → r.result ≡ o
        → with_config host boot o ≡ inl s
        → Started host boot s
    go (inl e) k h = cc
    go (inr cfg) k h =
        with_store-Started host boot cfg (open_store_for_cfg host boot cfg) s
          (Loaded-IsValid boot.env_disk r cfg l k) refl h

start-Started :
    (host : Host) (boot : Boot) (s : Server)
    → AreFull boot.surroundings
    → start host boot ≡ inl s
    → Started host boot s
unfolding start
start-Started host boot s full h =
    let r = load boot.options boot.surroundings boot.readable boot.env_faults boot.env_disk in
    with_config-Started host boot r s
      (load-Loaded boot.options boot.surroundings boot.readable boot.env_faults boot.env_disk full)
      h

-- No root has a state file yet.
abbrev pub FirstStart : Boot → Type 0
FirstStart boot = (root : Bytes) → (boot.state_disk root).committed ≡ none

as_start-inl : (o : Store ⊎ StoreError) (st : Store) → as_start o ≡ inl st → o ≡ inl st
unfolding as_start
as_start-inl (inl s) st h = cc
as_start-inl (inr e) st h = cc

open_root-first :
    (host : Host) (boot : Boot) (o : Option Bytes) (st : Store)
    → FirstStart boot
    → open_root host boot o ≡ inl st
    → st.content ≡ empty_state
unfolding open_root
open_root-first host boot none st first h = cc
open_root-first host boot (some root) st first h =
    open_store-first host root boot.mkdir_fails boot.read_fails
      (boot.state_disk (state_dir_of root)) st (first (state_dir_of root)) (as_start-inl _ st h)

empty_state-IsValid : Invariant.IsValid empty_state
empty_state-IsValid = record {
  per_key = λ key. omega arith;
  global = omega arith;
  distinct = tt;
  labelled = tt;
}

-- On a first start, when no directory has a state file and the random bytes fill their buffer: if the
-- program starts, its configuration is valid, its server has a token of at least 16 bytes to check,
-- and after whatever requests it keeps within its limits: at most ten thousand addresses in the rate
-- limiter, and a store with at most five remembered listeners of a key and a hundred in all, and with
-- labels that are not empty and at most 64 runes long.
pub start-IsSound :
    (host : Host) (boot : Boot) (s : Server) (crypto : Crypto) (xs : List Exchange)
    → AreFull boot.surroundings
    → FirstStart boot
    → start host boot ≡ inl s
    → Started host boot s × IsSound (serve_all crypto host s xs)
unfolding new_server open_store_for_cfg
start-IsSound host boot s crypto xs full first h =
    let started = start-Started host boot s full h in
    let empty = open_root-first host boot _ started.st first started.opened in
    let sound : IsSound (new_server boot started.cfg started.st) = record {
      bounded = record { distinct = tt; bounded = omega arith };
      valid = rw empty empty_state-IsValid;
    } in
    (started, serve_all-IsSound crypto host s xs (subst IsSound (sym started.server_is) sound))
