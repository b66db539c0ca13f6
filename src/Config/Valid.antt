-- ===== src/Config/Valid.antt =====
-- What a loaded configuration guarantees.
use my_home_index_server.Prelude.{◌≡◌, ◌≤◌, ◌⊎◌, true, false, none, arith}
use my_home_index_server.Prelude.Lists.{length}
use my_home_index_server.Prelude.Bytes.{codes, bytes_eq_iff, is_empty}
use my_home_index_server.Prelude.Int.{pos, int_le}
use my_home_index_server.Config.{Config, validate, is_port}

pub record IsValid (c : Config) : Type 0 where
  pub token : 16 ≤ length c.auth_token
  pub secret : 16 ≤ length c.session_secret
  pub host : is_empty c.public_host ≡ false
  pub port_low : int_le (pos 0) c.port ≡ true
  pub port_high : int_le c.port (pos 65535) ≡ true
  pub above : int_le (pos 1) c.port_min ≡ true
  pub below : int_le c.port_max (pos 65535) ≡ true
  pub range : int_le c.port_max c.port_min ≡ false
  pub grace : int_le c.kill_grace_ms (pos 0) ≡ false
  pub scanner_known :
      (c.scanner ≡ codes "auto") ⊎ ((c.scanner ≡ codes "libproc") ⊎ (c.scanner ≡ codes "lsof"))

pub validate-IsValid : (c : Config) → validate c ≡ none → IsValid c
unfolding validate is_port
validate-IsValid c h = record {
  token = ground arith;
  secret = ground arith;
  host = ground arith;
  port_low = ground arith;
  port_high = ground arith;
  above = ground arith;
  below = ground arith;
  range = ground arith;
  grace = ground arith;
  scanner_known = ground (
    arith,
    bytes_eq_iff c.scanner (codes "auto"),
    bytes_eq_iff c.scanner (codes "libproc"),
    bytes_eq_iff c.scanner (codes "lsof"),
  );
}
