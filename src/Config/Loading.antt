-- ===== src/Config/Loading.antt =====
-- internal/config/config.go: Load behind the resolution of its sources: the secrets that it generates,
-- the validation, and the .env file that it writes.
pub mod Secrets
pub mod Ending
use my_home_index_server.Prelude.{
  ℕ, ◌+◌, ◌/◌, ◌%◌, ◌⊎◌, inl, inr, Bool, true, false, Option, none, some, List, [], ◌∷◌, ◌++◌,
}
use my_home_index_server.Prelude.Tests.{ltb, if◌then◌else◌}
use my_home_index_server.Prelude.Bytes.{Bytes, codes}
use my_home_index_server.Prelude.Dict.{Dict, lookup, insert}
use my_home_index_server.Prelude.Hex.{hex}
use my_home_index_server.Disk.{Disk, Faults, WriteError, Written}
use my_home_index_server.Config.{Config, Options, Surroundings, LoadError, validate, resolved}
use my_home_index_server.Config.EnvFile.{persist_generated}

-- `generateSecret`
unfoldable pub generate_secret : Option Bytes → Option Bytes
generate_secret none = none
generate_secret (some buf) = some (hex buf)

-- A value that is there, or one that is made, which is none when it cannot be.
unfoldable pub filled : LoadError → Option Bytes → Bytes → LoadError ⊎ Bytes
filled e none [] = inl e
filled e (some v) [] = inr v
filled e made (b ∷ s) = inr (b ∷ s)

-- The same for a secret, which is noted in the map `generated` under its key when it is made.
unfoldable pub secret_for :
    Bytes → LoadError → Option Bytes → Bytes → Dict Bytes → LoadError ⊎ (Bytes × Dict Bytes)
secret_for key e none [] generated = inl e
secret_for key e (some v) [] generated = inr (v, insert key v generated)
secret_for key e made (b ∷ s) generated = inr (b ∷ s, generated)

unfoldable pub checked : Config → Dict Bytes → Option LoadError → LoadError ⊎ (Config × Dict Bytes)
checked c generated none = inr (c, generated)
checked c generated (some e) = inl e

unfoldable pub with_secret :
    Config → LoadError ⊎ (Bytes × Dict Bytes) → LoadError ⊎ (Config × Dict Bytes)
with_secret c (inl e) = inl e
with_secret c (inr (secret, generated)) =
    let full : Config = record c { session_secret = secret } in
    checked full generated (validate full)

unfoldable pub with_token :
    Surroundings → Config → LoadError ⊎ (Bytes × Dict Bytes) → LoadError ⊎ (Config × Dict Bytes)
with_token w c (inl e) = inl e
with_token w c (inr (token, generated)) =
    with_secret (record c { auth_token = token })
      (secret_for (codes "SESSION_SECRET") LoadError.no_secret (generate_secret w.secret_entropy)
        c.session_secret generated)

unfoldable pub with_state_dir :
    Surroundings → Config → LoadError ⊎ Bytes → LoadError ⊎ (Config × Dict Bytes)
with_state_dir w c (inl e) = inl e
with_state_dir w c (inr dir) =
    with_token w (record c { state_dir = dir })
      (secret_for (codes "AUTH_TOKEN") LoadError.no_token (generate_secret w.token_entropy)
        c.auth_token [])

unfoldable pub load_file :
    Options → Surroundings → Option (Dict Bytes) → LoadError ⊎ (Config × Dict Bytes)
load_file o w none = inl LoadError.unreadable
load_file o w (some file) =
    let c = resolved o w file in
    with_state_dir w c (filled LoadError.no_home w.home_dir c.state_dir)

-- What `Load` returns, the disk of the .env file, and the token in the line that it prints.
pub record Run : Type 0 where
  pub result : LoadError ⊎ Config
  pub disk : Disk
  pub banner : Option Bytes

unfoldable pub printed : Config → Dict Bytes → Disk → Option WriteError → Run
printed c generated d (some e) = record {
  result = inl LoadError.not_persisted;
  disk = d;
  banner = none;
}
printed c generated d none = record {
  result = inr c;
  disk = d;
  banner = lookup (codes "AUTH_TOKEN") generated;
}

unfoldable pub announced : Config → Dict Bytes → Disk → Option Written → Run
announced c generated d none = record {
  result = inl LoadError.not_persisted;
  disk = d;
  banner = none;
}
announced c generated d (some w) = printed c generated w.disk w.error

-- The end of `Load`: generated secrets are written to the .env file, and the token is printed.
unfoldable pub persisted : Bool → Faults → Disk → LoadError ⊎ (Config × Dict Bytes) → Run
persisted readable f d (inl e) = record { result = inl e; disk = d; banner = none }
persisted readable f d (inr (c, [])) = record { result = inr c; disk = d; banner = none }
persisted readable f d (inr (c, e ∷ generated)) =
    announced c (e ∷ generated) d (persist_generated readable f (e ∷ generated) d)

-- `Load`: whether the .env file can be read again, the calls that fail when it is written, and the
-- file itself come on top of what Load reads.
unfoldable pub load : Options → Surroundings → Bool → Faults → Disk → Run
load o w readable f d = persisted readable f d (load_file o w w.file)
