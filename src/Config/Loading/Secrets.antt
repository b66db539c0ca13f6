-- ===== src/Config/Loading/Secrets.antt =====
-- The secrets that `Load` generates.
use my_home_index_server.Prelude.{◌≡◌, ◌≢◌, refl, ◌⊎◌, inl, inr, Option, none, some, [], ◌∷◌, arith}
use my_home_index_server.Prelude.Lists.{length}
use my_home_index_server.Prelude.Bytes.{Bytes, codes, bytes_eq}
use my_home_index_server.Prelude.Dict.{Dict, lookup, insert, Distinct}
use my_home_index_server.Prelude.Hex.{hex, All-hex}
use my_home_index_server.Config.{Config, Surroundings, LoadError}
use my_home_index_server.Config.EnvFile.Keys.{IsName, IsSecret}
use my_home_index_server.Config.EnvFile.Lines.{AreSecrets}
use my_home_index_server.Config.Loading.{generate_secret, secret_for}

-- What crypto/rand gives fills the buffer of 32 bytes.
abbrev pub IsFull : Option Bytes → Type 0
IsFull none = Unit
IsFull (some buf) = length buf ≡ 32

abbrev pub AreFull : Surroundings → Type 0
AreFull w = IsFull w.token_entropy × IsFull w.secret_entropy

hex-IsSecret : (s : Bytes) → length s ≡ 32 → IsSecret (hex s)
unfolding hex
hex-IsSecret [] h = absurd (omega (arith, h))
hex-IsSecret (b ∷ s) h = All-hex (b ∷ s)

-- How a secret is found or made: it is made exactly if the sources give none.
pub data Supplied (key given : Bytes) (old : Dict Bytes)
    : LoadError ⊎ (Bytes × Dict Bytes) → Type 0 where
  failed : (e : LoadError) → Supplied key given old (inl e)
  kept : given ≢ [] → Supplied key given old (inr (given, old))
  made : (v : Bytes) → given ≡ [] → IsSecret v → Supplied key given old (inr (v, insert key v old))

pub secret_for-Supplied :
    (key : Bytes) (e : LoadError) (entropy : Option Bytes) (s : Bytes) (old : Dict Bytes)
    → IsFull entropy
    → Supplied key s old (secret_for key e (generate_secret entropy) s old)
unfolding secret_for generate_secret
secret_for-Supplied key e none [] old h = Supplied.failed e
secret_for-Supplied key e (some buf) [] old h = Supplied.made (hex buf) refl (hex-IsSecret buf h)
secret_for-Supplied key e none (b ∷ s) old h = Supplied.kept (λ e. cc)
secret_for-Supplied key e (some buf) (b ∷ s) old h = Supplied.kept (λ e. cc)

-- Where a secret comes from: the sources, and then none is generated under its key, or the sources
-- give none, and it is the generated one.
pub data From (key given value : Bytes) (kv : Dict Bytes) : Type 0 where
  sources : given ≢ [] → value ≡ given → lookup key kv ≡ none → From key given value kv
  generated : given ≡ [] → lookup key kv ≡ some value → From key given value kv

-- Where the two secrets of a configuration come from, `token` and `secret` being what the sources give.
pub record Origin (token secret : Bytes) (c : Config) (kv : Dict Bytes) : Type 0 where
  pub of_token : From (codes "AUTH_TOKEN") token c.auth_token kv
  pub of_secret : From (codes "SESSION_SECRET") secret c.session_secret kv

-- The generated secrets are those of the configuration.
pub record Matches (c : Config) (kv : Dict Bytes) : Type 0 where
  pub secrets : AreSecrets kv
  pub distinct : Distinct kv
  pub token : (v : Bytes) → lookup (codes "AUTH_TOKEN") kv ≡ some v → v ≡ c.auth_token
  pub session : (v : Bytes) → lookup (codes "SESSION_SECRET") kv ≡ some v → v ≡ c.session_secret

auth-IsName : IsName (codes "AUTH_TOKEN")
auth-IsName = omega arith

session-IsName : IsName (codes "SESSION_SECRET")
session-IsName = omega arith

-- The four maps that can be generated.
pub Matches-nil : (c : Config) → Matches c []
unfolding lookup
Matches-nil c = record { secrets = tt; distinct = tt; token = λ v e. cc; session = λ v e. cc }

pub Matches-token :
    (c : Config) → IsSecret c.auth_token → Matches c ((codes "AUTH_TOKEN", c.auth_token) ∷ [])
unfolding lookup bytes_eq
Matches-token c h = record {
  secrets = ((auth-IsName, h), tt);
  distinct = (refl, tt);
  token = λ v e. cc;
  session = λ v e. cc;
}

pub Matches-session :
    (c : Config)
    → IsSecret c.session_secret
    → Matches c ((codes "SESSION_SECRET", c.session_secret) ∷ [])
unfolding lookup bytes_eq
Matches-session c h = record {
  secrets = ((session-IsName, h), tt);
  distinct = (refl, tt);
  token = λ v e. cc;
  session = λ v e. cc;
}

pub Matches-both :
    (c : Config)
    → IsSecret c.auth_token
    → IsSecret c.session_secret
    → Matches c
        ((codes "AUTH_TOKEN", c.auth_token) ∷ (codes "SESSION_SECRET", c.session_secret) ∷ [])
unfolding lookup bytes_eq
Matches-both c h k = record {
  secrets = ((auth-IsName, h), ((session-IsName, k), tt));
  distinct = (refl, (refl, tt));
  token = λ v e. cc;
  session = λ v e. cc;
}
