-- ===== src/Config/Loading/Ending.antt =====
-- How `Load` ends: what the configuration guarantees, and what stands in the .env file.
use my_home_index_server.Prelude.{
  ◌≡◌, ◌≢◌, refl, ◌⊎◌, inl, inr, Bool, true, false, Option, none, some, [], ◌∷◌,
}
use my_home_index_server.Prelude.Tests.{Option-cases}
use my_home_index_server.Prelude.Bytes.{Bytes, codes, bytes_eq}
use my_home_index_server.Prelude.Dict.{Dict, lookup, insert}
use my_home_index_server.Disk.{Disk, Faults, WriteError, write_atomic}
use my_home_index_server.Disk.Atomic.{write_atomic-committed, write_atomic-refused}
use my_home_index_server.Config.{Config, Options, Surroundings, LoadError, validate, resolved}
use my_home_index_server.Config.Valid.{IsValid, validate-IsValid}
use my_home_index_server.Config.EnvFile.{env_content, new_lines, old_lines, persist_generated}
use my_home_index_server.Config.EnvFile.Keys.{IsSecret}
use my_home_index_server.Config.EnvFile.Rewriting.{Rewritten, new_lines-Rewritten}
use my_home_index_server.Config.Loading.{
  filled, checked, with_secret, with_token, with_state_dir, load_file, Run, printed, announced,
  persisted, load,
}
use my_home_index_server.Config.Loading.Secrets.{
  AreFull, Supplied, From, Origin, secret_for-Supplied, Matches, Matches-nil, Matches-token,
  Matches-session, Matches-both,
}

data Checked (token secret : Bytes) : LoadError ⊎ (Config × Dict Bytes) → Type 0 where
  refused : (e : LoadError) → Checked token secret (inl e)
  ready :
      (c : Config) (kv : Dict Bytes)
      → IsValid c
      → Matches c kv
      → Origin token secret c kv
      → Checked token secret (inr (c, kv))

checked-Checked :
    {token secret : Bytes} (c : Config) (kv : Dict Bytes)
    → Matches c kv
    → Origin token secret c kv
    → Checked token secret (checked c kv (validate c))
unfolding checked
checked-Checked {token} {secret} c kv h o = elim (Option-cases (validate c)) [
  | inl ok ↦ rw ok (Checked.ready c kv (validate-IsValid c ok) h o)
  | inr (e, wrong) ↦ rw wrong (Checked.refused e)
]

-- The session secret, behind a token that was there or was made.
with_secret_kept :
    (token : Bytes) (c : Config) (x : LoadError ⊎ (Bytes × Dict Bytes))
    → token ≢ []
    → c.auth_token ≡ token
    → Supplied (codes "SESSION_SECRET") c.session_secret [] x
    → Checked token c.session_secret (with_secret c x)
unfolding with_secret insert lookup bytes_eq
with_secret_kept token c x there same (Supplied.failed e) = Checked.refused e
with_secret_kept token c x there same (Supplied.kept full) =
    checked-Checked c [] (Matches-nil c)
      (record { of_token = From.sources there same refl; of_secret = From.sources full refl refl })
with_secret_kept token c x there same (Supplied.made v gap h) =
    let full : Config = record c { session_secret = v } in
    checked-Checked full ((codes "SESSION_SECRET", v) ∷ []) (Matches-session full h)
      (record { of_token = From.sources there same refl; of_secret = From.generated gap refl })

with_secret_made :
    (token : Bytes) (c : Config) (x : LoadError ⊎ (Bytes × Dict Bytes))
    → token ≡ []
    → IsSecret c.auth_token
    → Supplied (codes "SESSION_SECRET") c.session_secret ((codes "AUTH_TOKEN", c.auth_token) ∷ []) x
    → Checked token c.session_secret (with_secret c x)
unfolding with_secret insert lookup bytes_eq
with_secret_made token c x none_given k (Supplied.failed e) = Checked.refused e
with_secret_made token c x none_given k (Supplied.kept full) =
    checked-Checked c ((codes "AUTH_TOKEN", c.auth_token) ∷ []) (Matches-token c k) (record {
      of_token = From.generated none_given refl;
      of_secret = From.sources full refl refl;
    })
with_secret_made token c x none_given k (Supplied.made v gap h) =
    let full : Config = record c { session_secret = v } in
    checked-Checked full ((codes "AUTH_TOKEN", c.auth_token) ∷ (codes "SESSION_SECRET", v) ∷ [])
      (Matches-both full k h)
      (record { of_token = From.generated none_given refl; of_secret = From.generated gap refl })

-- What the sources give for a field, before anything is generated.
abbrev pub given_in : (Config → Bytes) → Options → Surroundings → Option (Dict Bytes) → Bytes
given_in field o w none = []
given_in field o w (some file) = field (resolved o w file)

module _ (w : Surroundings) (full : AreFull w) where
  with_token-Checked :
      (c : Config) (x : LoadError ⊎ (Bytes × Dict Bytes))
      → Supplied (codes "AUTH_TOKEN") c.auth_token [] x
      → Checked c.auth_token c.session_secret (with_token w c x)
  unfolding with_token insert
  with_token-Checked c x (Supplied.failed e) = Checked.refused e
  with_token-Checked c x (Supplied.kept there) = with_secret_kept c.auth_token c _ there refl (
      secret_for-Supplied (codes "SESSION_SECRET") LoadError.no_secret w.secret_entropy
        c.session_secret [] full.1)
  with_token-Checked c x (Supplied.made v gap h) =
      with_secret_made c.auth_token (record c { auth_token = v }) _ gap h
        (secret_for-Supplied (codes "SESSION_SECRET") LoadError.no_secret w.secret_entropy
          c.session_secret ((codes "AUTH_TOKEN", v) ∷ []) full.1)

  with_state_dir-Checked :
      (c : Config) (x : LoadError ⊎ Bytes)
      → Checked c.auth_token c.session_secret (with_state_dir w c x)
  unfolding with_state_dir
  with_state_dir-Checked c (inl e) = Checked.refused e
  with_state_dir-Checked c (inr dir) =
      with_token-Checked (record c { state_dir = dir }) _
        (secret_for-Supplied (codes "AUTH_TOKEN") LoadError.no_token w.token_entropy c.auth_token []
          full.0)

  load_file-Checked :
      (o : Options) (file : Option (Dict Bytes))
      → Checked
          (given_in (λ c. c.auth_token) o w file)
          (given_in (λ c. c.session_secret) o w file)
          (load_file o w file)
  unfolding load_file
  load_file-Checked o none = Checked.refused LoadError.unreadable
  load_file-Checked o (some file) =
      let c = resolved o w file in
      with_state_dir-Checked c (filled LoadError.no_home w.home_dir c.state_dir)

-- How a run can end, from the disk that it found, and from the token and the session secret that the
-- sources give, which are empty where they give none.
pub data Loaded (token secret : Bytes) (d : Disk) : Run → Type 0 where
  -- The file is the one that was there.
  refused :
      (e : LoadError) (after : Disk)
      → after.committed ≡ d.committed
      → Loaded token secret d (record { result = inl e; disk = after; banner = none })
  -- The sources give both secrets, and nothing was generated.
  complete :
      (c : Config)
      → IsValid c
      → Origin token secret c []
      → Loaded token secret d (record { result = inr c; disk = d; banner = none })
  -- The generated secrets are those of the configuration, and stand in the file.
  generated :
      (c : Config) (kv : Dict Bytes) (after : Disk)
      → IsValid c
      → kv ≢ []
      → Matches c kv
      → Origin token secret c kv
      → Rewritten kv (old_lines d.committed) (new_lines kv (old_lines d.committed))
      → after.committed
        ≡ some
            (record { content = env_content (new_lines kv (old_lines d.committed)); synced = true })
      → Loaded token secret d
          (record { result = inr c; disk = after; banner = lookup (codes "AUTH_TOKEN") kv })

printed-Loaded :
    {token secret : Bytes} (c : Config) (kv : Dict Bytes) (f : Faults) (d : Disk)
    (o : Option WriteError)
    → IsValid c
    → kv ≢ []
    → Matches c kv
    → Origin token secret c kv
    → (write_atomic f (env_content (new_lines kv (old_lines d.committed))) d).error ≡ o
    → Loaded token secret d (
        printed c kv (write_atomic f (env_content (new_lines kv (old_lines d.committed))) d).disk o)
unfolding printed
printed-Loaded c kv f d (some e) h ne k o failed =
    let bytes = env_content (new_lines kv (old_lines d.committed)) in
    Loaded.refused LoadError.not_persisted (write_atomic f bytes d).disk
      (write_atomic-refused f bytes d failed).0
printed-Loaded c kv f d none h ne k o done =
    let lines = old_lines d.committed in
    let bytes = env_content (new_lines kv lines) in
    Loaded.generated c kv (write_atomic f bytes d).disk h ne k o
      (new_lines-Rewritten kv k.secrets k.distinct lines) (write_atomic-committed f bytes d done).0

announced-Loaded :
    {token secret : Bytes} (c : Config) (kv : Dict Bytes) (readable : Bool) (f : Faults) (d : Disk)
    → IsValid c
    → kv ≢ []
    → Matches c kv
    → Origin token secret c kv
    → Loaded token secret d (announced c kv d (persist_generated readable f kv d))
unfolding announced persist_generated
announced-Loaded c kv false f d h ne k o = Loaded.refused LoadError.not_persisted d refl
announced-Loaded c kv true f d h ne k o = printed-Loaded c kv f d _ h ne k o refl

persisted-Loaded :
    {token secret : Bytes} (readable : Bool) (f : Faults) (d : Disk)
    (x : LoadError ⊎ (Config × Dict Bytes))
    → Checked token secret x
    → Loaded token secret d (persisted readable f d x)
unfolding persisted
persisted-Loaded readable f d x (Checked.refused e) = Loaded.refused e d refl
persisted-Loaded readable f d x (Checked.ready c [] h k o) = Loaded.complete c h o
persisted-Loaded readable f d x (Checked.ready c (e ∷ kv) h k o) =
    announced-Loaded c (e ∷ kv) readable f d h (λ e. cc) k o

-- If the random bytes fill their buffer, `Load` ends in one of three ways. It gives an error, and
-- the .env file is the one that it found. It gives a valid configuration whose token and session
-- secret are both those that the options, the environment or the file give, and the disk is as it was.
-- Or the sources lack one of the two or both: it gives a valid configuration with a generated secret
-- exactly where they give none, and the .env file, whole and synced, has the lines that it had except
-- that each generated secret, which is the one of the
-- configuration, is set; the token is printed if it was generated. A configuration is valid if its
-- token and session secret have at least 16 bytes, its host is not empty, its port fits 16 bits, its
-- range is not empty and lies in 1 to 65535, its grace period is positive, and its scanner is one of
-- the three.
pub load-Loaded :
    (o : Options) (w : Surroundings) (readable : Bool) (f : Faults) (d : Disk)
    → AreFull w
    → Loaded
        (given_in (λ c. c.auth_token) o w w.file)
        (given_in (λ c. c.session_secret) o w w.file)
        d
        (load o w readable f d)
unfolding load
load-Loaded o w readable f d full =
    persisted-Loaded readable f d (load_file o w w.file) (load_file-Checked w full o w.file)
