-- ===== src/Store/Hydrate.antt =====
-- `Open` and `hydrate` of internal/store/store.go. The path is not modelled: the disk is the file
-- under it.
use my_home_index_server.Prelude.{
  ◌≡◌, ◌≢◌, sym, ap, ◌∙◌, Bool, false, ◌⊎◌, inl, inr, Option, none, some, List, [], arith,
}
use my_home_index_server.Prelude.Tests.{Bool-cases, if◌then◌else◌}
use my_home_index_server.Prelude.Bytes.{Bytes, is_empty}
use my_home_index_server.Prelude.Dict.{Distinct}
use my_home_index_server.Prelude.Int.{pos, int_eq, int_eq_iff}
use my_home_index_server.Disk.{Disk, Faults}
use my_home_index_server.Store.{Store, Host, Parsed, Persisted, StoreError, state_version}
use my_home_index_server.Store.Persist.{persist}
use my_home_index_server.Store.Persist.Total.{
  Step, oldest_remembered, oldest_label, Shrinks, stays, drops, Fits, Ends, committed, exhausted,
  failed, persist-Result,
}

or_nil {ℓ} : {A : Type ℓ} → Option (List A) → List A
or_nil none = []
or_nil (some xs) = xs

-- The defaults that `hydrate` puts in for what the file does not say.
fill : Parsed → Persisted
unfolding or_nil
fill p = record {
  version = if int_eq p.version (pos 0) then state_version else p.version;
  labels = or_nil p.labels;
  remembered = or_nil p.remembered;
}

abbrev pub empty_state : Persisted
empty_state = record { version = state_version; labels = []; remembered = [] }

parsed : Store → Option Parsed → Store × Option StoreError
unfolding fill
parsed s none = (s, some StoreError.parse_failed)
parsed s (some p) = (record s { content = fill p }, none)

unfoldable pub hydrate : Host → Bool → Store → Store × Option StoreError
unfolding parsed
hydrate host read_fails s = elim s.disk.committed [
  | none ↦ (s, none)
  | some file ↦
      if read_fails
      then (s, some StoreError.read_failed)
      else parsed s (host.unmarshal file.content)
]

-- `Open` gives no store when it gives an error.
opened : Store × Option StoreError → Store ⊎ StoreError
opened (s, none) = inl s
opened (s, some e) = inr e

unfoldable pub open_store : Host → Bytes → Bool → Bool → Disk → Store ⊎ StoreError
unfolding hydrate opened
open_store host home mkdir_fails read_fails d =
    if is_empty home
    then inr StoreError.empty_home
    else if mkdir_fails
    then inr StoreError.mkdir_failed
    else opened (hydrate host read_fails (record { content = empty_state; disk = d }))

-- What the decoder of JSON gives for a state that was encoded, where the encoding loses nothing.
abbrev pub as_parsed : Persisted → Parsed
as_parsed p = record { version = p.version; labels = some p.labels; remembered = some p.remembered }

fill-as_parsed : (p : Persisted) → p.version ≢ pos 0 → fill (as_parsed p) ≡ p
unfolding fill
fill-as_parsed p h = ground (arith, int_eq_iff p.version (pos 0))

-- On a first start there is no file, and the store is empty.
pub open_store-empty :
    (host : Host) (home : Bytes) (read_fails : Bool) (d : Disk)
    → is_empty home ≡ false
    → d.committed ≡ none
    → open_store host home false read_fails d ≡ inl (record { content = empty_state; disk = d })
unfolding open_store
open_store-empty host home read_fails d h e = ground arith

-- A store that is opened without a file is empty.
pub open_store-first :
    (host : Host) (home : Bytes) (mkdir_fails read_fails : Bool) (d : Disk) (st : Store)
    → d.committed ≡ none
    → open_store host home mkdir_fails read_fails d ≡ inl st
    → st.content ≡ empty_state
unfolding open_store
open_store-first host home mkdir_fails read_fails d st e h = elim (Bool-cases (is_empty home)) [
  | inl nowhere ↦ cc (h, nowhere)
  | inr home_there ↦ elim (Bool-cases mkdir_fails) [
    | inl failing ↦ cc (h, home_there, failing)
    | inr made ↦
        let opened = open_store-empty host home read_fails d home_there e in
        let same = ap (λ b. open_store host home b read_fails d) made in
        let store_is : st ≡ record { content = empty_state; disk = d } = cc (h, same, opened) in
        ap (λ s. s.content) store_is
  ]
]

Step-version : {host : Host} {p q : Persisted} → Step host p q → q.version ≡ p.version
Step-version (oldest_remembered big e q_is) = rw q_is
Step-version (oldest_label big nil ev q_is) = rw q_is

Shrinks-version : {host : Host} {q p : Persisted} → Shrinks host q p → q.version ≡ p.version
Shrinks-version (stays e) = rw e
Shrinks-version (drops step rest) = Shrinks-version rest ∙ Step-version step

open_fitting :
    (host : Host) (home : Bytes) (s : Store)
    → is_empty home ≡ false
    → s.content.version ≢ pos 0
    → Fits host s.content s.disk
    → ((buf : Bytes)
        → host.marshal s.content ≡ some buf
        → host.unmarshal buf ≡ some (as_parsed s.content))
    → open_store host home false false s.disk ≡ inl s
unfolding open_store
open_fitting host home s h v fits decodes =
    simp (h, fits.on_disk, decodes fits.buf fits.marshals, fill-as_parsed s.content v)

Ends-Fits :
    {host : Host} {d : Disk} {out : Store × Option StoreError}
    → Ends host d out
    → out.1 ≡ none
    → Fits host out.0.content out.0.disk
Ends-Fits (committed e fits) h = fits
Ends-Fits (exhausted e _ _ _ _) h = cc
Ends-Fits (failed e _ _ _) h = cc

-- When `persist` returned no error, on a store with distinct label keys and a version other than 0,
-- opening the file again under a home directory that is not empty gives the store as it stands in
-- memory, if the decoder of JSON reads back what the encoder wrote of this state.
pub open_store-persist :
    (host : Host) (f : Faults) (home : Bytes) (s : Store)
    → is_empty home ≡ false
    → s.content.version ≢ pos 0
    → Distinct s.labels
    → (persist host f s).1 ≡ none
    → ((buf : Bytes)
        → host.marshal (persist host f s).0.content ≡ some buf
        → host.unmarshal buf ≡ some (as_parsed (persist host f s).0.content))
    → open_store host home false false (persist host f s).0.disk ≡ inl (persist host f s).0
open_store-persist host f home s h v d done decodes =
    let result = persist-Result host f s d in
    open_fitting host home (persist host f s).0 h
      (λ e. v (sym (Shrinks-version result.shrinks) ∙ e)) (Ends-Fits result.ends done) decodes
