-- ===== src/Store/Persist/Total.antt =====
-- `persist` always returns; what it evicts, and what is then on the disk.
use my_home_index_server.Prelude.{
  ℕ, zero, suc, ◌≤◌, ◌<◌, ◌≡◌, ◌≢◌, refl, sym, inl, inr, true, Option, none, some, List, [], ◌∷◌,
  arith,
}
use my_home_index_server.Prelude.Tests.{leb, leb→le, leb→lt, Bool-cases}
use my_home_index_server.Prelude.Lists.{length}
use my_home_index_server.Prelude.Bytes.{Bytes}
use my_home_index_server.Prelude.Dict.{Dict, Distinct, delete-Distinct}
use my_home_index_server.Disk.{Disk, Faults, WriteError, write_atomic}
use my_home_index_server.Disk.Atomic.{write_atomic-committed, write_atomic-refused}
use my_home_index_server.Store.{
  Store, Host, Persisted, Remembered, StoreError, LabelEntry, max_state_bytes,
}
use my_home_index_server.Store.Evict.{evict_oldest_label}
use my_home_index_server.Store.Evict.Oldest.{
  Evicts, evict_oldest_label-Evicts, evict_oldest_label-none, Evicts-length,
}
use my_home_index_server.Store.Persist.{
  Round, shrink_labels, shrink, written, serialised, returns, continues, persist_round,
  persist_loop, rounds, persist,
}

module _ (host : Host) where
  -- The state is serialised to more bytes than the file may have.
  pub record TooBig (p : Persisted) : Type 0 where
    pub buf : Bytes
    pub marshals : host.marshal p ≡ some buf
    pub too_long : max_state_bytes < length buf

  pub record Fits (p : Persisted) (d : Disk) : Type 0 where
    pub buf : Bytes
    pub marshals : host.marshal p ≡ some buf
    pub short : length buf ≤ max_state_bytes
    pub on_disk : d.committed ≡ some (record { content = buf; synced = true })

  -- One eviction, made only on a state that is too big: the oldest remembered entry, and a label
  -- only when nothing is remembered, an oldest one.
  pub data Step : Persisted → Persisted → Type 0 where
    oldest_remembered :
        {p q : Persisted} {r : Remembered} {rs : List Remembered}
        → TooBig p
        → p.remembered ≡ r ∷ rs
        → q ≡ record p { remembered = rs }
        → Step p q
    oldest_label :
        {p q : Persisted} {m : Dict LabelEntry}
        → TooBig p
        → p.remembered ≡ []
        → Evicts p.labels m
        → q ≡ record p { labels = m }
        → Step p q

  pub data Shrinks (q : Persisted) : Persisted → Type 0 where
    stays : {p : Persisted} → p ≡ q → Shrinks q p
    drops : {p r : Persisted} → Step p r → Shrinks q r → Shrinks q p

  -- What the method may end with.
  pub data Ends (d : Disk) : Store × Option StoreError → Type 0 where
    committed :
        {s : Store} {e : Option StoreError} → e ≡ none → Fits s.content s.disk → Ends d (s, e)
    exhausted :
        {s : Store} {e : Option StoreError}
        → e ≡ some StoreError.state_size_exceeded
        → s.remembered ≡ []
        → s.labels ≡ []
        → TooBig s.content
        → s.disk.committed ≡ d.committed
        → Ends d (s, e)
    failed :
        {s : Store} {e : Option StoreError} {why : StoreError}
        → e ≡ some why
        → why ≢ StoreError.unfinished
        → why ≢ StoreError.state_size_exceeded
        → s.disk.committed ≡ d.committed
        → Ends d (s, e)

  -- The two outcomes of a round.
  data RoundCases (s : Store) : Round → Type 0 where
    finished :
        {r : Round} {s' : Store} {e : Option StoreError}
        → r ≡ returns s' e
        → s'.content ≡ s.content
        → Ends s.disk (s', e)
        → RoundCases s r
    evicted : {r : Round} {p : Persisted} → r ≡ continues p → Step s.content p → RoundCases s r

  shrink_labels-cases :
      (s : Store) (o : Option (Dict LabelEntry))
      → Distinct s.labels
      → TooBig s.content
      → s.remembered ≡ []
      → evict_oldest_label s.labels ≡ o
      → RoundCases s (shrink_labels s o)
  unfolding shrink_labels
  shrink_labels-cases s none d big nil e =
      finished refl refl (exhausted refl nil (evict_oldest_label-none s.labels e) big refl)
  shrink_labels-cases s (some m) d big nil e =
      evicted refl (oldest_label big nil (evict_oldest_label-Evicts s.labels m d e) refl)

  shrink-cases :
      (s : Store) (rs : List Remembered)
      → Distinct s.labels
      → TooBig s.content
      → s.remembered ≡ rs
      → RoundCases s (shrink s rs)
  unfolding shrink
  shrink-cases s [] d big e = shrink_labels-cases s _ d big e refl
  shrink-cases s (r ∷ rs) d big e = evicted refl (oldest_remembered big e refl)

  written-cases :
      (f : Faults) (s : Store) (buf : Bytes) (o : Option WriteError)
      → host.marshal s.content ≡ some buf
      → length buf ≤ max_state_bytes
      → (write_atomic f buf s.disk).error ≡ o
      → RoundCases s (written s (write_atomic f buf s.disk))
  unfolding written
  written-cases f s buf none m short e = finished refl refl (
      committed (rw e) (record {
        buf = buf;
        marshals = m;
        short = short;
        on_disk = (write_atomic-committed f buf s.disk e).0;
      }))
  written-cases f s buf (some why) m short e = finished refl refl (
      failed {why = StoreError.write_failed why} (rw e) (λ x. cc) (λ x. cc)
        (write_atomic-refused f buf s.disk e).0)

  serialised-cases :
      (f : Faults) (s : Store) (o : Option Bytes)
      → Distinct s.labels
      → host.marshal s.content ≡ o
      → RoundCases s (serialised f s o)
  unfolding serialised
  serialised-cases f s none d m =
      finished refl refl (failed {why = StoreError.marshal_failed} refl (λ x. cc) (λ x. cc) refl)
  serialised-cases f s (some buf) d m = elim (Bool-cases (leb (length buf) max_state_bytes)) [
    | inl short ↦ rw short (written-cases f s buf _ m (leb→le _ _ short) refl)
    | inr long ↦ rw long (
        shrink-cases s s.remembered d
          (record { buf = buf; marshals = m; too_long = leb→lt _ _ long }) refl)
  ]

  Step-Distinct : {p q : Persisted} → Step p q → Distinct p.labels → Distinct q.labels
  Step-Distinct (oldest_remembered big r e) d = rw e d
  Step-Distinct {p} (oldest_label big nil v e) d = rw (e, v.rest) (delete-Distinct v.key p.labels d)

  -- A step leaves fewer entries, and so fewer rounds to go.
  Step-rounds : {p q : Persisted} → Step p q → rounds q < rounds p
  Step-rounds (oldest_remembered big r e) = rw (e, r) (omega arith)
  Step-rounds {p} (oldest_label {m = m} big nil v e) =
      rw e (omega (arith, Evicts-length p.labels m v))

  -- What a run of the loop has done.
  pub record Result (s : Store) (out : Store × Option StoreError) : Type 0 where
    pub shrinks : Shrinks out.0.content s.content
    pub ends : Ends s.disk out

  after_round :
      (s : Store) (k : Persisted → Store × Option StoreError) (r : Round)
      → RoundCases s r
      → ((p : Persisted) → Step s.content p → Result (record s { content = p }) (k p))
      → Result s (elim r [ returns s' e ↦ (s', e) | continues p ↦ k p ])
  after_round s k r (finished e same ends) next =
      rw e (record { shrinks = stays (sym same); ends = ends })
  after_round s k r (evicted {p = p} e step) next =
      rw e (record { shrinks = drops step (next p step).shrinks; ends = (next p step).ends })

  loop-Result :
      (f : Faults) (fuel : ℕ) (s : Store)
      → Distinct s.labels
      → rounds s.content ≤ fuel
      → Result s (persist_loop host f fuel s)
  unfolding persist_loop persist_round
  loop-Result f zero s d h = absurd (omega arith)
  loop-Result f (suc fuel) s d h =
      after_round s (λ p. persist_loop host f fuel (record s { content = p })) _
        (serialised-cases f s (host.marshal s.content) d refl)
        λ p step.
          loop-Result f fuel (record s { content = p }) (Step-Distinct step d)
            (omega (arith, Step-rounds step))

  -- `persist` returns for every store with distinct label keys. It evicts only while the state is
  -- too big: remembered entries oldest first, then labels, oldest first. It ends with the state
  -- committed to the file, whole and within the limit; or with nothing left to evict and a state
  -- that is still too big; or with another error; and with an error the file is as it was.
  pub persist-Result : (f : Faults) (s : Store) → Distinct s.labels → Result s (persist host f s)
  unfolding persist
  persist-Result f s d = loop-Result f (rounds s.content) s d (omega arith)
