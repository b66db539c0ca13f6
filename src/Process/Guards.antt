-- ===== src/Process/Guards.antt =====
-- Which processes the signals of `Kill` and of its goroutine can reach.
use my_home_index_server.Prelude.{
  ◌≡◌, ◌≢◌, ◌⊎◌, refl, true, false, Option, none, some, List, [], ◌∷◌, ◌++◌, arith, inl, inr,
}
use my_home_index_server.Prelude.Tests.{Bool-cases}
use my_home_index_server.Prelude.Lists.{All}
use my_home_index_server.Prelude.Int.{ℤ, pos, int_eq, int_le, int_eq_iff, int_eq-apart}
use my_home_index_server.Process.{
  Listener, Target, ProcessError, Scan, Signal, Sent, System, Killed, find_live, verify_live,
  refused, send_term, kill, is_alive, escalate,
}

-- A listener of the list has this process id.
pub data Listens (pid : ℤ) : List Listener → Type 0 where
  here : (l : Listener) (ls : List Listener) → l.pid ≡ pid → Listens pid (l ∷ ls)
  there : (l : Listener) (ls : List Listener) → Listens pid ls → Listens pid (l ∷ ls)

-- What must be so of a process before a signal is sent to it.
pub record Permitted (self : ℤ) (scan : Scan) (pid : ℤ) : Type 0 where
  pub other : pid ≢ self
  pub proper : int_le pid (pos 1) ≡ false
  pub listeners : List Listener
  pub fresh : scan ≡ Scan.scanned listeners
  pub found : Listens pid listeners

-- Neither the id of this process nor a reserved one.
pub record Allowed (self pid : ℤ) : Type 0 where
  pub other : pid ≢ self
  pub proper : int_le pid (pos 1) ≡ false

-- What `Kill` did and why, one constructor per way to return.
pub data Outcome (self : ℤ) (sys : System) (scan : Scan) (pid : ℤ) : Killed → Type 0 where
  is_self : pid ≡ self → Outcome self sys scan pid (refused ProcessError.self_pid)
  reserved :
      pid ≢ self
      → int_le pid (pos 1) ≡ true
      → Outcome self sys scan pid (refused ProcessError.unknown_pid)
  no_scanner :
      Allowed self pid
      → scan ≡ Scan.no_scanner
      → Outcome self sys scan pid (refused ProcessError.scanner_init)
  scan_error :
      Allowed self pid
      → scan ≡ Scan.scan_error
      → Outcome self sys scan pid (refused ProcessError.scan_failed)
  not_live :
      Allowed self pid
      → (ls : List Listener) → scan ≡ Scan.scanned ls
      → ¬ Listens pid ls
      → Outcome self sys scan pid (refused ProcessError.unknown_pid)
  not_found :
      Permitted self scan pid
      → sys.find_process pid ≡ false
      → Outcome self sys scan pid (refused ProcessError.find_failed)
  undelivered :
      Permitted self scan pid
      → sys.find_process pid ≡ true
      → sys.deliver pid Signal.sigterm ≡ false
      → Outcome self sys scan pid (refused ProcessError.signal_failed)
  terminated :
      Permitted self scan pid
      → sys.find_process pid ≡ true
      → sys.deliver pid Signal.sigterm ≡ true
      → Outcome self sys scan pid (record {
        sent = record { pid = pid; signal = Signal.sigterm } ∷ [];
        escalates = some pid;
        error = none;
      })

int_eq-false : (a b : ℤ) → a ≢ b → int_eq a b ≡ false
int_eq-false a b h = ground (arith, int_eq_iff a b)

Listens-nil : (pid : ℤ) → ¬ Listens pid []
Listens-nil pid p = elim p [ ]

Listens-later :
    (pid : ℤ) (l : Listener) (ls : List Listener)
    → l.pid ≢ pid
    → ¬ Listens pid ls
    → ¬ Listens pid (l ∷ ls)
Listens-later pid l ls h k p = elim p [ here l' ls' e ↦ h e | there l' ls' q ↦ k q ]

-- The two answers of the loop for a process that is not this one.
find_live-cases :
    (self pid : ℤ) (ls : List Listener)
    → pid ≢ self
    → ((find_live self pid ls ≡ none) × Listens pid ls)
      ⊎ ((find_live self pid ls ≡ some ProcessError.unknown_pid) × (¬ Listens pid ls))
unfolding find_live
find_live-cases self pid [] other = inr (refl, Listens-nil pid)
find_live-cases self pid (l ∷ ls) other = elim (Bool-cases (int_eq l.pid pid)) [
  | inl same ↦ inl (
    rw (same, int_eq-false pid self other) refl,
    Listens.here l ls ((int_eq_iff l.pid pid).0 same),
  )
  | inr differs ↦
      let apart : l.pid ≢ pid = int_eq-apart l.pid pid differs in
      elim (find_live-cases self pid ls other) [
        | inl found ↦ inl (rw differs found.0, Listens.there l ls found.1)
        | inr missing ↦ inr (rw differs missing.0, Listens-later pid l ls apart missing.1)
      ]
]

-- For a process that is not this one and is not reserved.
send_term-Outcome :
    (self : ℤ) (sys : System) (scan : Scan) (pid : ℤ)
    → pid ≢ self
    → int_le pid (pos 1) ≡ false
    → Outcome self sys scan pid (send_term sys pid (verify_live self scan pid))
unfolding send_term verify_live
send_term-Outcome self sys Scan.no_scanner pid other proper =
    Outcome.no_scanner (record { other = other; proper = proper }) refl
send_term-Outcome self sys Scan.scan_error pid other proper =
    Outcome.scan_error (record { other = other; proper = proper }) refl
send_term-Outcome self sys (Scan.scanned ls) pid other proper =
    elim (find_live-cases self pid ls other) [
      | inr missing ↦
          rw missing.0
            (Outcome.not_live (record { other = other; proper = proper }) ls refl missing.1)
      | inl found ↦
          let ok : Permitted self (Scan.scanned ls) pid = record {
            other = other;
            proper = proper;
            listeners = ls;
            fresh = refl;
            found = found.1;
          } in
          elim (Bool-cases (sys.find_process pid)) [
            | inr absent ↦ rw (found.0, absent) (Outcome.not_found ok absent)
            | inl alive ↦ elim (Bool-cases (sys.deliver pid Signal.sigterm)) [
              | inr lost ↦ rw (found.0, alive, lost) (Outcome.undelivered ok alive lost)
              | inl sent ↦ rw (found.0, alive, sent) (Outcome.terminated ok alive sent)
            ]
          ]
    ]

-- `Kill` returns in one of eight ways, whose conditions exclude each other. Its error says which, but
-- for a reserved process id and one that the scan does not list, which are both unknown. It sends
-- SIGTERM, to the target and nothing else, and starts the escalation only for a process id that is neither its own nor
-- below 2 and that the scan of this call lists; on every other branch no signal is sent.
pub kill-Outcome :
    (self : ℤ) (sys : System) (scan : Scan) (t : Target)
    → Outcome self sys scan t.pid (kill self sys scan t)
unfolding kill
kill-Outcome self sys scan t = elim (Bool-cases (int_eq t.pid self)) [
  | inl same ↦ rw same (Outcome.is_self ((int_eq_iff t.pid self).0 same))
  | inr differs ↦
      let other = int_eq-apart t.pid self differs in
      elim (Bool-cases (int_le t.pid (pos 1))) [
        | inl low ↦ rw (differs, low) (Outcome.reserved other low)
        | inr proper ↦ rw (differs, proper) (send_term-Outcome self sys scan t.pid other proper)
      ]
]

-- Every signal that `Kill` sends, and every signal that the goroutine it starts sends later, whatever
-- the system is by then.
abbrev escalated : System → Option ℤ → List Sent
escalated later none = []
escalated later (some pid) = escalate later pid

abbrev pub signals : ℤ → System → Scan → Target → System → List Sent
signals self sys scan t later =
    let k = kill self sys scan t in k.sent ++ escalated later k.escalates

ToPermitted : ℤ → Scan → Sent → Type 0
ToPermitted self scan m = Permitted self scan m.pid

escalate-Permitted :
    (self : ℤ) (scan : Scan) (later : System) (pid : ℤ)
    → Permitted self scan pid
    → All (ToPermitted self scan) (escalate later pid)
unfolding escalate is_alive ToPermitted
escalate-Permitted self scan later pid ok = ground arith

Outcome-Permitted :
    (self : ℤ) (sys : System) (scan : Scan) (pid : ℤ) (later : System) (k : Killed)
    → Outcome self sys scan pid k
    → All (ToPermitted self scan) (k.sent ++ escalated later k.escalates)
unfolding ToPermitted
Outcome-Permitted self sys scan pid later k (Outcome.is_self e) = tt
Outcome-Permitted self sys scan pid later k (Outcome.reserved a b) = tt
Outcome-Permitted self sys scan pid later k (Outcome.no_scanner a b) = tt
Outcome-Permitted self sys scan pid later k (Outcome.scan_error a b) = tt
Outcome-Permitted self sys scan pid later k (Outcome.not_live a ls b c) = tt
Outcome-Permitted self sys scan pid later k (Outcome.not_found a b) = tt
Outcome-Permitted self sys scan pid later k (Outcome.undelivered a b c) = tt
Outcome-Permitted self sys scan pid later k (Outcome.terminated ok b c) =
    (ok, escalate-Permitted self scan later pid ok)

-- Neither SIGTERM nor the SIGKILL of the escalation ever goes to the id of this process, to a process
-- id below 2, or to one that no listener has in the scan of the same call. The id is all that is
-- compared: who holds it when SIGKILL is sent is not said.
pub signals-Permitted :
    (self : ℤ) (sys : System) (scan : Scan) (t : Target) (later : System)
    → All (λ m. Permitted self scan m.pid) (signals self sys scan t later)
unfolding ToPermitted
signals-Permitted self sys scan t later =
    Outcome-Permitted self sys scan t.pid later (kill self sys scan t)
      (kill-Outcome self sys scan t)
