-- ===== src/Process/Escalation.antt =====
-- `New` and `KillGrace` of internal/process/process.go, and a kill with its goroutine over time.
use my_home_index_server.Prelude.{
  ℕ, suc, ◌+◌, ◌-◌, ◌*◌, ◌%◌, ◌^◌, ◌<◌, ◌≡◌, refl, ap, ◌∙◌, ◌||◌, true, false, Option, none, some,
  List, [], ◌∷◌, ◌++◌, arith,
}
use my_home_index_server.Prelude.Tests.{◌==◌, leb, if◌then◌else◌}
use my_home_index_server.Prelude.Int.{ℤ, pos, negsuc, int_le}
use my_home_index_server.Prelude.Time.{Time, Duration, millisecond, second}
use my_home_index_server.Process.{
  Target, Scan, Signal, Sent, System, Killed, kill, escalate, is_alive,
}
use my_home_index_server.Process.Guards.{Outcome, kill-Outcome}

-- time.Duration(n) * time.Millisecond, in 64 bits.
unfoldable pub as_duration : ℤ → ℕ
as_duration (pos n) = n * millisecond % 2 ^ 64
as_duration (negsuc n) = (2 ^ 64 - suc n * millisecond % 2 ^ 64) % 2 ^ 64

-- The field `grace` of the manager that `New` builds: 3 seconds where the product is not positive.
unfoldable pub new_grace : ℤ → Duration
new_grace kill_grace_ms =
    let grace = as_duration kill_grace_ms in
    if grace == 0 || leb (2 ^ 63) grace then 3 * second else grace

-- A signal, and when it is sent.
pub record Timed : Type 0 where
  pub at : Time
  pub sent : Sent

abbrev pub timed : Time → List Sent → List Timed
timed at [] = []
timed at (s ∷ ss) = record { at = at; sent = s } ∷ timed at ss

-- The goroutine of `Kill`, if there is one, when it wakes up.
unfoldable pub woken : (Time → System) → Time → Option ℤ → List Timed
woken sys wake none = []
woken sys wake (some pid) = timed wake (escalate (sys wake) pid)

-- The instant at which the goroutine of a kill goes on: behind the grace window, and `delay` later,
-- as time.Sleep waits for at least the time that it is given.
abbrev pub waking : ℤ → Time → Duration → Time
waking kill_grace_ms start delay = start + new_grace kill_grace_ms + delay

-- The signals of a kill: those of `Kill` itself, and those of its goroutine, on the system as it is
-- when that wakes up.
unfoldable pub kill_over_time :
    ℤ → ℤ → (Time → System) → Scan → Target → Time → Duration → List Timed
kill_over_time kill_grace_ms self sys scan t start delay =
    let killed = kill self (sys start) scan t in
    timed start killed.sent ++ woken sys (waking kill_grace_ms start delay) killed.escalates

-- A process that answers to signal 0 and can be sent SIGKILL.
pub record Survives (sys : System) (pid : ℤ) : Type 0 where
  pub exists : sys.find_process pid ≡ true
  pub answers : sys.deliver pid Signal.probe ≡ true
  pub killable : sys.deliver pid Signal.sigkill ≡ true

escalate-Survives :
    (sys : System) (pid : ℤ)
    → int_le pid (pos 0) ≡ false
    → Survives sys pid
    → escalate sys pid ≡ record { pid = pid; signal = Signal.sigkill } ∷ []
unfolding escalate is_alive
escalate-Survives sys pid h s = rw (h, s.exists, s.answers, s.killable) refl

positive_of : (pid : ℤ) → int_le pid (pos 1) ≡ false → int_le pid (pos 0) ≡ false
positive_of pid h = ground (arith, h)

escalate-silent :
    (sys : System) (pid : ℤ) → sys.deliver pid Signal.probe ≡ false → escalate sys pid ≡ []
unfolding escalate is_alive
escalate-silent sys pid h = ground (arith, h)

grace_positive : (kill_grace_ms : ℤ) → 0 < new_grace kill_grace_ms
unfolding new_grace
grace_positive kill_grace_ms = ground arith

-- SIGTERM at the start.
abbrev pub term_at : ℤ → Time → Timed
term_at pid start = record { at = start; sent = record { pid = pid; signal = Signal.sigterm } }

abbrev pub kill_at : ℤ → Time → Timed
kill_at pid wake = record { at = wake; sent = record { pid = pid; signal = Signal.sigkill } }

module _ (self : ℤ) (sys : Time → System) (scan : Scan) (pid : ℤ) (start wake : Time) where
  -- What a kill without an error did so far.
  signalled :
      (k : Killed)
      → Outcome self (sys start) scan pid k
      → k.error ≡ none
      → (int_le pid (pos 0) ≡ false)
        × (timed start k.sent ++ woken sys wake k.escalates
            ≡ term_at pid start ∷ timed wake (escalate (sys wake) pid))
  unfolding woken
  signalled k (Outcome.is_self e) h = cc
  signalled k (Outcome.reserved a b) h = cc
  signalled k (Outcome.no_scanner a b) h = cc
  signalled k (Outcome.scan_error a b) h = cc
  signalled k (Outcome.not_live a ls b c) h = cc
  signalled k (Outcome.not_found a b) h = cc
  signalled k (Outcome.undelivered a b c) h = cc
  signalled k (Outcome.terminated ok b c) h = (positive_of pid ok.proper, refl)

-- What follows a kill that succeeds.
pub record Escalates (kill_grace_ms : ℤ) (sys : Time → System) (pid : ℤ) (start : Time)
    (delay : Duration) (events : List Timed) : Type 0 where
  pub window : 0 < new_grace kill_grace_ms
  pub killed :
      Survives (sys (waking kill_grace_ms start delay)) pid
      → events ≡ term_at pid start ∷ kill_at pid (waking kill_grace_ms start delay) ∷ []
  pub spared :
      (sys (waking kill_grace_ms start delay)).deliver pid Signal.probe ≡ false
      → events ≡ term_at pid start ∷ []

-- When `Kill` succeeds, its target gets SIGTERM at once. A process of that id that still answers at
-- the end of the grace window, when the goroutine wakes up, gets SIGKILL then, if it can be sent at
-- all; if none answers, nothing more is sent. The window is never empty, whatever the configuration
-- says. The id alone decides, so a process that has taken over the id in the meantime is killed too.
pub kill_over_time-Escalates :
    (kill_grace_ms self : ℤ) (sys : Time → System) (scan : Scan) (t : Target) (start : Time)
    (delay : Duration)
    → (kill self (sys start) scan t).error ≡ none
    → Escalates kill_grace_ms sys t.pid start delay
        (kill_over_time kill_grace_ms self sys scan t start delay)
unfolding kill_over_time
kill_over_time-Escalates kill_grace_ms self sys scan t start delay h =
    let wake = waking kill_grace_ms start delay in
    let (proper, events) =
      signalled self sys scan t.pid start wake (kill self (sys start) scan t)
        (kill-Outcome self (sys start) scan t) h in
    record {
      window = grace_positive kill_grace_ms;
      killed = λ s.
          events
          ∙ ap (λ u. term_at t.pid start ∷ timed wake u)
              (escalate-Survives (sys wake) t.pid proper s);
      spared = λ s.
          events
          ∙ ap (λ u. term_at t.pid start ∷ timed wake u) (escalate-silent (sys wake) t.pid s);
    }
