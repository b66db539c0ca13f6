-- ===== src/Server/Logging/Recording.antt =====
-- What the log line says of the response, against what was sent.
use my_home_index_server.Prelude.{
  ℕ, ◌+◌, ◌≡◌, ◌≢◌, refl, ap, sym, ◌∙◌, ◌⊎◌, inl, inr, true, Option, none, some, List, [], ◌∷◌,
  ◌++◌, append-nil, arith,
}
use my_home_index_server.Prelude.Tests.{Bool-cases, if◌then◌else◌}
use my_home_index_server.Prelude.Lists.{All}
use my_home_index_server.Prelude.Bytes.{Bytes}
use my_home_index_server.Prelude.Time.{Duration}
use my_home_index_server.Server.Logging.{
  or_sent, StatusRecorder, write_header, write, Call, call, calls, Behaviour, recovered, Traffic,
  Served, fresh_recorder, log_line, serve_logged,
}

-- The calls of a handler and, behind a panic, those of the recovery.
abbrev pub all_calls : Behaviour → ℕ → List Call
all_calls h accepted =
    h.made ++ (if h.panics then Call.header 500 ∷ Call.body accepted ∷ [] else [])

-- The status that the first call sends.
abbrev pub first_status : List Call → Option ℕ
first_status [] = none
first_status (Call.header code ∷ cs) = some code
first_status (Call.body n ∷ cs) = some 200

abbrev pub IsBody : Call → Type 0
IsBody (Call.header code) = ⊥
IsBody (Call.body n) = Unit

-- A header, if there is one, comes first, and has a status.
abbrev pub IsOrderly : List Call → Type 0
IsOrderly [] = Unit
IsOrderly (Call.header code ∷ cs) = (code ≢ 0) × All IsBody cs
IsOrderly (Call.body n ∷ cs) = All IsBody cs

calls-append : (s : StatusRecorder) (cs ds : List Call) → calls s (cs ++ ds) ≡ calls (calls s cs) ds
unfolding calls
calls-append s [] ds = refl
calls-append s (c ∷ cs) ds = calls-append (call s c) cs ds

recovered-calls :
    (s : StatusRecorder) (h : Behaviour) (accepted : ℕ)
    → recovered s h accepted ≡ calls s (all_calls h accepted)
unfolding recovered calls call
recovered-calls s h accepted = elim (Bool-cases h.panics) [
  | inl fails ↦ simp fails (sym (calls-append s h.made (Call.header 500 ∷ Call.body accepted ∷ [])))
  | inr fine ↦ simp (fine, append-nil) refl
]

bytes-calls :
    (s : StatusRecorder) (cs : List Call)
    → s.bytes ≡ s.writer.body
    → (calls s cs).bytes ≡ (calls s cs).writer.body
unfolding calls call write_header write
bytes-calls s [] h = h
bytes-calls s (Call.header code ∷ cs) h = bytes-calls (write_header s code) cs h
bytes-calls s (Call.body n ∷ cs) h = bytes-calls (write s n) cs (ap (λ k. k + n) h)

sent_stays :
    (s : StatusRecorder) (cs : List Call) (code : ℕ)
    → s.writer.sent ≡ some code
    → (calls s cs).writer.sent ≡ some code
unfolding calls call write_header write or_sent
sent_stays s [] code h = h
sent_stays s (Call.header c ∷ cs) code h = sent_stays (write_header s c) cs code (rw h refl)
sent_stays s (Call.body n ∷ cs) code h = sent_stays (write s n) cs code (rw h refl)

sent-first :
    (s : StatusRecorder) (cs : List Call)
    → s.writer.sent ≡ none
    → (calls s cs).writer.sent ≡ first_status cs
unfolding calls call write_header write or_sent
sent-first s [] h = h
sent-first s (Call.header c ∷ cs) h = sent_stays (write_header s c) cs c (rw h refl)
sent-first s (Call.body n ∷ cs) h = sent_stays (write s n) cs 200 (rw h refl)

bodies_keep :
    (s : StatusRecorder) (cs : List Call)
    → All IsBody cs
    → s.status ≢ 0
    → (calls s cs).status ≡ s.status
unfolding calls call write
bodies_keep s [] h k = refl
bodies_keep s (Call.header c ∷ cs) h k = absurd h.0
bodies_keep s (Call.body n ∷ cs) h k =
    let same : (write s n).status ≡ s.status = ground (arith, k) in
    bodies_keep (write s n) cs h.1 (rw same k) ∙ same

-- The status of the log is the one that was sent, or nothing was sent.
Agrees : StatusRecorder → Type 0
Agrees s = (s.writer.sent ≡ none) ⊎ (s.writer.sent ≡ some s.status)

orderly-Agrees :
    (s : StatusRecorder) (cs : List Call)
    → IsOrderly cs
    → s.writer.sent ≡ none
    → s.status ≡ 0
    → Agrees (calls s cs)
unfolding Agrees calls call write_header write
orderly-Agrees s [] h e k = inl e
orderly-Agrees s (Call.header c ∷ cs) h e k =
    let kept : (calls (write_header s c) cs).status ≡ c =
      bodies_keep (write_header s c) cs h.1 h.0 in
    inr (sent-first s (Call.header c ∷ cs) e ∙ ap (λ n. some n) (sym kept))
orderly-Agrees s (Call.body n ∷ cs) h e k =
    let ok : (write s n).status ≡ 200 = rw k refl in
    let kept = bodies_keep (write s n) cs h (λ z. absurd (omega (arith, z, ok))) in
    inr (sent-first s (Call.body n ∷ cs) e ∙ ap (λ n. some n) (sym (kept ∙ ok)))

panic_status :
    (s : StatusRecorder) (h : Behaviour) (accepted : ℕ)
    → h.panics ≡ true
    → (recovered s h accepted).status ≡ 500
unfolding recovered write_header write
panic_status s h accepted e = rw e refl

-- What a line of the log is worth.
pub record Recorded (h : Behaviour) (accepted : ℕ) (served : Served) : Type 0 where
  pub bytes : served.logged.bytes ≡ served.wire.body
  pub first : served.wire.sent ≡ first_status (all_calls h accepted)
  pub panicked : h.panics ≡ true → served.logged.status ≡ 500
  pub status :
      IsOrderly (all_calls h accepted)
      → (served.wire.sent ≡ none) ⊎ (served.wire.sent ≡ some served.logged.status)

-- Whatever a handler does, and whether or not it panics: the bytes of the log line are those that
-- were sent; the status that is sent is that of the first call, the recovery from a panic included;
-- the status of the log line is 500 if the handler panics; and it is the one that was sent, if
-- anything was, when no header is set behind another call. So a panic behind a written header is
-- logged as 500, while the client has got the status of the handler.
pub serve_logged-Recorded :
    (entropy : Option Bytes) (nanos : ℕ) (r : Traffic) (h : Behaviour) (accepted : ℕ)
    (dur : Duration)
    → Recorded h accepted (serve_logged entropy nanos r h accepted dur)
unfolding serve_logged log_line Agrees
serve_logged-Recorded entropy nanos r h accepted dur =
    let same = recovered-calls fresh_recorder h accepted in
    let cs = all_calls h accepted in
    record {
      bytes = rw same (bytes-calls fresh_recorder cs refl);
      first = rw same (sent-first fresh_recorder cs refl);
      panicked = panic_status fresh_recorder h accepted;
      status = λ o. rw same (orderly-Agrees fresh_recorder cs o refl refl);
    }
