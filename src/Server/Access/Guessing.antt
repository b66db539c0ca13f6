-- ===== src/Server/Access/Guessing.antt =====
-- How many wrong tokens one address can try at POST /login.
use mathlib.Core.Path.{subst}
use my_home_index_server.Prelude.{
  ◌-◌, ◌≤◌, ◌≡◌, refl, sym, ap, ◌∙◌, false, Option, some, List, [], ◌∷◌, arith,
}
use my_home_index_server.Prelude.Tests.{◌==◌, if◌then◌else◌}
use my_home_index_server.Prelude.Lists.{length, select, All}
use my_home_index_server.Prelude.Bytes.{Bytes, codes}
use my_home_index_server.Prelude.Time.{Time}
use my_home_index_server.Auth.{Auth, Crypto, check_bearer, rate_limit_capacity}
use my_home_index_server.Auth.Limiter.{in_window, record_failure}
use my_home_index_server.Auth.Limiter.Window.{live}
use my_home_index_server.Auth.Limiter.Room.{HasRoom, record_failure-HasRoom}
use my_home_index_server.Auth.Limiter.Attempts.{
  HasRoom-rate_limit_check, token-rate_limit_check, token-record_failure, not_counted_le,
  counted_le,
}
use my_home_index_server.Config.{Config}
use my_home_index_server.Server.{Server, Request, World, Effect}
use my_home_index_server.Server.Headers.{remote_ip}
use my_home_index_server.Server.Access.{client, trust_xff, with_rate_limit, handle_login_post}
use my_home_index_server.Server.Access.Login.{Ending, login-Ending, checked}

-- A request for POST /login, in the world that it meets.
pub record Try : Type 0 where
  pub world : World
  pub request : Request

-- `POST /login` as it is routed
abbrev pub try_login : Crypto → Server → Try → Effect
try_login crypto s t =
    with_rate_limit t.world s t.request (handle_login_post crypto t.world t.request)

-- When the requests that got 401, and so learnt that their token is wrong, were recorded, if the
-- requests come one after the other.
abbrev pub guesses : Crypto → Server → List Try → List Time
guesses crypto s [] = []
guesses crypto s (t ∷ ts) =
    let e = try_login crypto s t in
    let rest = guesses crypto e.server ts in
    if e.response.status == 401 then t.world.acted_at ∷ rest else rest

-- From the address `ip`, not later than an instant, and without the right token.
pub record IsWrong (crypto : Crypto) (c : Option Config) (a : Auth) (ip : Bytes) (later : Time)
    (t : Try) : Type 0 where
  pub from : remote_ip t.request (trust_xff c) ≡ ip
  pub was_checked : t.world.checked_at ≤ later
  pub was_answered : t.world.acted_at ≤ later
  pub wrong :
      (form : Bytes → Bytes)
      → t.request.form ≡ some form
      → check_bearer crypto a (form (codes "token")) ≡ false

-- What is left of the five in every state with this configuration and this token.
Leaves : Crypto → Option Config → Auth → Bytes → Time → List Try → Type 0
Leaves crypto c a ip later ts =
    (s : Server) (b : Auth)
    → s.auth ≡ some b
    → s.cfg ≡ c
    → b.token ≡ a.token
    → HasRoom b ip
    → length (select (in_window later) (guesses crypto s ts))
      ≤ rate_limit_capacity - length (live b ip later)

check_bearer-token :
    (crypto : Crypto) (a b : Auth) (t : Bytes)
    → a.token ≡ b.token
    → check_bearer crypto a t ≡ check_bearer crypto b t
unfolding check_bearer
check_bearer-token crypto a b t e =
    ap (λ (k : Bytes). check_bearer crypto (record { token = k; secret = []; failures = [] }) t) e

from_ending :
    (crypto : Crypto) (a : Auth) (later : Time) (ts : List Try) (s : Server) (b : Auth) (t : Try)
    (e : Effect)
    → Leaves crypto s.cfg a (client s t.request) later ts
    → b.token ≡ a.token
    → HasRoom b (client s t.request)
    → IsWrong crypto s.cfg a (client s t.request) later t
    → Ending crypto t.world s t.request b e
    → length (
        select (in_window later) (
          if e.response.status == 401
          then t.world.acted_at ∷ guesses crypto e.server ts
          else guesses crypto e.server ts))
      ≤ rate_limit_capacity - length (live b (client s t.request) later)
unfolding Leaves
from_ending crypto a later ts s b t _ leaves same room w (Ending.locked many wait) =
    let r = t.request in
    let ip = client s r in
    not_counted_le b ip t.world.checked_at later _ w.was_checked (
      leaves _ (checked t.world s r b) refl refl
        (token-rate_limit_check b ip t.world.checked_at ∙ same)
        (HasRoom-rate_limit_check b ip t.world.checked_at room))
from_ending crypto a later ts s b t _ leaves same room w (Ending.bad_form few e) =
    let r = t.request in
    let ip = client s r in
    not_counted_le b ip t.world.checked_at later _ w.was_checked (
      leaves _ (checked t.world s r b) refl refl
        (token-rate_limit_check b ip t.world.checked_at ∙ same)
        (HasRoom-rate_limit_check b ip t.world.checked_at room))
from_ending crypto a later ts s b t _ leaves same room w (Ending.refused few form e bad page) =
    let r = t.request in
    let ip = client s r in
    let still = checked t.world s r b in
    counted_le b ip t.world.checked_at t.world.acted_at later _ room w.was_checked w.was_answered
      few
      (leaves _ (record_failure still ip t.world.acted_at) refl refl
        ((token-record_failure still ip t.world.acted_at
            ∙ token-rate_limit_check b ip t.world.checked_at)
          ∙ same)
        (record_failure-HasRoom still ip t.world.acted_at
          (HasRoom-rate_limit_check b ip t.world.checked_at room)))
from_ending crypto a later ts s b t _ leaves same room w (Ending.granted few form e ok _ _) =
    let still = checked t.world s t.request b in
    let also : check_bearer crypto still (form (codes "token")) ≡ false =
      check_bearer-token crypto still a (form (codes "token"))
        (token-rate_limit_check b (client s t.request) t.world.checked_at ∙ same)
      ∙ w.wrong form e in
    ground (arith, ok, also)

at_address :
    (crypto : Crypto) (a : Auth) (ip : Bytes) (later : Time) (ts : List Try) (s : Server) (b : Auth)
    (t : Try)
    → client s t.request ≡ ip
    → Leaves crypto s.cfg a ip later ts
    → b.token ≡ a.token
    → HasRoom b ip
    → IsWrong crypto s.cfg a ip later t
    → s.auth ≡ some b
    → length (select (in_window later) (guesses crypto s (t ∷ ts)))
      ≤ rate_limit_capacity - length (live b ip later)
at_address crypto a ip later ts s b t e leaves same room w here =
    subst
      (λ (x : Bytes).
        length (select (in_window later) (guesses crypto s (t ∷ ts)))
        ≤ rate_limit_capacity - length (live b x later))
      e
      (from_ending crypto a later ts s b t (try_login crypto s t)
        (subst (λ (x : Bytes). Leaves crypto s.cfg a x later ts) (sym e) leaves) same
        (subst (HasRoom b) (sym e) room)
        (subst (λ (x : Bytes). IsWrong crypto s.cfg a x later t) (sym e) w)
        (login-Ending crypto t.world s t.request b here))

guesses-Leaves :
    (crypto : Crypto) (c : Option Config) (a : Auth) (ip : Bytes) (later : Time) (ts : List Try)
    → All (IsWrong crypto c a ip later) ts
    → Leaves crypto c a ip later ts
unfolding Leaves client
guesses-Leaves crypto c a ip later [] past s b here cfg same room = omega arith
guesses-Leaves crypto c a ip later (t ∷ ts) past s b here cfg same room =
    at_address crypto a ip later ts s b t
      (ap (λ (k : Option Config). remote_ip t.request (trust_xff k)) cfg ∙ past.0.from)
      (subst (λ (k : Option Config). Leaves crypto k a ip later ts) (sym cfg)
        (guesses-Leaves crypto c a ip later ts past.1))
      same room (subst (λ (k : Option Config). IsWrong crypto k a ip later t) (sym cfg) past.0) here

-- If the map has room for an address, then however many requests for `POST /login` it makes, one
-- after the other, none with the right token and none checked or answered later than an instant:
-- those that were recorded as wrong in the 15 minutes before that instant, and the failures from
-- before them that still count, are at most five together; and with five such failures from before,
-- or more, nothing is recorded in those 15 minutes.
pub guesses-le :
    (crypto : Crypto) (s : Server) (a : Auth) (ip : Bytes) (later : Time) (ts : List Try)
    → s.auth ≡ some a
    → HasRoom a ip
    → All (IsWrong crypto s.cfg a ip later) ts
    → length (select (in_window later) (guesses crypto s ts))
      ≤ rate_limit_capacity - length (live a ip later)
unfolding Leaves
guesses-le crypto s a ip later ts here room past =
    guesses-Leaves crypto s.cfg a ip later ts past s a here refl refl room
