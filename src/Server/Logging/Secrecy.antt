-- ===== src/Server/Logging/Secrecy.antt =====
-- The credentials of a request do not show in its log line.
use my_home_index_server.Prelude.{ℕ, List, ◌∷◌, ◌++◌}
use my_home_index_server.Prelude.Bytes.{Bytes, codes, join}
use my_home_index_server.Server.Headers.Redaction.{blanks, session_pair}
use my_home_index_server.Server.Logging.{Traffic, Logged}

-- A request with a credential behind a scheme, and a session among other cookies.
abbrev pub with_credentials :
    Traffic → Bytes → Bytes → List Bytes → ℕ → Bytes → List Bytes → Traffic
with_credentials r scheme credential before n session after = record r {
  authorization = scheme ++ (b' ' ∷ credential);
  cookie = join (before ++ ((blanks n ++ session_pair session) ∷ after)) (codes ";");
}

-- A log line without what it says of the answer.
abbrev pub unanswered : Logged → Logged
unanswered l = record l { status = 0; bytes = 0; dur = 0 }
