-- ===== src/Tests/LogTests.antt =====
-- The theorems on the log lines at concrete inputs.
use my_home_index_server.Prelude.{◌≡◌, refl, true, false, none, some, [], ◌∷◌}
use my_home_index_server.Prelude.Bytes.{codes}
use my_home_index_server.Server.Logging.{
  Call, Behaviour, Traffic, serve_logged, recovered, calls, call, write_header, write, or_sent,
}
use my_home_index_server.Server.Logging.Recording.{Recorded, serve_logged-Recorded}
use my_home_index_server.Tests.{address}

abbrev traffic : Traffic
traffic = record {
  method = codes "GET";
  path = codes "/";
  remote = address;
  user_agent = codes "curl";
  authorization = [];
  cookie = [];
}

-- A handler that sends a page and then panics.
abbrev late_panic : Behaviour
late_panic = record { made = Call.header 200 ∷ Call.body 12 ∷ []; panics = true }

-- A handler that refuses the request.
abbrev refusal : Behaviour
refusal = record { made = Call.header 401 ∷ Call.body 13 ∷ []; panics = false }

serve_logged-Recorded_example : Recorded late_panic 22 (serve_logged none 7 traffic late_panic 22 5)
serve_logged-Recorded_example = serve_logged-Recorded none 7 traffic late_panic 22 5

-- The client has got 200, and the log says 500.
late_panic_sent : (serve_logged none 7 traffic late_panic 22 5).wire.sent ≡ some 200
unfolding serve_logged recovered calls call write_header write or_sent
late_panic_sent = refl
