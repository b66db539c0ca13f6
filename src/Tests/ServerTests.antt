-- ===== src/Tests/ServerTests.antt =====
-- The theorems on processes, rows and requests at concrete inputs.
use my_home_index_server.Prelude.{◌≡◌, refl, some, [], ◌∷◌, arith}
use my_home_index_server.Prelude.Lists.{All}
use my_home_index_server.Prelude.Bytes.{codes}
use my_home_index_server.Prelude.Int.{pos}
use my_home_index_server.Process.{Target, Scan, Signal, verify_live, kill, restart}
use my_home_index_server.Process.Guards.{
  Permitted, Outcome, kill-Outcome, signals, signals-Permitted,
}
use my_home_index_server.Process.Restarting.{Restarted, restart-Restarted}
use my_home_index_server.Model.{build_view_models}
use my_home_index_server.Model.Rows.{Dashboard, build_view_models-Dashboard}
use my_home_index_server.Server.Access.{with_rate_limit, handle_login_post}
use my_home_index_server.Server.Access.Login.{Ending, login-Ending}
use my_home_index_server.Server.Mutations.{
  handle_kill, handle_kill_mutation, handle_rename, with_port, port_in_range, pid_on,
}
use my_home_index_server.Server.Snapshot.{write_ports_fragment}
use my_home_index_server.Prelude.Text.{atoi}
use my_home_index_server.Server.Mutations.Killing.{Report, handle_kill-Report}
use my_home_index_server.Server.Mutations.Renaming.{RenameReport, handle_rename-RenameReport}
use my_home_index_server.Server.Routes.{Route, serve}
use my_home_index_server.Server.Routes.Guarded.{Gate, serve-Gate}
use my_home_index_server.Server.Routes.Soundness.{serve_all, serve_all-IsSound}
use my_home_index_server.Server.Sound.{IsSound}
use my_home_index_server.Tests.StoreTests.{store-IsValid}
use my_home_index_server.Tests.{
  noon, host, store, crypto, auth, system, launcher, listeners, request, world, server,
}

-- The process that listens.
abbrev target : Target
target = record { pid = pos 321; port = pos 40123 }

kill-Outcome_example :
    Outcome
      (pos 7)
      system
      (Scan.scanned listeners)
      (pos 321)
      (kill (pos 7) system (Scan.scanned listeners) target)
kill-Outcome_example = kill-Outcome (pos 7) system (Scan.scanned listeners) target

signals-Permitted_example :
    All
      (λ m. Permitted (pos 7) (Scan.scanned listeners) m.pid)
      (signals (pos 7) system (Scan.scanned listeners) target system)
signals-Permitted_example = signals-Permitted (pos 7) system (Scan.scanned listeners) target system

restart-Restarted_example :
    Restarted launcher store (codes "01A") (restart launcher (some store) (codes "01A"))
restart-Restarted_example = restart-Restarted launcher store (codes "01A")

build_view_models-Dashboard_example :
    Dashboard host world.whole_seconds (some world.inspect) (some store) (pos 7) noon listeners (
      build_view_models host world.whole_seconds
        (some world.inspect)
        (some store)
        (pos 7)
        noon
        listeners)
build_view_models-Dashboard_example =
    build_view_models-Dashboard host world.whole_seconds (some world.inspect) (some store) (pos 7)
      noon listeners

serve-Gate_example :
    Gate crypto world server request
      (serve crypto host world server request (Route.kill (codes "40123")))
serve-Gate_example = serve-Gate crypto host world server request (Route.kill (codes "40123")) refl

handle_kill-Report_example :
    Report world server (codes "40123") (handle_kill host world (codes "40123") server)
handle_kill-Report_example = handle_kill-Report host world (codes "40123") server

handle_rename-RenameReport_example :
    RenameReport host world server request
      (codes "40123")
      (handle_rename host world request (codes "40123") server)
handle_rename-RenameReport_example =
    handle_rename-RenameReport host world request (codes "40123") server

login-Ending_example :
    Ending crypto world server request auth
      (with_rate_limit world server request (handle_login_post crypto world request))
login-Ending_example = login-Ending crypto world server request auth refl

serve_all-IsSound_example : IsSound (
    serve_all crypto host server (
      record { world = world; request = request; route = Route.login_post }
      ∷ record { world = world; request = request; route = Route.kill (codes "40123") }
      ∷ []))
serve_all-IsSound_example =
    serve_all-IsSound crypto host server
      (record { world = world; request = request; route = Route.login_post }
        ∷ record { world = world; request = request; route = Route.kill (codes "40123") }
        ∷ [])
      (record { bounded = record { distinct = tt; bounded = omega arith }; valid = store-IsValid })

-- The whole way of a kill: one SIGTERM to the process that listens.
kill_sends :
    (handle_kill host world (codes "40123") server).sent
    ≡ record { pid = pos 321; signal = Signal.sigterm } ∷ []
unfolding handle_kill handle_kill_mutation with_port port_in_range pid_on atoi kill verify_live
    write_ports_fragment
kill_sends = refl
