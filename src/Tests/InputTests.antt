-- ===== src/Tests/InputTests.antt =====
-- The theorems on the configuration and on the scanner at concrete inputs.
use my_home_index_server.Prelude.{◌≡◌, refl, true, Option, some, List, [], ◌∷◌, arith}
use my_home_index_server.Prelude.Bytes.{Bytes, codes, bytes_eq, has_prefix}
use my_home_index_server.Prelude.Int.{pos}
use my_home_index_server.Prelude.Text.{atoi, fold, split}
use my_home_index_server.Prelude.Dict.{Dict, lookup}
use my_home_index_server.Disk.{File, no_faults}
use my_home_index_server.Config.Loading.{load}
use my_home_index_server.Config.Loading.Ending.{Loaded, given_in, load-Loaded}
use my_home_index_server.Config.EnvFile.Again.{left_by, persist_again}
use my_home_index_server.Config.EnvFile.{new_lines, old_lines, env_content}
use my_home_index_server.Config.EnvFile.Rewriting.{Rewritten, new_lines-Rewritten}
use my_home_index_server.Model.{decimal}
use my_home_index_server.Scanner.Lsof.{
  parse_lsof_f, sort_listeners, with_sorted_addrs, parse_lines, parse_line, split_host_port,
  last_index, add_addr, insert_listener, join_host_port,
}
use my_home_index_server.Tests.{options, surroundings, env_disk, lsof_output}

load-Loaded_example :
    Loaded
      (given_in (λ c. c.auth_token) options surroundings surroundings.file)
      (given_in (λ c. c.session_secret) options surroundings surroundings.file)
      env_disk
      (load options surroundings true no_faults env_disk)
load-Loaded_example = load-Loaded options surroundings true no_faults env_disk (refl, tt)

abbrev generated : Dict Bytes
generated = (codes "AUTH_TOKEN", codes "00ff") ∷ (codes "SESSION_SECRET", codes "a1") ∷ []

abbrev lines : List Bytes
lines = codes "# secrets" ∷ codes " export AUTH_TOKEN = old" ∷ codes "PORT=40000" ∷ []

new_lines-Rewritten_example : Rewritten generated lines (new_lines generated lines)
unfolding lookup bytes_eq
new_lines-Rewritten_example =
    new_lines-Rewritten generated ((omega arith, omega arith), ((omega arith, omega arith), tt))
      (refl, (refl, tt)) lines

abbrev old_file : Option File
old_file = some (record { content = codes "PORT=40000"; synced = true })

found_token : lookup (codes "AUTH_TOKEN") generated ≡ some (codes "00ff")
unfolding lookup bytes_eq
found_token = refl

persist_again_example :
    env_content (new_lines generated (old_lines (left_by generated old_file)))
    ≡ env_content (new_lines generated (old_lines old_file))
unfolding lookup bytes_eq
persist_again_example =
    persist_again generated ((omega arith, omega arith), ((omega arith, omega arith), tt))
      (refl, (refl, tt)) (codes "AUTH_TOKEN") (codes "00ff") found_token old_file

-- The one listener of the output that is not the dashboard's own.
lsof_listeners :
    parse_lsof_f lsof_output (pos 40000) (pos 40500) (pos 7)
    ≡ record { pid = pos 321; port = pos 40123; addrs = codes "0.0.0.0:40123" ∷ [] } ∷ []
unfolding parse_lsof_f sort_listeners with_sorted_addrs parse_lines split parse_line atoi bytes_eq
    fold has_prefix split_host_port last_index add_addr insert_listener join_host_port decimal
lsof_listeners = refl
