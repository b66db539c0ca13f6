-- ===== src/Tests/InspectorTests.antt =====
-- The theorems on the inspector at concrete inputs.
use my_home_index_server.Prelude.{◌≡◌, ◌↔◌, refl, inl, inr, false, none, some, [], ◌∷◌, arith}
use my_home_index_server.Prelude.Lists.{select}
use my_home_index_server.Prelude.Bytes.{codes}
use my_home_index_server.Prelude.Int.{pos}
use my_home_index_server.Prelude.Text.{split}
use my_home_index_server.Prelude.Time.{unix_milli}
use my_home_index_server.Inspector.{Errno, ProcInfo, split_cmdline}
use my_home_index_server.Inspector.Words.{is_word, untab, split_cmdline-split}
use my_home_index_server.Inspector.Env.{Sysctl, parse_procargs}
use my_home_index_server.Inspector.Env.Layout.{
  layout, parse_procargs-layout, parse_procargs-shifted,
}
use my_home_index_server.Inspector.Env.Entries.{Fits, parse_procargs-Fits}
use my_home_index_server.Inspector.Inspect.{Gopsutil, System, inspect}
use my_home_index_server.Inspector.Inspect.Succeeds.{Inspects, inspect_iff}
use my_home_index_server.Tests.{server_argv}

abbrev gops : Gopsutil
gops = record {
  new_process = none;
  argv = record { slice = server_argv; slice_error = none; line = []; line_error = none };
  cwd = inl (codes "/srv");
  create_time = inl 1000;
  uids = inl (pos 501 ∷ []);
}

-- The environment of a process of another user.
abbrev foreign_env : Sysctl
foreign_env = record {
  done_before = false;
  done_between = false;
  argmax = none;
  procargs = inr Errno.einval;
  probe = some Errno.eperm;
}

abbrev sys : System
sys = record { ctx_done = false; gopsutil = λ p. gops; sysctl = λ p. foreign_env }

abbrev snapshot : ProcInfo
snapshot = record {
  pid = pos 321;
  command = server_argv;
  cwd = codes "/srv";
  start_time = unix_milli 1000;
  uid = pos 501;
  env = none;
}

inspect_iff_example : (inspect sys (pos 321) ≡ inl snapshot) ↔ Inspects sys (pos 321) snapshot
inspect_iff_example = inspect_iff sys (pos 321) snapshot

split_cmdline-split_example :
    split_cmdline (codes "node  server.js")
    ≡ select is_word (split b' ' (untab (codes "node  server.js")))
split_cmdline-split_example = split_cmdline-split (codes "node  server.js")

parse_procargs-layout_example :
    parse_procargs (
      layout
        (codes "/bin/sh")
        3
        (codes "sh" ∷ [] ∷ [])
        (codes "A=1" ∷ codes "B=" ∷ [])
        (0 ∷ 7 ∷ []))
    ≡ inl (codes "A=1" ∷ codes "B=" ∷ [])
parse_procargs-layout_example =
    parse_procargs-layout (codes "/bin/sh") 3 (codes "sh" ∷ [] ∷ []) (codes "A=1" ∷ codes "B=" ∷ [])
      (0 ∷ 7 ∷ []) (ground arith) (omega arith) (λ e. cc) (ground arith)
      ((λ e. cc, ground arith), ((λ e. cc, ground arith), tt)) refl

parse_procargs-shifted_example :
    parse_procargs (layout (codes "/bin/sh") 3 ([] ∷ []) (codes "A=1" ∷ codes "B=" ∷ []) [])
    ≡ inl (codes "B=" ∷ [])
parse_procargs-shifted_example =
    parse_procargs-shifted (codes "/bin/sh") 3 [] (codes "B=" ∷ []) (codes "A=1") [] (ground arith)
      (omega arith) (λ e. cc) (ground arith) ((λ e. cc, ground arith), tt) tt

parse_procargs-Fits_example :
    Fits (codes "B=" ∷ []) (layout (codes "/bin/sh") 3 ([] ∷ []) (codes "A=1" ∷ codes "B=" ∷ []) [])
parse_procargs-Fits_example =
    parse_procargs-Fits (layout (codes "/bin/sh") 3 ([] ∷ []) (codes "A=1" ∷ codes "B=" ∷ []) [])
      (codes "B=" ∷ []) parse_procargs-shifted_example
