-- ===== src/Scanner/Lsof/Sound.antt =====
-- Which listeners the parser can report.
use my_home_index_server.Prelude.{
  ◌≡◌, ◌≢◌, ◌≤◌, refl, inl, inr, Option, none, some, List, [], ◌∷◌, arith,
}
use my_home_index_server.Prelude.Tests.{◌==◌, Bool-cases}
use my_home_index_server.Prelude.Bytes.{Bytes, codes, bytes_eq}
use my_home_index_server.Prelude.Int.{ℤ, pos, int_eq, int_le, int_eq-apart}
use my_home_index_server.Prelude.Text.{atoi, fold, split}
use my_home_index_server.Scanner.Lsof.{
  ParseState, pid_line, addr_line, node_line, parse_line, parse_lines, split_host_port,
  join_host_port, parse_lsof_f, trim_returns, itoa,
}
use my_home_index_server.Scanner.Aggregate.{
  count, count-add_addr, AllOn, AllOn-add_addr, IsTarget, Report, Report-sorted,
}

module _ (port_min port_max exclude : ℤ) where
  -- What holds of the map at every line.
  record Holds (st : ParseState) : Type 0 where
    targets : AllOn (IsTarget port_min port_max exclude) st.agg
    once : (p q : ℤ) → count p q st.agg ≤ 1

  addr_line-Holds :
      (st : ParseState) (o : Option (Bytes × ℤ))
      → st.cur_pid ≢ pos 0
      → st.cur_pid ≢ exclude
      → Holds st
      → Holds (addr_line port_min port_max st o)
  unfolding addr_line
  addr_line-Holds st none a b h = h
  addr_line-Holds st (some (host, port)) a b h = elim (Bool-cases (int_le port_min port)) [
    | inr low ↦ simp low h
    | inl above ↦ elim (Bool-cases (int_le port port_max)) [
      | inr high ↦ simp (above, high) h
      | inl below ↦
          let addr = join_host_port host (itoa port) in
          simp (above, below)
            (record {
              targets =
                  AllOn-add_addr (IsTarget port_min port_max exclude) st.cur_pid port addr st.agg
                    (record { real = a; other = b; above = above; below = below }) h.targets;
              once =
                  λ p q. ground (arith, count-add_addr p q st.cur_pid port addr st.agg, h.once p q);
            })
    ]
  ]

  node_line-Holds :
      (st : ParseState) (body : Bytes)
      → Holds st
      → Holds (node_line port_min port_max exclude st body)
  unfolding node_line
  node_line-Holds st body h = elim (Bool-cases (int_eq st.cur_pid (pos 0))) [
    | inl zero_pid ↦ simp zero_pid h
    | inr real ↦ elim (Bool-cases (int_eq st.cur_pid exclude)) [
      | inl own ↦ simp (real, own) h
      | inr other ↦ elim (Bool-cases (bytes_eq (fold st.cur_proto) (codes "tcp"))) [
        | inr udp ↦ simp (real, other, udp) h
        | inl tcp ↦
            simp (real, other, tcp)
              (addr_line-Holds st (split_host_port body) (int_eq-apart st.cur_pid (pos 0) real)
                (int_eq-apart st.cur_pid exclude other) h)
      ]
    ]
  ]

  keeps_agg : (st t : ParseState) → t.agg ≡ st.agg → Holds st → Holds t
  keeps_agg st t e h = record { targets = rw e h.targets; once = λ p q. rw e (h.once p q) }

  pid_line-Holds : (st : ParseState) (o : Option ℤ) → Holds st → Holds (pid_line st o)
  unfolding pid_line
  pid_line-Holds st none h = keeps_agg st (pid_line st none) refl h
  pid_line-Holds st (some pid) h = keeps_agg st (pid_line st (some pid)) refl h

  parse_line-Holds :
      (st : ParseState) (line : Bytes)
      → Holds st
      → Holds (parse_line port_min port_max exclude st line)
  unfolding parse_line
  parse_line-Holds st [] h = h
  parse_line-Holds st (tag ∷ body) h = elim (Bool-cases (tag == b'p')) [
    | inl p ↦ simp p (pid_line-Holds st (atoi body) h)
    | inr not_p ↦ elim (Bool-cases (tag == b'P')) [
      | inl proto ↦ simp (not_p, proto) (keeps_agg st (record st { cur_proto = body }) refl h)
      | inr not_proto ↦ elim (Bool-cases (tag == b'n')) [
        | inl n ↦ simp (not_p, not_proto, n) (node_line-Holds st body h)
        | inr not_n ↦ simp (not_p, not_proto, not_n) h
      ]
    ]
  ]

  parse_lines-Holds :
      (st : ParseState) (ls : List Bytes)
      → Holds st
      → Holds (parse_lines port_min port_max exclude st ls)
  unfolding parse_lines
  parse_lines-Holds st [] h = h
  parse_lines-Holds st (raw ∷ rest) h =
      parse_lines-Holds (parse_line port_min port_max exclude st (trim_returns raw)) rest
        (parse_line-Holds st (trim_returns raw) h)

-- Whatever lsof prints, `parseLsofF` reports only processes with an id other than 0 and other than the
-- excluded one, on ports in the range, each process and port at most once, in the order of the ports
-- and, on one port, of the process ids.
pub parse_lsof_f-Report :
    (output : Bytes) (port_min port_max exclude : ℤ)
    → Report port_min port_max exclude (parse_lsof_f output port_min port_max exclude)
unfolding parse_lsof_f
parse_lsof_f-Report output port_min port_max exclude =
    let start : ParseState = record { cur_pid = pos 0; cur_proto = []; agg = [] } in
    let empty : Holds port_min port_max exclude start = record {
      targets = tt;
      once = λ p q. omega arith;
    } in
    let lines = split b'\n' output in
    let agg = (parse_lines port_min port_max exclude start lines).agg in
    let held = parse_lines-Holds port_min port_max exclude start lines empty in
    Report-sorted port_min port_max exclude agg held.targets held.once
