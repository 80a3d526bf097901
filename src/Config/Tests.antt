-- ===== src/Config/Tests.antt =====
-- Runs of the reader of sacagawea.conf, and its theorems at concrete files.

use sacagawea.Regex.{do_regex}
use sacagawea.Config.Lines.{Full, all_lines_join, IsLine, join_lines}
use sacagawea.Config.Ports.{read_conf_file-IsValid, IsValid}
use sacagawea.Common.{
  inl, refl, arith, returns, All, false, starts_with, replicate, ◌≡◌, true, ◌++◌, Bytes, codes,
}
use sacagawea.Config.{
  linux, read_conf_file, conf_lines, readable, all_lines, read_and_check_conf, Settings,
}

abbrev start : Settings
start = record {
  port = 7070;
  socket = 3;
  mode = b't';
  homedir = codes "/srv/" ++ replicate 4 0;
  hostname = codes "localhost" ++ replicate 4 0;
}

abbrev conf : Bytes
conf = codes "mode p\nport 1234\ndasvfas"

run_conf :
    read_and_check_conf (λ _. true) (readable conf) start false
    ≡ returns (record start { mode = b'p'; port = 1234 }, true)
unfolding read_conf_file do_regex starts_with conf_lines
run_conf = refl

reload_conf :
    read_and_check_conf (λ _. true) (readable conf) start true
    ≡ returns (record start { port = 1234 }, true)
unfolding read_conf_file do_regex starts_with conf_lines
reload_conf = refl

-- A port that changes and changes back is reported as a change.
there_and_back :
    read_and_check_conf (λ _. true) (readable (codes "port 80\nport 7070\n")) start true
    ≡ returns (start, true)
unfolding read_conf_file do_regex starts_with conf_lines
there_and_back = refl

read_conf_file-IsValid_example : IsValid (record start { mode = b'p'; port = 1234 })
read_conf_file-IsValid_example =
    read_conf_file-IsValid linux (λ _. true) (readable conf) start false
      (record { port_pos = omega arith; port_lt = omega arith; mode_known = inl refl }) run_conf

all_lines_join_example :
    (join_lines (all_lines conf) ≡ conf) × All IsLine (all_lines conf) × Full (all_lines conf)
all_lines_join_example = all_lines_join conf
