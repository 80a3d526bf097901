-- ===== src/Report/Tests.antt =====
-- Runs of `write_log`, and its theorems at concrete messages.
use sacagawea.Report.Date.{month, padded, date_text, date_string}
use sacagawea.Common.{decimal, none, some, returns, ◌≡◌, codes, refl, Bytes, arith}
use sacagawea.Report.{error, debug, stderr, log_string, write_log}
use sacagawea.Report.Format.{report_line, log_string_line}

abbrev date : Bytes
date = codes "[Jul 21 2019 15:54:33]"

run_error :
    write_log 3 error date (codes "bind failed: in use\n")
    ≡ returns (some (stderr, codes "[Jul 21 2019 15:54:33] ERROR: bind failed: in use\n"))
unfolding write_log
run_error = refl

run_quiet : write_log 0 debug date (codes "x") ≡ returns none
unfolding write_log
run_quiet = refl

log_string_line_example :
    log_string error date (codes "bind failed: in use\n\n")
    ≡ returns (report_line error date (codes "bind failed: in use"))
log_string_line_example =
    log_string_line error date (codes "bind failed: in us") b'e' 2 (omega arith) (omega arith)

run_date :
    date_string (record {
      tm_mday = 3;
      tm_year = 119;
      tm_hour = 9;
      tm_min = 5;
      tm_sec = 33;
      asctime = codes "Wed Jul  3 09:05:33 2019\n";
    })
    ≡ codes "[Jul 03 2019 09:05:33]"
unfolding date_string date_text padded month decimal
run_date = refl
