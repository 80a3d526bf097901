-- ===== src/Report.antt =====
-- `write_log` of src/sacagalib/log.c: the messages of the server on its own streams. The date, the
-- formatted message and LOG_LEVEL, which the build may set, are parameters.
pub mod Date
pub mod Format
mod Tests
use sacagawea.Common.{
  [], zero, ◌∷◌, ◌==◌, none, some, ◌++◌, last_or, leb, returns, take, ◌>>=◌, if◌then◌else◌, length,
  suc, Option, ◌-◌, undefined, Process, codes, ℕ, Bytes,
}
use sacagawea.Gopher.Menu.{snprintf}

pub data Level : Type 0 where
  error warning info debug : Level

abbrev pub level_number : Level → ℕ
level_number error = 0
level_number warning = 1
level_number info = 2
level_number debug = 3

-- `log_lv_name`
abbrev pub log_lv_name : Level → Bytes
log_lv_name error = codes "ERROR"
log_lv_name warning = codes "WARNING"
log_lv_name info = codes "INFO"
log_lv_name debug = codes "DEBUG"

abbrev pub log_str_len : ℕ
log_str_len = 1024

-- The loop that takes the newlines off the end; `n` is the length of the string. An empty string makes
-- the code read in front of the array.
pub strip : ℕ → Bytes → Process Bytes
strip zero s = undefined
strip (suc n) s =
    let shorter = strip n (take n s) in if last_or 0 s == b'\n' then shorter else returns s

-- The line that is printed.
pub log_string : Level → Bytes → Bytes → Process Bytes
unfolding strip
log_string lv date message = do
  let formatted = snprintf (log_str_len - length date) message
  text ← strip (length formatted) formatted
  returns (
      snprintf log_str_len
        (date ++ (b' ' ∷ (log_lv_name lv ++ (b':' ∷ (b' ' ∷ (text ++ b'\n' ∷ [])))))))

pub data Stream : Type 0 where
  stderr stdout : Stream

-- Where the line goes, if anywhere.
pub target : ℕ → Level → Option Stream
target log_level lv =
    if leb (level_number lv) 1
    then some stderr
    else if leb (level_number lv) log_level
    then some stdout
    else none

pub write_log : ℕ → Level → Bytes → Bytes → Process (Option (Stream × Bytes))
unfolding log_string target
write_log log_level lv date message = do
  line ← log_string lv date message
  returns (elim (target log_level lv) [ none ↦ none | some out ↦ some (out, line) ])
