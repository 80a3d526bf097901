-- ===== src/Config.antt =====
-- src/sacagalib/config.c and `settings_t` of include/sacagalib.h: the settings, `read_conf_line`,
-- `check_if_port_change` and `read_and_check_conf`. The character arrays are lists as long as the
-- arrays; `port` is the bit pattern of the `int`. What `opendir`, `fopen` and the reads of the file
-- answer is a parameter.
pub mod Homedir
pub mod Ports
pub mod Handler
pub mod PortLine
pub mod Lines
mod Tests
use sacagawea.Common.{
  Option, true, ltb, zero, ◌&&◌, fgets, not, drop, ◌||◌, ◌-◌, suc, false, ◌+◌, set, replicate,
  exits, undefined, ◌*◌, ◌>>=◌, [], returns, ◌==◌, last_or, ◌++◌, c_string, List, Process, Bool,
  ◌∷◌, if◌then◌else◌, take, length, Bytes, ℕ,
}
use sacagawea.Regex.{
  do_regex_win32, Pattern, hostname_pattern, homedir_pattern, mode_pattern, port_pattern, do_regex,
}

pub record Settings : Type 0 where
  pub port : ℕ
  pub socket : ℕ
  pub mode : ℕ
  pub homedir : Bytes
  pub hostname : Bytes

-- `strlen` of the string in an array.
abbrev pub strlen : Bytes → ℕ
strlen arr = length (c_string arr)

-- `strncpy(arr, src, n)`: NULs fill what `src` leaves free of the first `n` bytes.
abbrev pub strncpy : Bytes → Bytes → ℕ → Bytes
strncpy arr src n = take n (src ++ replicate n 0) ++ drop n arr

-- What differs between the systems: the search for a pattern, and the slash behind a directory.
pub record Platform : Type 0 where
  pub regex : Pattern → Bytes → Bytes
  pub slash : ℕ

abbrev pub linux : Platform
linux = record { regex = do_regex; slash = b'/' }

-- On Windows, with what PCRE2 finds for the group of a pattern: bytes of its class, as many as it says.
abbrev pub windows : (Pattern → Bytes → Option Bytes) → Platform
windows group = record { regex = do_regex_win32 group; slash = b'\\' }

-- The slash that is put behind a home directory without one. The second `strlen` runs behind the
-- first write.
pub add_slash : Platform → Bytes → Bytes
add_slash p arr =
    if last_or 0 (c_string arr) == p.slash
    then arr
    else let slashed = set arr (strlen arr) p.slash in set slashed (strlen slashed + 1) 0

set_mode : Settings → Bytes → Settings
set_mode s [] = s
set_mode s (m ∷ _) =
    if m == b't'
    then record s { mode = b't' }
    else if m == b'p'
    then record s { mode = b'p' }
    else s

pub set_homedir : Platform → (Bytes → Bool) → Settings → Bytes → Process Settings
set_homedir p opendir s [] = returns s
set_homedir p opendir s (c ∷ match) =
    if opendir (c ∷ match)
    then returns (record s { homedir = add_slash p (strncpy s.homedir (c ∷ match) 259) })
    else exits 1

set_hostname : Settings → Bytes → Settings
set_hostname s [] = s
set_hostname s (c ∷ match) = record s { hostname = strncpy s.hostname (c ∷ match) 255 }

pub read_conf_line : Platform → (Bytes → Bool) → Bytes → Settings → Process Settings
unfolding set_mode set_homedir set_hostname
read_conf_line p opendir line s = do
  s' ← set_homedir p opendir (set_mode s (p.regex mode_pattern line)) (p.regex homedir_pattern line)
  returns (set_hostname s' (p.regex hostname_pattern line))

-- `strtol` of a string of decimal digits.
abbrev pub strtol_from : ℕ → Bytes → ℕ
strtol_from n [] = n
strtol_from n (c ∷ s) = strtol_from (n * 10 + (c - b'0')) s

pub set_port : Settings → Bytes → Process (Settings × Bool)
set_port s [] = returns (s, false)
set_port s (c ∷ match) =
    let val = strtol_from 0 (c ∷ match) in
    if val == 0
    then exits 1
    else if not (val == 0) && not (val == s.port) && ltb val 65536
    then returns (record s { port = val }, true)
    else returns (s, false)

pub check_if_port_change : Platform → Bytes → Settings → Process (Settings × Bool)
unfolding set_port
check_if_port_change p line s = set_port s (p.regex port_pattern line)

-- The file cannot be opened, is read to its end, or breaks with an error behind some bytes: the bytes that
-- the reads give, which on Windows come out of the translation of a text file.
pub data ConfFile : Type 0 where
  missing : ConfFile
  readable : Bytes → ConfFile
  broken : Bytes → ConfFile

-- `max_line_size`, of which `fgets` leaves one byte to the NUL.
abbrev pub max_line_size : ℕ
max_line_size = 512

-- The lines that `fgets` gives until it finds nothing more; `fuel` bounds their number.
unfoldable pub conf_lines : ℕ → Bytes → List Bytes
conf_lines zero s = []
conf_lines (suc fuel) [] = []
conf_lines (suc fuel) (c ∷ s) =
    let (line, rest) = fgets (max_line_size - 1) (c ∷ s) in line ∷ conf_lines fuel rest

-- The string without its newline; a line that holds no string makes the code read in front of it.
abbrev drop_newline : Bytes → Bytes
drop_newline s = if last_or 0 s == b'\n' then take (length s - 1) s else s

abbrev pub chomp : Bytes → Process Bytes
chomp [] = undefined
chomp (c ∷ s) = returns (drop_newline (c ∷ s))

-- One line: all settings, unless the call comes from the signal handler, and the port.
pub read_line : Platform → (Bytes → Bool) → Bool → Settings → Bytes → Process (Settings × Bool)
unfolding read_conf_line check_if_port_change
read_line p opendir from_handler s line = do
  text ← chomp (c_string line)
  s' ← if from_handler then returns s else read_conf_line p opendir text s
  check_if_port_change p text s'

pub read_lines :
    Platform → (Bytes → Bool) → Bool → Settings → Bool → List Bytes → Process (Settings × Bool)
unfolding read_line
read_lines p opendir from_handler s port_change [] = returns (s, port_change)
read_lines p opendir from_handler s port_change (line ∷ lines) = do
  (s', changed) ← read_line p opendir from_handler s line
  read_lines p opendir from_handler s' (port_change || changed) lines

-- Each line takes at least one byte, so the length of the file is fuel enough.
abbrev pub all_lines : Bytes → List Bytes
all_lines s = conf_lines (length s) s

unfoldable pub read_conf_file :
    Platform → (Bytes → Bool) → ConfFile → Settings → Bool → Process (Settings × Bool)
unfolding read_lines
read_conf_file p opendir missing s from_handler = exits 5
read_conf_file p opendir (readable text) s from_handler =
    read_lines p opendir from_handler s false (all_lines text)
read_conf_file p opendir (broken text) s from_handler = do
  _ ← read_lines p opendir from_handler s false (all_lines text)
  exits 5

abbrev pub read_and_check_conf :
    (Bytes → Bool) → ConfFile → Settings → Bool → Process (Settings × Bool)
read_and_check_conf = read_conf_file linux
