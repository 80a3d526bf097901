-- ===== src/Config/Ports.antt =====
-- Which settings a run over sacagawea.conf can change, and to what.
use sacagawea.Regex.{hostname_pattern, homedir_pattern, mode_pattern, port_pattern}
use sacagawea.Common.{
  ◌||◌, List, ◌>>=◌, inr, c_string, inl, Bool-cases, >>=-eq-returns, if◌then◌else◌, [], ◌∷◌, arith,
  ◌≢◌, true, false, returns, Bool, Bytes, ◌⊎◌, ◌≡◌, ◌<◌,
}
use sacagawea.Config.{
  Platform, read_conf_file, missing, broken, all_lines, readable, set_hostname, ConfFile,
  read_lines, set_mode, chomp, set_homedir, read_line, check_if_port_change, read_conf_line,
  set_port, Settings,
}

-- The port can be bound and the mode is one of the two.
pub record IsValid (s : Settings) : Type 0 where
  pub port_pos : 0 < s.port
  pub port_lt : s.port < 65536
  pub mode_known : (s.mode ≡ b't') ⊎ (s.mode ≡ b'p')

-- Nothing but the port differs.
pub record SameButPort (s t : Settings) : Type 0 where
  pub socket_same : t.socket ≡ s.socket
  pub mode_same : t.mode ≡ s.mode
  pub homedir_same : t.homedir ≡ s.homedir
  pub hostname_same : t.hostname ≡ s.hostname

pub set_port_changes :
    (s : Settings) (m : Bytes) {t : Settings} {b : Bool}
    → set_port s m ≡ returns (t, b)
    → SameButPort s t
      × ((b ≡ false) → t.port ≡ s.port)
      × ((b ≡ true) → (0 < t.port) × (t.port < 65536) × (t.port ≢ s.port))
unfolding set_port
set_port_changes s [] h = ground arith
set_port_changes s (c ∷ m) h = ground arith

read_conf_line_keeps :
    (p : Platform) (opendir : Bytes → Bool) (line : Bytes) (s : Settings) {t : Settings}
    → read_conf_line p opendir line s ≡ returns t
    → (t.port ≡ s.port)
      × (t.socket ≡ s.socket)
      × ((t.mode ≡ s.mode) ⊎ (t.mode ≡ b't') ⊎ (t.mode ≡ b'p'))
unfolding read_conf_line
read_conf_line_keeps p opendir line s h =
    split (p.regex mode_pattern line) (p.regex homedir_pattern line) (p.regex hostname_pattern line)
      h
  where
    split :
        (m d n : Bytes) {t : Settings}
        → ((set_homedir p opendir (set_mode s m) d) >>= λ s'. returns (set_hostname s' n))
          ≡ returns t
        → (t.port ≡ s.port)
          × (t.socket ≡ s.socket)
          × ((t.mode ≡ s.mode) ⊎ (t.mode ≡ b't') ⊎ (t.mode ≡ b'p'))
    split [] [] [] e = ground arith
    split [] [] (_ ∷ _) e = ground arith
    split [] (_ ∷ _) [] e = ground arith
    split [] (_ ∷ _) (_ ∷ _) e = ground arith
    split (_ ∷ _) [] [] e = ground arith
    split (_ ∷ _) [] (_ ∷ _) e = ground arith
    split (_ ∷ _) (_ ∷ _) [] e = ground arith
    split (_ ∷ _) (_ ∷ _) (_ ∷ _) e = ground arith

check_keeps :
    (p : Platform) (line : Bytes) (s : Settings) {t : Settings} {b : Bool}
    → IsValid s
    → check_if_port_change p line s ≡ returns (t, b)
    → IsValid t
unfolding check_if_port_change
check_keeps p line s {t} {b} v h =
    let (same, kept, fresh) = set_port_changes s (p.regex port_pattern line) h in
    elim (Bool-cases b) [
      | inl changed ↦
          let (pos, lt, _) = fresh changed in
          record { port_pos = pos; port_lt = lt; mode_known = rw same.mode_same v.mode_known }
      | inr unchanged ↦ record {
        port_pos = rw (kept unchanged) v.port_pos;
        port_lt = rw (kept unchanged) v.port_lt;
        mode_known = rw same.mode_same v.mode_known;
      }
    ]

read_conf_line-IsValid :
    (p : Platform) (opendir : Bytes → Bool) (line : Bytes) (s : Settings) {t : Settings}
    → IsValid s
    → read_conf_line p opendir line s ≡ returns t
    → IsValid t
read_conf_line-IsValid p opendir line s v h =
    let (port, _, mode) = read_conf_line_keeps p opendir line s h in
    record {
      port_pos = rw port v.port_pos;
      port_lt = rw port v.port_lt;
      mode_known = ground (arith, v.mode_known);
    }

read_line-IsValid :
    (p : Platform) (opendir : Bytes → Bool) (from_handler : Bool) (s : Settings) (line : Bytes)
    {t : Settings} {b : Bool}
    → IsValid s
    → read_line p opendir from_handler s line ≡ returns (t, b)
    → IsValid t
unfolding read_line
read_line-IsValid p opendir from_handler s line v h =
    let (text, _, h1) = >>=-eq-returns (chomp (c_string line)) _ h in
    let (s', first, second) =
      >>=-eq-returns (if from_handler then returns s else read_conf_line p opendir text s) _ h1 in
    check_keeps p text s' (settings from_handler text s' first) second
  where
    settings :
        (fh : Bool) (text : Bytes) (s' : Settings)
        → (if fh then returns s else read_conf_line p opendir text s) ≡ returns s'
        → IsValid s'
    settings true text s' e = ground (arith, v.mode_known)
    settings false text s' e = read_conf_line-IsValid p opendir text s v e

read_lines-IsValid :
    (p : Platform) (opendir : Bytes → Bool) (from_handler : Bool) (lines : List Bytes)
    (s : Settings) (pc : Bool) {t : Settings} {b : Bool}
    → IsValid s
    → read_lines p opendir from_handler s pc lines ≡ returns (t, b)
    → IsValid t
unfolding read_lines
read_lines-IsValid p opendir from_handler [] s pc v h = ground (arith, v.mode_known)
read_lines-IsValid p opendir from_handler (line ∷ lines) s pc v h =
    let ((s', changed), first, second) =
      >>=-eq-returns (read_line p opendir from_handler s line) _ h in
    read_lines-IsValid p opendir from_handler lines s' (pc || changed)
      (read_line-IsValid p opendir from_handler s line v first) second

-- Reading sacagawea.conf, at the start or in the signal handler, keeps the settings valid, whatever
-- the file holds: a port between 1 and 65535 and one of the two modes.
pub read_conf_file-IsValid :
    (p : Platform) (opendir : Bytes → Bool) (file : ConfFile) (s : Settings) (from_handler : Bool)
    {t : Settings} {b : Bool}
    → IsValid s
    → read_conf_file p opendir file s from_handler ≡ returns (t, b)
    → IsValid t
unfolding read_conf_file
read_conf_file-IsValid p opendir missing s from_handler v h = cc
read_conf_file-IsValid p opendir (readable text) s from_handler v h =
    read_lines-IsValid p opendir from_handler (all_lines text) s false v h
read_conf_file-IsValid p opendir (broken text) s from_handler v h =
    let (_, _, e) =
      >>=-eq-returns (read_lines p opendir from_handler s false (all_lines text)) _ h in
    cc e
