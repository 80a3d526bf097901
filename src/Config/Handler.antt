-- ===== src/Config/Handler.antt =====
-- `read_and_check_conf` as the signal handler calls it, on a running server.
use sacagawea.Regex.{port_pattern}
use sacagawea.Common.{
  inr, c_string, Bool-cases, [], ◌∷◌, >>=-eq-returns, ◌<◌, inl, ◌||◌, ◌⊎◌, arith, returns, false,
  List, ◌∙◌, true, ◌≡◌, Bytes, Bool,
}
use sacagawea.Config.{
  Platform, read_conf_file, missing, broken, all_lines, readable, chomp, ConfFile, read_lines,
  read_line, check_if_port_change, Settings,
}
use sacagawea.Config.Ports.{SameButPort, set_port_changes}

abbrev Reload : Settings → Settings → Bool → Bool → Type 0
Reload s t before after =
    SameButPort s t
    × (after ≡ false → (before ≡ false) × (t.port ≡ s.port))
    × ((t.port ≡ s.port) ⊎ ((0 < t.port) × (t.port < 65536)))

check-Reload :
    (p : Platform) (text : Bytes) (s : Settings) {t : Settings} {b : Bool} (pc : Bool)
    → check_if_port_change p text s ≡ returns (t, b)
    → Reload s t pc (pc || b)
unfolding check_if_port_change
check-Reload p text s {t} {b} pc h =
    let (same, kept, fresh) = set_port_changes s (p.regex port_pattern text) h in
    elim (Bool-cases b) [
      | inl changed ↦ let (pos, lt, _) = fresh changed in (same, (λ e. ground arith), inr (pos, lt))
      | inr unchanged ↦ (same, (λ e. ground (arith, kept unchanged)), inl (kept unchanged))
    ]

read_line-Reload :
    (p : Platform) (opendir : Bytes → Bool) (s : Settings) (line : Bytes) {t : Settings} {b : Bool}
    (pc : Bool)
    → read_line p opendir true s line ≡ returns (t, b)
    → Reload s t pc (pc || b)
unfolding read_line
read_line-Reload p opendir s line pc h =
    let (text, _, e) = >>=-eq-returns (chomp (c_string line)) _ h in check-Reload p text s pc e

Reload-trans : (s t u : Settings) (a b c : Bool) → Reload s t a b → Reload t u b c → Reload s u a c
Reload-trans s t u a b c (same, kept, port) (same', kept', port') = (
  record {
    socket_same = same'.socket_same ∙ same.socket_same;
    mode_same = same'.mode_same ∙ same.mode_same;
    homedir_same = same'.homedir_same ∙ same.homedir_same;
    hostname_same = same'.hostname_same ∙ same.hostname_same;
  },
  (λ e. let (e1, e2) = kept' e in let (e3, e4) = kept e1 in (e3, e2 ∙ e4)),
  ground arith,
)

read_lines-Reload :
    (p : Platform) (opendir : Bytes → Bool) (lines : List Bytes) (s : Settings) (pc : Bool)
    {t : Settings} {b : Bool}
    → read_lines p opendir true s pc lines ≡ returns (t, b)
    → Reload s t pc b
unfolding read_lines
read_lines-Reload p opendir [] s pc {t} {b} h =
    let e : s ≡ t = ground arith in
    let e' : pc ≡ b = ground arith in
    (
      record { socket_same = rw e; mode_same = rw e; homedir_same = rw e; hostname_same = rw e },
      (λ x. (e' ∙ x, rw e)),
      inl (rw e),
    )
read_lines-Reload p opendir (line ∷ lines) s pc {t} {b} h =
    let ((s', changed), first, second) = >>=-eq-returns (read_line p opendir true s line) _ h in
    Reload-trans s s' t pc (pc || changed) b (read_line-Reload p opendir s line pc first)
      (read_lines-Reload p opendir lines s' (pc || changed) second)

-- A reload from the signal handler changes nothing but the port. It reports a change or the port is as
-- before, and a port that is not as before lies between 1 and 65535.
pub read_conf_file_reload :
    (p : Platform) (opendir : Bytes → Bool) (file : ConfFile) (s : Settings) {t : Settings}
    {b : Bool}
    → read_conf_file p opendir file s true ≡ returns (t, b)
    → SameButPort s t
      × ((b ≡ true) ⊎ (t.port ≡ s.port))
      × ((t.port ≡ s.port) ⊎ ((0 < t.port) × (t.port < 65536)))
unfolding read_conf_file
read_conf_file_reload p opendir missing s h = cc
read_conf_file_reload p opendir (readable text) s {b = b} h =
    let (same, kept, port) = read_lines-Reload p opendir (all_lines text) s false h in
    (same, elim (Bool-cases b) [ inl yes' ↦ inl yes' | inr no' ↦ inr (kept no').1 ], port)
read_conf_file_reload p opendir (broken text) s h =
    let (_, _, e) = >>=-eq-returns (read_lines p opendir true s false (all_lines text)) _ h in cc e
