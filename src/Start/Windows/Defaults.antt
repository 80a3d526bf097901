-- ===== src/Start/Windows/Defaults.antt =====
-- The settings that `main` of src/server/sacagawea.c starts with on Windows.
use sacagawea.Common.{
  arith, >>=-eq-returns, ◌≡◌, false, ◌>>=◌, ◌+◌, returns, Process, Option, Bytes, Bool, List,
}
use sacagawea.Regex.{Pattern}
use sacagawea.Config.{Settings, ConfFile, windows, read_conf_file, strlen}
use sacagawea.Config.Ports.{IsValid, read_conf_file-IsValid}
use sacagawea.Children.Windows.{path_max_win32}
use sacagawea.Start.Options.{
  Opt, filled, write_at, default_hostname, default_server_port, read_options,
}
use sacagawea.Start.Options.Validity.{GoodPorts, read_options-IsValid}

-- Behind what `GetCurrentDirectoryA` leaves in the array.
pub default_homedir_win32 : Bytes → Process Bytes
default_homedir_win32 cwd = do
  let arr = filled path_max_win32 cwd
  slashed ← write_at arr (strlen arr) b'\\'
  write_at slashed (strlen slashed + 1) 0

pub default_settings_win32 : Bytes → Option Bytes → Process Settings
unfolding default_homedir_win32
default_settings_win32 cwd host = do
  homedir ← default_homedir_win32 cwd
  returns (record {
    port = default_server_port;
    socket = 0;
    mode = b't';
    homedir = homedir;
    hostname = default_hostname host;
  })

-- The option -d is accepted and does nothing.
unfoldable pub start_settings_win32 :
    (Pattern → Bytes → Option Bytes)
    → (Bytes → Bool)
    → ConfFile
    → Bytes
    → Option Bytes
    → List Opt
    → Process Settings
unfolding default_settings_win32
start_settings_win32 group opendir file cwd host opts = do
  s ← default_settings_win32 cwd host
  (t, _) ← read_conf_file (windows group) opendir file s false
  (u, _) ← read_options t false opts
  returns u

default_settings_win32-IsValid :
    (cwd : Bytes) (host : Option Bytes) {s : Settings}
    → default_settings_win32 cwd host ≡ returns s
    → IsValid s
unfolding default_settings_win32
default_settings_win32-IsValid cwd host h =
    let (homedir, _, e) = >>=-eq-returns (default_homedir_win32 cwd) _ h in ground arith

-- Whatever PCRE2 finds in the lines of the file.
pub start_settings_win32-IsValid :
    (group : Pattern → Bytes → Option Bytes) (opendir : Bytes → Bool) (file : ConfFile)
    (cwd : Bytes) (host : Option Bytes) (opts : List Opt) {t : Settings}
    → GoodPorts opts
    → start_settings_win32 group opendir file cwd host opts ≡ returns t
    → IsValid t
unfolding start_settings_win32
start_settings_win32-IsValid group opendir file cwd host opts {t} good h =
    let (s, default, rest) = >>=-eq-returns (default_settings_win32 cwd host) _ h in
    let ((u, _), read, next) =
      >>=-eq-returns (read_conf_file (windows group) opendir file s false) _ rest in
    let ((v, d), options, last) = >>=-eq-returns (read_options u false opts) _ next in
    let same : v ≡ t = ground arith in
    rw same at (
      read_options-IsValid u false opts
        (read_conf_file-IsValid (windows group) opendir file s false
          (default_settings_win32-IsValid cwd host default) read)
        good options)
