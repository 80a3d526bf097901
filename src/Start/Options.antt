-- ===== src/Start/Options.antt =====
-- The settings that `main` starts with: its defaults, sacagawea.conf and the command line.
pub mod Validity
pub mod Homedir
mod Tests
use sacagawea.Regex.{is_space, is_digit}
use sacagawea.Common.{
  ◌%◌, leb, set, undefined, none, ◌-◌, length, exits, [], ◌*◌, ◌^◌, false, some, replicate, true,
  ◌==◌, ltb, returns, codes, ◌+◌, ◌++◌, List, ◌∷◌, if◌then◌else◌, Option, ◌>>=◌, Bool, ℕ, Bytes,
  Process,
}
use sacagawea.Config.{Settings, ConfFile, read_and_check_conf, strlen}

-- What each call of `getopt(argc, argv, "ptdP:")` gives; `other` is every option that it refuses.
pub data Opt : Type 0 where
  mode_p mode_t debug other : Opt
  port_arg : Bytes → Opt

pub data Sign : Type 0 where
  plus minus : Sign

-- `atoi` reads white space, a sign and digits. A number that no `int` holds is undefined.
pub int_value : Sign → ℕ → Process ℕ
int_value plus n = if ltb n (2 ^ 31) then returns n else undefined
int_value minus n = if leb n (2 ^ 31) then returns ((2 ^ 32 - n) % 2 ^ 32) else undefined

unfoldable pub digits_value : ℕ → Bytes → ℕ
digits_value n [] = n
digits_value n (c ∷ s) = if is_digit c then digits_value (n * 10 + (c - b'0')) s else n

pub signed_value : Bytes → Process ℕ
unfolding int_value digits_value
signed_value [] = int_value plus 0
signed_value (c ∷ s) =
    if c == b'-'
    then int_value minus (digits_value 0 s)
    else if c == b'+'
    then int_value plus (digits_value 0 s)
    else int_value plus (digits_value 0 (c ∷ s))

unfoldable pub atoi : Bytes → Process ℕ
unfolding signed_value
atoi [] = signed_value []
atoi (c ∷ s) = if is_space c then atoi s else signed_value (c ∷ s)

-- The loop over the options, with `debug_mode`.
unfoldable pub read_options : Settings → Bool → List Opt → Process (Settings × Bool)
unfolding atoi
read_options s debug_mode [] = returns (s, debug_mode)
read_options s debug_mode (mode_p ∷ opts) = read_options (record s { mode = b'p' }) debug_mode opts
read_options s debug_mode (port_arg optarg ∷ opts) = do
  port ← atoi optarg
  read_options (record s { port = port }) debug_mode opts
read_options s debug_mode (mode_t ∷ opts) = read_options (record s { mode = b't' }) debug_mode opts
read_options s debug_mode (debug ∷ opts) = read_options s true opts
read_options s debug_mode (other ∷ opts) = exits 20

-- `arr[i] = v`, which is undefined behind the end of the array.
unfoldable pub write_at : Bytes → ℕ → ℕ → Process Bytes
write_at arr i v = if ltb i (length arr) then returns (set arr i v) else undefined

-- An array of `n` bytes that `calloc` cleared, with a string written to its front.
abbrev pub filled : ℕ → Bytes → Bytes
filled n s = s ++ replicate (n - length s) 0

abbrev pub homedir_size : ℕ
homedir_size = 4096

abbrev pub hostname_size : ℕ
hostname_size = 256

-- The slash behind the working directory.
pub default_homedir : Bytes → Process Bytes
unfolding write_at
default_homedir cwd = do
  let arr = filled homedir_size cwd
  slashed ← write_at arr (strlen arr) b'/'
  write_at slashed (strlen slashed + 1) 0

-- The name of the host, or "localhost" where `gethostname` fails and leaves the array as it is.
unfoldable pub default_hostname : Option Bytes → Bytes
default_hostname none = filled hostname_size (codes "localhost")
default_hostname (some name) = filled hostname_size name

abbrev pub default_server_port : ℕ
default_server_port = 7070

-- `settings` in front of sacagawea.conf. The descriptor is 0, as `calloc` leaves it.
pub default_settings : Bytes → Option Bytes → Process Settings
unfolding default_homedir default_hostname
default_settings cwd host = do
  homedir ← default_homedir cwd
  returns (record {
    port = default_server_port;
    socket = 0;
    mode = b't';
    homedir = homedir;
    hostname = default_hostname host;
  })

-- What `main` knows when it has read the file and the options.
unfoldable pub start_settings :
    (Bytes → Bool) → ConfFile → Bytes → Option Bytes → List Opt → Process (Settings × Bool)
unfolding default_settings read_options
start_settings opendir file cwd host opts = do
  s ← default_settings cwd host
  (t, _) ← read_and_check_conf opendir file s false
  read_options t false opts
