-- ===== src/Start/Options/Validity.antt =====
-- What the options make of the settings of sacagawea.conf.
use sacagawea.Common.{
  inl, false, inr, >>=-eq-returns, ◌<◌, arith, true, returns, [], ◌≡◌, ◌∷◌, Option, List, Bool, ℕ,
  Bytes, Process, refl,
}
use sacagawea.Config.{linux, Settings, ConfFile, read_and_check_conf}
use sacagawea.Config.Ports.{IsValid, read_conf_file-IsValid}
use sacagawea.Start.Options.{
  default_homedir, mode_t, other, debug, mode_p, port_arg, Opt, atoi, read_options, start_settings,
  default_settings,
}

-- The mode that the last option for it sets.
abbrev pub last_mode : ℕ → List Opt → ℕ
last_mode m [] = m
last_mode m (mode_p ∷ opts) = last_mode b'p' opts
last_mode m (mode_t ∷ opts) = last_mode b't' opts
last_mode m (_ ∷ opts) = last_mode m opts

-- The port, if it is what the last -P names, or what was set before where there is none.
abbrev pub PortOf : Process ℕ → ℕ → List Opt → Type 0
PortOf before port [] = before ≡ returns port
PortOf before port (port_arg optarg ∷ opts) = PortOf (atoi optarg) port opts
PortOf before port (_ ∷ opts) = PortOf before port opts

abbrev pub has_debug : Bool → List Opt → Bool
has_debug d [] = d
has_debug d (debug ∷ opts) = has_debug true opts
has_debug d (_ ∷ opts) = has_debug d opts

abbrev pub NoOther : List Opt → Type 0
NoOther [] = Unit
NoOther (other ∷ opts) = ⊥
NoOther (_ ∷ opts) = NoOther opts

-- The options override what the file set, the last one of each kind counts, nothing else changes, and
-- an option that is not known never gets through.
pub read_options_overrides :
    (s : Settings) (d : Bool) (opts : List Opt) {t : Settings} {e : Bool}
    → read_options s d opts ≡ returns (t, e)
    → (t.mode ≡ last_mode s.mode opts)
      × PortOf (returns s.port) t.port opts
      × (e ≡ has_debug d opts)
      × (t.homedir ≡ s.homedir)
      × (t.hostname ≡ s.hostname)
      × (t.socket ≡ s.socket)
      × NoOther opts
unfolding read_options
read_options_overrides s d [] h = ground arith
read_options_overrides s d (mode_p ∷ opts) h =
    read_options_overrides (record s { mode = b'p' }) d opts h
read_options_overrides s d (mode_t ∷ opts) h =
    read_options_overrides (record s { mode = b't' }) d opts h
read_options_overrides s d (debug ∷ opts) h = read_options_overrides s true opts h
read_options_overrides s d (other ∷ opts) h = cc
read_options_overrides s d (port_arg optarg ∷ opts) {t} h =
    let (port, value_is, rest) = >>=-eq-returns (atoi optarg) _ h in
    let (mode, named, flag, home, host, sock, known) =
      read_options_overrides (record s { port = port }) d opts rest in
    (mode, rw value_is named, flag, home, host, sock, known)

-- The argument of every -P is a port.
abbrev pub GoodPorts : List Opt → Type 0
GoodPorts [] = Unit
GoodPorts (port_arg optarg ∷ opts) =
    ((n : ℕ) × (atoi optarg ≡ returns n) × (0 < n) × (n < 65536)) × GoodPorts opts
GoodPorts (_ ∷ opts) = GoodPorts opts

pub read_options-IsValid :
    (s : Settings) (d : Bool) (opts : List Opt) {t : Settings} {e : Bool}
    → IsValid s
    → GoodPorts opts
    → read_options s d opts ≡ returns (t, e)
    → IsValid t
unfolding read_options
read_options-IsValid s d [] v g h = ground (arith, v.mode_known)
read_options-IsValid s d (mode_p ∷ opts) v g h =
    read_options-IsValid (record s { mode = b'p' }) d opts
      (record { port_pos = v.port_pos; port_lt = v.port_lt; mode_known = inr refl }) g h
read_options-IsValid s d (mode_t ∷ opts) v g h =
    read_options-IsValid (record s { mode = b't' }) d opts
      (record { port_pos = v.port_pos; port_lt = v.port_lt; mode_known = inl refl }) g h
read_options-IsValid s d (debug ∷ opts) v g h = read_options-IsValid s true opts v g h
read_options-IsValid s d (other ∷ opts) v g h = cc
read_options-IsValid s d (port_arg optarg ∷ opts) v ((n, is, pos, lt), g) h =
    read_options-IsValid (record s { port = n }) d opts
      (record { port_pos = pos; port_lt = lt; mode_known = v.mode_known }) g (rw is at h)

default_settings-IsValid :
    (cwd : Bytes) (host : Option Bytes) {s : Settings}
    → default_settings cwd host ≡ returns s
    → IsValid s
unfolding default_settings
default_settings-IsValid cwd host h =
    let (homedir, _, e) = >>=-eq-returns (default_homedir cwd) _ h in ground arith

-- However the file and the options are, the server starts with a mode that it knows and a port
-- between 1 and 65535, if every -P names such a port.
pub start_settings-IsValid :
    (opendir : Bytes → Bool) (file : ConfFile) (cwd : Bytes) (host : Option Bytes) (opts : List Opt)
    {t : Settings} {d : Bool}
    → GoodPorts opts
    → start_settings opendir file cwd host opts ≡ returns (t, d)
    → IsValid t
unfolding start_settings
start_settings-IsValid opendir file cwd host opts good h =
    let (s, default, rest) = >>=-eq-returns (default_settings cwd host) _ h in
    let ((u, _), read, last) = >>=-eq-returns (read_and_check_conf opendir file s false) _ rest in
    read_options-IsValid u false opts
      (read_conf_file-IsValid linux opendir file s false (default_settings-IsValid cwd host default)
        read)
      good last
