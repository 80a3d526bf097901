-- ===== src/Start/Options/Tests.antt =====
-- Runs of the options, and their theorems at concrete command lines.
use sacagawea.Common.{◌-◌, ◌^◌, true, exits, returns, ◌≡◌, false, codes, List, ◌∷◌, [], refl}
use sacagawea.Config.{Settings}
use sacagawea.Start.Options.{Opt, atoi, read_options, filled, mode_p, debug, port_arg, other}
use sacagawea.Start.Options.Validity.{last_mode, PortOf, has_debug, NoOther, read_options_overrides}

abbrev opts : List Opt
opts = mode_p ∷ port_arg (codes " +80x") ∷ debug ∷ port_arg (codes "8080") ∷ []

abbrev conf_settings : Settings
conf_settings = record {
  port = 1234;
  socket = 0;
  mode = b't';
  homedir = filled 8 (codes "/srv/");
  hostname = filled 8 (codes "host");
}

abbrev final_settings : Settings
final_settings = record conf_settings { port = 8080; mode = b'p' }

run_options : read_options conf_settings false opts ≡ returns (final_settings, true)
unfolding read_options
run_options = refl

-- No check stands behind `atoi`.
run_bad_port :
    read_options conf_settings false (port_arg (codes "99999") ∷ [])
    ≡ returns (record conf_settings { port = 99999 }, false)
unfolding read_options
run_bad_port = refl

run_negative : atoi (codes " -1") ≡ returns (2 ^ 32 - 1)
unfolding atoi
run_negative = refl

run_unknown : read_options conf_settings false (other ∷ []) ≡ exits 20
unfolding read_options
run_unknown = refl

read_options_overrides_example :
    (final_settings.mode ≡ last_mode conf_settings.mode opts)
    × PortOf (returns conf_settings.port) final_settings.port opts
    × (true ≡ has_debug false opts)
    × (final_settings.homedir ≡ conf_settings.homedir)
    × (final_settings.hostname ≡ conf_settings.hostname)
    × (final_settings.socket ≡ conf_settings.socket)
    × NoOther opts
read_options_overrides_example = read_options_overrides conf_settings false opts run_options
