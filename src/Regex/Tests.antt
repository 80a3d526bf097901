-- ===== src/Regex/Tests.antt =====
-- Runs of the four patterns.

use sacagawea.Common.{[], refl, ◌≡◌, codes}
use sacagawea.Regex.{hostname_pattern, port_pattern, mode_pattern, do_regex}

mode_of_word : do_regex mode_pattern (codes "mode  tcp") ≡ codes "t"
unfolding do_regex
mode_of_word = refl

port_digits : do_regex port_pattern (codes "port 123456") ≡ codes "12345"
unfolding do_regex
port_digits = refl

-- The last space is given back to the group, which must not be empty.
blank_hostname : do_regex hostname_pattern (codes "hostname   ") ≡ codes " "
unfolding do_regex
blank_hostname = refl

no_space : do_regex port_pattern (codes "port=80") ≡ []
unfolding do_regex
no_space = refl
