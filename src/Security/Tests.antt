-- ===== src/Security/Tests.antt =====
-- Runs of the path check, and its theorems at concrete requests.
use sacagawea.Security.Traversal.{check_security_path_gap, check_security_path_inside}
use sacagawea.Security.Walk.{slash, any_slash, components, walk}
use sacagawea.Common.{refl, some, false, true, ℕ, ◌≡◌, str_eq, codes, contains}
use sacagawea.Security.{check_security_path}

refuses_climb : check_security_path (codes "/srv/docs/../../etc/passwd") ≡ true
unfolding check_security_path contains
refuses_climb = refl

check_security_path_inside_example :
    (depth : ℕ) × (walk 0 (components any_slash (codes "docs\\a.txt")) ≡ some depth)
unfolding check_security_path contains str_eq
check_security_path_inside_example =
    check_security_path_inside true (codes "C:\\srv\\") (codes "docs\\a.txt") refl (cc)

srv_depth : walk 0 (components slash (codes "/srv")) ≡ some 1
unfolding str_eq
srv_depth = refl

check_security_path_gap_example :
    (check_security_path (codes "/srv/..") ≡ false)
    × (walk 0 (components slash (codes "/srv/..")) ≡ some 0)
unfolding check_security_path contains
check_security_path_gap_example = check_security_path_gap (codes "/srv") 0 refl srv_depth
