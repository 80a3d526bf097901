-- ===== src/Security.antt =====
-- `check_security_path` of src/sacagalib/utility.c: the test that refuses a path with "../" or
-- "..\" in it, before the server opens it.
pub mod Walk
pub mod Traversal
mod Tests
use sacagawea.Common.{Bool, ◌||◌, Bytes, codes, contains}

abbrev pub up_slash : Bytes
up_slash = codes "../"

abbrev pub up_backslash : Bytes
up_backslash = codes "..\\"

unfoldable pub check_security_path : Bytes → Bool
check_security_path path = contains up_slash path || contains up_backslash path
