-- ===== src/Regex.antt =====
-- `do_regex` of src/sacagalib/config.c. The program's patterns are all "^KEY[[:space:]]+(CLASS{1,n})",
-- and `regexec` finds the leftmost longest match, in which the spaces take all they can: so the
-- spaces are tried from the longest run down. No match is the empty string.
pub mod Matches
mod Tests
use sacagawea.Common.{
  ltb, some, none, Option, length, zero, ◌&&◌, not, leb, drop, suc, ◌||◌, ◌==◌, if◌then◌else◌, [],
  Bool, codes, starts_with, ◌∷◌, ℕ, Bytes,
}

pub record Pattern : Type 0 where
  pub key : Bytes
  pub in_class : ℕ → Bool
  pub most : ℕ

-- The class `[[:space:]]` of the C locale.
abbrev pub is_space : ℕ → Bool
is_space c = c == b' ' || (leb 9 c && leb c 13)

-- The group: as many bytes of the class as stand at the front, `n` at most.
abbrev pub capture : (ℕ → Bool) → ℕ → Bytes → Bytes
capture in_class zero s = []
capture in_class (suc n) [] = []
capture in_class (suc n) (c ∷ s) = if in_class c then c ∷ capture in_class n s else []

abbrev pub or_else : Bytes → Bytes → Bytes
or_else [] other = other
or_else (c ∷ s) other = c ∷ s

-- Behind at least one space.
abbrev pub behind_spaces : Pattern → Bytes → Bytes
behind_spaces p [] = []
behind_spaces p (c ∷ s) =
    or_else (if is_space c then behind_spaces p s else []) (capture p.in_class p.most (c ∷ s))

abbrev pub behind_key : Pattern → Bytes → Bytes
behind_key p [] = []
behind_key p (c ∷ s) = if is_space c then behind_spaces p s else []

unfoldable pub do_regex : Pattern → Bytes → Bytes
unfolding starts_with
do_regex p str = if starts_with p.key str then behind_key p (drop (length p.key) str) else []

-- On Windows, where `pcre2_match` finds `group` for the group of the pattern, or no match. What is too
-- long for the 256 bytes of the copy is left out by `pcre2_substring_copy_bynumber`.
unfoldable pub do_regex_win32 : (Pattern → Bytes → Option Bytes) → Pattern → Bytes → Bytes
do_regex_win32 group p str = elim (group p str) [
  | none ↦ []
  | some m ↦ if ltb (length m) 256 then m else []
]

abbrev pub is_digit : ℕ → Bool
is_digit c = leb b'0' c && leb c b'9'

abbrev pub mode_pattern : Pattern
mode_pattern = record { key = codes "mode"; in_class = λ c. c == b't' || c == b'p'; most = 1 }

abbrev pub not_line_end : ℕ → Bool
not_line_end c = not (c == b'\n' || c == b'\r')

abbrev pub homedir_pattern : Pattern
homedir_pattern = record { key = codes "home-directory"; in_class = not_line_end; most = 259 }

abbrev pub hostname_pattern : Pattern
hostname_pattern = record { key = codes "hostname"; in_class = not_line_end; most = 255 }

abbrev pub port_pattern : Pattern
port_pattern = record { key = codes "port"; in_class = is_digit; most = 5 }
