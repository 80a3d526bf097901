-- ===== src/Gopher/Sanitize.antt =====
-- `sanitize_path` of src/sacagalib/gopher.c and the command line that `type_path` builds from it.
-- `ret` is what the loop has written so far, so `ret_index` is its length.
pub mod Shell
mod Tests
use sacagawea.Common.{
  ℕ, ◌+◌, ◌*◌, [], ◌∷◌, ◌++◌, ◌≡◌, arith, ◌==◌, if◌then◌else◌, length, length-append, Bytes, codes,
}

abbrev pub quote : ℕ
quote = b'\''

abbrev pub backslash : ℕ
backslash = b'\\'

-- The first loop: how many quotes the input holds.
pub count_quotes : Bytes → ℕ
count_quotes [] = 0
count_quotes (c ∷ s) = (if c == quote then 1 else 0) + count_quotes s

-- What one round of the second loop writes.
abbrev pub sanitize_byte : ℕ → Bytes
sanitize_byte c = if c == quote then quote ∷ backslash ∷ quote ∷ quote ∷ [] else c ∷ []

pub sanitize_loop : Bytes → Bytes → Bytes
sanitize_loop [] ret = ret
sanitize_loop (c ∷ input) ret = sanitize_loop input (ret ++ sanitize_byte c)

pub sanitize_path : Bytes → Bytes
unfolding sanitize_loop
sanitize_path input = sanitize_loop input []

-- The number of bytes that `calloc` is asked for.
pub sanitize_size : Bytes → ℕ
unfolding count_quotes
sanitize_size input = length input + count_quotes input * 3 + 1

-- The array `command` of `type_path`: its size, and what `strcpy` and `strcat` put there.
pub command_size : Bytes → ℕ
command_size sanitized = length sanitized + 12

pub command : Bytes → Bytes
command path = codes "file -bi '" ++ (sanitize_path path ++ codes "'")

length-sanitize_loop :
    (input ret : Bytes)
    → length (sanitize_loop input ret) ≡ length ret + length input + count_quotes input * 3
unfolding sanitize_loop count_quotes
length-sanitize_loop [] ret = omega arith
length-sanitize_loop (c ∷ input) ret = ground (
  arith,
  length-sanitize_loop input (ret ++ sanitize_byte c),
  length-append ret (sanitize_byte c),
)

-- The quoted path with its NUL fills the allocation exactly, so the loop writes in bounds; and the
-- command with its NUL fills the array `command` exactly.
pub sanitize_path_fits :
    (path : Bytes)
    → (length (sanitize_path path) + 1 ≡ sanitize_size path)
      × (length (command path) + 1 ≡ command_size (sanitize_path path))
unfolding sanitize_path sanitize_size command command_size
sanitize_path_fits path = (
  omega (arith, length-sanitize_loop path []),
  omega (arith, length-append (sanitize_path path) (codes "'")),
)
