-- ===== src/Gopher/Menu.antt =====
-- `send_content_of_dir` of src/sacagalib/gopher.c: the menu of a directory. The names that `readdir`
-- gives, the type of each file and the byte in front of each string in memory are parameters.
pub mod Lines
pub mod Client
mod Tests
use sacagawea.Common.{
  false, [], true, ◌>>=◌, not, ◌||◌, decimal, returns, none, ◌∷◌, length, ◌==◌, codes, ◌^◌, ◌-◌,
  undefined, List, some, ◌++◌, ◌+◌, last_or, Bool, ltb, take, Process, Option, if◌then◌else◌,
  str_eq, ℕ, Bytes,
}

-- What the function reads of `client_info`: the directory, the host name and the port; and the
-- request. `before_path` and `before_selector` are the bytes that `s[strlen(s) - 1]` reads of an
-- empty string.
pub record Menu : Type 0 where
  pub path_file : Bytes
  pub before_path : ℕ
  pub selector : Bytes
  pub before_selector : ℕ
  pub hostname : Bytes
  pub port : ℕ

-- `snprintf` into `n` bytes: what fits in front of the NUL.
abbrev pub snprintf : ℕ → Bytes → Bytes
snprintf n s = take (n - 1) s

-- `%d` of an `int`, given by its bit pattern.
unfoldable pub print_int : ℕ → Bytes
print_int n = if ltb n (2 ^ 31) then decimal n else b'-' ∷ decimal (2 ^ 32 - n)

is_dots : Bytes → Bool
unfolding str_eq
is_dots name = str_eq name (codes "..") || str_eq name (codes ".")

path_of_subfile : Menu → Bytes → Bytes
path_of_subfile m name =
    if last_or m.before_path m.path_file == b'/'
    then snprintf (length m.path_file + length name + 1) (m.path_file ++ name)
    else snprintf (length m.path_file + length name + 2) (m.path_file ++ (b'/' ∷ name))

-- The size that is computed for one line of the menu.
len_responce : Menu → Bytes → ℕ
len_responce m name =
    2
    + (length name + 1)
    + (length m.selector + length name + 2)
    + (length m.hostname + 1)
    + length (snprintf 6 (print_int m.port))
    + 3

-- The text of one line, before `snprintf` cuts it to the size.
line_text : Menu → ℕ → Bytes → Bytes
line_text m type name =
    let tail = name ++ (b'\t' ∷ (m.hostname ++ (b'\t' ∷ (print_int m.port ++ codes "\r\n")))) in
    if not (last_or m.before_selector m.selector == b'/')
    then type ∷ (name ++ (b'\t' ∷ (m.selector ++ (b'/' ∷ tail))))
    else type ∷ (name ++ (b'\t' ∷ (m.selector ++ tail)))

response_line : Menu → ℕ → Bytes → Bytes
unfolding len_responce line_text
response_line m type name = snprintf (len_responce m name) (line_text m type name)

-- `response` is NULL before the first line.
append_line : Option Bytes → Bytes → Option Bytes
append_line none line = some line
append_line (some response) line = some (response ++ line)

menu_loop : (Bytes → Process ℕ) → Menu → List Bytes → Option Bytes → Process (Option Bytes)
unfolding is_dots path_of_subfile append_line
menu_loop type_of m [] response = returns response
menu_loop type_of m (name ∷ names) response = elim (is_dots name) [
  | true ↦ menu_loop type_of m names response
  | false ↦ type_of (path_of_subfile m name) >>= λ type.
      menu_loop type_of m names (append_line response (response_line m type name))
]

-- `strlen(response)` of NULL is undefined.
finish : Option Bytes → Process (Option Bytes)
finish none = undefined
finish (some response) = returns (some (response ++ codes ".\r\n"))

-- What is handed to `send`, if the directory can be opened.
pub send_content_of_dir : (Bytes → Process ℕ) → Menu → Option (List Bytes) → Process (Option Bytes)
unfolding menu_loop finish
send_content_of_dir type_of m none = returns none
send_content_of_dir type_of m (some names) = do
  response ← menu_loop type_of m names none
  finish response
