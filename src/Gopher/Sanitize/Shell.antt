-- ===== src/Gopher/Sanitize/Shell.antt =====
-- How a POSIX shell reads a simple command: quoting and field splitting, with an input refused
-- (`none`) where an unquoted byte would start an operator, an expansion or a comment. The command
-- that `type_path` hands to `popen` is read by these rules.
use sacagawea.Common.{
  Bool, ◌||◌, true, false, List, [], ◌∷◌, ◌++◌, append-nil, append_assoc, Option, none, some, ◌≡◌,
  ℕ, ◌∙◌, arith, ◌==◌, Bytes, codes,
}
use sacagawea.Gopher.Sanitize.{
  quote, backslash, sanitize_byte, sanitize_loop, sanitize_path, command,
}

data Mode : Type 0 where
  unquoted quoted escaped : Mode

is_blank : ℕ → Bool
is_blank c = c == b' ' || c == b'\t'

-- The bytes that mean something to the shell outside quotes.
is_special : ℕ → Bool
is_special c =
    c == b'|'
    || c == b'&'
    || c == b';'
    || c == b'<'
    || c == b'>'
    || c == b'('
    || c == b')'
    || c == b'$'
    || c == b'`'
    || c == b'"'
    || c == b'*'
    || c == b'?'
    || c == b'['
    || c == b'#'
    || c == b'~'
    || c == b'='
    || c == b'%'
    || c == b'!'
    || c == b'{'
    || c == b'}'
    || c == b'\n'

-- The words so far with the current one, if there is one.
abbrev close_word : Option Bytes → List Bytes → List Bytes
close_word none words = words
close_word (some w) words = words ++ w ∷ []

abbrev open_word : Option Bytes → Bytes
open_word none = []
open_word (some w) = w

abbrev push : Option Bytes → ℕ → Option Bytes
push word c = some (open_word word ++ c ∷ [])

read_words : Mode → Option Bytes → List Bytes → Bytes → Option (List Bytes)
unfolding is_blank is_special
read_words unquoted word words [] = some (close_word word words)
read_words quoted word words [] = none
read_words escaped word words [] = none
read_words quoted word words (c ∷ s) = elim (c == quote) [
  | true ↦ read_words unquoted word words s
  | false ↦ read_words quoted (push word c) words s
]
read_words escaped word words (c ∷ s) = elim (c == b'\n') [
  | true ↦ read_words unquoted word words s
  | false ↦ read_words unquoted (push word c) words s
]
read_words unquoted word words (c ∷ s) = elim (is_blank c) [
  | true ↦ read_words unquoted none (close_word word words) s
  | false ↦ elim (c == quote) [
    | true ↦ read_words quoted (some (open_word word)) words s
    | false ↦ elim (c == backslash) [
      | true ↦ read_words escaped word words s
      | false ↦ elim (is_special c) [
        | true ↦ none
        | false ↦ read_words unquoted (push word c) words s
      ]
    ]
  ]
]

pub shell_words : Bytes → Option (List Bytes)
unfolding read_words
shell_words s = read_words unquoted none [] s

-- Inside quotes, one byte of the path comes back from what the loop writes for it.
read_words-sanitize_byte :
    (c : ℕ) (w : Bytes) (words : List Bytes) (rest : Bytes)
    → read_words quoted (some w) words (sanitize_byte c ++ rest)
      ≡ read_words quoted (some (w ++ c ∷ [])) words rest
unfolding read_words
read_words-sanitize_byte c w words rest = ground arith

-- The loop without its accumulator.
sanitized : Bytes → Bytes
sanitized [] = []
sanitized (c ∷ s) = sanitize_byte c ++ sanitized s

sanitize_loop-sanitized : (s ret : Bytes) → sanitize_loop s ret ≡ ret ++ sanitized s
unfolding sanitize_loop sanitized
sanitize_loop-sanitized [] ret = rw append-nil
sanitize_loop-sanitized (c ∷ s) ret =
    sanitize_loop-sanitized s (ret ++ sanitize_byte c)
    ∙ append_assoc ret (sanitize_byte c) (sanitized s)

read_words-sanitized :
    (s w : Bytes) (words : List Bytes) (rest : Bytes)
    → read_words quoted (some w) words (sanitized s ++ rest)
      ≡ read_words quoted (some (w ++ s)) words rest
unfolding sanitized
read_words-sanitized [] w words rest = rw append-nil
read_words-sanitized (c ∷ s) w words rest = rw (append_assoc (sanitize_byte c) (sanitized s) rest) (
    read_words-sanitize_byte c w words (sanitized s ++ rest)
    ∙ read_words-sanitized s (w ++ c ∷ []) words rest
    ∙ rw append_assoc)

-- Whatever bytes a path holds, the shell reads the command that `type_path` builds as the program
-- `file` with two arguments, `-bi` and that very path: no byte of a path is run or expanded.
pub shell_words-command :
    (path : Bytes) → shell_words (command path) ≡ some (codes "file" ∷ codes "-bi" ∷ path ∷ [])
unfolding shell_words command sanitize_path
shell_words-command path =
    rw (sanitize_loop-sanitized path [])
      (read_words-sanitized path [] (codes "file" ∷ codes "-bi" ∷ []) (quote ∷ []))
