-- ===== src/Gopher/Menu/Lines.antt =====
-- The text of a menu, line by line.
use sacagawea.Common.{
  undefined, ap, ◌∙◌, refl, append-nil, none, some, ◌||◌, returns, str_eq, take_all, [], Process,
  List, decimal, length-append, ◌%◌, ◌/◌, zero, suc, inr, arith, append_assoc, ◌+◌, inl, ◌≤◌, codes,
  digits, ◌==◌, Bool-cases, length, ◌++◌, last_or, ◌≡◌, ◌<◌, ◌∷◌, if◌then◌else◌, ℕ, Bytes,
}
use sacagawea.Gopher.Menu.{
  menu_loop, path_of_subfile, response_line, print_int, line_text, Menu, send_content_of_dir,
}

-- The selector of a file: the request, a slash unless it ends in one, and the name.
abbrev pub item_selector : Menu → Bytes → Bytes
item_selector m name =
    if last_or m.before_selector m.selector == b'/'
    then m.selector ++ name
    else m.selector ++ (b'/' ∷ name)

-- The line that the protocol asks for.
abbrev pub menu_line : Menu → ℕ → Bytes → Bytes
menu_line m type name =
    type
    ∷ (name
        ++ (b'\t'
            ∷ (item_selector m name
                ++ (b'\t' ∷ (m.hostname ++ (b'\t' ∷ (print_int m.port ++ codes "\r\n")))))))

length-digits_1 : (f n : ℕ) (out : Bytes) → n < 10 → length (digits f n out) ≤ length out + 1
length-digits_1 zero n out h = omega arith
length-digits_1 (suc f) n out h = ground arith

pub length-digits_2 : (f n : ℕ) (out : Bytes) → n < 100 → length (digits f n out) ≤ length out + 2
length-digits_2 zero n out h = omega arith
length-digits_2 (suc f) n out h = ground (arith, length-digits_1 f (n / 10) ((b'0' + n % 10) ∷ out))

length-digits_3 : (f n : ℕ) (out : Bytes) → n < 1000 → length (digits f n out) ≤ length out + 3
length-digits_3 zero n out h = omega arith
length-digits_3 (suc f) n out h = ground (arith, length-digits_2 f (n / 10) ((b'0' + n % 10) ∷ out))

pub length-digits_4 : (f n : ℕ) (out : Bytes) → n < 10000 → length (digits f n out) ≤ length out + 4
length-digits_4 zero n out h = omega arith
length-digits_4 (suc f) n out h = ground (arith, length-digits_3 f (n / 10) ((b'0' + n % 10) ∷ out))

length-digits_5 : (f n : ℕ) (out : Bytes) → n < 100000 → length (digits f n out) ≤ length out + 5
length-digits_5 zero n out h = omega arith
length-digits_5 (suc f) n out h = ground (arith, length-digits_4 f (n / 10) ((b'0' + n % 10) ∷ out))

line_text-menu_line :
    (m : Menu) (type : ℕ) (name : Bytes) → line_text m type name ≡ menu_line m type name
unfolding line_text
line_text-menu_line m type name = elim (Bool-cases (last_or m.before_selector m.selector == b'/')) [
  | inl slash ↦ rw slash (rw append_assoc)
  | inr none' ↦ rw none' (rw append_assoc)
]

length-menu_line :
    (m : Menu) (type : ℕ) (name : Bytes)
    → length (menu_line m type name)
      ≤ length m.selector
        + length name
        + length name
        + length m.hostname
        + length (print_int m.port)
        + 7
length-menu_line m type name = elim (Bool-cases (last_or m.before_selector m.selector == b'/')) [
  | inl slash ↦ rw slash (simp length-append (omega arith))
  | inr bare ↦ rw bare (simp length-append (omega arith))
]

pub length-print_int : (n : ℕ) → n < 100000 → length (print_int n) ≤ 5
unfolding print_int decimal
length-print_int n h = ground (arith, length-digits_5 20 n [])

-- With a port of at most five digits, no line is cut.
response_line-menu_line :
    (m : Menu) (type : ℕ) (name : Bytes)
    → m.port < 100000
    → response_line m type name ≡ menu_line m type name
unfolding response_line
response_line-menu_line m type name h =
    let short = length-print_int m.port h in
    rw (line_text-menu_line m type name, take_all 5 (print_int m.port) short)
      (take_all _ (menu_line m type name) (omega (arith, length-menu_line m type name)))

-- The path of a file of the directory, and the names that are listed.
abbrev pub item_path : Menu → Bytes → Bytes
item_path m name =
    if last_or m.before_path m.path_file == b'/'
    then m.path_file ++ name
    else m.path_file ++ (b'/' ∷ name)

path_of_subfile-item_path : (m : Menu) (name : Bytes) → path_of_subfile m name ≡ item_path m name
unfolding path_of_subfile
path_of_subfile-item_path m name = elim (Bool-cases (last_or m.before_path m.path_file == b'/')) [
  | inl slash ↦
      rw slash (take_all _ (m.path_file ++ name) (omega (arith, length-append m.path_file name)))
  | inr bare ↦ rw bare (
      take_all _ (m.path_file ++ (b'/' ∷ name))
        (omega (arith, length-append m.path_file (b'/' ∷ name))))
]

abbrev pub visible : List Bytes → List Bytes
visible [] = []
visible (name ∷ names) =
    if str_eq name (codes "..") || str_eq name (codes ".")
    then visible names
    else name ∷ visible names

abbrev pub menu_lines : (Bytes → ℕ) → Menu → List Bytes → Bytes
menu_lines type m [] = []
menu_lines type m (name ∷ names) =
    menu_line m (type (item_path m name)) name ++ menu_lines type m names

module _ (type_of : Bytes → Process ℕ) (type : Bytes → ℕ)
    (typed : (path : Bytes) → type_of path ≡ returns (type path)) (m : Menu)
    (port_lt : m.port < 100000) where
  menu_loop-some :
      (names : List Bytes) (r : Bytes)
      → menu_loop type_of m names (some r) ≡ returns (some (r ++ menu_lines type m (visible names)))
  unfolding menu_loop
  menu_loop-some [] r = rw append-nil
  menu_loop-some (name ∷ names) r =
      elim (Bool-cases (str_eq name (codes "..") || str_eq name (codes "."))) [
        | inl dots ↦ rw (dots, menu_loop) (menu_loop-some names r)
        | inr file ↦
            rw
              (
                file,
                menu_loop,
                typed (path_of_subfile m name),
                response_line-menu_line m (type (path_of_subfile m name)) name port_lt,
                path_of_subfile-item_path m name,
              )
              (menu_loop-some names (r ++ menu_line m (type (item_path m name)) name)
                ∙ ap (λ (b : Bytes). returns (some b))
                    (append_assoc r (menu_line m (type (item_path m name)) name)
                      (menu_lines type m (visible names))))
      ]

  menu_loop-none :
      (names : List Bytes)
      → menu_loop type_of m names none
        ≡ returns (elim (visible names) [ [] ↦ none | n ∷ ns ↦ some (menu_lines type m (n ∷ ns)) ])
  unfolding menu_loop
  menu_loop-none [] = refl
  menu_loop-none (name ∷ names) =
      elim (Bool-cases (str_eq name (codes "..") || str_eq name (codes "."))) [
        | inl dots ↦ rw (dots, menu_loop) (menu_loop-none names)
        | inr file ↦
            rw
              (
                file,
                menu_loop,
                typed (path_of_subfile m name),
                response_line-menu_line m (type (path_of_subfile m name)) name port_lt,
                path_of_subfile-item_path m name,
              )
              (menu_loop-some names (menu_line m (type (item_path m name)) name))
      ]

  -- A directory with a file besides "." and ".." is answered by one whole line for each such file, in
  -- the order of `readdir`, and the closing ".". No line is cut, if the port has five digits at most.
  pub send_content_of_dir_lines :
      (names : List Bytes) (n : Bytes) (ns : List Bytes)
      → visible names ≡ n ∷ ns
      → send_content_of_dir type_of m (some names)
        ≡ returns (some (menu_lines type m (n ∷ ns) ++ codes ".\r\n"))
  unfolding send_content_of_dir
  send_content_of_dir_lines names n ns e = rw (menu_loop-none names, e)

-- A directory with no file besides "." and ".." is never answered: the length of a string that was
-- never allocated is taken, whatever the types of files would be.
pub send_content_of_dir_empty :
    (type_of : Bytes → Process ℕ) (m : Menu) (names : List Bytes)
    → visible names ≡ []
    → send_content_of_dir type_of m (some names) ≡ undefined
unfolding send_content_of_dir
send_content_of_dir_empty type_of m names e = rw (loop names e)
  where
    loop : (ns : List Bytes) → visible ns ≡ [] → menu_loop type_of m ns none ≡ returns none
    loop [] h = refl
    loop (name ∷ ns) h = elim (Bool-cases (str_eq name (codes "..") || str_eq name (codes "."))) [
      | inl dots ↦ rw (dots, menu_loop) (loop ns (rw dots at h))
      | inr file ↦ cc (rw file at h)
    ]
