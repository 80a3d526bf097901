-- ===== src/Gopher/Menu/Client.antt =====
-- A gopher client that reads a menu, by the protocol as doc/Gopher.md describes it: one line for each
-- item, its fields separated by tabs, and a line with a single dot at the end.
use sacagawea.Common.{
  All-append, returns, Process, append_assoc, refl, inr, ◌%◌, false, zero, inl, ◌+◌, true, codes,
  last_or, ◌/◌, ◌==◌, length, Bool-cases, [], arith, ◌≡◌, suc, if◌then◌else◌, ◌≢◌, ◌<◌, ◌∷◌,
  decimal, digits, ◌++◌, All, none, some, List, Bytes, Option, ℕ,
}
use sacagawea.Gopher.Menu.Lines.{
  send_content_of_dir_lines, visible, item_path, menu_lines, item_selector,
}
use sacagawea.Gopher.Menu.{send_content_of_dir, print_int, Menu}

pub record Item : Type 0 where
  pub type : ℕ
  pub name : Bytes
  pub selector : Bytes
  pub host : Bytes
  pub port : Bytes

infixl 5 ◌>>=?◌
abbrev ◌>>=?◌ : {A B : Type 0} → Option A → (A → Option B) → Option B
none >>=? f = none
some a >>=? f = f a

-- The text in front of the next `d`, which stands in the same line, and the one behind it.
until : ℕ → Bytes → Option (Bytes × Bytes)
until d [] = none
until d (c ∷ s) =
    let more = until d s >>=? λ (a, rest). some (c ∷ a, rest) in
    if c == d then some ([], s) else if c == b'\n' then none else more

-- Behind "\r" there must be "\n".
newline : Bytes → Option Bytes
newline [] = none
newline (c ∷ s) = if c == b'\n' then some s else none

parse_item : ℕ → Bytes → Option (Item × Bytes)
unfolding until newline
parse_item type s = until b'\t' s >>=? λ (name, s1). until b'\t' s1 >>=? λ (selector, s2).
    until b'\t' s2 >>=? λ (host, s3). until b'\r' s3 >>=? λ (port, s4). newline s4 >>=? λ rest.
    some (record { type = type; name = name; selector = selector; host = host; port = port }, rest)

-- `fuel` bounds the number of lines.
pub parse_menu : ℕ → Bytes → Option (List Item)
unfolding parse_item
parse_menu zero s = none
parse_menu (suc fuel) [] = none
parse_menu (suc fuel) (c ∷ s) = elim (c == b'.') [
  | true ↦ some []
  | false ↦
      parse_item c s >>=? λ (item, rest). parse_menu fuel rest >>=? λ items. some (item ∷ items)
]

-- Neither `d` nor a newline.
abbrev pub Lacks : ℕ → Bytes → Type 0
Lacks d = All (λ c. (c ≢ d) × (c ≢ b'\n'))

until-Lacks : (d : ℕ) (a s : Bytes) → Lacks d a → until d (a ++ (d ∷ s)) ≡ some (a, s)
unfolding until
until-Lacks d [] s h = ground arith
until-Lacks d (c ∷ a) s h = ground (arith, until-Lacks d a s h.1)

digits-Lacks : (f n : ℕ) (out : Bytes) → Lacks b'\r' out → Lacks b'\r' (digits f n out)
digits-Lacks zero n out h = h
digits-Lacks (suc f) n out h = ground (arith, digits-Lacks f (n / 10) ((b'0' + n % 10) ∷ out))

print_int-Lacks : (n : ℕ) → n < 100000 → Lacks b'\r' (print_int n)
unfolding print_int decimal
print_int-Lacks n h = ground (arith, digits-Lacks 20 n [])

-- The item that a line stands for.
abbrev pub item_of : Menu → ℕ → Bytes → Item
item_of m type name = record {
  type = type;
  name = name;
  selector = item_selector m name;
  host = m.hostname;
  port = print_int m.port;
}

abbrev pub items_of : (Bytes → ℕ) → Menu → List Bytes → List Item
items_of type m [] = []
items_of type m (name ∷ names) = item_of m (type (item_path m name)) name ∷ items_of type m names

-- What the protocol needs of the texts: no tab and no newline in them, and a port of five digits.
pub record IsPlain (type : Bytes → ℕ) (m : Menu) : Type 0 where
  pub selector_plain : Lacks b'\t' m.selector
  pub hostname_plain : Lacks b'\t' m.hostname
  pub port_lt : m.port < 100000

module _ (type : Bytes → ℕ) (m : Menu) (plain : IsPlain type m)
    (no_dot : (path : Bytes) → type path ≢ b'.') where
  item_selector-Lacks : (name : Bytes) → Lacks b'\t' name → Lacks b'\t' (item_selector m name)
  item_selector-Lacks name h = elim (Bool-cases (last_or m.before_selector m.selector == b'/')) [
    | inl slash ↦ rw slash (All-append _ m.selector name plain.selector_plain h)
    | inr bare ↦
        rw bare (
          All-append _ m.selector (b'/' ∷ name) plain.selector_plain
            ((omega arith, omega arith), h))
  ]

  parse_item-menu_line :
      (t : ℕ) (name rest : Bytes)
      → Lacks b'\t' name
      → parse_item t (
          name
          ++ (b'\t'
              ∷ (item_selector m name
                  ++ (b'\t'
                      ∷ (m.hostname ++ (b'\t' ∷ (print_int m.port ++ (b'\r' ∷ b'\n' ∷ rest))))))))
        ≡ some (item_of m t name, rest)
  unfolding parse_item
  parse_item-menu_line t name rest h = rw (
    until-Lacks b'\t' name _ h,
    until-Lacks b'\t' (item_selector m name) _ (item_selector-Lacks name h),
    until-Lacks b'\t' m.hostname _ plain.hostname_plain,
    until-Lacks b'\r' (print_int m.port) _ (print_int-Lacks m.port plain.port_lt),
  )

  parse_menu-menu_lines :
      (fuel : ℕ) (names : List Bytes)
      → length names < fuel
      → All (Lacks b'\t') names
      → parse_menu fuel (menu_lines type m names ++ codes ".\r\n") ≡ some (items_of type m names)
  unfolding parse_menu
  parse_menu-menu_lines zero names l h = absurd (omega arith)
  parse_menu-menu_lines (suc fuel) [] l h = refl
  parse_menu-menu_lines (suc fuel) (name ∷ names) l h =
      let t = type (item_path m name) in
      let goes_on : (t == b'.') ≡ false = ground (arith, no_dot (item_path m name)) in
      rw (goes_on, parse_menu)
        (simp append_assoc (
          rw (
            parse_item-menu_line t name (menu_lines type m names ++ codes ".\r\n") h.0,
            parse_menu-menu_lines fuel names (omega arith) h.1,
          )))

-- A client that reads the menu of a directory gets back one item for each file that `readdir` gave
-- besides "." and "..", with its type, its name, a selector, and the host and port of the server, if
-- there is such a file, no name, host name or request has a tab or a newline, the port is below 100000,
-- every type can be read, and no file has the type '.'.
pub send_content_of_dir-parse_menu :
    (type_of : Bytes → Process ℕ) (type : Bytes → ℕ) (m : Menu) (names : List Bytes) (n : Bytes)
    (ns : List Bytes)
    → ((path : Bytes) → type_of path ≡ returns (type path))
    → IsPlain type m
    → ((path : Bytes) → type path ≢ b'.')
    → visible names ≡ n ∷ ns
    → All (Lacks b'\t') (n ∷ ns)
    → (menu : Bytes) × (send_content_of_dir type_of m (some names) ≡ returns (some menu))
      × (parse_menu (length (n ∷ ns) + 1) menu ≡ some (items_of type m (n ∷ ns)))
send_content_of_dir-parse_menu type_of type m names n ns typed plain no_dot shown h = (
  menu_lines type m (n ∷ ns) ++ codes ".\r\n",
  send_content_of_dir_lines type_of type typed m plain.port_lt names n ns shown,
  parse_menu-menu_lines type m plain no_dot (length (n ∷ ns) + 1) (n ∷ ns) (omega arith) h,
)
