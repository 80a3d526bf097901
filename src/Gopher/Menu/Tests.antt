-- ===== src/Gopher/Menu/Tests.antt =====
-- Runs of `send_content_of_dir`, and its theorems at a concrete directory.
use sacagawea.Gopher.Menu.Client.{send_content_of_dir-parse_menu, items_of, parse_menu}
use sacagawea.Gopher.Menu.Lines.{visible}
use sacagawea.Common.{
  arith, refl, decimal, ◌≡◌, [], some, ◌∷◌, ℕ, returns, str_eq, List, Bytes, codes,
}
use sacagawea.Gopher.Menu.{print_int, response_line, Menu, send_content_of_dir}

abbrev docs : Menu
docs = record {
  path_file = codes "/srv/docs";
  before_path = 0;
  selector = codes "docs";
  before_selector = 0;
  hostname = codes "home";
  port = 7070;
}

abbrev text_type : Bytes → ℕ
text_type path = b'0'

abbrev names : List Bytes
names = codes "." ∷ codes "a.txt" ∷ codes ".." ∷ []

run_docs :
    send_content_of_dir (λ path. returns (text_type path)) docs (some names)
    ≡ returns (some (codes "0a.txt\tdocs/a.txt\thome\t7070\r\n.\r\n"))
unfolding send_content_of_dir str_eq response_line print_int decimal
run_docs = refl

shown : visible names ≡ codes "a.txt" ∷ []
unfolding str_eq
shown = refl

-- The byte in front of an empty request decides whether the selectors begin with a slash.
root_selector :
    send_content_of_dir
      (λ path. returns (text_type path))
      (record docs { selector = []; before_selector = b'/' })
      (some names)
    ≡ returns (some (codes "0a.txt\ta.txt\thome\t7070\r\n.\r\n"))
unfolding send_content_of_dir str_eq response_line print_int decimal
root_selector = refl

only_dots : visible (codes "." ∷ codes ".." ∷ []) ≡ []
unfolding str_eq
only_dots = refl

send_content_of_dir-parse_menu_example :
    (menu : Bytes) × (send_content_of_dir (λ path. returns (text_type path)) docs (some names)
      ≡ returns (some menu))
    × (parse_menu 2 menu ≡ some (items_of text_type docs (codes "a.txt" ∷ [])))
send_content_of_dir-parse_menu_example =
    send_content_of_dir-parse_menu (λ path. returns (text_type path)) text_type docs names
      (codes "a.txt") [] (λ path. refl)
      (record { selector_plain = omega arith; hostname_plain = omega arith; port_lt = omega arith })
      (λ path. omega arith) shown (omega arith)
