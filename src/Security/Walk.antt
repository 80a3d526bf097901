-- ===== src/Security/Walk.antt =====
-- What a path means to the file system, lexically: its components, and how deep below the
-- directory it starts from it stands, if it never leaves that directory.
use sacagawea.Common.{
  Bool, ◌||◌, zero, ℕ, suc, List, [], ◌∷◌, ◌++◌, Option, none, some, ◌==◌, if◌then◌else◌, Bytes,
  codes, str_eq,
}

-- Linux separates components by a slash, Windows by a slash or a backslash.
abbrev pub slash : ℕ → Bool
slash c = c == b'/'

abbrev pub any_slash : ℕ → Bool
any_slash c = c == b'/' || c == b'\\'

abbrev pub separator : Bool → ℕ → Bool
separator on_windows = if on_windows then any_slash else slash

-- `cur` is the component that is being read, and `sep` says what separates two.
abbrev pub components_from : (ℕ → Bool) → Bytes → Bytes → List Bytes
components_from sep cur [] = cur ∷ []
components_from sep cur (c ∷ s) =
    let next = components_from sep [] s in
    let more = components_from sep (cur ++ c ∷ []) s in if sep c then cur ∷ next else more

abbrev pub components : (ℕ → Bool) → Bytes → List Bytes
components sep s = components_from sep [] s

abbrev pub dot_dot : Bytes
dot_dot = codes ".."

abbrev pub parent : ℕ → Option ℕ
parent zero = none
parent (suc d) = some d

-- One component: "" and "." stay, ".." goes up and fails at the top, any other name goes down.
abbrev pub enter : ℕ → Bytes → Option ℕ
enter depth n =
    if str_eq n dot_dot
    then parent depth
    else if str_eq n [] || str_eq n (codes ".")
    then some depth
    else some (suc depth)

abbrev pub walk : ℕ → List Bytes → Option ℕ
walk depth [] = some depth
walk depth (n ∷ names) = elim (enter depth n) [ none ↦ none | some d ↦ walk d names ]
