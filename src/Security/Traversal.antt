-- ===== src/Security/Traversal.antt =====
-- What `check_security_path` keeps out, and what it lets through.
use sacagawea.Security.{up_backslash, check_security_path, up_slash}
use sacagawea.Common.{
  Option-cases, ap, Bool, ◌∙◌, suc, codes, ◌||◌, ==_iff, inr, append_assoc, inl, Bool-cases, ◌==◌,
  last_or, ◌≢◌, some, All, ℕ, true, false, List, [], ◌∷◌, ◌++◌, ◌≡◌, refl, arith, Bytes, str_eq,
  starts_with, contains,
}
use sacagawea.Security.Walk.{
  separator, any_slash, slash, enter, components_from, components, walk, dot_dot,
}

-- A text without a pattern has no part behind a prefix with it.
contains-append : (pat a b : Bytes) → contains pat (a ++ b) ≡ false → contains pat b ≡ false
unfolding contains
contains-append pat [] b h = h
contains-append pat (c ∷ a) b h = contains-append pat a b (ground arith)

str_eq-eq : (a b : Bytes) → str_eq a b ≡ true → a ≡ b
unfolding str_eq
str_eq-eq [] [] h = refl
str_eq-eq [] (y ∷ b) h = cc
str_eq-eq (x ∷ a) [] h = cc
str_eq-eq (x ∷ a) (y ∷ b) h = ground (arith, str_eq-eq a b)

starts_with_self : (p s : Bytes) → starts_with p (p ++ s) ≡ true
unfolding starts_with
starts_with_self [] s = refl
starts_with_self (c ∷ p) s = ground (arith, starts_with_self p s)

contains_prefix : (p s : Bytes) → starts_with p s ≡ true → contains p s ≡ true
unfolding contains
contains_prefix p [] h = h
contains_prefix p (c ∷ s) h = ground arith

abbrev pub NotUp : Bytes → Type 0
NotUp n = n ≢ dot_dot

-- A text has at least one component, so its last one is no default.
last_or-components_from :
    (sep : ℕ → Bool) (s cur d e : Bytes)
    → last_or d (components_from sep cur s) ≡ last_or e (components_from sep cur s)
last_or-components_from sep [] cur d e = refl
last_or-components_from sep (c ∷ s) cur d e =
    ground (arith, last_or-components_from sep s (cur ++ c ∷ []) d e)

-- Behind ".." a separator is refused.
abbrev Refuses : (ℕ → Bool) → Type 0
Refuses sep = (c : ℕ) (s : Bytes) → sep c ≡ true → check_security_path (dot_dot ++ (c ∷ s)) ≡ true

slash-Refuses : Refuses slash
unfolding check_security_path
slash-Refuses c s e =
    rw ((==_iff c b'/').0 e, contains_prefix up_slash (up_slash ++ s) (starts_with_self up_slash s))
      refl

any_slash-Refuses : Refuses any_slash
unfolding check_security_path
any_slash-Refuses c s e = elim (Bool-cases (c == b'/')) [
  | inl forward ↦ slash-Refuses c s forward
  | inr other ↦
      let back : (c == b'\\') ≡ true = ground (arith, e) in
      rw
        (
          (==_iff c b'\\').0 back,
          contains_prefix up_backslash (up_backslash ++ s) (starts_with_self up_backslash s),
        )
        (ground arith)
]

check-append : (a b : Bytes) → check_security_path (a ++ b) ≡ false → check_security_path b ≡ false
unfolding check_security_path
check-append a b h = ground (arith, contains-append up_slash a b, contains-append up_backslash a b)

-- Where the unread text behind the current component passes the check, only the last component is "..".
components_from-NotUp :
    (sep : ℕ → Bool) (s cur : Bytes)
    → Refuses sep
    → check_security_path (cur ++ s) ≡ false
    → last_or [] (components_from sep cur s) ≢ dot_dot
    → All NotUp (components_from sep cur s)
components_from-NotUp sep [] cur refuses h l = (l, tt)
components_from-NotUp sep (c ∷ s) cur refuses h l = elim (Bool-cases (sep c)) [
  | inl ends ↦ rw ends (
    (λ up. cc (refuses c s ends, (rw up at h))),
    components_from-NotUp sep s [] refuses (check-append (cur ++ c ∷ []) s (rw append_assoc h))
        (λ up. (rw ends at l) (last_or-components_from sep s [] cur [] ∙ up)),
  )
  | inr more ↦
      rw more
        (components_from-NotUp sep s (cur ++ c ∷ []) refuses (rw append_assoc h) (rw more at l))
]

enter-NotUp : (n : Bytes) (depth : ℕ) → NotUp n → (d : ℕ) × (enter depth n ≡ some d)
enter-NotUp n depth up = elim (Bool-cases (str_eq n dot_dot)) [
  | inl is_up ↦ absurd (up (str_eq-eq n dot_dot is_up))
  | inr other ↦ elim (Bool-cases (str_eq n [] || str_eq n (codes "."))) [
    | inl stays ↦ (depth, rw (other, stays))
    | inr goes ↦ (suc depth, rw (other, goes))
  ]
]

walk-NotUp :
    (names : List Bytes) (depth : ℕ) → All NotUp names → (d : ℕ) × (walk depth names ≡ some d)
walk-NotUp [] depth h = (depth, refl)
walk-NotUp (n ∷ names) depth (up, h) =
    let (d, e) = enter-NotUp n depth up in
    let (d', e') = walk-NotUp names d h in (d', rw (e, walk) e')

inside :
    (sep : ℕ → Bool) (home selector : Bytes)
    → Refuses sep
    → check_security_path (home ++ selector) ≡ false
    → last_or [] (components sep selector) ≢ dot_dot
    → (depth : ℕ) × (walk 0 (components sep selector) ≡ some depth)
inside sep home selector refuses h l =
    walk-NotUp (components sep selector) 0
      (components_from-NotUp sep selector [] refuses (check-append home selector h) l)

separator-Refuses : (on_windows : Bool) → Refuses (separator on_windows)
separator-Refuses true = any_slash-Refuses
separator-Refuses false = slash-Refuses

-- A request that passes the check stays at or below the home directory, if its last component is
-- not "..": walking its components never goes above the directory that it starts from. So it is on
-- Linux, where a slash separates components, and on Windows, where a slash and a backslash do.
pub check_security_path_inside :
    (on_windows : Bool) (home selector : Bytes)
    → check_security_path (home ++ selector) ≡ false
    → last_or [] (components (separator on_windows) selector) ≢ dot_dot
    → (depth : ℕ) × (walk 0 (components (separator on_windows) selector) ≡ some depth)
check_security_path_inside on_windows home selector h l =
    walk-NotUp (components (separator on_windows) selector) 0 (
      components_from-NotUp (separator on_windows) selector [] (separator-Refuses on_windows)
        (check-append home selector h) l)

contains-concat_dots :
    (z : ℕ) (s : Bytes)
    → z ≢ b'.'
    → contains (b'.' ∷ b'.' ∷ z ∷ []) s ≡ false
    → contains (b'.' ∷ b'.' ∷ z ∷ []) (s ++ dot_dot) ≡ false
unfolding contains starts_with
contains-concat_dots z [] n h = ground arith
contains-concat_dots z (x ∷ []) n h = ground arith
contains-concat_dots z (x ∷ y ∷ []) n h = ground arith
contains-concat_dots z (x ∷ y ∷ w ∷ s) n h = ground (arith, contains-concat_dots z (y ∷ w ∷ s) n)

-- "/.." is one more component.
components_from-dots :
    (s cur : Bytes)
    → components_from slash cur (s ++ (b'/' ∷ dot_dot))
      ≡ components_from slash cur s ++ dot_dot ∷ []
components_from-dots [] cur = refl
components_from-dots (c ∷ s) cur = elim (Bool-cases (c == b'/')) [
  | inl ends ↦ rw ends (ap (◌∷◌ cur) (components_from-dots s []))
  | inr more ↦ rw more (components_from-dots s (cur ++ c ∷ []))
]

walk-append :
    (a b : List Bytes) (depth : ℕ) {d : ℕ} → walk depth a ≡ some d → walk depth (a ++ b) ≡ walk d b
walk-append [] b depth h = ground arith
walk-append (n ∷ a) b depth h = elim (Option-cases (enter depth n)) [
  | inl leaves ↦ cc ((rw (leaves, walk) at h))
  | inr (e, goes) ↦ rw (goes, walk) (walk-append a b e (rw (goes, walk) at h))
]

-- The check lets one step up through: behind every directory below the top, whose path with its slash
-- it accepts, it accepts "..", with no slash at the end, and that path is the directory's parent.
pub check_security_path_gap :
    (dir : Bytes) (d : ℕ)
    → check_security_path (dir ++ b'/' ∷ []) ≡ false
    → walk 0 (components slash dir) ≡ some (suc d)
    → (check_security_path (dir ++ (b'/' ∷ dot_dot)) ≡ false)
      × (walk 0 (components slash (dir ++ (b'/' ∷ dot_dot))) ≡ some d)
unfolding check_security_path str_eq
check_security_path_gap dir d h at_depth =
    let path = dir ++ b'/' ∷ [] in
    let dots : check_security_path (path ++ dot_dot) ≡ false = ground (
      arith,
      contains-concat_dots b'/' path (omega arith),
      contains-concat_dots b'\\' path (omega arith),
    ) in
    (
      rw append_assoc at dots,
      rw (components_from-dots dir [])
          (walk-append (components slash dir) (dot_dot ∷ []) 0 at_depth),
    )
