-- ===== src/Config/Homedir.antt =====
-- The home directory that sacagawea.conf sets.
use sacagawea.Common.{
  zero, ◌∙◌, returns, true, Bool, take_right, drop, replicate, take, suc, ◌-◌, append_assoc, ◌≤◌,
  ◌+◌, inr, inl, refl, Bool-cases, ap, arith, length, ◌≡◌, [], ◌∷◌, ◌++◌, ◌==◌, set, c_string,
  last_or, ℕ, NoNul, if◌then◌else◌, Bytes,
}
use native.Mathlib.Numerals.{add-one}
use sacagawea.Config.{linux, Settings, set_homedir, strlen, add_slash, strncpy}

abbrev pub with_slash : Bytes → Bytes
with_slash s = if last_or 0 s == b'/' then s else s ++ b'/' ∷ []

pub c_string_append : (s rest : Bytes) → NoNul s → c_string (s ++ (0 ∷ rest)) ≡ s
c_string_append [] rest h = refl
c_string_append (c ∷ s) rest h = ground (arith, c_string_append s rest h.1)

pub set_end : (s rest : Bytes) (c v : ℕ) → set (s ++ (c ∷ rest)) (length s) v ≡ s ++ (v ∷ rest)
set_end [] rest c v = refl
set_end (x ∷ s) rest c v = ap (◌∷◌ x) (set_end s rest c v)

set_behind :
    (a rest : Bytes) (c v : ℕ) → set (a ++ (c ∷ rest)) (suc (length a)) v ≡ a ++ (c ∷ set rest 0 v)
set_behind [] rest c v = refl
set_behind (x ∷ a) rest c v = ap (◌∷◌ x) (set_behind a rest c v)

pub NoNul-concat : (s : Bytes) → NoNul s → NoNul (s ++ b'/' ∷ [])
NoNul-concat [] h = (omega arith, tt)
NoNul-concat (c ∷ s) h = (h.0, NoNul-concat s h.1)

-- The second write of `add_slash` goes behind the NUL of the string that the first one left.
pub slashed_string :
    (s rest : Bytes)
    → NoNul s
    → c_string (set (s ++ (b'/' ∷ 0 ∷ rest)) (strlen (s ++ (b'/' ∷ 0 ∷ rest)) + 1) 0)
      ≡ s ++ b'/' ∷ []
slashed_string s rest h =
    rw
      (
        ← append_assoc s (b'/' ∷ []) (0 ∷ rest),
        c_string_append (s ++ b'/' ∷ []) rest (NoNul-concat s h),
        add-one (length (s ++ b'/' ∷ [])),
        set_behind (s ++ b'/' ∷ []) rest 0 0,
      )
      (c_string_append (s ++ b'/' ∷ []) (set rest 0 0) (NoNul-concat s h))

-- A string with two NULs behind it in its array gets its slash, and is a string again.
add_slash_string :
    (s rest : Bytes) → NoNul s → c_string (add_slash linux (s ++ (0 ∷ 0 ∷ rest))) ≡ with_slash s
unfolding add_slash
add_slash_string s rest h = elim (Bool-cases (last_or 0 s == b'/')) [
  | inl has ↦ rw (c_string_append s (0 ∷ rest) h, has, c_string_append s (0 ∷ rest) h)
  | inr lacks ↦
      rw (c_string_append s (0 ∷ rest) h, lacks, set_end s (0 ∷ rest) 0 b'/')
        (slashed_string s rest h)
]

take_zeros :
    (n k : ℕ)
    → suc (suc k) ≤ n
    → take {A = ℕ} (suc (suc k)) (replicate n 0) ≡ 0 ∷ 0 ∷ take k (replicate (n - 2) 0)
take_zeros zero k h = absurd (omega arith)
take_zeros (suc zero) k h = absurd (omega arith)
take_zeros (suc (suc n)) k h = let e : suc (suc n) - 2 ≡ n = omega arith in rw e

-- Behind at most `n - 2` bytes, `strncpy` leaves two NULs, whatever the array held before.
strncpy_short :
    (arr src : Bytes) (n k : ℕ)
    → n - length src ≡ suc (suc k)
    → strncpy arr src n ≡ src ++ (0 ∷ 0 ∷ (take k (replicate (n - 2) 0) ++ drop n arr))
strncpy_short arr src n k e =
    rw (take_right n src (replicate n 0) (omega arith), e, take_zeros n k (omega arith))
      (append_assoc src (0 ∷ 0 ∷ take k (replicate (n - 2) 0)) (drop n arr))

-- A home directory of 1 to 257 bytes that can be opened is stored as a string with a slash at its
-- end, one being added only if it has none, whatever the array of the settings held before.
pub set_homedir_string :
    (opendir : Bytes → Bool) (s : Settings) (c : ℕ) (dir : Bytes)
    → opendir (c ∷ dir) ≡ true
    → NoNul (c ∷ dir)
    → length (c ∷ dir) ≤ 257
    → (t : Settings) × (set_homedir linux opendir s (c ∷ dir) ≡ returns t)
      × (c_string t.homedir ≡ with_slash (c ∷ dir))
unfolding set_homedir
set_homedir_string opendir s c dir opened nonul short =
    let k = 257 - length (c ∷ dir) in
    let e = strncpy_short s.homedir (c ∷ dir) 259 k (omega arith) in
    let rest = take k (replicate 257 0) ++ drop 259 s.homedir in
    (
      record s { homedir = add_slash linux (strncpy s.homedir (c ∷ dir) 259) },
      rw opened,
      ap (λ (a : Bytes). c_string (add_slash linux a)) e ∙ add_slash_string (c ∷ dir) rest nonul,
    )
