-- ===== src/Common/Text.antt =====
-- C strings as lists of bytes without their terminator, and the functions of the C library that
-- the program calls on them.
use Prim.Native.Nat.{ℕ, zero, suc, ◌+◌, ◌/◌, ◌%◌}
use Prim.Native.Char.{code}
use Prim.Native.String.{String}
use mathlib.Core.Path.{◌≡◌, refl}
use mathlib.Core.Logic.{◌≢◌}
use native.Mathlib.Omega.{arith}
use mathlib.Core.Bool.{Bool, true, false, ◌&&◌, ◌||◌}
use mathlib.Core.List.{List, [], ◌∷◌, ◌++◌}
use sacagawea.Common.Bools.{◌==◌, if◌then◌else◌}

abbrev pub Bytes : Type 0
Bytes = List ℕ

-- The code points of a literal; they are its bytes, since every literal of the program is ASCII.
abbrev pub codes : String → Bytes
codes String.[] = []
codes (String.◌∷◌ c s) = code c ∷ codes s

-- `strncmp(s, pre, strlen(pre)) == 0`
unfoldable pub starts_with : Bytes → Bytes → Bool
starts_with [] s = true
starts_with (p ∷ pre) [] = false
starts_with (p ∷ pre) (c ∷ s) = p == c && starts_with pre s

-- `strcmp(a, b) == 0`
unfoldable pub str_eq : Bytes → Bytes → Bool
str_eq [] [] = true
str_eq (x ∷ a) (y ∷ b) = x == y && str_eq a b
str_eq _ _ = false

-- `strstr(s, pat) != NULL`
unfoldable pub contains : Bytes → Bytes → Bool
unfolding starts_with
contains pat [] = starts_with pat []
contains pat (c ∷ s) = starts_with pat (c ∷ s) || contains pat s

-- The string that a buffer holds: its bytes in front of the first NUL.
abbrev pub c_string : Bytes → Bytes
c_string [] = []
c_string (c ∷ s) = if c == 0 then [] else c ∷ c_string s

module _ {ℓ κ} {A : Type ℓ} (P : A → Type κ) where
  abbrev pub All : List A → Type κ
  All [] = Unit
  All (x ∷ xs) = P x × All xs

pub All-append {ℓ κ} :
    {A : Type ℓ} (P : A → Type κ) (xs ys : List A) → All P xs → All P ys → All P (xs ++ ys)
All-append P [] ys hx hy = hy
All-append P (x ∷ xs) ys hx hy = (hx.0, All-append P xs ys hx.1 hy)

-- A string that fits into a C string whole.
abbrev pub NoNul : Bytes → Type 0
NoNul = All (λ c. c ≢ 0)

-- `fgets` with room for `n` bytes and the NUL: the line, with its newline, and what is unread.
abbrev pub fgets : ℕ → Bytes → Bytes × Bytes
fgets zero s = ([], s)
fgets (suc n) [] = ([], [])
fgets (suc n) (c ∷ s) =
    let (line, rest) = fgets n s in if c == b'\n' then (c ∷ [], s) else (c ∷ line, rest)

-- The digits of `n` in front of `out`; `fuel` bounds their number.
abbrev pub digits : ℕ → ℕ → Bytes → Bytes
digits zero n out = out
digits (suc fuel) n out =
    let d = (b'0' + n % 10) ∷ out in
    let more = digits fuel (n / 10) d in if n / 10 == 0 then d else more

-- `%d` and `%zu`: twenty digits write every 64-bit number.
unfoldable pub decimal : ℕ → Bytes
decimal n = digits 20 n []

pub c_string_clean : (s : Bytes) → NoNul s → c_string s ≡ s
c_string_clean [] h = refl
c_string_clean (c ∷ s) h = ground (arith, c_string_clean s h.1)
