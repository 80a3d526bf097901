-- ===== src/Request/Scan.antt =====
-- The inner loop of `read_request` finds the first "\r\n".
use sacagawea.Common.{
  Option-cases, ◌<◌, ◌∙◌, length-append, append_assoc, inr, inl, Bool-cases, if◌then◌else◌, arith,
  ◌-◌, ap, ◌&&◌, refl, suc, ◌==◌, [], ◌≡◌, ◌+◌, ◌∷◌, some, none, length, last_or, ◌++◌, get_or,
  Option, Bytes, ℕ,
}
use mathlib.Core.Option
use sacagawea.Request.{ends_at, scan}

-- The index of the first newline behind a carriage return; `prev` is the byte in front of `s`.
abbrev pub line_end : ℕ → Bytes → Option ℕ
line_end prev [] = none
line_end prev (c ∷ s) =
    if prev == b'\r' && c == b'\n' then some 0 else Option.map suc (line_end c s)

abbrev pub shift : ℕ → Option ℕ → Option ℕ
shift k none = none
shift k (some i) = some (k + i)

get_or-middle : (a : Bytes) (c : ℕ) (s : Bytes) → get_or (a ++ c ∷ s) (length a) 0 ≡ c
get_or-middle [] c s = refl
get_or-middle (x ∷ a) c s = get_or-middle a c s

get_or-last : (x : ℕ) (a s : Bytes) → get_or ((x ∷ a) ++ s) (length a) 0 ≡ last_or x a
get_or-last x [] s = refl
get_or-last x (y ∷ a) s = get_or-last y a s

ends_at-last :
    (a : Bytes) (c : ℕ) (s : Bytes)
    → ends_at (a ++ c ∷ s) (length a) ≡ (last_or 0 a == b'\r' && c == b'\n')
unfolding ends_at
ends_at-last [] c s = refl
ends_at-last (x ∷ a) c s =
    let e : suc (length a) - 1 ≡ length a = omega arith in
    rw (e, get_or-middle (x ∷ a) c s, get_or-last x a (c ∷ s)) (ground arith)

last_or-concat : (a : Bytes) (c d : ℕ) → last_or d (a ++ c ∷ []) ≡ c
last_or-concat [] c d = refl
last_or-concat (x ∷ a) c d = last_or-concat a c x

shift-suc : (k : ℕ) (o : Option ℕ) → shift (k + 1) o ≡ shift k (Option.map suc o)
shift-suc k none = refl
shift-suc k (some i) = ap some (omega arith)

-- From behind the part `a` that has been looked at, the loop finds the first line end of `s`.
pub scan-line_end :
    (s a : Bytes)
    → scan (length s) (a ++ s) (length a) ≡ shift (length a) (line_end (last_or 0 a) s)
unfolding scan
scan-line_end [] a = refl
scan-line_end (c ∷ s) a = elim (Bool-cases (last_or 0 a == b'\r' && c == b'\n')) [
  | inl found ↦ rw (ends_at-last a c s, found) (ap some (omega arith))
  | inr further ↦
      rw (ends_at-last a c s, further)
        ((rw (append_assoc, length-append, last_or-concat) at (scan-line_end s (a ++ c ∷ [])))
          ∙ shift-suc (length a) (line_end c s))
]

pub line_end-lt : (p : ℕ) (s : Bytes) (i : ℕ) → line_end p s ≡ some i → i < length s
line_end-lt p [] i h = cc
line_end-lt p (c ∷ s) i h = elim (Option-cases (line_end c s)) [
  | inl e ↦ ground arith
  | inr (j, e) ↦ ground (arith, line_end-lt c s j e)
]

-- What stands behind a line end does not move it.
pub line_end-append :
    (p : ℕ) (a b : Bytes) (i : ℕ) → line_end p a ≡ some i → line_end p (a ++ b) ≡ some i
line_end-append p [] b i h = cc
line_end-append p (c ∷ a) b i h = elim (Option-cases (line_end c a)) [
  | inl e ↦ ground arith
  | inr (j, e) ↦ ground (arith, line_end-append c a b j e)
]

suc-shift : (k : ℕ) (o : Option ℕ) → Option.map suc (shift k o) ≡ shift (suc k) o
suc-shift k none = refl
suc-shift k (some i) = ap some (omega arith)

-- The search goes on behind a part that has no line end.
pub line_end_skip :
    (p : ℕ) (a b : Bytes)
    → line_end p a ≡ none
    → line_end p (a ++ b) ≡ shift (length a) (line_end (last_or p a) b)
line_end_skip p [] b h = shift_zero (line_end p b)
  where
    shift_zero : (o : Option ℕ) → o ≡ shift 0 o
    shift_zero none = refl
    shift_zero (some i) = ap some (omega arith)
line_end_skip p (c ∷ a) b h = elim (Bool-cases (p == b'\r' && c == b'\n')) [
  | inl found ↦ ground arith
  | inr further ↦ rw further (
      ap (Option.map suc) (line_end_skip c a b (ground arith))
      ∙ suc-shift (length a) (line_end (last_or c a) b))
]
