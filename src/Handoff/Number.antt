-- ===== src/Handoff/Number.antt =====
-- A handle survives the command line.
use sacagawea.Regex.{is_space}
use sacagawea.Common.{
  ◌-◌, ltb, false, ap, ◌^◌, decimal, All, ◌≤◌, ◌∙◌, refl, inr, inl, ◌==◌, ◌/◌, Bool-cases, arith,
  ◌≡◌, ◌∷◌, digits, ◌%◌, zero, ◌<◌, ◌+◌, ◌*◌, Bytes, suc, ℕ, [],
}
use sacagawea.Start.Options.{digits_value, plus}
use sacagawea.Handoff.{long_long, long_long_value, strtoll}

abbrev pub tens : ℕ → ℕ
tens zero = 1
tens (suc f) = 10 * tens f

digit_value :
    (n : ℕ) (out : Bytes) (acc : ℕ)
    → digits_value acc ((b'0' + n % 10) ∷ out) ≡ digits_value (acc * 10 + n % 10) out
unfolding digits_value
digit_value n out acc = ground arith

-- Reading the digits of a number gives the number, in front of any text.
pub digits_value-digits :
    (f n : ℕ) (out : Bytes) → n < tens f → digits_value 0 (digits f n out) ≡ digits_value n out
digits_value-digits zero n out h = let e : n ≡ 0 = omega arith in rw e refl
digits_value-digits (suc f) n out h = elim (Bool-cases (n / 10 == 0)) [
  | inl small ↦
      let e : 0 * 10 + n % 10 ≡ n = ground arith in
      rw small (digit_value n out 0 ∙ ap (λ (k : ℕ). digits_value k out) e)
  | inr big ↦
      let e : n / 10 * 10 + n % 10 ≡ n = omega arith in
      rw big (
        digits_value-digits f (n / 10) ((b'0' + n % 10) ∷ out) (omega (arith, h))
        ∙ digit_value n out (n / 10)
        ∙ ap (λ (k : ℕ). digits_value k out) e)
]

abbrev pub IsDigit : ℕ → Type 0
IsDigit c = (b'0' ≤ c) × (c ≤ b'9')

-- A text of digits that is not empty.
abbrev pub IsNumeral : Bytes → Type 0
IsNumeral [] = ⊥
IsNumeral (c ∷ s) = IsDigit c × All IsDigit s

digits-IsNumeral : (f n : ℕ) (out : Bytes) → IsNumeral out → IsNumeral (digits f n out)
digits-IsNumeral zero n out h = h
digits-IsNumeral (suc f) n [] h = absurd h
digits-IsNumeral (suc f) n (c ∷ out) h = elim (Bool-cases (n / 10 == 0)) [
  | inl small ↦ rw small ((omega arith, omega arith), h)
  | inr big ↦
      rw big
        (digits-IsNumeral f (n / 10) ((b'0' + n % 10) ∷ c ∷ out) ((omega arith, omega arith), h))
]

pub decimal-IsNumeral : (n : ℕ) → IsNumeral (decimal n)
unfolding decimal
decimal-IsNumeral n = elim (Bool-cases (n / 10 == 0)) [
  | inl small ↦ rw small ((omega arith, omega arith), tt)
  | inr big ↦
      rw big (digits-IsNumeral 19 (n / 10) ((b'0' + n % 10) ∷ []) ((omega arith, omega arith), tt))
]

digits_value-decimal : (n : ℕ) → n < 2 ^ 64 → digits_value 0 (decimal n) ≡ n
unfolding decimal digits_value
digits_value-decimal n h = digits_value-digits 20 n [] (omega (arith, h))

strtoll_plus : (s : Bytes) → IsNumeral s → strtoll s ≡ long_long_value plus (digits_value 0 s)
unfolding strtoll
strtoll_plus [] h = absurd h
strtoll_plus (c ∷ s) ((low, high), h) =
    let space : is_space c ≡ false = ground (arith, low, high) in
    let minus_sign : (c == b'-') ≡ false = ground (arith, low, high) in
    let plus_sign : (c == b'+') ≡ false = ground (arith, low, high) in
    rw (space, minus_sign, plus_sign) refl

-- `strtoll` gives back the 64 bits that `%I64d` printed.
pub strtoll-long_long : (h : ℕ) → h < 2 ^ 64 → strtoll (long_long h) ≡ h
unfolding long_long strtoll long_long_value
strtoll-long_long h small = elim (Bool-cases (ltb h (2 ^ 63))) [
  | inl positive ↦ rw positive (
      strtoll_plus (decimal h) (decimal-IsNumeral h)
      ∙ (rw (digits_value-decimal h small, positive) refl))
  | inr negative ↦
      let value' : digits_value 0 (decimal (2 ^ 64 - h)) ≡ 2 ^ 64 - h =
        digits_value-decimal (2 ^ 64 - h) (ground arith) in
      rw (negative, value') (ground arith)
]
