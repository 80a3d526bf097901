-- ===== src/Report/Date.antt =====
-- `date_string` of src/sacagalib/log.c: the local time in brackets. What `asctime` and `localtime` give
-- is a parameter.
use sacagawea.Gopher.Menu.Lines.{length-digits_4, length-digits_2}
use sacagawea.Common.{
  zero, suc, length-replicate, length-append, drop, arith, ◌++◌, take, ◌-◌, take_all, ◌≤◌, ◌+◌, ◌∷◌,
  c_string, replicate, ◌≡◌, length, decimal, ◌<◌, Bytes, ℕ, [],
}
use sacagawea.Gopher.Menu.{snprintf}

-- `struct tm`, and the text of `asctime`.
pub record LocalTime : Type 0 where
  pub tm_mday : ℕ
  pub tm_year : ℕ
  pub tm_hour : ℕ
  pub tm_min : ℕ
  pub tm_sec : ℕ
  pub asctime : Bytes

-- `%02d` and `%04d` of a number that is not negative.
unfoldable pub padded : ℕ → ℕ → Bytes
padded width n = replicate (width - length (decimal n)) b'0' ++ decimal n

-- The three bytes of the month stand behind the day of the week and a space; `%s` stops at a NUL.
unfoldable pub month : LocalTime → Bytes
month t = c_string (take 3 (drop 4 t.asctime))

unfoldable pub date_text : LocalTime → Bytes
date_text t =
    b'['
    ∷ (month t
        ++ (b' '
            ∷ (padded 2 t.tm_mday
                ++ (b' '
                    ∷ (padded 4 (t.tm_year + 1900)
                        ++ (b' '
                            ∷ (padded 2 t.tm_hour
                                ++ (b':'
                                    ∷ (padded 2 t.tm_min
                                        ++ (b':' ∷ (padded 2 t.tm_sec ++ b']' ∷ [])))))))))))

pub len_str : ℕ
len_str = 22

unfoldable pub date_string : LocalTime → Bytes
unfolding date_text len_str
date_string t = snprintf (len_str + 1) (date_text t)

-- What `localtime` gives: up to 61 seconds, and a year of four digits.
pub record IsTime (t : LocalTime) : Type 0 where
  pub day : t.tm_mday < 32
  pub year : t.tm_year + 1900 < 10000
  pub hour : t.tm_hour < 24
  pub min : t.tm_min < 60
  pub sec : t.tm_sec < 62

length-decimal_2 : (n : ℕ) → n < 100 → length (decimal n) ≤ 2
unfolding decimal
length-decimal_2 n h = omega (arith, length-digits_2 20 n [] h)

length-decimal_4 : (n : ℕ) → n < 10000 → length (decimal n) ≤ 4
unfolding decimal
length-decimal_4 n h = omega (arith, length-digits_4 20 n [] h)

length-padded : (width n : ℕ) → length (decimal n) ≤ width → length (padded width n) ≡ width
unfolding padded
length-padded width n h = omega (
  arith,
  length-append (replicate (width - length (decimal n)) b'0') (decimal n),
  length-replicate {A = ℕ} (width - length (decimal n)) b'0',
)

length-field : (n : ℕ) (s : Bytes) → length (c_string (take n s)) ≤ n
length-field zero s = omega arith
length-field (suc n) [] = omega arith
length-field (suc n) (c ∷ s) = ground (arith, length-field n s)

length-month : (t : LocalTime) → length (month t) ≤ 3
unfolding month
length-month t = length-field 3 (drop 4 t.asctime)

length-date_text : (t : LocalTime) → IsTime t → length (date_text t) ≤ 22
unfolding date_text
length-date_text t h =
    let day = length-padded 2 t.tm_mday (length-decimal_2 t.tm_mday (omega (arith, h.day))) in
    let year = length-padded 4 (t.tm_year + 1900) (length-decimal_4 (t.tm_year + 1900) h.year) in
    let hour = length-padded 2 t.tm_hour (length-decimal_2 t.tm_hour (omega (arith, h.hour))) in
    let min' = length-padded 2 t.tm_min (length-decimal_2 t.tm_min (omega (arith, h.min))) in
    let sec = length-padded 2 t.tm_sec (length-decimal_2 t.tm_sec (omega (arith, h.sec))) in
    simp length-append (omega (arith, day, year, hour, min', sec, length-month t))

-- A date fits into its array: nothing of it is cut.
pub date_string_whole : (t : LocalTime) → IsTime t → date_string t ≡ date_text t
unfolding date_string len_str
date_string_whole t h = take_all 22 (date_text t) (length-date_text t h)
