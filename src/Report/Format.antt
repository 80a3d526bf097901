-- ===== src/Report/Format.antt =====
-- The form of a printed message.
use sacagawea.Common.{
  take, take_all, ◌-◌, undefined, ◌≤◌, zero, take-length, length-replicate, length-append,
  append_assoc, sym, ◌∙◌, append-nil, returns, ap, ◌+◌, [], length, ◌∷◌, ◌≡◌, suc, ◌++◌, ◌≢◌,
  replicate, last_or, ℕ, Bytes, refl, arith,
}
use sacagawea.Gopher.Menu.{snprintf}
use sacagawea.Report.{
  debug, info, warning, error, strip, log_string, Level, log_lv_name, log_str_len, write_log,
}

last_or-append : (s : Bytes) (d c : ℕ) → last_or d (s ++ c ∷ []) ≡ c
last_or-append [] d c = refl
last_or-append (x ∷ s) d c = last_or-append s x c

abbrev pub newlines : ℕ → Bytes
newlines k = replicate k b'\n'

replicate_end : (k : ℕ) → newlines (suc k) ≡ newlines k ++ b'\n' ∷ []
replicate_end zero = refl
replicate_end (suc k) = ap (◌∷◌ b'\n') (replicate_end k)

-- A string that ends in `k` newlines behind another byte loses exactly these.
strip-newlines :
    (body : Bytes) (c k n : ℕ)
    → c ≢ b'\n'
    → n ≡ length body + 1 + k
    → strip n ((body ++ c ∷ []) ++ newlines k) ≡ returns (body ++ c ∷ [])
unfolding strip
strip-newlines body c k zero h e = absurd (omega arith)
strip-newlines body c zero (suc n) h e =
    rw (append-nil (body ++ c ∷ []), last_or-append body 0 c) (ground arith)
strip-newlines body c (suc k) (suc n) h e =
    let t = (body ++ c ∷ []) ++ newlines k in
    let cut : (body ++ c ∷ []) ++ newlines (suc k) ≡ t ++ b'\n' ∷ [] =
      ap (◌++◌ (body ++ c ∷ [])) (replicate_end k)
      ∙ sym (append_assoc (body ++ c ∷ []) (newlines k) (b'\n' ∷ [])) in
    let len : n ≡ length t = omega (
      arith,
      e,
      length-append (body ++ c ∷ []) (newlines k),
      length-append body (c ∷ []),
      length-replicate {A = ℕ} k b'\n',
    ) in
    rw (cut, last_or-append t 0 b'\n', len, take-length t (b'\n' ∷ []), ← len)
      (strip-newlines body c k n h (omega arith))

-- The line that a message stands for.
abbrev pub report_line : Level → Bytes → Bytes → Bytes
report_line lv date text =
    date ++ (b' ' ∷ (log_lv_name lv ++ (b':' ∷ (b' ' ∷ (text ++ b'\n' ∷ [])))))

length-log_lv_name : (lv : Level) → length (log_lv_name lv) ≤ 7
length-log_lv_name error = omega arith
length-log_lv_name warning = omega arith
length-log_lv_name info = omega arith
length-log_lv_name debug = omega arith

length-report_line :
    (lv : Level) (date text : Bytes)
    → length (report_line lv date text) ≡ length date + length (log_lv_name lv) + length text + 4
length-report_line lv date text = simp length-append (omega arith)

-- A message that does not end in a newline but for any number of them, which with the date is not
-- longer than 1011 bytes, is one whole line: date, level, message and a single newline.
pub log_string_line :
    (lv : Level) (date body : Bytes) (c k : ℕ)
    → c ≢ b'\n'
    → length date + length body + 1 + k ≤ 1011
    → log_string lv date ((body ++ c ∷ []) ++ newlines k)
      ≡ returns (report_line lv date (body ++ c ∷ []))
unfolding log_string
log_string_line lv date body c k h fits =
    let message = (body ++ c ∷ []) ++ newlines k in
    let len : length message ≡ length body + 1 + k = omega (
      arith,
      length-append (body ++ c ∷ []) (newlines k),
      length-append body (c ∷ []),
      length-replicate {A = ℕ} k b'\n',
    ) in
    let whole : snprintf (log_str_len - length date) message ≡ message =
      take_all (log_str_len - length date - 1) message (omega arith) in
    rw (whole, strip-newlines body c k (length message) h len)
      (ap (λ (b : Bytes). returns b)
        (take_all 1023 (report_line lv date (body ++ c ∷ [])) (
          omega (
            arith,
            length-report_line lv date (body ++ c ∷ []),
            length-append body (c ∷ []),
            length-log_lv_name lv,
          ))))

newlines_last : (n : ℕ) → last_or b'\n' (newlines n) ≡ b'\n'
newlines_last zero = refl
newlines_last (suc n) = newlines_last n

newlines_shorter : (n : ℕ) → take n (newlines (suc n)) ≡ newlines n
newlines_shorter zero = refl
newlines_shorter (suc n) = ap (◌∷◌ b'\n') (newlines_shorter n)

strip_only : (n : ℕ) → strip n (newlines n) ≡ undefined
unfolding strip
strip_only zero = refl
strip_only (suc n) = rw (newlines_last n, newlines_shorter n, strip_only n) refl

-- A message of newlines only, or an empty one, makes the code read in front of its array, at every
-- level, also where nothing would be printed.
pub write_log-newlines :
    (log_level : ℕ) (lv : Level) (date : Bytes) (k : ℕ)
    → length date + k ≤ 1023
    → write_log log_level lv date (newlines k) ≡ undefined
unfolding write_log log_string
write_log-newlines log_level lv date k fits =
    let whole : snprintf (log_str_len - length date) (newlines k) ≡ newlines k =
      take_all (log_str_len - length date - 1) (newlines k)
        (omega (arith, length-replicate {A = ℕ} k b'\n')) in
    rw (whole, length-replicate {A = ℕ} k b'\n', strip_only k) refl
