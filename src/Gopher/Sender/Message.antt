-- ===== src/Gopher/Sender/Message.antt =====
-- The line for the log fits into what is allocated for it.
use sacagawea.Common.{
  zero, ◌∷◌, ◌%◌, ◌/◌, length-append, [], suc, take_all, arith, ◌+◌, ◌≤◌, digits, ◌≡◌, length,
  Bytes, decimal, ℕ,
}
use sacagawea.Gopher.Sender.{log_text, Job, logs_string}

length-digits : (f n : ℕ) (out : Bytes) → length (digits f n out) ≤ length out + f
length-digits zero n out = omega arith
length-digits (suc f) n out = ground (arith, length-digits f (n / 10) ((b'0' + n % 10) ∷ out))

pub length-decimal : (n : ℕ) → length (decimal n) ≤ 20
unfolding decimal
length-decimal n = omega (arith, length-digits 20 n [])

-- Whatever the date, the path, the address and the file are, the line for the log is not cut: it is the
-- whole text, date, path, size with its unit and address, and it ends in its newline.
pub logs_string_whole : (j : Job) → logs_string j ≡ log_text j
unfolding logs_string
logs_string_whole j =
    take_all _ (log_text j)
      (simp length-append (omega (arith, length-decimal (length j.file_to_send))))
