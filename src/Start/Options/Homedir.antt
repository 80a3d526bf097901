-- ===== src/Start/Options/Homedir.antt =====
-- The default home directory: the working directory with a slash.
use sacagawea.Common.{
  ◌∙◌, append_assoc, sym, undefined, set, ◌+◌, [], ap, ◌++◌, length-replicate, suc, c_string,
  length-append, ◌-◌, returns, arith, ◌∷◌, ◌≡◌, ◌≤◌, replicate, length, ◌<◌, NoNul, ℕ, Bytes,
}
use sacagawea.Config.{strlen}
use sacagawea.Config.Homedir.{c_string_append, set_end, slashed_string, NoNul-concat}
use sacagawea.Start.Options.{default_homedir, filled, write_at}

-- The array behind the string has two NULs at least.
filled_short :
    (s : Bytes) (n k : ℕ) → n ≡ length s + suc (suc k) → filled n s ≡ s ++ (0 ∷ 0 ∷ replicate k 0)
filled_short s n k e = let left : n - length s ≡ suc (suc k) = omega arith in rw left

write_at_end :
    (s rest : Bytes) (v : ℕ) → write_at (s ++ (0 ∷ rest)) (length s) v ≡ returns (s ++ (v ∷ rest))
unfolding write_at
write_at_end s rest v = ground (arith, length-append s (0 ∷ rest), set_end s rest 0 v)

write_at_within :
    (arr : Bytes) (i v : ℕ) → i < length arr → write_at arr i v ≡ returns (set arr i v)
unfolding write_at
write_at_within arr i v h = ground arith

write_at_past : (arr : Bytes) (i v : ℕ) → length arr ≤ i → write_at arr i v ≡ undefined
unfolding write_at
write_at_past arr i v h = ground arith

strlen-slashed : (s rest : Bytes) → NoNul s → strlen (s ++ (b'/' ∷ 0 ∷ rest)) ≡ length s + 1
strlen-slashed s rest clean =
    ap (λ (b : Bytes). length (c_string b)) (sym (append_assoc s (b'/' ∷ []) (0 ∷ rest)))
    ∙ ap (λ (b : Bytes). length b) (c_string_append (s ++ b'/' ∷ []) rest (NoNul-concat s clean))
    ∙ length-append s (b'/' ∷ [])

-- A working directory of at most 4093 bytes becomes a string with one more slash, also where it ends
-- in one.
pub default_homedir_string :
    (cwd : Bytes)
    → NoNul cwd
    → length cwd ≤ 4093
    → (arr : Bytes) × (default_homedir cwd ≡ returns arr) × (c_string arr ≡ cwd ++ b'/' ∷ [])
unfolding default_homedir
default_homedir_string cwd clean short =
    let k = 4094 - length cwd in
    let zeros = replicate {A = ℕ} k 0 in
    let slashed : Bytes = cwd ++ (b'/' ∷ 0 ∷ zeros) in
    let fits : strlen slashed + 1 < length slashed = omega (
      arith,
      strlen-slashed cwd zeros clean,
      length-append cwd (b'/' ∷ 0 ∷ zeros),
      length-replicate {A = ℕ} k 0,
    ) in
    (
      set slashed (strlen slashed + 1) 0,
      rw
          (
            filled_short cwd 4096 k (omega arith),
            c_string_append cwd (0 ∷ zeros) clean,
            write_at_end cwd (0 ∷ zeros) b'/',
          )
          (write_at_within slashed (strlen slashed + 1) 0 fits),
      slashed_string cwd zeros clean,
    )

-- The longest working directory that `getcwd` can give, of 4094 bytes, is written behind its array.
pub default_homedir_overrun :
    (cwd : Bytes) → NoNul cwd → length cwd ≡ 4094 → default_homedir cwd ≡ undefined
unfolding default_homedir
default_homedir_overrun cwd clean long =
    let slashed : Bytes = cwd ++ (b'/' ∷ 0 ∷ []) in
    let past : length slashed ≤ strlen slashed + 1 =
      omega (arith, strlen-slashed cwd [] clean, length-append cwd (b'/' ∷ 0 ∷ [])) in
    rw
      (
        filled_short cwd 4096 0 (omega arith),
        c_string_append cwd (0 ∷ []) clean,
        write_at_end cwd (0 ∷ []) b'/',
      )
      (write_at_past slashed (strlen slashed + 1) 0 past)
