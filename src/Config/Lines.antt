-- ===== src/Config/Lines.antt =====
-- The loop over the file reads all of it, line by line.
use sacagawea.Common.{
  ==_iff, ◌==◌, Bool-cases, inl, inr, last_or, All, ◌⊎◌, ◌-◌, refl, ◌≢◌, zero, ◌≡◌, [], arith, ◌<◌,
  ◌≤◌, ◌++◌, suc, length, fgets, ◌∷◌, Bytes, ℕ, List,
}
use sacagawea.Config.{all_lines, max_line_size, conf_lines}

abbrev pub join_lines : List Bytes → Bytes
join_lines [] = []
join_lines (line ∷ lines) = line ++ join_lines lines

fgets_splits : (n : ℕ) (s : Bytes) → (fgets n s).0 ++ (fgets n s).1 ≡ s
fgets_splits zero s = refl
fgets_splits (suc n) [] = refl
fgets_splits (suc n) (c ∷ s) = ground (arith, fgets_splits n s)

fgets_rest : (n c : ℕ) (s : Bytes) → length (fgets (suc n) (c ∷ s)).1 ≤ length s
fgets_rest zero c s = ground arith
fgets_rest (suc n) c [] = ground arith
fgets_rest (suc n) c (d ∷ s) = ground (arith, fgets_rest n d s)

-- A newline stands at the end only.
abbrev pub NewlineLast : Bytes → Type 0
NewlineLast [] = Unit
NewlineLast (c ∷ s) = ((s ≡ []) ⊎ (c ≢ b'\n')) × NewlineLast s

-- What the loop sees of one line: not empty, at most 511 bytes, and a newline only at its end.
abbrev pub IsLine : Bytes → Type 0
IsLine line = (0 < length line) × (length line ≤ 511) × NewlineLast line

fgets_line : (n : ℕ) (s : Bytes) → (length (fgets n s).0 ≤ n) × NewlineLast (fgets n s).0
fgets_line zero s = (omega arith, tt)
fgets_line (suc n) [] = (omega arith, tt)
fgets_line (suc n) (c ∷ s) = ground (arith, fgets_line n s)

fgets_pos : (n c : ℕ) (s : Bytes) → 0 < length (fgets (suc n) (c ∷ s)).0
fgets_pos n c s = ground arith

conf_lines-IsLine : (fuel : ℕ) (s : Bytes) → All IsLine (conf_lines fuel s)
unfolding conf_lines
conf_lines-IsLine zero s = tt
conf_lines-IsLine (suc fuel) [] = tt
conf_lines-IsLine (suc fuel) (c ∷ s) =
    let (le, last) = fgets_line 511 (c ∷ s) in
    ((fgets_pos 510 c s, le, last), conf_lines-IsLine fuel (fgets 511 (c ∷ s)).1)

conf_lines_all : (fuel : ℕ) (s : Bytes) → length s ≤ fuel → join_lines (conf_lines fuel s) ≡ s
unfolding conf_lines
conf_lines_all zero [] h = refl
conf_lines_all zero (c ∷ s) h = absurd (omega arith)
conf_lines_all (suc fuel) [] h = refl
conf_lines_all (suc fuel) (c ∷ s) h =
    rw
      (conf_lines_all fuel (fgets (max_line_size - 1) (c ∷ s)).1
        (omega (arith, fgets_rest 510 c s)))
      (fgets_splits 511 (c ∷ s))

-- Every line but the last one ends in a newline or fills the buffer.
abbrev pub Full : List Bytes → Type 0
Full [] = Unit
Full (line ∷ []) = Unit
Full (line ∷ next ∷ lines) = ((last_or 0 line ≡ b'\n') ⊎ (length line ≡ 511)) × Full (next ∷ lines)

last_or-more : (c : ℕ) (s : Bytes) → last_or 0 s ≡ b'\n' → last_or 0 (c ∷ s) ≡ b'\n'
last_or-more c [] h = ground arith
last_or-more c (d ∷ s) h = h

fgets_stops :
    (n : ℕ) (s : Bytes)
    → ((fgets n s).1 ≡ []) ⊎ ((last_or 0 (fgets n s).0 ≡ b'\n') ⊎ (length (fgets n s).0 ≡ n))
fgets_stops zero s = inr (inr refl)
fgets_stops (suc n) [] = inl refl
fgets_stops (suc n) (c ∷ s) = elim (Bool-cases (c == b'\n')) [
  | inl ends ↦ rw ends (inr (inl ((==_iff c b'\n').0 ends)))
  | inr more ↦ elim (fgets_stops n s) [
    | inl all ↦ inl (rw more all)
    | inr (inl last) ↦ inr (inl (rw more (last_or-more c (fgets n s).0 last)))
    | inr (inr full) ↦ inr (inr (rw (more, full) refl))
  ]
]

Full-more :
    (line : Bytes) (lines : List Bytes)
    → (lines ≡ []) ⊎ ((last_or 0 line ≡ b'\n') ⊎ (length line ≡ 511))
    → Full lines
    → Full (line ∷ lines)
Full-more line [] h full = tt
Full-more line (next ∷ lines) (inl none') full = cc
Full-more line (next ∷ lines) (inr stops) full = (stops, full)

conf_lines_end : (fuel : ℕ) (s : Bytes) → s ≡ [] → conf_lines fuel s ≡ []
unfolding conf_lines
conf_lines_end zero s h = refl
conf_lines_end (suc fuel) [] h = refl
conf_lines_end (suc fuel) (c ∷ s) h = cc

conf_lines-Full : (fuel : ℕ) (s : Bytes) → Full (conf_lines fuel s)
unfolding conf_lines
conf_lines-Full zero s = tt
conf_lines-Full (suc fuel) [] = tt
conf_lines-Full (suc fuel) (c ∷ s) =
    let rest = (fgets 511 (c ∷ s)).1 in
    Full-more (fgets 511 (c ∷ s)).0 (conf_lines fuel rest)
      (elim (fgets_stops 511 (c ∷ s)) [
        | inl all ↦ inl (conf_lines_end fuel rest all)
        | inr stops ↦ inr stops
      ])
      (conf_lines-Full fuel rest)

-- The loop of `read_and_check_conf` sees all bytes that the reads of the file give: its lines put together
-- are these bytes, and each
-- is what `fgets` may give with an array of 512 bytes: from 1 to 511 bytes with a newline nowhere but at
-- the end, and every line but the last one ends in a newline or has 511 bytes.
pub all_lines_join :
    (text : Bytes)
    → (join_lines (all_lines text) ≡ text) × All IsLine (all_lines text) × Full (all_lines text)
all_lines_join text = (
  conf_lines_all (length text) text (omega arith),
  conf_lines-IsLine (length text) text,
  conf_lines-Full (length text) text,
)
