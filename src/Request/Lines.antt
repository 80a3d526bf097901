-- ===== src/Request/Lines.antt =====
-- What `read_request` hands over, and which requests it accepts, said of the text that was sent.
use sacagawea.Common.{
  take_all, length-append, take-append-drop, take_right, sym, drop, List, Bool, ◌<◌, ◌≤◌,
  length-take, append_assoc, ◌∙◌, take_left, ◌+◌, false, length, starts_with, ◌-◌, contains, refl,
  zero, [], ap, inr, arith, inl, ◌&&◌, Option-cases, ◌==◌, suc, Bool-cases, none, ◌++◌, take, ◌∷◌,
  some, ◌≡◌, ℕ, codes, Bytes,
}
use sacagawea.Request.Scan.{line_end, line_end-lt}
use sacagawea.Request.Stream.{answer, stream, ended, read_request-answer}
use sacagawea.Request.{request, Arrival, read_request}

abbrev pub crlf : Bytes
crlf = codes "\r\n"

line_end_split :
    (s : Bytes) (p i : ℕ)
    → line_end p s ≡ some i
    → (b : Bytes) × (p ∷ s ≡ take i (p ∷ s) ++ (crlf ++ b))
line_end_split [] p i h = cc
line_end_split (c ∷ s) p i h = elim (Bool-cases (p == b'\r' && c == b'\n')) [
  | inl found ↦ (s, ground arith)
  | inr further ↦ elim (Option-cases (line_end c s)) [
    | inl e ↦ absurd (ground arith)
    | inr (j, e) ↦
        let (b, split) = line_end_split s c j e in
        let i_is : i ≡ suc j = ground arith in (b, rw i_is (ap (◌∷◌ p) split))
  ]
]

-- A part in front of a line end has no line end.
line_end-take :
    (s : Bytes) (p i j : ℕ) → line_end p s ≡ some i → j ≤ i → line_end p (take j s) ≡ none
line_end-take [] p i j h l = cc
line_end-take (c ∷ s) p i zero h l = refl
line_end-take (c ∷ s) p i (suc j) h l = elim (Option-cases (line_end c s)) [
  | inl e ↦ ground arith
  | inr (k, e) ↦ ground (arith, line_end-take s c k j)
]

-- The two ways to say that a text has no line end.
line_end-contains : (s : Bytes) (p : ℕ) → line_end p s ≡ none → contains crlf (p ∷ s) ≡ false
unfolding contains starts_with
line_end-contains [] p h = ground arith
line_end-contains (c ∷ s) p h = elim (Option-cases (line_end c s)) [
  | inl e ↦ ground (arith, line_end-contains s c e)
  | inr (j, e) ↦ absurd (ground arith)
]

contains-line_end :
    (s b : Bytes) (p : ℕ)
    → contains crlf (p ∷ s) ≡ false
    → line_end p (s ++ (crlf ++ b)) ≡ some (length s + 1)
unfolding contains starts_with
contains-line_end [] b p h = ground arith
contains-line_end (c ∷ s) b p h = ground (arith, contains-line_end s b c)

no_crlf : (s : Bytes) → line_end 0 s ≡ none → contains crlf s ≡ false
unfolding contains
no_crlf s h = ground (arith, line_end-contains s 0 h)

-- The line in front of the first line end of `t`, which is the start of the stream `t ++ u`.
line_end_line :
    (t u : Bytes) (i : ℕ)
    → line_end 0 t ≡ some i
    → (b : Bytes) × (t ++ u ≡ take (i - 1) (t ++ u) ++ (crlf ++ b))
      × (i ≡ length (take (i - 1) (t ++ u)) + 1)
      × (contains crlf (take (i - 1) (t ++ u)) ≡ false)
line_end_line t u zero h = let (b, split) = line_end_split t 0 0 h in absurd (ground arith)
line_end_line t u (suc k) h =
    let within = line_end-lt 0 t (suc k) h in
    let (b, split) = line_end_split t 0 (suc k) h in
    let e : suc k - 1 ≡ k = omega arith in
    let cut : t ≡ take k t ++ (crlf ++ b) = ground arith in
    let same = take_left k t u (omega arith) in
    (
      b ++ u,
      rw (e, same)
          (ap (λ (x : Bytes). x ++ u) cut ∙ rw (append_assoc (take k t) (crlf ++ b) u) refl),
      rw (e, same) (omega (arith, length-take k t)),
      rw (e, same) (no_crlf (take k t) (line_end-take t 0 (suc k) k h (omega arith))),
    )

abbrev IsRequest : ℕ → Bytes → Bytes → ℕ → Type 0
IsRequest buflen s line n =
    (rest : Bytes) × (s ≡ line ++ (crlf ++ rest))
    × (contains crlf line ≡ false)
    × (n ≡ length line + 1)
    × (n < buflen)

reply_sound :
    (buflen : ℕ) (s : Bytes) (end : Bool) {line : Bytes} {n : ℕ}
    → answer buflen s end ≡ request line n
    → IsRequest buflen s line n
reply_sound buflen s end {line} {n} h = elim (Option-cases (line_end 0 (take buflen s))) [
  | inl e ↦ absurd (ground arith)
  | inr (i, e) ↦
      let (b, split, i_is, clean) = line_end_line (take buflen s) (drop buflen s) i e in
      let whole = take-append-drop buflen s in
      let line_is : line ≡ take (i - 1) s = ground arith in
      let n_is : n ≡ i = ground arith in
      let within = line_end-lt 0 (take buflen s) i e in
      (
        b,
        rw line_is (rw whole at split),
        rw line_is (rw whole at clean),
        rw (line_is, n_is) (rw whole at i_is),
        omega (arith, length-take buflen s),
      )
]

-- A request that is handed over is the text that was sent in front of the first "\r\n", whole and
-- unchanged; the number returned counts it and its NUL, and is less than the size of the buffer.
pub read_request_sound :
    (buflen : ℕ) (arrivals : List Arrival) {line : Bytes} {n : ℕ}
    → read_request buflen arrivals ≡ request line n
    → (rest : Bytes) × (stream arrivals ≡ line ++ (crlf ++ rest))
      × (contains crlf line ≡ false)
      × (n ≡ length line + 1)
      × (n < buflen)
read_request_sound buflen arrivals h =
    reply_sound buflen (stream arrivals) (ended arrivals)
      (sym (read_request-answer buflen arrivals) ∙ h)

from_start : (s : Bytes) → contains crlf s ≡ false → contains crlf (0 ∷ s) ≡ false
unfolding contains starts_with
from_start s h = ground arith

reply_complete :
    (buflen : ℕ) (line rest : Bytes) (end : Bool)
    → contains crlf line ≡ false
    → length line + 2 ≤ buflen
    → answer buflen (line ++ (crlf ++ rest)) end ≡ request line (length line + 1)
reply_complete buflen line rest end clean fits =
    let tail = take (buflen - length (line ++ crlf)) rest in
    let cut = take_right buflen (line ++ crlf) rest (omega (arith, length-append line crlf)) in
    let cut' : take buflen (line ++ (crlf ++ rest)) ≡ line ++ (crlf ++ tail) =
      rw (append_assoc line crlf rest, append_assoc line crlf tail) at cut in
    let e : length line + 1 - 1 ≡ length line = omega arith in
    rw (cut', contains-line_end line tail 0 (from_start line clean), e)
      (ap (λ (b : Bytes). request b (length line + 1))
        (take_left (length line) line (crlf ++ rest) (omega arith)
          ∙ take_all (length line) line (omega arith)))

-- Every line that fits into the buffer with its "\r\n" is handed over, however it arrives, and what
-- the client sends behind it changes nothing.
pub read_request_complete :
    (buflen : ℕ) (arrivals : List Arrival) (line rest : Bytes)
    → stream arrivals ≡ line ++ (crlf ++ rest)
    → contains crlf line ≡ false
    → length line + 2 ≤ buflen
    → read_request buflen arrivals ≡ request line (length line + 1)
read_request_complete buflen arrivals line rest sent clean fits =
    read_request-answer buflen arrivals
    ∙ rw sent (reply_complete buflen line rest (ended arrivals) clean fits)
