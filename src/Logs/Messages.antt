-- ===== src/Logs/Messages.antt =====
-- What the log process reads is what the senders wrote.
use sacagawea.Gopher.Sender.{int_bytes}
use sacagawea.Common.{
  c_string, c_string_clean, NoNul, sym, drop-length, false, none, take-length, ltb, All,
  length-append, Option, drop_split, take_split, ap, append_assoc, refl, ◌∙◌, [], zero, length-drop,
  ◌-◌, min, ◌∷◌, suc, append-nil, drop, arith, take, ◌++◌, some, ◌≡◌, ◌^◌, length, ◌<◌, ◌≤◌, Bytes,
  ℕ, List,
}
use sacagawea.Logs.{write_line, message, log_one, int_of, read_loop, log_loop}

read_loop_reads :
    (sizes : List ℕ) (want : ℕ) (pipe got : Bytes) {line rest : Bytes}
    → want ≤ length pipe
    → read_loop sizes want pipe got ≡ some (line, rest)
    → (line ≡ got ++ take want pipe) × (rest ≡ drop want pipe)
unfolding read_loop
read_loop_reads sizes zero pipe got h e = ground (arith, append-nil got)
read_loop_reads [] (suc want) pipe got h e = cc
read_loop_reads (k ∷ sizes) (suc want) pipe got {line} {rest} h e =
    let n = min (suc k) (min (suc want) (length pipe)) in
    let (l, r) =
      read_loop_reads sizes (suc want - n) (drop n pipe) (got ++ take n pipe)
        (omega (arith, length-drop n pipe)) e in
    (
      l
          ∙ append_assoc got (take n pipe) (take (suc want - n) (drop n pipe))
          ∙ ap (◌++◌ got) (take_split n (suc want) pipe (omega arith)),
      r ∙ drop_split n (suc want) pipe (omega arith),
    )

int_of-int_bytes : (n : ℕ) (s : Bytes) → n < 2 ^ 32 → int_of (int_bytes n ++ s) ≡ n
int_of-int_bytes n s h = omega arith

-- Every call of `read` gives something, so as many calls as bytes are enough.
read_loop_ends :
    (sizes : List ℕ) (want : ℕ) (pipe got : Bytes)
    → want ≤ length pipe
    → want ≤ length sizes
    → (r : Bytes × Bytes) × (read_loop sizes want pipe got ≡ some r)
unfolding read_loop
read_loop_ends sizes zero pipe got h l = ((got, pipe), refl)
read_loop_ends [] (suc want) pipe got h l = absurd (omega arith)
read_loop_ends (k ∷ sizes) (suc want) pipe got h l =
    let n = min (suc k) (min (suc want) (length pipe)) in
    read_loop_ends sizes (suc want - n) (drop n pipe) (got ++ take n pipe)
      (omega (arith, length-drop n pipe)) (omega arith)

-- A string whose length fits into the `int` that announces it.
pub record IsShort (text : Bytes) : Type 0 where
  pub clean : NoNul text
  pub length_lt : length text < 2 ^ 31

log_one_step :
    (sizes : List ℕ) (text rest log : Bytes)
    → IsShort text
    → log_one sizes (message text ++ rest) log
      ≡ write_line log (read_loop sizes (length text) (text ++ rest) [])
unfolding log_one
log_one_step sizes text rest log h =
    let long : ltb (length (message text ++ rest)) 4 ≡ false = ground arith in
    rw (long, int_of-int_bytes (length text) [] (omega (arith, h.length_lt)))

-- One message at the front of the pipe is one line of the log.
log_one-message :
    (sizes : List ℕ) (text rest log : Bytes) {r : Bytes × Bytes}
    → IsShort text
    → log_one sizes (message text ++ rest) log ≡ some r
    → r ≡ (rest, log ++ text)
log_one-message sizes text rest log {r} h e =
    split (read_loop sizes (length text) (text ++ rest) []) refl
      (sym (log_one_step sizes text rest log h) ∙ e)
  where
    split :
        (o : Option (Bytes × Bytes))
        → read_loop sizes (length text) (text ++ rest) [] ≡ o
        → write_line log o ≡ some r
        → r ≡ (rest, log ++ text)
    split none f g = cc
    split (some (line, left)) f g =
        let (l, m) =
          read_loop_reads sizes (length text) (text ++ rest) []
            (omega (arith, length-append text rest)) f in
        cc (l, m, take-length text rest, drop-length text rest, c_string_clean text h.clean)

-- With one answer of `read` for each byte, the line is read.
log_one_ends :
    (sizes : List ℕ) (text rest log : Bytes)
    → IsShort text
    → length text ≤ length sizes
    → log_one sizes (message text ++ rest) log ≡ some (rest, log ++ text)
log_one_ends sizes text rest log h l =
    let ((line, left), e) =
      read_loop_ends sizes (length text) (text ++ rest) [] (omega (arith, length-append text rest))
        l in
    let f : log_one sizes (message text ++ rest) log ≡ some (left, log ++ c_string line) =
      log_one_step sizes text rest log h ∙ ap (write_line log) e in
    f ∙ ap some (log_one-message sizes text rest log h f)

-- The messages of some lines, in order.
abbrev pub messages : List Bytes → Bytes
messages [] = []
messages (text ∷ texts) = message text ++ messages texts

abbrev pub lines : List Bytes → Bytes
lines [] = []
lines (text ∷ texts) = text ++ lines texts

-- The lines that are counted are logged in order, and the rest of the pipe is left alone.
pub log_loop-messages :
    (sizes : List (List ℕ)) (texts : List Bytes) (rest log : Bytes) {r : Bytes × Bytes}
    → All IsShort texts
    → log_loop (length texts) sizes (messages texts ++ rest) log ≡ some r
    → r ≡ (rest, log ++ lines texts)
unfolding log_loop
log_loop-messages sizes [] rest log h e = ground (arith, append-nil log)
log_loop-messages [] (text ∷ texts) rest log h e = cc
log_loop-messages (one ∷ sizes) (text ∷ texts) rest log {r} h e =
    split (log_one one (message text ++ (messages texts ++ rest)) log) refl
      (rw (append_assoc text (messages texts) rest) at e)
      (log_loop-messages sizes texts rest (log ++ text) {r = r} h.1)
  where
    split :
        (o : Option (Bytes × Bytes))
        → log_one one (message text ++ (messages texts ++ rest)) log ≡ o
        → (elim o [ none ↦ none | some (pipe', log') ↦ log_loop (length texts) sizes pipe' log' ])
          ≡ some r
        → (log_loop (length texts) sizes (messages texts ++ rest) (log ++ text) ≡ some r
            → r ≡ (rest, (log ++ text) ++ lines texts))
        → r ≡ (rest, log ++ lines (text ∷ texts))
    split none f g ih = cc
    split (some (pipe', log')) f g ih =
        let p = log_one-message one text (messages texts ++ rest) log h.0 f in
        let p0 : pipe' ≡ messages texts ++ rest = ap (λ (x : Bytes × Bytes). x.0) p in
        let p1 : log' ≡ log ++ text = ap (λ (x : Bytes × Bytes). x.1) p in
        ih (rw (p0, p1) at g) ∙ ap (λ (b : Bytes). (rest, b)) (append_assoc log text (lines texts))

-- One answer of `read` for each byte of each line.
abbrev pub Enough : List (List ℕ) → List Bytes → Type 0
Enough sizes [] = Unit
Enough [] (text ∷ texts) = ⊥
Enough (one ∷ sizes) (text ∷ texts) = (length text ≤ length one) × Enough sizes texts

pub log_loop_ends :
    (sizes : List (List ℕ)) (texts : List Bytes) (rest log : Bytes)
    → All IsShort texts
    → Enough sizes texts
    → log_loop (length texts) sizes (messages texts ++ rest) log ≡ some (rest, log ++ lines texts)
unfolding log_loop
log_loop_ends sizes [] rest log h n = rw append-nil
log_loop_ends [] (text ∷ texts) rest log h n = absurd n
log_loop_ends (one ∷ sizes) (text ∷ texts) rest log h n =
    let e = log_one_ends one text (messages texts ++ rest) log h.0 n.0 in
    rw (append_assoc text (messages texts) rest, e, log_loop)
      (log_loop_ends sizes texts rest (log ++ text) h.1 n.1
        ∙ ap (λ (b : Bytes). some (rest, b)) (append_assoc log text (lines texts)))
