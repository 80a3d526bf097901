-- ===== src/Request/Stream.antt =====
-- `read_request` against the byte stream that the arrivals carry.
use sacagawea.Common.{
  ◌==◌, drop_all, take_nil, length-take, append_assoc, ◌∙◌, inr, take-append-drop, inl, sym,
  Bool-cases, ap, append-nil, drop, take_right, refl, ◌||◌, length-append, leb, take_all,
  if◌then◌else◌, take_left, arith, ◌-◌, none, [], ◌≡◌, take, some, true, ◌++◌, length, Option,
  false, ◌≤◌, Bool, ◌∷◌, Bytes, ℕ, List,
}
use sacagawea.Request.{
  waiting, failed, scan, finish, would_block, refused, request, Outcome, received, Arrival, receive,
  read_request,
}
use sacagawea.Request.Scan.{line_end_skip, line_end-append, line_end-lt, line_end, scan-line_end}

-- The bytes that arrive before the connection ends or fails, and whether it does.
abbrev pub stream : List Arrival → Bytes
stream [] = []
stream (received [] ∷ rest) = []
stream (received (c ∷ bytes) ∷ rest) = (c ∷ bytes) ++ stream rest
stream (would_block ∷ rest) = stream rest
stream (failed ∷ rest) = []

abbrev pub ended : List Arrival → Bool
ended [] = false
ended (received [] ∷ rest) = true
ended (received (c ∷ bytes) ∷ rest) = ended rest
ended (would_block ∷ rest) = ended rest
ended (failed ∷ rest) = true

-- What a request is, said of the whole stream: the text in front of the first "\r\n" of the first
-- `buflen` bytes; a stream that is longer, or that ends, without one is refused.
abbrev pub reply : ℕ → Bytes → Bool → Option ℕ → Outcome
reply buflen s end (some i) = request (take (i - 1) s) i
reply buflen s end none = if leb buflen (length s) || end then refused else waiting

abbrev pub answer : ℕ → Bytes → Bool → Outcome
answer buflen s end = reply buflen s end (line_end 0 (take buflen s))

-- The two agree on a buffer that is full and has no line end.
receive_full :
    (buflen : ℕ) (arrivals : List Arrival) (buf : Bytes)
    → buflen ≤ length buf
    → receive buflen arrivals buf ≡ refused
unfolding receive
receive_full buflen [] buf h = ground arith
receive_full buflen (received bytes ∷ rest) buf h = ground arith
receive_full buflen (would_block ∷ rest) buf h = ground arith
receive_full buflen (failed ∷ rest) buf h = refl

answer_full :
    (buflen : ℕ) (buf s : Bytes) (end : Bool)
    → length buf ≡ buflen
    → line_end 0 buf ≡ none
    → answer buflen (buf ++ s) end ≡ refused
answer_full buflen buf s end h e =
    rw (take_left buflen buf s (omega arith), take_all buflen buf (omega arith), e)
      (ground (arith, length-append buf s))

-- One successful `recv` into a buffer `buf` with no line end, `got` being what was received, not
-- nothing, `s` what the stream holds behind it, and `again` the rest of the loop.
receive_round :
    (buflen : ℕ) (buf got s : Bytes) (end : Bool) (again : Outcome)
    → length (buf ++ got) ≤ buflen
    → line_end 0 buf ≡ none
    → (line_end 0 (buf ++ got) ≡ none → again ≡ answer buflen ((buf ++ got) ++ s) end)
    → finish (buf ++ got) (scan (length got) (buf ++ got) (length buf)) again
      ≡ answer buflen ((buf ++ got) ++ s) end
receive_round buflen buf got s end again fits clean ih =
    rw (scan-line_end got buf, ← line_end_skip 0 buf got clean)
      (split (line_end 0 (buf ++ got)) refl)
  where
    split :
        (o : Option ℕ)
        → line_end 0 (buf ++ got) ≡ o
        → finish (buf ++ got) (line_end 0 (buf ++ got)) again
          ≡ answer buflen ((buf ++ got) ++ s) end
    split none e = rw (e, finish) (ih e)
    split (some i) e =
        let within = line_end-lt 0 (buf ++ got) i e in
        rw (
          take_right buflen (buf ++ got) s fits,
          e,
          line_end-append 0 (buf ++ got) (take (buflen - length (buf ++ got)) s) i e,
          take_left (i - 1) (buf ++ got) s (omega arith),
        )

-- With a room of its own for the bytes of one arrival, the rest of the stream follows them.
stream_cut :
    (room : ℕ) (buf bytes rest : Bytes)
    → buf ++ (bytes ++ rest) ≡ (buf ++ take room bytes) ++ (drop room bytes ++ rest)
stream_cut room buf bytes rest =
    ap (λ (b : Bytes). buf ++ (b ++ rest)) (sym (take-append-drop room bytes)) ∙ simp append_assoc

-- What `recv` leaves behind is never read: the buffer is full then.
receive_on :
    (buflen : ℕ) (rest : List Arrival) (buf bytes : Bytes)
    → line_end 0 (buf ++ take (buflen - length buf) bytes) ≡ none
    → length buf ≤ buflen
    → (line_end 0 (buf ++ take (buflen - length buf) bytes) ≡ none
        → receive buflen rest (buf ++ take (buflen - length buf) bytes)
          ≡ answer buflen ((buf ++ take (buflen - length buf) bytes) ++ stream rest) (ended rest))
    → receive buflen rest (buf ++ take (buflen - length buf) bytes)
      ≡ answer buflen
          ((buf ++ take (buflen - length buf) bytes)
            ++ (drop (buflen - length buf) bytes ++ stream rest))
          (ended rest)
receive_on buflen rest buf bytes clean fits ih =
    let room = buflen - length buf in
    let l = length-take room bytes in
    let m = length-append buf (take room bytes) in
    elim (Bool-cases (leb (length bytes) room)) [
      | inl all ↦ rw (drop_all room bytes (ground arith)) (ih clean)
      | inr more ↦
          let full : length (buf ++ take room bytes) ≡ buflen = ground arith in
          receive_full buflen rest (buf ++ take room bytes) (omega arith)
          ∙ sym (
              answer_full buflen (buf ++ take room bytes) (drop room bytes ++ stream rest)
                (ended rest) full clean)
    ]

receive-answer :
    (buflen : ℕ) (arrivals : List Arrival) (buf : Bytes)
    → length buf ≤ buflen
    → line_end 0 buf ≡ none
    → receive buflen arrivals buf ≡ answer buflen (buf ++ stream arrivals) (ended arrivals)
unfolding receive
receive-answer buflen [] buf fits clean =
    rw (append-nil, take_all buflen buf fits, clean) (ground arith)
receive-answer buflen (failed ∷ rest) buf fits clean =
    rw (append-nil, take_all buflen buf fits, clean) (ground arith)
receive-answer buflen (received [] ∷ rest) buf fits clean =
    rw (append-nil, take_all buflen buf fits, clean, take_nil {A = ℕ} (buflen - length buf))
      (ground arith)
receive-answer buflen (would_block ∷ rest) buf fits clean =
    elim (Bool-cases (leb buflen (length buf))) [
      | inl full ↦
          rw full (sym (answer_full buflen buf (stream rest) (ended rest) (ground arith) clean))
      | inr room ↦ rw room (receive-answer buflen rest buf fits clean)
    ]
receive-answer buflen (received (c ∷ bytes) ∷ rest) buf fits clean =
    elim (Bool-cases (leb buflen (length buf))) [
      | inl full ↦ rw full (
          sym (
            answer_full buflen buf (stream (received (c ∷ bytes) ∷ rest)) (ended rest)
              (ground arith) clean))
      | inr room ↦
          rw (room, stream_cut (buflen - length buf) buf (c ∷ bytes) (stream rest))
            (let got = take (buflen - length buf) (c ∷ bytes) in
              let l = length-take (buflen - length buf) (c ∷ bytes) in
              let fits' : length (buf ++ got) ≤ buflen = ground (arith, length-append buf got) in
              let some_bytes : (length got == 0) ≡ false = ground arith in
              rw some_bytes (
                receive_round buflen buf got (drop (buflen - length buf) (c ∷ bytes) ++ stream rest)
                  (ended rest) (receive buflen rest (buf ++ got)) fits' clean
                  (λ e.
                    receive_on buflen rest buf (c ∷ bytes) e fits
                      (receive-answer buflen rest (buf ++ got) fits'))))
    ]

-- `read_request` answers by the byte stream alone, however the packets cut it up and however often
-- `recv` would have blocked in between.
pub read_request-answer :
    (buflen : ℕ) (arrivals : List Arrival)
    → read_request buflen arrivals ≡ answer buflen (stream arrivals) (ended arrivals)
unfolding read_request
read_request-answer buflen arrivals = receive-answer buflen arrivals [] (omega arith) refl
