-- ===== src/PipeLogger/Transfers.antt =====
-- From the transfers of Windows to sacagawea.log: the senders of gopher.c and the log process of
-- logger.c, with the messages that the one writes and the other reads.
use sacagawea.Common.{
  Option-cases, ◌++◌, ◌∷◌, [], ◌≡◌, ◌≢◌, ◌≤◌, ◌<◌, ◌⊎◌, ◌∙◌, inl, inr, List, Bytes, All, All-append,
  NoNul, length, length-append, arith, some, none, true, false, ap, sym, append_assoc, append-nil,
  returns, decimal,
}
use sacagawea.Effects.{sent_bytes}
use sacagawea.Handoff.Number.{IsNumeral, decimal-IsNumeral}
use sacagawea.Gopher.Sender.{Job, log_text}
use sacagawea.Gopher.Sender.Delivery.{logs}
use sacagawea.Gopher.Sender.Message.{length-decimal}
use sacagawea.Logs.Messages.{lines}
use sacagawea.Children.Windows.{path_max_win32}
use sacagawea.Transfer.{SenderAnswers, thread_sender_win32}
use sacagawea.Transfer.Messages.{written, silent-written, AtMost, thread_sender_win32-AtMost}
use sacagawea.Transfer.Pieces.{thread_sender_win32_delivers}
use sacagawea.PipeLogger.{Round, Logger, bufsize, max_pipes, log_rounds}
use sacagawea.PipeLogger.Refine.{IsRound, zeros, append_all, log_rounds_refine}

-- The texts are strings, the date has its fixed form, and the path and the address have room in their
-- arrays.
pub record IsPrintable (j : Job) : Type 0 where
  pub date_clean : NoNul j.date
  pub path_clean : NoNul j.path_file
  pub addr_clean : NoNul j.addr
  pub date_short : length j.date ≤ 22
  pub path_short : length j.path_file < path_max_win32
  pub addr_short : length j.addr < 22

-- A message that the array of the log process holds with its NUL.
abbrev Fits : Bytes → Type 0
Fits text = NoNul text × (length text < bufsize)

numeral-NoNul : (s : Bytes) → IsNumeral s → NoNul s
numeral-NoNul [] h = absurd h
numeral-NoNul (c ∷ s) (first, rest) = (omega (arith, first), digits s rest)
  where
    digits : (s : Bytes) → All (λ c. (b'0' ≤ c) × (c ≤ b'9')) s → NoNul s
    digits [] h = tt
    digits (c ∷ s) (first, h) = (omega (arith, first), digits s h)

append-NoNul : (s t : Bytes) → NoNul s → NoNul t → NoNul (s ++ t)
append-NoNul = All-append (λ c. c ≢ 0)

log_text-Fits : (j : Job) → IsPrintable j → Fits (log_text j)
log_text-Fits j p =
    let size = decimal (length j.file_to_send) in
    (
      append-NoNul j.date _ p.date_clean (
        omega arith,
        append-NoNul j.path_file _ p.path_clean (
          omega arith,
          append-NoNul size _ (numeral-NoNul size (decimal-IsNumeral (length j.file_to_send))) (
            omega arith,
            (
              omega arith,
              (omega arith, append-NoNul j.addr (b'\n' ∷ []) p.addr_clean (omega arith, tt)),
            ),
          ),
        ),
      ),
      simp length-append (
          omega (
            arith,
            length-decimal (length j.file_to_send),
            p.date_short,
            p.path_short,
            p.addr_short,
          )),
    )

-- The lines of some of the transfers, in their order: each stands for a file that was sent whole.
pub data WholeLines : List (SenderAnswers × Job) → List Bytes → Type 0 where
  no_transfers : WholeLines [] []
  no_line :
      (a : SenderAnswers) (j : Job) {rest : List (SenderAnswers × Job)} {texts : List Bytes}
      → WholeLines rest texts
      → WholeLines ((a, j) ∷ rest) texts
  line :
      (a : SenderAnswers) (j : Job) {rest : List (SenderAnswers × Job)} {texts : List Bytes}
      → sent_bytes (thread_sender_win32 a j).0 ≡ j.file_to_send
      → WholeLines rest texts
      → WholeLines ((a, j) ∷ rest) (log_text j ∷ texts)

-- The messages of some transfers, in order.
abbrev pub messages_of : List (SenderAnswers × Job) → List Bytes
messages_of [] = []
messages_of ((a, j) ∷ transfers) = written (thread_sender_win32 a j).0 ++ messages_of transfers

abbrev pub AllPrintable : List (SenderAnswers × Job) → Type 0
AllPrintable transfers = All (λ (t : SenderAnswers × Job). IsPrintable t.1) transfers

messages_of-WholeLines :
    (transfers : List (SenderAnswers × Job))
    → AllPrintable transfers
    → WholeLines transfers (messages_of transfers) × All Fits (messages_of transfers)
messages_of-WholeLines [] h = (no_transfers, tt)
messages_of-WholeLines ((a, j) ∷ transfers) (printable, h) =
    let (whole, fits) = messages_of-WholeLines transfers h in
    go (thread_sender_win32_delivers a j) (thread_sender_win32-AtMost a j) whole fits
  where
    go :
        ((rest : Bytes) × (j.file_to_send ≡ sent_bytes (thread_sender_win32 a j).0 ++ rest)
          × ((logs (thread_sender_win32 a j).0 ≡ false) ⊎ (rest ≡ [])))
        → AtMost j (written (thread_sender_win32 a j).0)
        → WholeLines transfers (messages_of transfers)
        → All Fits (messages_of transfers)
        → WholeLines ((a, j) ∷ transfers) (messages_of ((a, j) ∷ transfers))
          × All Fits (messages_of ((a, j) ∷ transfers))
    go (rest, e, inl silent) most whole fits =
        rw (silent-written _ silent) (no_line a j whole, fits)
    go (rest, e, inr none') (inl quiet) whole fits = rw quiet (no_line a j whole, fits)
    go (rest, e, inr none') (inr one) whole fits = rw one (
      line a j (sym (e ∙ ap (◌++◌ (sent_bytes (thread_sender_win32 a j).0)) none' ∙ append-nil _))
          whole,
      (log_text-Fits j printable, fits),
    )

-- The event is one of the 64, and sacagawea.log can be opened and written.
pub record Writes (r : Round) : Type 0 where
  pub pipe_lt : r.which_pipe < max_pipes
  pub file_opens : r.file.create_ok ≡ true
  pub file_written : r.file.write_ok ≡ true

-- The messages that are read, in order.
abbrev pub reads : List Round → List Bytes
reads [] = []
reads (r ∷ rounds) = elim r.read [ none ↦ reads rounds | some message ↦ message ∷ reads rounds ]

reads-IsRound :
    (rounds : List Round) → All Writes rounds → All Fits (reads rounds) → All IsRound rounds
reads-IsRound [] h fits = tt
reads-IsRound (r ∷ rounds) (writes, h) fits = elim (Option-cases r.read) [
  | inl e ↦ (
    record { pipe_lt = writes.pipe_lt; file_opens = writes.file_opens; plain = λ message f. cc },
    reads-IsRound rounds h (rw e at fits),
  )
  | inr (message, e) ↦
      let both : Fits message × All Fits (reads rounds) = rw e at fits in
      (
        record {
          pipe_lt = writes.pipe_lt;
          file_opens = writes.file_opens;
          plain = λ other f. let same : message ≡ other = cc in rw same at both.0;
        },
        reads-IsRound rounds h both.1,
      )
]

append_all-reads :
    (rounds : List Round) (log : Bytes)
    → All Writes rounds
    → append_all rounds log ≡ log ++ lines (reads rounds)
append_all-reads [] log h = sym (append-nil log)
append_all-reads (r ∷ rounds) log (writes, h) = elim (Option-cases r.read) [
  | inl e ↦ rw e (append_all-reads rounds log h)
  | inr (message, e) ↦
      rw (e, writes.file_written)
        (append_all-reads rounds (log ++ message) h
          ∙ append_assoc log message (lines (reads rounds)))
]

-- From an empty array, if the log process reads the messages of some transfers in their order and can
-- always open and write sacagawea.log, it goes on for ever, and the file gets whole lines only: date, path,
-- size and address of transfers whose files were sent whole, in the order of the transfers, and no line
-- of another. The date has at most 22 bytes, the path and the address fit their arrays, and all three are
-- strings.
pub transfers_logged :
    (transfers : List (SenderAnswers × Job)) (rounds : List Round) (l : Logger)
    → l.request ≡ zeros
    → AllPrintable transfers
    → All Writes rounds
    → reads rounds ≡ messages_of transfers
    → (t : Logger) × (log_rounds rounds l ≡ returns t)
      × ((texts : List Bytes) × WholeLines transfers texts × (t.log ≡ l.log ++ lines texts))
transfers_logged transfers rounds l clean printable writes same =
    let (whole, fits) = messages_of-WholeLines transfers printable in
    let (t, ran, _, log) =
      log_rounds_refine rounds l clean (reads-IsRound rounds writes (rw same fits)) in
    (
      t,
      ran,
      (
        messages_of transfers,
        whole,
        log
            ∙ append_all-reads rounds l.log writes
            ∙ ap (λ (texts : List Bytes). l.log ++ lines texts) same,
      ),
    )
