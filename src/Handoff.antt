-- ===== src/Handoff.antt =====
-- How Windows hands a client to a process of its own: `process_management` of
-- src/sacagalib/children.c and `main` of src/sacagalib/win32-multiprocess/mp.c. The server writes the
-- client into a file mapping that the child inherits, and gives its handle on the command line. What
-- the calls of Windows answer is a parameter.
pub mod Number
pub mod Serves
pub mod Answers
mod Tests
use sacagawea.Regex.{is_space}
use sacagawea.Effects.{
  after, crashes, value, free_args, pure_process, process_exit, ◌>>=◌, Stop, stop, do_action,
  Action, ◌>>◌, Run, Trace,
}
use sacagawea.Common.{
  undefined, ◌%◌, returns, leb, not, some, length, ◌-◌, decimal, ◌∷◌, ◌^◌, ◌==◌, ◌++◌, ltb, none,
  Process, codes, if◌then◌else◌, List, Bool, Option, Bytes, ℕ, [],
}
use sacagawea.Start.Options.{Sign, plus, minus, digits_value}
use sacagawea.Children.{Client}

-- `%I64d` of the 64 bits of a handle.
pub long_long : ℕ → Bytes
long_long h = if ltb h (2 ^ 63) then decimal h else b'-' ∷ decimal (2 ^ 64 - h)

-- `strtoll(s, NULL, 10)`: white space, a sign and digits; a number out of range becomes the nearest
-- one in range. The result is the 64 bits.
pub long_long_value : Sign → ℕ → ℕ
long_long_value plus n = if ltb n (2 ^ 63) then n else 2 ^ 63 - 1
long_long_value minus n = if leb n (2 ^ 63) then (2 ^ 64 - n) % 2 ^ 64 else 2 ^ 63

pub strtoll : Bytes → ℕ
unfolding long_long_value digits_value
strtoll [] = 0
strtoll (c ∷ s) =
    let rest = strtoll s in
    if is_space c
    then rest
    else if c == b'-'
    then long_long_value minus (digits_value 0 s)
    else if c == b'+'
    then long_long_value plus (digits_value 0 s)
    else long_long_value plus (digits_value 0 (c ∷ s))

abbrev pub cmdline_size : ℕ
cmdline_size = 64

abbrev pub program : Bytes
program = codes "sacagawea-mp.exe"

-- `sprintf` into `szCmdline`, with its NUL.
pub cmdline : ℕ → Process Bytes
unfolding long_long
cmdline h =
    let text = program ++ (b' ' ∷ long_long h) in
    if ltb (length text) cmdline_size then returns text else undefined

-- What the server does, with the handle of the mapping.
pub data Event : Type 0 where
  creates_mapping : ℕ → Event
  writes_mapping : ℕ → Client → Event
  creates_process : Bytes → Event
  closes_process : Event
  unmaps_view : Event
  closes_mapping : ℕ → Event
  closes_socket : ℕ → Event
  frees_args : Event

-- The handle that `CreateFileMappingA` gives, and whether `MapViewOfFile` and `CreateProcess` succeed.
-- A failure of the calls behind them is only logged.
pub record HandoffAnswers : Type 0 where
  pub mapping : Option ℕ
  pub view_ok : Bool
  pub process_ok : Bool

-- With a view of the mapping.
unfoldable pub hand_over : Client → Bool → ℕ → Trace Event (Unit {0})
unfolding cmdline
hand_over client process_ok h = do
  do_action (writes_mapping h client)
  line ← pure_process (cmdline h)
  if process_ok then do_action (creates_process line) else stop (process_exit 1)
  (
    closes_process ∷ unmaps_view ∷ closes_mapping h ∷ closes_socket client.socket ∷ frees_args ∷ [],
    value tt,
  )

unfoldable pub process_management_win32 : Client → HandoffAnswers → Trace Event (Unit {0})
unfolding hand_over
process_management_win32 client a = elim a.mapping [
  | none ↦ stop (process_exit 1)
  | some h ↦ do
    do_action (creates_mapping h)
    if a.view_ok then hand_over client a.process_ok h else stop (process_exit 1)
]

-- What the child sees of the system: the first argument in a command line, and the contents of an
-- inherited mapping, given what the server did.
pub record Windows : Type 0 where
  pub argv1 : Bytes → Bytes
  pub view : List Event → ℕ → Option Client

-- The run up to the end of the arguments: `free` of a variable of `main` is undefined.
unfoldable pub frees_local : List Action → Stop (Unit {0}) → Run (Unit {0})
frees_local [] s = ([], s)
frees_local (free_args ∷ t) s = ([], crashes)
frees_local (a ∷ t) s = after (a ∷ []) (frees_local t s)

-- `main` of the child, where `manage` is `management_function`. A view of the mapping, or none.
pub mp_main : Windows → (Client → Run (Unit {0})) → Bool → List Event → Bytes → Run (Unit {0})
unfolding strtoll frees_local
mp_main os manage handler_ok done line =
    let h = strtoll (os.argv1 line) in
    if h == 0
    then stop (process_exit 1)
    else if not handler_ok
    then stop (process_exit 1)
    else elim (os.view done h) [
      | none ↦ stop (process_exit 1)
      | some c ↦ frees_local (manage c).0 (manage c).1 >> stop (process_exit 1)
    ]
