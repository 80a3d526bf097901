-- ===== src/Handoff/Tests.antt =====
-- A client that is handed over.
use sacagawea.Transfer.{thread_sender_win32, pipe_opens}
use sacagawea.Gopher.Sender.{drain_loop, logs_string, closed}
use sacagawea.Security.{check_security_path}
use sacagawea.Request.{read_request, received}
use sacagawea.Effects.{
  unmaps, maps, shuts_down, writes_pipe, free_input, sent_bytes, Action, writes_pipe, shuts_down,
  maps, sent_bytes, free_input, Action, value, process_exit, crashes, free_args, sends, Run,
}
use sacagawea.Common.{
  str_eq, starts_with, false, ◌++◌, contains, ◌%◌, ◌<◌, ◌-◌, refl, ◌≢◌, ◌^◌, arith, none,
  if◌then◌else◌, ◌≡◌, Option, ◌∷◌, ℕ, true, decimal, some, codes, ◌==◌, List, Bytes, [],
}
use sacagawea.Children.{close_socket_kill_child, Client}
use sacagawea.Handoff.{
  frees_args, closes_socket, closes_mapping, unmaps_view, closes_process, creates_process,
  writes_mapping, creates_mapping, Event, HandoffAnswers, process_management_win32, mp_main,
  Windows, strtoll,
}
use sacagawea.Handoff.Answers.{child_sends_file}
use sacagawea.Children.Windows.{WindowsWorld, management_function_win32}
use sacagawea.Children.Windows.Files.{IsFileRequest}
use sacagawea.Transfer.Whole.{Aligned, at_start, one_more, full}
use sacagawea.Gopher.TypePath.{type_path_win32}
use sacagawea.Handoff.Serves.{
  line_of, IsWindows, HandsOver, process_management-HandsOver, before_process,
}

-- The text behind the first space.
abbrev behind_space : Bytes → Bytes
behind_space [] = []
behind_space (c ∷ s) = if c == b' ' then s else behind_space s

-- What was written to a mapping.
abbrev written : List Event → ℕ → Option Client
written [] h = none
written (writes_mapping g client ∷ t) h = if g == h then some client else written t h
written (e ∷ t) h = written t h

abbrev os : Windows
os = record { argv1 = behind_space; view = written }

os-IsWindows : IsWindows os
os-IsWindows = record {
  splits = λ arg h. refl;
  inherits = λ h client line. let same : (h == h) ≡ true = ground arith in rw same refl;
}

abbrev client : Client
client = record {
  addr = codes "10.0.0.4:1";
  socket = 9;
  settings = record {
    port = 70;
    socket = 3;
    mode = b'p';
    homedir = codes "/srv/\0";
    hostname = codes "h\0";
  };
}

-- A management that replies, frees its arguments and exits.
abbrev manage : Client → Run (Unit {0})
manage c = (sends c.addr ∷ free_args ∷ [], process_exit 0)

abbrev all_well : HandoffAnswers
all_well = record { mapping = some 676; view_ok = true; process_ok = true }

run_handoff : process_management_win32 client all_well ≡ (
  creates_mapping 676
      ∷ writes_mapping 676 client
      ∷ creates_process (codes "sacagawea-mp.exe 676")
      ∷ closes_process
      ∷ unmaps_view
      ∷ closes_mapping 676
      ∷ closes_socket 9
      ∷ frees_args
      ∷ [],
  value tt,
)
unfolding process_management_win32 decimal
run_handoff = refl

run_child :
    mp_main os manage true (before_process client 676) (codes "sacagawea-mp.exe 676")
    ≡ (sends (codes "10.0.0.4:1") ∷ [], crashes)
unfolding mp_main
run_child = refl

negative : strtoll (codes " -12x") ≡ 2 ^ 64 - 12
unfolding strtoll
negative = refl

some-handle : (h : ℕ) → ◌≡◌ {A = Option ℕ} (some 676) (some h) → (h ≢ 0) × (h < 2 ^ 64)
some-handle h e = let f : 676 ≡ h = cc in (omega (arith, f), omega (arith, f))

process_management-HandsOver_example :
    HandsOver os manage client (process_management_win32 client all_well)
process_management-HandsOver_example =
    process_management-HandsOver os manage client all_well os-IsWindows some-handle

-- A file of 10 bytes that is sent in pieces of 4.
abbrev file_world : WindowsWorld
file_world = record {
  winsock_ok = true;
  arrivals = received (codes "a.tx") ∷ received (codes "t\r\n") ∷ [];
  info = λ path. record { exists = true; directory = false; extension = codes ".txt" };
  opendir = λ path. none;
  before_path = 0;
  before_selector = 0;
  load = record {
    create_ok = true;
    size_ok = true;
    mapping_ok = true;
    thread_ok = true;
    close_file_ok = true;
    wait_ok = true;
    close_thread_ok = true;
    close_mapping_ok = true;
  };
  contents = codes "abcdefghij";
  beside = 0;
  sender = record {
    granularity = 4;
    view_ok = λ k. k % 4 == 0;
    sending = full 4 3 [];
    shutdown_ok = true;
    draining = closed ∷ [];
    open_pipe = pipe_opens;
    instance_free = true;
    mode_ok = true;
    write_ok = true;
  };
  date = codes "[d]";
}

Aligned-mod : {k : ℕ} → Aligned 4 k → k % 4 ≡ 0
Aligned-mod at_start = refl
Aligned-mod (one_more {k} h) = omega (arith, Aligned-mod h)

file_request : IsFileRequest client file_world (codes "a.txt") [] 3 []
unfolding contains starts_with check_security_path type_path_win32 str_eq
file_request = record {
  winsock = refl;
  sent = refl;
  one_line = refl;
  line_fits = omega arith;
  path_fits = omega arith;
  allowed = refl;
  no_menu = refl;
  no_error = refl;
  loaded = record {
    created = refl;
    sized = refl;
    mapped = refl;
    started = refl;
    file_closed = refl;
    waited = refl;
  };
  served = record {
    granular = record {
      positive = omega arith;
      seen = λ k h. ground (arith, Aligned-mod h);
      unseen = λ k n h low high. ground (arith, Aligned-mod h);
    };
    answers = refl;
    enough = omega arith;
  };
  drained = refl;
}

run_file : management_function_win32 client file_world ≡ (
  maps 4
      ∷ sends (codes "abcd")
      ∷ unmaps
      ∷ maps 4
      ∷ sends (codes "efgh")
      ∷ unmaps
      ∷ maps 2
      ∷ sends (codes "ij")
      ∷ unmaps
      ∷ shuts_down
      ∷ writes_pipe (codes "[d] /srv/a.txt 10 B 10.0.0.4:1\n")
      ∷ free_input
      ∷ free_args
      ∷ [],
  process_exit 0,
)
unfolding management_function_win32 read_request check_security_path contains starts_with
    type_path_win32 str_eq thread_sender_win32 logs_string decimal drain_loop
    close_socket_kill_child
run_file = refl

child_sends_file_example :
    (process_management_win32 client all_well ≡ (
      before_process client 676
          ++ (closes_process
              ∷ unmaps_view
              ∷ closes_mapping 676
              ∷ closes_socket 9
              ∷ frees_args
              ∷ []),
      value tt,
    ))
    × ((t : List Action) × (mp_main os
            (λ d. management_function_win32 d file_world)
            true
            (before_process client 676)
            (line_of 676)
          ≡ (t ++ (free_input ∷ []), crashes))
        × (sent_bytes t ≡ codes "abcdefghij"))
child_sends_file_example =
    child_sends_file os client file_world 676 (codes "a.txt") [] 3 [] os-IsWindows (omega arith)
      (omega arith) file_request
