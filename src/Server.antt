-- ===== src/Server.antt =====
-- The listening server: `listen_descriptor` and `accept_wrapper` of src/sacagalib/socket.c, and
-- `thread_management` and `process_management` of src/sacagalib/children.c as the parent runs them
-- (the Linux branches). What `select`, `accept`, `pthread_create` and `fork` answer is a parameter.
pub mod Dispatch
pub mod Reload
pub mod Windows
mod Tests
use sacagawea.Common.{◌==◌, [], if◌then◌else◌, ◌∷◌, List, Bool, ◌++◌, ℕ, Bytes}
use sacagawea.Config.{Settings}
use sacagawea.Gopher.Menu.{snprintf, print_int}
use sacagawea.Children.{Client}

-- One connection that `accept` gives: its descriptor, the address as `inet_ntoa` writes it, the bytes
-- of `sin_port` as they are read by the machine, and whether a thread or a process can be made for it.
pub record Connection : Type 0 where
  pub new_s : ℕ
  pub ip : Bytes
  pub sin_port : ℕ
  pub started : Bool

-- What the server process does with descriptors, `client_args`, threads and processes.
pub data Event : Type 0 where
  allocates : Event
  frees : Event
  closes : ℕ → Event
  starts_thread : Client → Event
  forks : Client → Event

-- The function returns, the process exits with a code, or it does what C leaves undefined.
pub data Ending : Type 0 where
  returned derailed : Ending
  exited : ℕ → Ending

-- Behind a call that may not have come back.
abbrev pub going_on : List Event × Ending → List Event × Ending → List Event × Ending
going_on (events, returned) rest = (events ++ rest.0, rest.1)
going_on (events, derailed) rest = (events, derailed)
going_on (events, exited code) rest = (events, exited code)

abbrev pub addr_maxlen : ℕ
addr_maxlen = 22

pub addr_text : Connection → Bytes
addr_text c = snprintf addr_maxlen (c.ip ++ (b':' ∷ print_int c.sin_port))

-- `client_info` with its copy of the settings.
unfoldable pub client_of : Settings → Connection → Client
client_of s c = record { addr = addr_text c; socket = c.new_s; settings = s }

-- Behind a failed `pthread_create`, `pthread_detach` is given a variable that was never set.
pub thread_management : Client → Bool → List Event × Ending
thread_management client started =
    if started then (starts_thread client ∷ [], returned) else ([], derailed)

-- In the parent; a client whose process cannot be made is only logged.
pub process_management : Client → Bool → List Event
process_management client started =
    if started then forks client ∷ closes client.socket ∷ frees ∷ [] else []

-- The loop of `accept_wrapper`; behind the connections `accept` gives -1.
unfoldable pub accept_wrapper : Settings → List Connection → List Event × Ending
unfolding thread_management process_management client_of
accept_wrapper s [] = (allocates ∷ frees ∷ [], returned)
accept_wrapper s (c ∷ queue) =
    let rest = accept_wrapper s queue in
    let thread = thread_management (client_of s c) c.started in
    if s.mode == b't'
    then going_on (allocates ∷ thread.0, thread.1) rest
    else if s.mode == b'p'
    then (allocates ∷ (process_management (client_of s c) c.started ++ rest.0), rest.1)
    else (allocates ∷ frees ∷ [], exited 5)

-- One pass of that loop behind the copy of the settings, for a connection that `accept` gives.
unfoldable pub accept_one : Settings → Connection → List Event × Ending
unfolding thread_management process_management client_of
accept_one s c =
    if s.mode == b't'
    then thread_management (client_of s c) c.started
    else if s.mode == b'p'
    then (process_management (client_of s c) c.started, returned)
    else (frees ∷ [], exited 5)

-- `select` is interrupted by a signal, fails, has nothing, or has descriptors, the server's or not.
pub data Selected : Type 0 where
  interrupted select_failed none_ready : Selected
  ready : Bool → Selected

unfoldable pub listen_descriptor : Settings → Selected → List Connection → List Event × Ending
unfolding accept_wrapper
listen_descriptor s interrupted queue = ([], returned)
listen_descriptor s select_failed queue = ([], exited 5)
listen_descriptor s none_ready queue = ([], returned)
listen_descriptor s (ready is_set) queue = if is_set then accept_wrapper s queue else ([], returned)
