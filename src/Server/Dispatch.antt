-- ===== src/Server/Dispatch.antt =====
-- What becomes of the connections that wait.
use sacagawea.Common.{
  ◌&&◌, ◌||◌, true, Bool, ◌==◌, length-append, take_all, ◌++◌, refl, ◌<◌, [], ◌≤◌, ◌+◌,
  if◌then◌else◌, suc, length, ◌≡◌, ℕ, ◌∷◌, List, arith,
}
use sacagawea.Config.{Settings}
use sacagawea.Config.Ports.{IsValid}
use sacagawea.Gopher.Menu.{print_int}
use sacagawea.Gopher.Menu.Lines.{length-print_int}
use sacagawea.Children.{Client}
use sacagawea.Server.{
  derailed, frees, allocates, forks, returned, closes, starts_thread, addr_text, Connection, Event,
  accept_wrapper, client_of,
}

-- The clients that are handed to a thread or a process, in order.
abbrev pub served : List Event → List Client
served [] = []
served (starts_thread c ∷ events) = c ∷ served events
served (forks c ∷ events) = c ∷ served events
served (_ ∷ events) = served events

-- The descriptors that the server process closes, in order.
abbrev pub closed_sockets : List Event → List ℕ
closed_sockets [] = []
closed_sockets (closes n ∷ events) = n ∷ closed_sockets events
closed_sockets (_ ∷ events) = closed_sockets events

abbrev pub allocations : List Event → ℕ
allocations [] = 0
allocations (allocates ∷ events) = suc (allocations events)
allocations (_ ∷ events) = allocations events

abbrev pub releases : List Event → ℕ
releases [] = 0
releases (frees ∷ events) = suc (releases events)
releases (_ ∷ events) = releases events

-- The clients that are handed on: in process mode those for which a process could be made, and in thread
-- mode those in front of the first one for which no thread could be made.
abbrev pub clients : Settings → List Connection → List Client
clients s [] = []
clients s (c ∷ queue) =
    let rest = clients s queue in
    if c.started then client_of s c ∷ rest else if s.mode == b'p' then rest else []

abbrev pub all_started : List Connection → Bool
all_started [] = true
all_started (c ∷ queue) = c.started && all_started queue

abbrev pub started_sockets : List Connection → List ℕ
started_sockets [] = []
started_sockets (c ∷ queue) =
    if c.started then c.new_s ∷ started_sockets queue else started_sockets queue

-- With valid settings the connections that wait are handed on once each, in order, with their own
-- descriptors and a copy of the settings: in process mode all for which a process could be made, and the
-- function comes back to the caller; in thread mode those in front of the first one for which no thread
-- could be made, where what happens is undefined, and the function comes back if there is none.
pub accept_wrapper_serves :
    (s : Settings) (queue : List Connection)
    → IsValid s
    → (served (accept_wrapper s queue).0 ≡ clients s queue)
      × ((accept_wrapper s queue).1
          ≡ (if s.mode == b'p' || all_started queue then returned else derailed))
unfolding accept_wrapper
accept_wrapper_serves s [] v = ground arith
accept_wrapper_serves s (c ∷ queue) v =
    ground (arith, v.mode_known, accept_wrapper_serves s queue v)

-- In process mode the server closes its copy of the descriptor of every client for which a process was
-- made, and of no other; what it allocated is freed for these clients and for the last round, which
-- found no connection, but for no client whose process could not be made.
pub accept_wrapper_balance :
    (s : Settings) (queue : List Connection)
    → s.mode ≡ b'p'
    → (closed_sockets (accept_wrapper s queue).0 ≡ started_sockets queue)
      × (allocations (accept_wrapper s queue).0 ≡ length queue + 1)
      × (releases (accept_wrapper s queue).0 ≡ length (started_sockets queue) + 1)
unfolding accept_wrapper
accept_wrapper_balance s [] p = (refl, refl, refl)
accept_wrapper_balance s (c ∷ queue) p = ground (arith, accept_wrapper_balance s queue p)

-- An address of at most 15 characters with a port of 16 bits fits into `addr` with its NUL, so the
-- client's address is never cut.
pub client_of_addr :
    (s : Settings) (c : Connection)
    → length c.ip ≤ 15
    → c.sin_port < 65536
    → (client_of s c).addr ≡ c.ip ++ (b':' ∷ print_int c.sin_port)
unfolding client_of addr_text
client_of_addr s c h l =
    take_all 21 (c.ip ++ (b':' ∷ print_int c.sin_port))
      (omega (arith, length-append c.ip (b':' ∷ print_int c.sin_port), length-print_int c.sin_port))
