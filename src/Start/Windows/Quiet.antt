-- ===== src/Start/Windows/Quiet.antt =====
-- Which sockets of Windows are bound while clients are served: how sequences of calls compose.
use sacagawea.Common.{
  All, map, if◌then◌else◌, ◌==◌, ◌≡◌, ◌++◌, ◌∷◌, [], List, Bytes, ℕ, refl, Process, returns, exits,
  undefined,
}
use sacagawea.Effects.{Trace, ◌>>=◌, value, thread_exit, process_exit, waits, crashes, pure_process}
use sacagawea.Gopher.Menu.{print_int}
use sacagawea.Config.{Settings}
use sacagawea.Children.{Client}
use sacagawea.Server.Windows.{WinsockCall, closes_listener, binds_to}
use sacagawea.Server.Windows.Accept.Served.{given}
use sacagawea.Start.Windows.{calls_winsock, serves_win32, WindowsDoing}

-- The sockets that are bound, with the ports in digits.
abbrev pub BoundWin32 : Type 0
BoundWin32 = List (ℕ × Bytes)

abbrev pub unbind_win32 : ℕ → BoundWin32 → BoundWin32
unbind_win32 sd [] = []
unbind_win32 sd ((n, port) ∷ bound) =
    let rest = unbind_win32 sd bound in if n == sd then rest else (n, port) ∷ rest

abbrev pub step : BoundWin32 → WindowsDoing → BoundWin32
step bound (calls_winsock (binds_to sd port)) = (sd, port) ∷ bound
step bound (calls_winsock (closes_listener sd)) = unbind_win32 sd bound
step bound _ = bound

abbrev pub steps : BoundWin32 → List WindowsDoing → BoundWin32
steps bound [] = bound
steps bound (d ∷ t) = steps (step bound d) t

-- The one socket that is bound is the one in the settings, to the port in the settings.
abbrev pub ListensWin32 : Settings → BoundWin32 → Type 0
ListensWin32 s bound = bound ≡ (s.socket, print_int s.port) ∷ []

-- The settings that a client is given agree with the sockets.
abbrev pub Agrees : BoundWin32 → WindowsDoing → Type 0
Agrees bound (serves_win32 events) =
    All (λ (c : Client). ListensWin32 c.settings bound) (given events)
Agrees bound _ = Unit

-- Whenever a client is given to a thread or to a process, at that moment.
abbrev pub ConsistentWin32 : BoundWin32 → List WindowsDoing → Type 0
ConsistentWin32 bound [] = Unit
ConsistentWin32 bound (d ∷ t) = Agrees bound d × ConsistentWin32 (step bound d) t

pub append-ConsistentWin32 :
    (t u : List WindowsDoing) (bound : BoundWin32)
    → ConsistentWin32 bound t
    → ConsistentWin32 (steps bound t) u
    → ConsistentWin32 bound (t ++ u)
append-ConsistentWin32 [] u bound h k = k
append-ConsistentWin32 (d ∷ t) u bound h k = (h.0, append-ConsistentWin32 t u (step bound d) h.1 k)

pub bind-ConsistentWin32 {ℓ κ} :
    {A : Type ℓ} {B : Type κ} (m : Trace WindowsDoing A) (f : A → Trace WindowsDoing B)
    (bound : BoundWin32)
    → ConsistentWin32 bound m.0
    → ((a : A) → m.1 ≡ value a → ConsistentWin32 (steps bound m.0) (f a).0)
    → ConsistentWin32 bound (m >>= f).0
bind-ConsistentWin32 (t, value a) f bound h k = append-ConsistentWin32 t (f a).0 bound h (k a refl)
bind-ConsistentWin32 (t, thread_exit) f bound h k = h
bind-ConsistentWin32 (t, process_exit code) f bound h k = h
bind-ConsistentWin32 (t, waits) f bound h k = h
bind-ConsistentWin32 (t, crashes) f bound h k = h

-- Neither a client is served nor a socket bound.
abbrev pub IsQuietWin32 : WindowsDoing → Type 0
IsQuietWin32 (serves_win32 events) = ⊥
IsQuietWin32 (calls_winsock (binds_to sd port)) = ⊥
IsQuietWin32 _ = Unit

quiet-Agrees : (d : WindowsDoing) → IsQuietWin32 d → Agrees [] d × (step [] d ≡ [])
quiet-Agrees (serves_win32 events) h = absurd h
quiet-Agrees (calls_winsock (binds_to sd port)) h = absurd h
quiet-Agrees (calls_winsock (closes_listener sd)) h = (tt, refl)
quiet-Agrees (calls_winsock _) h = (tt, refl)
quiet-Agrees _ h = (tt, refl)

pub quiet-ConsistentWin32 :
    (t : List WindowsDoing) → All IsQuietWin32 t → ConsistentWin32 [] t × (steps [] t ≡ [])
quiet-ConsistentWin32 [] h = (tt, refl)
quiet-ConsistentWin32 (d ∷ t) h =
    let (agrees, same) = quiet-Agrees d h.0 in
    let (rest, still) = quiet-ConsistentWin32 t h.1 in ((agrees, rw same rest), rw same still)

pub winsock-ConsistentWin32 :
    (calls : List WinsockCall) (bound : BoundWin32)
    → ConsistentWin32 bound (map calls_winsock calls)
winsock-ConsistentWin32 [] bound = tt
winsock-ConsistentWin32 (call ∷ calls) bound =
    (tt, winsock-ConsistentWin32 calls (step bound (calls_winsock call)))

pub process-IsQuietWin32 {ℓ} :
    {A : Type ℓ} (p : Process A) → All IsQuietWin32 (pure_process {E = WindowsDoing} p).0
process-IsQuietWin32 (returns a) = tt
process-IsQuietWin32 (exits code) = tt
process-IsQuietWin32 undefined = tt
