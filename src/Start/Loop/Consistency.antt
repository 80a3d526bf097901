-- ===== src/Start/Loop/Consistency.antt =====
-- Which sockets listen while clients are served.
use sacagawea.Common.{
  undefined, exits, returns, Process, false, ◌++◌, ◌==◌, true, inr, [], if◌then◌else◌, inl, map,
  ◌∷◌, Bool, ◌≡◌, ℕ, List, Bytes, refl, arith, All,
}
use sacagawea.Effects.{after, pure_process, Trace, ◌>>=◌}
use sacagawea.Config.{Settings}
use sacagawea.Config.Ports.{IsValid}
use sacagawea.Children.{Client}
use sacagawea.Server.{
  derailed, returned, exited, Ending, none_ready, select_failed, interrupted, ready, Event,
  Connection, Selected, accept_wrapper, listen_descriptor,
}
use sacagawea.Server.Dispatch.{served}
use sacagawea.Server.Reload.{
  listens, creates, shuts, binds, SocketCall, universal_handler, universal_handler_moves, Moved,
}
use sacagawea.Start.Setup.{serves, calls_socket, Doing}
use sacagawea.Start.Loop.{
  after_round, thread_begins, wakes, hangs_up, hangs_up_accepting, Round, serve_loop,
}

-- The sockets that are bound, with their ports.
abbrev pub Bound : Type 0
Bound = List (ℕ × ℕ)

abbrev pub unbind : ℕ → Bound → Bound
unbind sd [] = []
unbind sd ((n, port) ∷ bound) = if n == sd then unbind sd bound else (n, port) ∷ unbind sd bound

abbrev pub track : Bound → SocketCall → Bound
track bound (binds sd port) = (sd, port) ∷ bound
track bound (shuts sd) = unbind sd bound
track bound (creates sd) = bound
track bound (listens sd) = bound

abbrev pub track_all : Bound → List SocketCall → Bound
track_all bound [] = bound
track_all bound (call ∷ calls) = track_all (track bound call) calls

-- The one socket that is bound is the one in the settings, to the port in the settings.
abbrev pub Listens : Settings → Bound → Type 0
Listens s bound = bound ≡ (s.socket, s.port) ∷ []

-- Whenever a client is served, the settings that it is given agree with the sockets at that moment.
abbrev pub Consistent : Bound → List Doing → Type 0
Consistent bound [] = Unit
Consistent bound (calls_socket call ∷ t) = Consistent (track bound call) t
Consistent bound (serves events ∷ t) =
    All (λ (c : Client). Listens c.settings bound) (served events) × Consistent bound t
Consistent bound (_ ∷ t) = Consistent bound t

pub map-Consistent :
    (calls : List SocketCall) (bound : Bound) (t : List Doing)
    → Consistent (track_all bound calls) t
    → Consistent bound (map calls_socket calls ++ t)
map-Consistent [] bound t h = h
map-Consistent (call ∷ calls) bound t h = map-Consistent calls (track bound call) t h

-- The clients of one round carry the settings of the round.
accept_wrapper_settings :
    (s : Settings) (queue : List Connection) (bound : Bound)
    → Listens s bound
    → All (λ (c : Client). Listens c.settings bound) (served (accept_wrapper s queue).0)
unfolding accept_wrapper
accept_wrapper_settings s [] bound h = tt
accept_wrapper_settings s (c ∷ queue) bound h =
    ground (arith, accept_wrapper_settings s queue bound h)

listen_descriptor_settings :
    (s : Settings) (selected : Selected) (queue : List Connection) (bound : Bound)
    → Listens s bound
    → All (λ (c : Client). Listens c.settings bound) (served (listen_descriptor s selected queue).0)
unfolding listen_descriptor
listen_descriptor_settings s interrupted queue bound h = tt
listen_descriptor_settings s select_failed queue bound h = tt
listen_descriptor_settings s none_ready queue bound h = tt
listen_descriptor_settings s (ready true) queue bound h = accept_wrapper_settings s queue bound h
listen_descriptor_settings s (ready false) queue bound h = tt

-- A reload leaves one socket bound, that of the new settings.
Moved-Listens :
    (s t : Settings) (calls : List SocketCall) (bound : Bound)
    → Listens s bound
    → Moved s t calls
    → Listens t (track_all bound calls)
Moved-Listens s t calls bound h (inl (none', port, sock)) = rw (none', h, port, sock)
Moved-Listens s t calls bound h (inr moved) = rw (moved, h) (ground arith)

round-Consistent :
    (bound : Bound) (r : List Event × Ending) (rest : Trace Doing (Unit {0}))
    → All (λ (c : Client). Listens c.settings bound) (served r.0)
    → Consistent bound rest.0
    → Consistent bound (after_round r rest).0
round-Consistent bound (events, returned) rest h k = (h, k)
round-Consistent bound (events, exited code) rest h k = (h, tt)
round-Consistent bound (events, derailed) rest h k = (h, tt)

-- SIGHUP does not come while the server accepts.
abbrev pub IsWaiting : Round → Type 0
IsWaiting (hangs_up_accepting before c file a behind) = ⊥
IsWaiting _ = Unit

reload-Consistent :
    (bound : Bound) (p : Process (Settings × List SocketCall))
    (rest : Settings → Trace Doing (Unit {0}))
    → ((t : Settings) (calls : List SocketCall)
        → p ≡ returns (t, calls)
        → Consistent (track_all bound calls) (rest t).0)
    → Consistent bound (pure_process p >>= λ (t, calls). after (map calls_socket calls) (rest t)).0
reload-Consistent bound (returns (t, calls)) rest h =
    map-Consistent calls bound (rest t).0 (h t calls refl)
reload-Consistent bound (exits code) rest h = tt
reload-Consistent bound undefined rest h = tt

pub serve_loop-Consistent :
    (opendir : Bytes → Bool) (rounds : List Round) (s : Settings) (ignores : Bool) (bound : Bound)
    → All IsWaiting rounds
    → IsValid s
    → Listens s bound
    → Consistent bound (serve_loop opendir s ignores rounds).0
unfolding serve_loop
serve_loop-Consistent opendir [] s ignores bound w v h = tt
serve_loop-Consistent opendir (thread_begins ∷ rounds) s ignores bound w v h =
    serve_loop-Consistent opendir rounds s true bound w.1 v h
serve_loop-Consistent opendir (hangs_up file a ∷ rounds) s true bound w v h =
    serve_loop-Consistent opendir rounds s true bound w.1 v h
serve_loop-Consistent opendir (wakes selected queue ∷ rounds) s ignores bound w v h =
    round-Consistent bound (listen_descriptor s selected queue)
      (serve_loop opendir s ignores rounds) (listen_descriptor_settings s selected queue bound h)
      (serve_loop-Consistent opendir rounds s ignores bound w.1 v h)
serve_loop-Consistent opendir (hangs_up file a ∷ rounds) s false bound w v h =
    reload-Consistent bound (universal_handler opendir file a s)
      (λ t. serve_loop opendir t false rounds)
      (λ t calls e.
        let (valid, _, _, _, moved) = universal_handler_moves opendir file a s v e in
        serve_loop-Consistent opendir rounds t false (track_all bound calls) w.1 valid
          (Moved-Listens s t calls bound h moved))
serve_loop-Consistent opendir (hangs_up_accepting before c file a behind ∷ rounds) s ignores bound w
      v h =
    absurd w.0
