-- ===== src/Server/Windows/Cleanup.antt =====
-- The listening socket of Windows.
use sacagawea.Common.{
  refl, none, false, ap, some, inl, Option, arith, inr, ◌⊎◌, take_all, true, ◌∷◌, All, ◌≡◌, ◌<◌,
  Bytes, ℕ, Bool, List, [],
}
use sacagawea.Effects.{pure, process_exit, ◌>>◌, value, Trace}
use sacagawea.Config.{Settings}
use sacagawea.Gopher.Menu.{print_int}
use sacagawea.Gopher.Menu.Lines.{length-print_int}
use sacagawea.Server.Windows.{
  frees_address, binds_to, sets_reuse, cleans_winsock, resolves_port, sets_nonblocking,
  closes_listener, starts_winsock, creates_socket, listens_on, WinsockCall, WinsockAnswers, or_undo,
  port_to_string, listen_with, open_socket_win32,
}

abbrev pub NoListen : WinsockCall → Type 0
NoListen (listens_on sd) = ⊥
NoListen c = Unit

-- All the calls were made, or the process ends with 1 and no socket listens.
abbrev pub Opens : List WinsockCall → ℕ → Trace WinsockCall ℕ → Type 0
Opens calls sd r = (r ≡ (calls, value sd)) ⊎ ((r.1 ≡ process_exit 1) × All NoListen r.0)

Opens-more :
    (ok : Bool) (call : WinsockCall) (undo calls : List WinsockCall) (sd : ℕ)
    (r : Trace WinsockCall ℕ)
    → NoListen call
    → All NoListen undo
    → Opens calls sd r
    → Opens (call ∷ calls) sd (or_undo ok call undo >> r)
Opens-more false call undo calls sd r h g next = inr (refl, g)
Opens-more true call undo calls sd r h g (inl e) =
    inl (ap (λ (x : Trace WinsockCall ℕ). (call ∷ x.0, x.1)) e)
Opens-more true call undo calls sd r h g (inr (e, f)) = inr (e, (h, f))

last-Opens :
    (ok : Bool) (sd : ℕ)
    → Opens
        (listens_on sd ∷ [])
        sd
        (or_undo ok (listens_on sd) (closes_listener sd ∷ cleans_winsock ∷ []) >> pure sd)
last-Opens false sd = inr (refl, (tt, (tt, tt)))
last-Opens true sd = inl refl

abbrev pub listen_calls : ℕ → Bytes → List WinsockCall
listen_calls sd port =
    creates_socket sd
    ∷ sets_nonblocking sd
    ∷ sets_reuse sd
    ∷ binds_to sd port
    ∷ frees_address
    ∷ listens_on sd
    ∷ []

listen_with-Opens :
    (a : WinsockAnswers) (port : Bytes) (sd : ℕ)
    → Opens (listen_calls sd port) sd (listen_with a port sd)
unfolding listen_with
listen_with-Opens a port sd = Opens-more true (creates_socket sd) [] _ sd _ tt tt (
    Opens-more a.nonblock_ok (sets_nonblocking sd) [] _ sd _ tt tt (
      Opens-more a.reuse_ok (sets_reuse sd) (closes_listener sd ∷ cleans_winsock ∷ []) _ sd _ tt
        (tt, (tt, tt))
        (Opens-more a.bind_ok (binds_to sd port)
          (frees_address ∷ closes_listener sd ∷ cleans_winsock ∷ []) _ sd _ tt (tt, (tt, (tt, tt)))
          (Opens-more true frees_address [] _ sd _ tt tt (last-Opens a.listen_ok sd)))))

port_to_string_whole : (s : Settings) → s.port < 100000 → port_to_string s ≡ print_int s.port
unfolding port_to_string
port_to_string_whole s h = take_all 14 (print_int s.port) (omega (arith, length-print_int s.port h))

-- For a port of at most five digits: whatever Winsock answers, the socket that is returned does not
-- block, is bound to the address of the port, written out whole, and listens; or the process ends with
-- 1 and no socket listens.
pub open_socket_win32-Opens :
    (a : WinsockAnswers) (s : Settings)
    → s.port < 100000
    → (sd : ℕ) × Opens
        (starts_winsock ∷ resolves_port (print_int s.port) ∷ listen_calls sd (print_int s.port))
        sd
        (open_socket_win32 a s)
unfolding open_socket_win32
open_socket_win32-Opens a s h = go a.listen_socket
  where
    go :
        (o : Option ℕ)
        → (sd : ℕ) × Opens
            (starts_winsock ∷ resolves_port (print_int s.port) ∷ listen_calls sd (print_int s.port))
            sd
            (open_socket_win32 (record a { listen_socket = o }) s)
    go none = (
      0,
      rw (port_to_string_whole s h) (
          Opens-more a.startup_ok starts_winsock [] _ 0 _ tt tt (
            Opens-more a.resolve_ok (resolves_port (print_int s.port)) (cleans_winsock ∷ []) _ 0 _
              tt (tt, tt) (inr (refl, (tt, (tt, tt)))))),
    )
    go (some sd) = (
      sd,
      rw (port_to_string_whole s h) (
          Opens-more a.startup_ok starts_winsock [] _ sd _ tt tt (
            Opens-more a.resolve_ok (resolves_port (print_int s.port)) (cleans_winsock ∷ []) _ sd _
              tt (tt, tt) (listen_with-Opens a (print_int s.port) sd))),
    )
