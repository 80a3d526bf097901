-- ===== src/Children/Opens.antt =====
-- Which files the answer to a client opens.
use sacagawea.Loader.Release.{give_back-All}
use sacagawea.Common.{
  c_string, undefined, ◌+◌, exits, ◌-◌, leb, returns, true, none, inr, inl, length, if◌then◌else◌,
  ◌==◌, Process, Option, Bool, Bool-cases, ◌∷◌, All, List, some, false, ℕ, ◌++◌, ◌≢◌, ◌≡◌, last_or,
  Bytes, refl, arith, [],
}
use sacagawea.Effects.{
  unmaps, closes_file, unlocks, do_action, pure, process_exit, bind-All, stop, join, opens, Run,
  Action, pure_process,
}
use sacagawea.Security.{check_security_path}
use sacagawea.Security.Walk.{separator, components, walk, dot_dot}
use sacagawea.Security.Traversal.{check_security_path_inside}
use sacagawea.Gopher.TypePath.{type_path}
use sacagawea.Gopher.Menu.{send_content_of_dir}
use sacagawea.Gopher.Sender.Quiet.{IsSending, thread_sender-IsSending}
use sacagawea.Loader.{FileAnswers, load_file_memory_and_send, send_mapped, send_locked}
use sacagawea.Request.{refused, waiting, request, read_request, Outcome}
use sacagawea.Children.Answers.{home}
use sacagawea.Children.{
  path_max, max_request_len, Client, World, close_socket_kill_child, send_menu, reply, serve_path,
  serve, manage, management_function,
}

-- A selector that stays at or below the directory in front of it, unless its last component is "..",
-- also if a backslash separates components too.
abbrev pub Stays : Bytes → Type 0
Stays selector =
    (on_windows : Bool)
    → last_or [] (components (separator on_windows) selector) ≢ dot_dot
    → (depth : ℕ) × (walk 0 (components (separator on_windows) selector) ≡ some depth)

-- The file that is opened, if one is, is the home directory and an allowed selector.
abbrev pub OpensAllowed : Client → Action → Type 0
OpensAllowed c (opens path) =
    (selector : Bytes) × (path ≡ home c ++ selector)
    × (check_security_path path ≡ false)
    × Stays selector
OpensAllowed c _ = Unit

sending-OpensAllowed : (c : Client) (t : List Action) → All IsSending t → All (OpensAllowed c) t
sending-OpensAllowed c [] h = tt
sending-OpensAllowed c (opens p ∷ t) h = absurd h.0
sending-OpensAllowed c (_ ∷ t) h = (tt, sending-OpensAllowed c t h.1)

close-OpensAllowed :
    (c : Client) (code : ℕ) → All (OpensAllowed c) (close_socket_kill_child c code).0
unfolding close_socket_kill_child
close-OpensAllowed c code = elim (Bool-cases (c.settings.mode == b't')) [
  | inl thread ↦ rw thread (tt, (tt, tt))
  | inr process ↦ rw process (tt, tt)
]

send_mapped-OpensAllowed :
    (c : Client) (f : FileAnswers) (r : Run (Unit {0}))
    → All (OpensAllowed c) r.0
    → All (OpensAllowed c) (send_mapped f r).0
unfolding send_mapped
send_mapped-OpensAllowed c f r h =
    bind-All (OpensAllowed c) (if f.unlock_ok then do_action unlocks else stop (process_exit 1)) _
      (ground arith)
      λ _.
        bind-All (OpensAllowed c)
          (if f.close_ok then do_action closes_file else stop (process_exit 1)) _ (ground arith)
          λ _.
            bind-All (OpensAllowed c) (if f.create_ok then join r else stop (process_exit 1)) _
              (created f.create_ok)
              λ _.
                bind-All (OpensAllowed c) (if f.join_ok then pure tt else stop (process_exit 1)) _
                  (ground arith)
                  λ _.
                    bind-All (OpensAllowed c)
                      (if f.munmap_ok then do_action unmaps else stop (process_exit 1)) _
                      (ground arith) λ _. tt
  where
    created : (ok : Bool) → All (OpensAllowed c) (if ok then join r else stop (process_exit 1)).0
    created true = h
    created false = tt

load-OpensAllowed :
    (c : Client) (f : FileAnswers) (sender : Bytes → Run (Unit {0})) (path : Bytes)
    → OpensAllowed c (opens path)
    → ((b : Bytes) → All (OpensAllowed c) (sender b).0)
    → All (OpensAllowed c) (load_file_memory_and_send f sender path).0
unfolding load_file_memory_and_send send_locked
load-OpensAllowed c f sender path allowed h = elim (Bool-cases f.open_ok) [
  | inr missing ↦ rw missing tt
  | inl opened ↦ elim (Bool-cases f.lock_ok) [
    | inr busy ↦ rw (opened, busy) (allowed, tt)
    | inl locked ↦ rw (opened, locked) (allowed, (tt, go f.contents))
  ]
]
  where
    go : (o : Option Bytes) → All (OpensAllowed c) (send_locked f sender o).0
    go none = give_back-All (OpensAllowed c) f tt tt
    go (some contents) = elim (Bool-cases (f.mmap_ok (length contents))) [
      | inr bad ↦ rw bad (give_back-All (OpensAllowed c) f tt tt)
      | inl good ↦ rw good (tt, send_mapped-OpensAllowed c f (sender contents) (h contents))
    ]

menu-OpensAllowed : (c : Client) (p : Process (Option Bytes)) → All (OpensAllowed c) (send_menu p).0
unfolding send_menu
menu-OpensAllowed c (returns none) = tt
menu-OpensAllowed c (returns (some menu)) = (tt, tt)
menu-OpensAllowed c (exits code) = tt
menu-OpensAllowed c undefined = tt

reply-OpensAllowed :
    (c : Client) (w : World) (path input : Bytes) (type : ℕ)
    → OpensAllowed c (opens path)
    → All (OpensAllowed c) (reply c w path input type).0
unfolding reply
reply-OpensAllowed c w path input type allowed = elim (Bool-cases (type == b'1')) [
  | inl menu ↦ rw menu (menu-OpensAllowed c (send_content_of_dir _ _ _))
  | inr other ↦ elim (Bool-cases (type == b'3')) [
    | inl error ↦ rw (other, error) (tt, tt)
    | inr file ↦
        rw (other, file)
          (bind-All (OpensAllowed c) (load_file_memory_and_send w.file _ path) (λ _. pure tt)
            (load-OpensAllowed c w.file _ path allowed
              (λ b. sending-OpensAllowed c _ (thread_sender-IsSending w.sender _)))
            (λ _. tt))
  ]
]

serve_path-OpensAllowed :
    (c : Client) (w : World) (selector input : Bytes)
    → All (OpensAllowed c) (serve_path c w (home c ++ selector) input).0
unfolding serve_path
serve_path-OpensAllowed c w selector input =
    elim (Bool-cases (check_security_path (home c ++ selector))) [
      | inl bad ↦ rw bad (tt, close-OpensAllowed c 0)
      | inr good ↦ rw good (
          bind-All (OpensAllowed c) (pure_process (type_path w.popen w.stale (home c ++ selector)))
            _ (typed (type_path w.popen w.stale (home c ++ selector)))
            λ type.
              bind-All (OpensAllowed c) (reply c w (home c ++ selector) input type) _
                (reply-OpensAllowed c w (home c ++ selector) input type (
                  selector,
                  refl,
                  good,
                  λ on_windows. check_security_path_inside on_windows (home c) selector good,
                ))
                λ _. (tt, close-OpensAllowed c 0))
    ]
  where
    typed : (p : Process ℕ) → All (OpensAllowed c) (pure_process {E = Action} p).0
    typed (returns type) = tt
    typed (exits code) = tt
    typed undefined = tt

manage-OpensAllowed : (c : Client) (w : World) (o : Outcome) → All (OpensAllowed c) (manage c w o).0
unfolding manage serve
manage-OpensAllowed c w waiting = tt
manage-OpensAllowed c w refused = close-OpensAllowed c 0
manage-OpensAllowed c w (request line n) =
    elim (Bool-cases (leb path_max (length (home c) + length (c_string line)))) [
      | inl long ↦ rw long (close-OpensAllowed c 0)
      | inr fits ↦ rw fits (serve_path-OpensAllowed c w (c_string line) (c_string line))
    ]

-- Whatever the client sends and the system answers, every file that is opened for it is the home
-- directory with a selector behind it that passed the check, and walking the components of that
-- selector never leads above the home directory, unless the last one is "..".
pub management_function-OpensAllowed :
    (c : Client) (w : World) → All (OpensAllowed c) (management_function c w).0
unfolding management_function
management_function-OpensAllowed c w =
    manage-OpensAllowed c w (read_request (max_request_len - length (home c)) w.arrivals)
