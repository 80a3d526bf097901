-- ===== src/Effects.antt =====
-- Code that acts on the system: what it does, in order, and how it stops. The system's answers are
-- arguments of the code; its actions are a list, so that a theorem can speak about all of them.
use sacagawea.Common.{
  All-append, All, undefined, exits, returns, ◌++◌, Process, [], ◌∷◌, List, ℕ, Bytes,
}

-- The calls that act on the client, the file, the heap and the log pipe.
pub data Action : Type 0 where
  sends : Bytes → Action
  shuts_down : Action
  close_socket : ℕ → Action
  free_args : Action
  free_input : Action
  opens : Bytes → Action
  locks : Action
  unlocks : Action
  closes_file : Action
  maps : ℕ → Action
  unmaps : Action
  lock_mutex : Action
  unlock_mutex : Action
  counts_signal : Action
  writes_pipe : Bytes → Action
  signals : Action
  ignores_sighup : Action

-- A function returns, its thread ends, the process ends with a code, it waits for the client for
-- ever, or it does what C leaves undefined.
pub data Stop {ℓ} (A : Type ℓ) : Type ℓ where
  value : A → Stop A
  thread_exit : Stop A
  process_exit : ℕ → Stop A
  waits : Stop A
  crashes : Stop A

-- What was done, in order, and the end.
abbrev pub Trace {ℓ} : Type 0 → Type ℓ → Type ℓ
Trace E A = List E × Stop A

abbrev pub Run {ℓ} : Type ℓ → Type ℓ
Run A = Trace Action A

module _ {E : Type 0} where
  abbrev pub do_action : E → Trace E (Unit {0})
  do_action a = (a ∷ [], value tt)

  abbrev pub stop {ℓ} : {A : Type ℓ} → Stop A → Trace E A
  stop s = ([], s)

  abbrev pub pure {ℓ} : {A : Type ℓ} → A → Trace E A
  pure a = ([], value a)

  -- What the rest does behind what was done.
  abbrev pub after {ℓ} : {A : Type ℓ} → List E → Trace E A → Trace E A
  after t r = (t ++ r.0, r.1)

  abbrev pub continue {ℓ κ} :
      {A : Type ℓ} {B : Type κ} → List E → Stop A → (A → Trace E B) → Trace E B
  continue t (value a) f = after t (f a)
  continue t thread_exit f = (t, thread_exit)
  continue t (process_exit code) f = (t, process_exit code)
  continue t waits f = (t, waits)
  continue t crashes f = (t, crashes)

  infixl 5 ◌>>=◌ ◌>>◌
  abbrev pub ◌>>=◌ {ℓ κ} : {A : Type ℓ} {B : Type κ} → Trace E A → (A → Trace E B) → Trace E B
  m >>= f = continue m.0 m.1 f

  abbrev pub ◌>>◌ {ℓ} : {B : Type ℓ} → Trace E (Unit {0}) → Trace E B → Trace E B
  m >> k = m >>= λ _. k

-- A computation of the C library or of the code that performs none of the actions above.
abbrev pub pure_process {ℓ} : {E : Type 0} {A : Type ℓ} → Process A → Trace E A
pure_process (returns a) = pure a
pure_process (exits code) = stop (process_exit code)
pure_process undefined = stop crashes

-- `pthread_create` and `pthread_join`: the thread's actions, and its end is a return here.
abbrev pub joined : Stop (Unit {0}) → Stop (Unit {0})
joined thread_exit = value tt
joined s = s

abbrev pub join : Run (Unit {0}) → Run (Unit {0})
join r = (r.0, joined r.1)

-- The bytes that were handed over to the client, in order.
abbrev pub sent_bytes : List Action → Bytes
sent_bytes [] = []
sent_bytes (sends b ∷ t) = b ++ sent_bytes t
sent_bytes (_ ∷ t) = sent_bytes t

-- What holds of every action of the parts holds of those of the whole.
pub bind-All {ℓ κ} :
    {E : Type 0} {A : Type ℓ} {B : Type κ} (P : E → Type 0) (m : Trace E A) (f : A → Trace E B)
    → All P m.0
    → ((a : A) → All P (f a).0)
    → All P (m >>= f).0
bind-All P (t, value a) f h k = All-append P t (f a).0 h (k a)
bind-All P (t, thread_exit) f h k = h
bind-All P (t, process_exit code) f h k = h
bind-All P (t, waits) f h k = h
bind-All P (t, crashes) f h k = h
