-- ===== src/Loader/Release.antt =====
-- What `load_file_memory_and_send` takes it gives back, and where it does not.
use sacagawea.Effects.{
  crashes, waits, sent_bytes, thread_exit, process_exit, unmaps, closes_file, unlocks, value, locks,
  maps, opens, Run, Action,
}
use sacagawea.Common.{
  All, if◌then◌else◌, none, length, Bool-cases, inl, some, inr, arith, false, ◌⊎◌, ℕ, refl, [],
  true, ap, ◌≡◌, Bool, ◌++◌, ◌∷◌, Option, Bytes, List,
}
use sacagawea.Loader.{give_back, send_locked, FileAnswers, send_mapped, load_file_memory_and_send}

-- The calls on the file, in order.
abbrev pub file_calls : List Action → List Action
file_calls [] = []
file_calls (opens p ∷ t) = opens p ∷ file_calls t
file_calls (locks ∷ t) = locks ∷ file_calls t
file_calls (unlocks ∷ t) = unlocks ∷ file_calls t
file_calls (closes_file ∷ t) = closes_file ∷ file_calls t
file_calls (maps n ∷ t) = maps n ∷ file_calls t
file_calls (unmaps ∷ t) = unmaps ∷ file_calls t
file_calls (_ ∷ t) = file_calls t

file_calls-append : (t u : List Action) → file_calls (t ++ u) ≡ file_calls t ++ file_calls u
file_calls-append [] u = refl
file_calls-append (opens p ∷ t) u = ap (◌∷◌ (opens p)) (file_calls-append t u)
file_calls-append (locks ∷ t) u = ap (◌∷◌ locks) (file_calls-append t u)
file_calls-append (unlocks ∷ t) u = ap (◌∷◌ unlocks) (file_calls-append t u)
file_calls-append (closes_file ∷ t) u = ap (◌∷◌ closes_file) (file_calls-append t u)
file_calls-append (maps n ∷ t) u = ap (◌∷◌ (maps n)) (file_calls-append t u)
file_calls-append (unmaps ∷ t) u = ap (◌∷◌ unmaps) (file_calls-append t u)
file_calls-append (_ ∷ t) u = file_calls-append t u

-- The calls of a run that comes back: none; or the file is opened, locked, mapped, unlocked and closed, and
-- then unmapped; or it is opened and locked, and unlocked and closed as far as these calls succeed.
abbrev pub IsReleased : FileAnswers → Bytes → List Action → Bool → Type 0
IsReleased f path calls sent =
    ((sent ≡ true)
      × ((n : ℕ) × (calls ≡ opens path ∷ locks ∷ maps n ∷ unlocks ∷ closes_file ∷ unmaps ∷ [])))
    ⊎ ((sent ≡ false)
        × ((calls
              ≡ opens path
                ∷ locks
                ∷ ((if f.unlock_ok then unlocks ∷ [] else [])
                    ++ (if f.close_ok then closes_file ∷ [] else [])))
            ⊎ (calls ≡ [])))

give_back_calls : (f : FileAnswers) → file_calls (give_back f) ≡ give_back f
unfolding give_back
give_back_calls f = ground arith

send_mapped_calls :
    (f : FileAnswers) (r : Run (Unit {0})) {sent : Bool}
    → file_calls r.0 ≡ []
    → (send_mapped f r).1 ≡ value sent
    → (sent ≡ true) × (file_calls (send_mapped f r).0 ≡ unlocks ∷ closes_file ∷ unmaps ∷ [])
unfolding send_mapped
send_mapped_calls f (t, value _) quiet h = ground (arith, file_calls-append t (unmaps ∷ []))
send_mapped_calls f (t, thread_exit) quiet h = ground (arith, file_calls-append t (unmaps ∷ []))
send_mapped_calls f (t, process_exit code) quiet h = ground arith
send_mapped_calls f (t, waits) quiet h = ground arith
send_mapped_calls f (t, crashes) quiet h = ground arith

pub give_back-All :
    (P : Action → Type 0) (f : FileAnswers) → P unlocks → P closes_file → All P (give_back f)
unfolding give_back
give_back-All P f u c = elim (Bool-cases f.unlock_ok) [
  | inl yes' ↦ elim (Bool-cases f.close_ok) [
    | inl ok ↦ rw (yes', ok) (u, (c, tt))
    | inr bad ↦ rw (yes', bad) (u, tt)
  ]
  | inr no' ↦ elim (Bool-cases f.close_ok) [
    | inl ok ↦ rw (no', ok) (c, tt)
    | inr bad ↦ rw (no', bad) tt
  ]
]

-- Whenever the function returns, where the lock can be taken and the thread that sends makes none of
-- these calls: either it returns 1, and the file was opened, locked, mapped, unlocked, closed and unmapped,
-- in this order; or it returns 0, and it made none of these calls, or it opened and locked the file and
-- made no mapping, and it unlocked and closed it as far as these calls succeed.
pub load_releases :
    (f : FileAnswers) (sender : Bytes → Run (Unit {0})) (path : Bytes) {sent : Bool}
    → f.lock_ok ≡ true
    → ((b : Bytes) → file_calls (sender b).0 ≡ [])
    → (load_file_memory_and_send f sender path).1 ≡ value sent
    → IsReleased f path (file_calls (load_file_memory_and_send f sender path).0) sent
unfolding load_file_memory_and_send send_locked give_back
load_releases f sender path {sent} locked quiet h = elim (Bool-cases f.open_ok) [
  | inl opened ↦ rw (opened, locked) (go f.contents (rw (opened, locked) at h))
  | inr missing ↦ rw missing (inr (ground arith, inr refl))
]
  where
    go :
        (c : Option Bytes)
        → (send_locked f sender c).1 ≡ value sent
        → IsReleased f path (opens path ∷ locks ∷ file_calls (send_locked f sender c).0) sent
    go none e =
        inr
          (ground arith, inl (ap (λ (t : List Action). opens path ∷ locks ∷ t) (give_back_calls f)))
    go (some contents) e = elim (Bool-cases (f.mmap_ok (length contents))) [
      | inl good ↦
          let (yes', calls) =
            send_mapped_calls f (sender contents) (quiet contents) (rw (good, send_locked) at e) in
          rw (good, send_locked) (inl (yes', (length contents, rw calls)))
      | inr bad ↦
          let no_map : sent ≡ false = ground (arith, (rw (bad, send_locked) at e)) in
          rw (bad, send_locked)
            (inr
              (no_map, inl (ap (λ (t : List Action). opens path ∷ locks ∷ t) (give_back_calls f))))
    ]

-- An empty file is never sent: `mmap` refuses a length of 0, and the client gets nothing at all.
pub load_empty :
    (f : FileAnswers) (sender : Bytes → Run (Unit {0})) (path : Bytes)
    → f.mmap_ok 0 ≡ false
    → f.contents ≡ some []
    → (sent_bytes (load_file_memory_and_send f sender path).0 ≡ [])
      × ((load_file_memory_and_send f sender path).1 ≡ value false)
unfolding load_file_memory_and_send send_locked
load_empty f sender path refused empty = ground arith
