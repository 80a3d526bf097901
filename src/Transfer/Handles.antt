-- ===== src/Transfer/Handles.antt =====
-- The handles of a file that is sent on Windows.
use sacagawea.Common.{
  refl, ◌≢◌, false, ◌⊎◌, inr, true, inl, ap, ◌++◌, map, ◌≡◌, ◌∷◌, Bool, List, Bytes, [],
}
use sacagawea.Transfer.{
  closes_mapping_handle, closes_thread_handle, waits_sender, closes_file_handle, starts_sender,
  makes_file_mapping, reads_size, opens_file, HandleEvent, LoadAnswers, until_failure, load_calls,
  load_file_memory_and_send_win32,
}

-- All that the function does if nothing fails.
abbrev pub all_calls : Bytes → List HandleEvent
all_calls path_file =
    opens_file path_file
    ∷ reads_size
    ∷ makes_file_mapping
    ∷ starts_sender
    ∷ closes_file_handle
    ∷ waits_sender
    ∷ closes_thread_handle
    ∷ closes_mapping_handle
    ∷ []

abbrev pub Stops : List HandleEvent → List HandleEvent → Bool → Type 0
Stops calls done ok =
    (rest : List HandleEvent) × (calls ≡ done ++ rest)
    × (((ok ≡ true) × (rest ≡ [])) ⊎ ((ok ≡ false) × (rest ≢ [])))

Stops-more :
    (c : HandleEvent) (calls done : List HandleEvent) (ok : Bool)
    → Stops calls done ok
    → Stops (c ∷ calls) (c ∷ done) ok
Stops-more c calls done ok (rest, e, end) = (rest, ap (◌∷◌ c) e, end)

until_failure-Stops :
    (calls : List (Bool × HandleEvent))
    → Stops (map (λ c. c.1) calls) (until_failure calls).0 (until_failure calls).1
unfolding until_failure
until_failure-Stops [] = ([], refl, inl (refl, refl))
until_failure-Stops ((true, event) ∷ calls) =
    Stops-more event (map (λ c. c.1) calls) (until_failure calls).0 (until_failure calls).1
      (until_failure-Stops calls)
until_failure-Stops ((false, event) ∷ calls) =
    (event ∷ map (λ c. c.1) calls, refl, inr (refl, λ e. cc))

-- What the function does is a front part of: open the file, read its size, map it, start the sender,
-- close the file, wait for the sender, close the thread, close the mapping. It returns 1 exactly if it
-- did all of that; any failure leaves what is open then, and returns 0.
pub load_win32-Stops :
    (a : LoadAnswers) (path_file : Bytes)
    → Stops
        (all_calls path_file)
        (load_file_memory_and_send_win32 a path_file).0
        (load_file_memory_and_send_win32 a path_file).1
unfolding load_file_memory_and_send_win32 load_calls
load_win32-Stops a path_file = until_failure-Stops (load_calls a path_file)
