-- ===== src/Loader.antt =====
-- `load_file_memory_and_send` of src/sacagalib/utility.c (the Linux branch): the file is opened, locked,
-- mapped, unlocked and closed, and then sent by a thread that is waited for. What the system calls
-- answer is a parameter; so is the run of the thread on the mapped bytes.
pub mod Release
mod Tests
use sacagawea.Common.{
  ◌++◌, List, none, length, true, some, false, [], not, ◌∷◌, if◌then◌else◌, ℕ, Option, Bool, Bytes,
}
use sacagawea.Effects.{
  locks, maps, after, opens, unmaps, value, process_exit, pure, join, stop, closes_file, do_action,
  unlocks, ◌>>◌, Action, Run,
}

-- `contents` is what the file holds, or `none` where `fstat` fails; `mmap_ok` tells for each length
-- whether `mmap` succeeds.
pub record FileAnswers : Type 0 where
  pub open_ok : Bool
  pub lock_ok : Bool
  pub contents : Option Bytes
  pub mmap_ok : ℕ → Bool
  pub unlock_ok : Bool
  pub close_ok : Bool
  pub create_ok : Bool
  pub join_ok : Bool
  pub munmap_ok : Bool

-- The return value is 1 (`true`) or 0.
abbrev done_or : Bool → Action → Run (Unit {0})
done_or good a = if good then do_action a else stop (process_exit 1)

-- Behind a successful `mmap`.
unfoldable pub send_mapped : FileAnswers → Run (Unit {0}) → Run Bool
send_mapped f sender = do
  done_or f.unlock_ok unlocks
  done_or f.close_ok closes_file
  if f.create_ok then join sender else stop (process_exit 1)
  if f.join_ok then pure tt else stop (process_exit 1)
  done_or f.munmap_ok unmaps
  pure true

-- Behind a failure with the lock on the open file: what fails here is only logged.
unfoldable pub give_back : FileAnswers → List Action
give_back f =
    (if f.unlock_ok then unlocks ∷ [] else []) ++ (if f.close_ok then closes_file ∷ [] else [])

-- With the lock on the open file.
unfoldable pub send_locked : FileAnswers → (Bytes → Run (Unit {0})) → Option Bytes → Run Bool
unfolding send_mapped give_back
send_locked f sender none = (give_back f, value false)
send_locked f sender (some contents) =
    if f.mmap_ok (length contents)
    then after (maps (length contents) ∷ []) (send_mapped f (sender contents))
    else (give_back f, value false)

unfoldable pub load_file_memory_and_send : FileAnswers → (Bytes → Run (Unit {0})) → Bytes → Run Bool
unfolding send_locked
load_file_memory_and_send f sender path_file =
    if not f.open_ok
    then pure false
    else if not f.lock_ok
    then (opens path_file ∷ [], value false)
    else after (opens path_file ∷ locks ∷ []) (send_locked f sender f.contents)
