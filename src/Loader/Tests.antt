-- ===== src/Loader/Tests.antt =====
-- Runs of the loader, and its theorems at concrete files.
use sacagawea.Common.{false, ◌==◌, ◌∷◌, not, ap, some, [], ◌≡◌, true, codes, Bytes, refl}
use sacagawea.Effects.{
  unmaps, closes_file, unlocks, maps, thread_exit, locks, shuts_down, value, opens, sends, Run,
}
use sacagawea.Loader.{FileAnswers, load_file_memory_and_send}
use sacagawea.Loader.Release.{IsReleased, file_calls, load_releases}

-- Everything succeeds; `mmap` refuses the length 0, as documented.
abbrev all_good : Bytes → FileAnswers
all_good contents = record {
  open_ok = true;
  lock_ok = true;
  contents = some contents;
  mmap_ok = λ n. not (n == 0);
  unlock_ok = true;
  close_ok = true;
  create_ok = true;
  join_ok = true;
  munmap_ok = true;
}

abbrev send_all : Bytes → Run (Unit {0})
send_all b = (sends b ∷ shuts_down ∷ [], thread_exit)

run_load : load_file_memory_and_send (all_good (codes "hi")) send_all (codes "/srv/a") ≡ (
  opens (codes "/srv/a")
      ∷ locks
      ∷ maps 2
      ∷ unlocks
      ∷ closes_file
      ∷ sends (codes "hi")
      ∷ shuts_down
      ∷ unmaps
      ∷ [],
  value true,
)
unfolding load_file_memory_and_send
run_load = refl

load_releases_example :
    IsReleased
      (all_good (codes "hi"))
      (codes "/srv/a")
      (file_calls (load_file_memory_and_send (all_good (codes "hi")) send_all (codes "/srv/a")).0)
      true
load_releases_example =
    load_releases (all_good (codes "hi")) send_all (codes "/srv/a") refl (λ b. refl)
      (ap (λ r. r.1) run_load)

-- The mapping and the unlocking fail.
run_give_back :
    load_file_memory_and_send (record (all_good []) { unlock_ok = false }) send_all (codes "/srv/a")
    ≡ (opens (codes "/srv/a") ∷ locks ∷ closes_file ∷ [], value false)
unfolding load_file_memory_and_send
run_give_back = refl
