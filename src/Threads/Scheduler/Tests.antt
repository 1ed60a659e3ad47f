-- ===== src/Threads/Scheduler/Tests.antt =====
-- The theorems about the scheduler at concrete states.
use op_prac.Base.{
  ℕ, ◌≡◌, refl, true, false, Option, none, some, [], ◌∷◌, arith, ◌==◌, if◌then◌else◌,
}
use op_prac.Base.Int.{pos, ltb_ℤ, ◌≤ℤ◌}
use op_prac.Threads.LinkedList.Entries.{insert_entry}
use op_prac.Threads.Scheduler.{
  just_created, running, ready, blocked, Kernel, find_next_to_run, weigh, yield_thread,
  ready_to_run, sleep,
}
use op_prac.Threads.Scheduler.Sane.{IsSane}
use op_prac.Threads.Scheduler.Dispatch.{
  Dispatches, yield_thread-Dispatches, Sleeps, sleep-Sleeps, ready_to_run_lem, woken,
}

-- Thread 0 runs, thread 1 is ready, thread 2 waits; their priorities are 4, 6 and 3.
abbrev three : Kernel
three = record {
  ready_list = (pos 6, 1) ∷ [];
  current_thread = 0;
  status = λ t.
      if t == 0
      then running
      else if t == 1
      then ready
      else if t == 2
      then blocked
      else just_created;
  priority = λ t. if t == 0 then pos 4 else if t == 1 then pos 6 else pos 3;
}

three-IsSane : IsSane three
three-IsSane = record {
  queued = record { sorted = (tt, tt); keyed = (refl, tt); counted = λ t. ground arith };
  runs = refl;
  alone = λ t h. ground arith;
}

yield_thread-Dispatches_example :
    Dispatches three (yield_thread three)
    × (three.priority (yield_thread three).current_thread ≤ℤ three.priority three.current_thread)
yield_thread-Dispatches_example = yield_thread-Dispatches three three-IsSane

sleep-Sleeps_example : Sleeps three three-IsSane (sleep three)
sleep-Sleeps_example = sleep-Sleeps three three-IsSane

ready_to_run_lem_example :
    IsSane (ready_to_run 2 three).0
    × (if ltb_ℤ (pos 3) (pos 4)
        then ((ready_to_run 2 three).1 ≡ true)
          × Dispatches (woken 2 three three-IsSane refl) (ready_to_run 2 three).0
        else (ready_to_run 2 three ≡ (woken 2 three three-IsSane refl, false)))
ready_to_run_lem_example = ready_to_run_lem 2 three three-IsSane refl

-- The thread that is woken runs at once.
ready_to_run-three : (ready_to_run 2 three).0.current_thread ≡ 2
unfolding ready_to_run yield_thread find_next_to_run weigh insert_entry
ready_to_run-three = refl

abbrev current_of : Option Kernel → Option ℕ
current_of none = none
current_of (some k) = some k.current_thread

sleep-three : current_of (sleep three) ≡ some 1
unfolding sleep find_next_to_run weigh
sleep-three = refl
