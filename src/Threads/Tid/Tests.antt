-- ===== src/Threads/Tid/Tests.antt =====
-- The theorems about thread numbers at concrete states.
use op_prac.Base.{◌≡◌, refl, arith, assert_failed, err, ◌>>=◌, ◌==◌, Gives}
use op_prac.Threads.Tid.{Tids, no_threads, new_thread}
use op_prac.Threads.Tid.Numbers.{Numbers, new_thread-Numbers, new_thread_exhausts}

new_thread-Numbers_example : Gives (Numbers no_threads) (new_thread no_threads)
new_thread-Numbers_example = new_thread-Numbers no_threads refl (omega arith)

-- Number 0 is free again, and 1 is in use.
abbrev one_left : Tids
one_left = record { tid_map = λ t. t == 1; min_available_tid = 0 }

new_thread_exhausts_example :
    (new_thread one_left >>= λ (tid, s'). new_thread s') ≡ err assert_failed
new_thread_exhausts_example = new_thread_exhausts one_left refl (omega arith) refl
