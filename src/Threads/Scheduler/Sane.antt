-- ===== src/Threads/Scheduler/Sane.antt =====
-- What holds of the ready list and the states of the threads, and that every call keeps it.
use op_prac.Base.{ℕ, ◌≡◌, refl, ◌∙◌, ◌≢◌, false, List, ◌∷◌, arith, if◌then◌else◌, All, update_self}
use op_prac.Base.Int.{ℤ}
use op_prac.Threads.LinkedList.Entries.{insert_entry-IsSorted, IsSorted}
use op_prac.Threads.Scheduler.{running, is_ready, Kernel, make_ready, run}
use op_prac.Threads.Scheduler.Ready.{occurs, occurs-insert_entry, All-insert_entry}

-- The ready list is in the order of the priorities, and has each thread that is READY once and no
-- other.
pub record IsQueued (k : Kernel) : Type 0 where
  pub sorted : IsSorted k.ready_list
  pub keyed : All (λ e. e.0 ≡ k.priority e.1) k.ready_list
  pub counted : (t : ℕ) → occurs t k.ready_list ≡ (if is_ready (k.status t) then 1 else 0)

-- The current thread is RUNNING, and it alone.
pub record IsSane (k : Kernel) : Type 0 where
  pub queued : IsQueued k
  pub runs : k.status k.current_thread ≡ running
  pub alone : (t : ℕ) → k.status t ≡ running → t ≡ k.current_thread

pub make_ready-IsQueued :
    (t : ℕ) (k : Kernel) → is_ready (k.status t) ≡ false → IsQueued k → IsQueued (make_ready t k)
make_ready-IsQueued t k new q = record {
  sorted = insert_entry-IsSorted (k.priority t, t) k.ready_list q.sorted;
  keyed = All-insert_entry (λ e. e.0 ≡ k.priority e.1) (k.priority t, t) k.ready_list refl q.keyed;
  counted =
      λ u. occurs-insert_entry u (k.priority t, t) k.ready_list ∙ ground (arith, q.counted u, new);
}

-- The first of the ready list runs.
pub run_first-IsSane :
    (e : ℤ × ℕ) (rest : List (ℤ × ℕ)) (k : Kernel)
    → k.ready_list ≡ e ∷ rest
    → IsQueued k
    → ((t : ℕ) → k.status t ≢ running)
    → IsSane (run (e.1) (record k { ready_list = rest }))
run_first-IsSane e rest k same q idle =
    let sorted : IsSorted (e ∷ rest) = rw same at q.sorted in
    let keyed : All (λ e. e.0 ≡ k.priority e.1) (e ∷ rest) = rw same at q.keyed in
    record {
      queued = record {
        sorted = sorted.1;
        keyed = keyed.1;
        counted = λ u.
            let c : occurs u (e ∷ rest) ≡ (if is_ready (k.status u) then 1 else 0) =
              rw same at (q.counted u) in
            ground (arith, c);
      };
      runs = update_self k.status (e.1) running;
      alone = λ t h. ground (arith, idle t);
    }
