-- ===== src/Threads/Scheduler.antt =====
-- code/threads/scheduler.cc with SCHED_PRIO, and `Yield` and `Sleep` of code/threads/thread.cc.
-- A thread is known by a number. `ready` is what `readyList` represents (Threads.LinkedList.Entries):
-- the entries from the first to the last, each with its key. A call that ends in `Run` has given the
-- processor away: what its caller does next, it does when it is the current thread again.
pub mod Ready
pub mod Sane
pub mod Dispatch
mod Tests
use op_prac.Base.{
  ℕ, zero, suc, ◌+◌, ◌-◌, ◌*◌, ◌/◌, ◌%◌, ◌^◌, ◌≤◌, ◌<◌, ◌≡◌, refl, sym, ap, subst, ◌∙◌, ◌≢◌, ◌↔◌,
  ◌⊎◌, inl, inr, Bool, true, false, not, ◌&&◌, ◌||◌, Option, none, some, List, [], ◌∷◌, ◌++◌, map,
  arith, dec_lt, dec_le, ℕ_discrete, Error, assert_failed, bad_access, arithmetic_fault,
  out_of_fuel, Result, ok, err, ◌>>=◌, ◌>>◌, assert, or_fault, Result-cases, ltb, leb, ◌==◌,
  if◌then◌else◌, ltb→lt, lt→ltb, le→ltb, lt→leb, le→leb, leb→le, ==_iff, tests, Bool-cases,
  Option-cases, length, get_elem?, set, get_or, take, drop, replicate, All, length-append,
  length-set, length-replicate, get_or-set_self, get_or-set_ne, get_elem?-eq-get_or, get_elem?-none,
  get_elem?-set_self, get_elem?-set_ne, get_elem?-append, get_elem?-some, All-set, All-get_or,
  bit_and, bit_or, bit_xor, Gives, Gives-bind, Gives-map, update, update_self, update_ne,
}
use op_prac.Base.Int.{ℤ, ltb_ℤ}
use op_prac.Threads.LinkedList.Entries.{insert_entry}

pub data ThreadStatus : Type 0 where
  just_created running ready blocked : ThreadStatus

abbrev pub is_blocked : ThreadStatus → Bool
is_blocked blocked = true
is_blocked _ = false

abbrev pub is_ready : ThreadStatus → Bool
is_ready ready = true
is_ready _ = false

pub record Kernel : Type 0 where
  pub ready_list : List (ℤ × ℕ)
  pub current_thread : ℕ
  pub status : ℕ → ThreadStatus
  pub priority : ℕ → ℤ

-- `thread->setStatus(READY)` and the insertion.
abbrev pub make_ready : ℕ → Kernel → Kernel
make_ready t k = record k {
  status = update k.status t ready;
  ready_list = insert_entry (k.priority t, t) k.ready_list;
}

-- `Run`, up to the switch.
abbrev pub run : ℕ → Kernel → Kernel
run next k = record k { current_thread = next; status = update k.status next running }

-- The candidate that has been taken off the ready list.
unfoldable pub weigh : ℕ → Kernel → Option ℕ × Kernel
weigh candidate k =
    if is_blocked (k.status k.current_thread)
    then (some candidate, k)
    else if ltb_ℤ (k.priority k.current_thread) (k.priority candidate)
    then (
      none,
      record k { ready_list = insert_entry (k.priority candidate, candidate) k.ready_list },
    )
    else (some candidate, k)

abbrev pub first_of : List (ℤ × ℕ) → Kernel → Option ℕ × Kernel
first_of [] k = (none, k)
first_of (e ∷ rest) k = weigh (e.1) (record k { ready_list = rest })

unfoldable pub find_next_to_run : Kernel → Option ℕ × Kernel
unfolding weigh
find_next_to_run k = first_of k.ready_list k

abbrev pub run_if : Option ℕ × Kernel → Kernel
run_if (none, k) = k
run_if (some next, k) = run next k

unfoldable pub yield_thread : Kernel → Kernel
yield_thread k = run_if (find_next_to_run (make_ready k.current_thread k))

-- The new state, and whether the caller has lost the processor to the thread.
unfoldable pub ready_to_run : ℕ → Kernel → Kernel × Bool
ready_to_run t k =
    if not (t == k.current_thread) && ltb_ℤ (k.priority t) (k.priority k.current_thread)
    then (yield_thread (make_ready t k), true)
    else (make_ready t k, false)

abbrev pub run_found : Option ℕ × Kernel → Option Kernel
run_found (none, k) = none
run_found (some next, k) = some (run next k)

-- `none` is a processor with no thread to run: `Sleep` waits for an interrupt.
unfoldable pub sleep : Kernel → Option Kernel
sleep k =
    run_found (find_next_to_run (record k { status = update k.status k.current_thread blocked }))
