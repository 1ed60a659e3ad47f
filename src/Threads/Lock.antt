-- ===== src/Threads/Lock.antt =====
-- `Lock` of code/threads/synch.cc, with the semaphore that it is made of, under the scheduler with
-- priorities, as steps of the current thread. Interrupts are off in `P` and `V`, so that the
-- processor changes hands there only by `Sleep`, and by the `Yield` in `ReadyToRun`; elsewhere a
-- thread may yield at any time. The queue of the semaphore is the sequence that its List represents.
-- A `Release` whose assertion fails ends the program, and is no step; nor is a `P` that finds no
-- other thread to run, which waits for an interrupt.
pub mod Invariant
pub mod Waiting
pub mod Wakeup
mod Tests
use op_prac.Base.{
  ℕ, zero, suc, ◌+◌, ◌-◌, ◌*◌, ◌/◌, ◌%◌, ◌^◌, ◌≤◌, ◌<◌, ◌≡◌, refl, sym, ap, subst, ◌∙◌, ◌≢◌, ◌↔◌,
  ◌⊎◌, inl, inr, Bool, true, false, not, ◌&&◌, ◌||◌, Option, none, some, List, [], ◌∷◌, ◌++◌, map,
  arith, dec_lt, dec_le, ℕ_discrete, Error, assert_failed, bad_access, arithmetic_fault,
  out_of_fuel, Result, ok, err, ◌>>=◌, ◌>>◌, assert, or_fault, Result-cases, ltb, leb, ◌==◌,
  if◌then◌else◌, ltb→lt, lt→ltb, le→ltb, lt→leb, le→leb, leb→le, ==_iff, tests, Bool-cases,
  Option-cases, length, get_elem?, set, get_or, drop, replicate, All, length-append, length-set,
  length-replicate, get_or-set_self, get_or-set_ne, get_elem?-eq-get_or, get_elem?-none,
  get_elem?-set_self, get_elem?-set_ne, get_elem?-append, get_elem?-some, All-set, All-get_or,
  bit_and, bit_or, bit_xor, Gives, Gives-bind, Gives-map, update, update_self, update_ne,
}
use op_prac.Base.Int.{ℤ}
use op_prac.Threads.Scheduler.{Kernel, sleep, ready_to_run, yield_thread}

-- Where a thread stands: outside, at the test in `P`, with the lock, with the lock and at the test in
-- `P` again, or in `V` before `value++`.
pub data Place : Type 0 where
  outside testing holding reentering raising : Place

-- At the test in `P`.
abbrev pub is_testing : Place → Bool
is_testing testing = true
is_testing reentering = true
is_testing _ = false

pub record Lock : Type 0 where
  pub kernel : Kernel
  pub value : ℕ
  pub queue : List ℕ
  pub owner_id : Option ℕ
  pub place : ℕ → Place

abbrev pub runner : Lock → ℕ
runner s = s.kernel.current_thread

abbrev pub at_place : Lock → Place → ℕ → Place
at_place s p = update s.place (runner s) p

pub data Step (s : Lock) : Lock → Type 0 where
  -- `Acquire` is called.
  call : s.place (runner s) ≡ outside → Step s (record s { place = at_place s testing })
  -- `Acquire` is called by the thread that has the lock.
  call_again : s.place (runner s) ≡ holding → Step s (record s { place = at_place s reentering })
  -- `value--`, and `OwnerId = currentThread->getTid()`.
  take :
      is_testing (s.place (runner s)) ≡ true
      → 0 < s.value
      → Step s
          (record s { value = s.value - 1; owner_id = some (runner s); place = at_place s holding })
  -- `queue->Append(currentThread)` and `Sleep`.
  wait :
      {k : Kernel}
      → is_testing (s.place (runner s)) ≡ true
      → s.value ≡ 0
      → sleep s.kernel ≡ some k
      → Step s (record s { kernel = k; queue = s.queue ++ runner s ∷ [] })
  -- `Release` with nobody in the queue, up to `value++`.
  release :
      s.place (runner s) ≡ holding
      → s.owner_id ≡ some (runner s)
      → s.queue ≡ []
      → Step s (record s { owner_id = none; place = at_place s raising })
  -- `Release` with a thread in the queue, up to the end of `ReadyToRun`.
  wake :
      {t : ℕ} {rest : List ℕ}
      → s.place (runner s) ≡ holding
      → s.owner_id ≡ some (runner s)
      → s.queue ≡ t ∷ rest
      → Step s (record s {
        kernel = (ready_to_run t s.kernel).0;
        queue = rest;
        owner_id = none;
        place = at_place s raising;
      })
  -- `value++`
  raise :
      s.place (runner s) ≡ raising
      → Step s (record s { value = s.value + 1; place = at_place s outside })
  -- The thread is preempted, with the lock or without.
  yield :
      (s.place (runner s) ≡ outside) ⊎ (s.place (runner s) ≡ holding)
      → Step s (record s { kernel = yield_thread s.kernel })

-- `new Semaphore("BinarySemaphoreForLock", 1)`, and `OwnerId = -1`.
abbrev pub new_lock : Kernel → Lock
new_lock k = record { kernel = k; value = 1; queue = []; owner_id = none; place = λ t. outside }

-- The states that are reached from a new lock.
pub data Reach (k : Kernel) : Lock → Type 0 where
  start : Reach k (new_lock k)
  later : {s t : Lock} → Reach k s → Step s t → Reach k t
