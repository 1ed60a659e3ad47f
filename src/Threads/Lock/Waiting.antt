-- ===== src/Threads/Lock/Waiting.antt =====
-- The queue of the lock has each thread that is BLOCKED once, and no other.
use op_prac.Base.{
  ℕ, ◌+◌, ◌≡◌, refl, sym, ap, ◌∙◌, inl, inr, true, false, Option, List, [], ◌∷◌, ◌++◌, arith, ◌==◌,
  if◌then◌else◌, Bool-cases,
}
use op_prac.Base.Int.{ltb_ℤ}
use op_prac.Threads.Scheduler.{ThreadStatus, blocked, is_blocked, Kernel, ready_to_run, make_ready}
use op_prac.Threads.Scheduler.Sane.{IsSane}
use op_prac.Threads.Scheduler.Dispatch.{
  Dispatches, yield_thread-Dispatches, sleep-Sleeps, ready_to_run_lem, asleep,
}
use op_prac.Threads.Lock.{
  Place, is_testing, reentering, call_again, outside, testing, holding, raising, Lock, runner,
  at_place, Step, call, take, wait, release, wake, raise, yield,
}

abbrev pub count_of : ℕ → List ℕ → ℕ
count_of t [] = 0
count_of t (u ∷ us) = (if u == t then 1 else 0) + count_of t us

count_of-snoc : (t u : ℕ) (us : List ℕ) → count_of t (us ++ u ∷ []) ≡ count_of t (u ∷ us)
count_of-snoc t u [] = refl
count_of-snoc t u (v ∷ us) = ground (arith, count_of-snoc t u us)

pub record IsWaiting (s : Lock) : Type 0 where
  pub sane : IsSane s.kernel
  pub queued : (t : ℕ) → count_of t s.queue ≡ (if is_blocked (s.kernel.status t) then 1 else 0)
  pub at_test : (t : ℕ) → is_blocked (s.kernel.status t) ≡ true → is_testing (s.place t) ≡ true

-- A step that leaves the scheduler and the queue alone.
still :
    {s : Lock} {v : ℕ} {o : Option ℕ} (p : Place)
    → IsWaiting s
    → IsWaiting (record s { value = v; owner_id = o; place = at_place s p })
still {s} p w = record {
  sane = w.sane;
  queued = w.queued;
  at_test = λ t h. ground (arith, w.at_test t h, w.sane.runs);
}

ready_to_run_sleepers :
    (t : ℕ) (k : Kernel)
    → IsSane k
    → k.status t ≡ blocked
    → IsSane (ready_to_run t k).0
      × ((u : ℕ)
          → is_blocked ((ready_to_run t k).0.status u) ≡ is_blocked ((make_ready t k).status u))
ready_to_run_sleepers t k s h =
    let (sane, how) = ready_to_run_lem t k s h in
    elim (Bool-cases (ltb_ℤ (k.priority t) (k.priority k.current_thread))) [
      | inl higher ↦ (sane, preempted (rw higher at how))
      | inr lower ↦ (sane, kept (rw lower at how))
    ]
  where
    preempted :
        ((ready_to_run t k).1 ≡ true) × Dispatches (make_ready t k) (ready_to_run t k).0
        → (u : ℕ)
        → is_blocked ((ready_to_run t k).0.status u) ≡ is_blocked ((make_ready t k).status u)
    preempted (_, d) = d.sleepers

    kept :
        ready_to_run t k ≡ (make_ready t k, false)
        → (u : ℕ)
        → is_blocked ((ready_to_run t k).0.status u) ≡ is_blocked ((make_ready t k).status u)
    kept e u = ap (λ r. is_blocked (r.0.status u)) e

pub status_blocked : (x : ThreadStatus) → is_blocked x ≡ true → x ≡ blocked
status_blocked blocked h = refl
status_blocked _ h = cc

pub Step-IsWaiting : {s t : Lock} → Step s t → IsWaiting s → IsWaiting t
Step-IsWaiting (call here) w = still testing w
Step-IsWaiting (call_again here) w = still reentering w
Step-IsWaiting (take here free) w = still holding w
Step-IsWaiting {s} (wait {k} here none_left slept) w =
    let (d, asleep) = rw slept at (sleep-Sleeps s.kernel w.sane) in
    record {
      sane = d.sane;
      queued = λ t.
          count_of-snoc t (runner s) s.queue
          ∙ ground (arith, w.queued t, d.sleepers t, w.sane.runs);
      at_test = λ t h. ground (arith, w.at_test t, d.sleepers t, h, here);
    }
Step-IsWaiting (release here mine empty) w = still raising w
Step-IsWaiting {s} (wake {t} {rest} here mine first) w =
    let count : (u : ℕ)
        → count_of u (t ∷ rest) ≡ (if is_blocked (s.kernel.status u) then 1 else 0) =
      λ u. rw first at (w.queued u) in
    let sleeps = status_blocked (s.kernel.status t) (ground (arith, count t)) in
    let (sane, same) = ready_to_run_sleepers t s.kernel w.sane sleeps in
    record {
      sane = sane;
      queued = λ u. ground (arith, count u, same u, sleeps);
      at_test = λ u h. ground (arith, same u, h, w.at_test u, w.sane.runs);
    }
Step-IsWaiting (raise here) w = still outside w
Step-IsWaiting {s} (yield free) w =
    let (d, _) = yield_thread-Dispatches s.kernel w.sane in
    record {
      sane = d.sane;
      queued = λ t. w.queued t ∙ ground (arith, d.sleepers t);
      at_test = λ t h. w.at_test t (sym (d.sleepers t) ∙ h);
    }
