-- ===== src/Threads/Lock/Wakeup.antt =====
-- What `Release` does for the thread that has waited longest.
use op_prac.Base.{
  ℕ, ◌+◌, ◌≡◌, refl, sym, ap, subst, ◌∙◌, ◌≢◌, inl, inr, true, false, none, some, List, [], ◌∷◌,
  ◌++◌, arith, ◌==◌, if◌then◌else◌, Bool-cases, update_self, update_ne,
}
use op_prac.Base.Int.{ℤ, ltb_ℤ, ◌≤ℤ◌}
use op_prac.Threads.LinkedList.Entries.{insert_entry}
use op_prac.Threads.Scheduler.{
  run, ready, blocked, is_blocked, Kernel, sleep, ready_to_run, yield_thread, make_ready,
}
use op_prac.Threads.Scheduler.Sane.{IsSane}
use op_prac.Threads.Scheduler.Dispatch.{
  sleep-Sleeps, ready_to_run_lem, find_next_to_run-first, asleep, asleep_blocked,
}
use op_prac.Threads.Lock.{
  is_testing, reentering, outside, holding, raising, call, call_again, take, release, yield, Lock,
  runner, at_place, Step, wait, wake, raise,
}
use op_prac.Threads.Lock.Invariant.{IsExclusive, is_busy, is_owner, Step-IsExclusive}
use op_prac.Threads.Lock.Waiting.{IsWaiting, Step-IsWaiting, count_of, status_blocked}

-- Some steps.
pub data Steps : Lock → Lock → Type 0 where
  here : {s : Lock} → Steps s s
  next : {s t u : Lock} → Step s t → Steps t u → Steps s u

pub Steps-IsExclusive : {s t : Lock} → Steps s t → IsExclusive s → IsExclusive t
Steps-IsExclusive here x = x
Steps-IsExclusive (next st more) x = Steps-IsExclusive more (Step-IsExclusive st x)

-- Behind `value++`.
abbrev raised : Lock → Lock
raised u = record u { value = u.value + 1; place = at_place u outside }

-- In `V` before `value++`, no other step can be taken.
only_raise : {u w : Lock} → Step u w → u.place (runner u) ≡ raising → w ≡ raised u
only_raise (call place) h = absurd cc
only_raise (call_again place) h = absurd cc
only_raise (take place free) h = absurd (ground (arith, place, h))
only_raise (wait place none_left slept) h = absurd (ground (arith, place, h))
only_raise (release place mine empty) h = absurd cc
only_raise (wake place mine first) h = absurd cc
only_raise (raise place) h = refl
only_raise (yield free) h = absurd (ground (arith, free, h))

-- The next of the ready list runs when the current thread goes to sleep.
sleep_next :
    (e : ℤ × ℕ) (rest : List (ℤ × ℕ)) (k : Kernel)
    → IsSane k
    → k.ready_list ≡ e ∷ rest
    → (k' : Kernel) × (sleep k ≡ some k') × (k'.current_thread ≡ e.1)
unfolding sleep
sleep_next e rest k s same =
    let taken = find_next_to_run-first e rest (asleep k s) same (inl (asleep_blocked k s)) in
    let k' = run (e.1) (record (asleep k s) { ready_list = rest }) in
    let e' : sleep k ≡ some k' = rw taken refl in (k', e', refl)

-- A thread of a higher priority takes the processor, where no other is ready.
module _ (t : ℕ) (k : Kernel) (alone : k.ready_list ≡ [])
    (higher : ltb_ℤ (k.priority t) (k.priority k.current_thread) ≡ true) where
  abbrev pair : Kernel
  pair = make_ready k.current_thread (make_ready t k)

  pair_list :
      pair.ready_list ≡ (k.priority t, t) ∷ (k.priority k.current_thread, k.current_thread) ∷ []
  unfolding insert_entry
  pair_list =
      let later : ltb_ℤ (k.priority k.current_thread) (k.priority t) ≡ false =
        ground (arith, higher) in
      rw alone (rw later refl)

  yields :
      ((yield_thread (make_ready t k)).current_thread ≡ t)
      × ((yield_thread (make_ready t k)).ready_list
          ≡ (k.priority k.current_thread, k.current_thread) ∷ [])
  unfolding yield_thread
  yields =
      let le : pair.priority t ≤ℤ pair.priority pair.current_thread = ground (arith, higher) in
      rw
        (find_next_to_run-first (k.priority t, t)
          ((k.priority k.current_thread, k.current_thread) ∷ []) pair pair_list (inr le))
        (refl, refl)

  preempted :
      t ≢ k.current_thread
      → ((ready_to_run t k).0.current_thread ≡ t)
        × ((ready_to_run t k).0.ready_list ≡ (k.priority k.current_thread, k.current_thread) ∷ [])
  unfolding ready_to_run
  preempted ne =
      let other : (t == k.current_thread) ≡ false = ground arith in rw other (rw higher yields)

-- The thread that sleeps is BLOCKED.
slept_blocked :
    (k : Kernel) {k' : Kernel} → IsSane k → sleep k ≡ some k' → k'.status k.current_thread ≡ blocked
slept_blocked k s e = (rw e at (sleep-Sleeps k s)).1

-- What the holder and the first thread in the queue look like.
pub record Contended (s : Lock) (t : ℕ) (rest : List ℕ) : Type 0 where
  pub waiting : IsWaiting s
  pub exclusive : IsExclusive s
  pub held : s.place (runner s) ≡ holding
  pub first : s.queue ≡ t ∷ rest

first_blocked :
    {s : Lock} (t : ℕ) (rest : List ℕ) → Contended s t rest → is_blocked (s.kernel.status t) ≡ true
first_blocked {s} t rest c =
    let count : count_of t (t ∷ rest) ≡ (if is_blocked (s.kernel.status t) then 1 else 0) =
      rw c.first at (c.waiting.queued t) in
    elim (Bool-cases (is_blocked (s.kernel.status t))) [
      | inl b ↦ b
      | inr awake ↦ absurd (ground (arith, count, awake))
    ]

first_ne_runner : {s : Lock} (t : ℕ) (rest : List ℕ) → Contended s t rest → t ≢ runner s
first_ne_runner {s} t rest c e =
    let b : is_blocked (s.kernel.status (runner s)) ≡ true =
      subst (λ u. is_blocked (s.kernel.status u) ≡ true) e (first_blocked t rest c) in
    cc (sym (ap is_blocked c.waiting.sane.runs) ∙ b)

module _ {s : Lock} (t : ℕ) (rest : List ℕ) (c : Contended s t rest) where
  abbrev after_wake : Lock
  after_wake = record s {
    kernel = (ready_to_run t s.kernel).0;
    queue = rest;
    owner_id = none;
    place = at_place s raising;
  }

  wakes : Step s after_wake
  wakes = wake c.held (c.exclusive.owner (runner s) (ap is_owner c.held)) c.first

  free_soon : s.value ≡ 0
  free_soon = c.exclusive.taken (runner s) (ap is_busy c.held)

  -- The outcome of the bug: the lock is free, and the thread that was woken sleeps again.
  pub record Lost (u : Lock) : Type 0 where
    pub steps : Steps s u
    pub free : u.value ≡ 1
    pub asleep_again : u.kernel.status t ≡ blocked
    pub last : u.queue ≡ rest ++ t ∷ []
    pub back : runner u ≡ runner s
    pub left : u.place (runner s) ≡ outside

  Lost-after :
      (runner after_wake ≡ t)
      → (after_wake.kernel.ready_list ≡ (s.kernel.priority (runner s), runner s) ∷ [])
      → (u : Lock) × Lost u
  Lost-after runs list =
      let w₁ = Step-IsWaiting wakes c.waiting in
      let (k₂, slept, back) =
        sleep_next (s.kernel.priority (runner s), runner s) [] after_wake.kernel w₁.sane list in
      let ne = first_ne_runner t rest c in
      let at_test : is_testing (after_wake.place (runner after_wake)) ≡ true = rw runs (
        ap is_testing (update_ne s.place (runner s) raising t ne)
        ∙ c.waiting.at_test t (first_blocked t rest c)) in
      let s₂ = record after_wake { kernel = k₂; queue = rest ++ runner after_wake ∷ [] } in
      let raises : s₂.place (runner s₂) ≡ raising =
        rw back (update_self s.place (runner s) raising) in
      let s₃ = record s₂ { value = s₂.value + 1; place = at_place s₂ outside } in
      (
        s₃,
        record {
          steps = next wakes (next (wait at_test free_soon slept) (next (raise raises) here));
          free = omega (arith, free_soon);
          asleep_again = rw runs at (slept_blocked after_wake.kernel w₁.sane slept);
          last = ap (λ v. rest ++ v ∷ []) runs;
          back = back;
          left = rw back (update_self s₂.place (runner s) outside);
        },
      )

  -- `Release` by a thread whose first waiter has a higher priority, with no other thread ready, loses
  -- the waiter: `ReadyToRun` yields to it before `value++`, it finds the value 0 and goes to the end
  -- of the queue, and only then is the lock free; the waiter stays BLOCKED.
  pub release_loses :
      ltb_ℤ (s.kernel.priority t) (s.kernel.priority (runner s)) ≡ true
      → s.kernel.ready_list ≡ []
      → (u : Lock) × Lost u
  release_loses higher alone =
      let (runs, list) = preempted t s.kernel alone higher (first_ne_runner t rest c) in
      Lost-after runs list

  -- The lock is free, the thread that was woken is READY and no longer in the queue, and the one that
  -- released runs on.
  pub record Handed (u : Lock) : Type 0 where
    pub free : u.value ≡ 1
    pub woken : u.kernel.status t ≡ ready
    pub queue : u.queue ≡ rest
    pub back : runner u ≡ runner s
    pub left : u.place (runner s) ≡ outside

  -- `Release` up to `value++` is a step that can be taken; whatever way it is taken, there is a step
  -- behind it, and whatever that step is, it leads where the lock is handed over.
  pub record Hands : Type 0 where
    pub begins : (u : Lock) × Step s u × (u.place (runner s) ≡ raising)
    pub ends : {u : Lock} → Step s u → u.place (runner s) ≡ raising → (w : Lock) × Step u w
    pub hands : {u w : Lock} → Step s u → u.place (runner s) ≡ raising → Step u w → Handed w

  after_of : List ℕ → Lock
  after_of [] = s
  after_of (x ∷ xs) = record s {
    kernel = (ready_to_run x s.kernel).0;
    queue = xs;
    owner_id = none;
    place = at_place s raising;
  }

  -- The only step of the holder that begins a `Release`.
  only_wake : {u : Lock} → Step s u → u.place (runner s) ≡ raising → u ≡ after_wake
  unfolding after_of
  only_wake (call place) h = absurd (let held = c.held in cc)
  only_wake (call_again place) h = absurd (let to = update_self s.place (runner s) reentering in cc)
  only_wake (take place free) h = absurd (let held = c.held in ground (arith, place, held))
  only_wake (wait place none_left slept) h =
      absurd (let held = c.held in ground (arith, place, held))
  only_wake (release place mine empty) h = absurd (let first = c.first in cc)
  only_wake (wake place mine first) h = ap after_of (sym first ∙ c.first)
  only_wake (raise place) h = absurd (let held = c.held in cc)
  only_wake (yield free) h = absurd (let held = c.held in cc)

  -- `Release` by a thread whose first waiter has no higher priority cannot be interrupted: once it
  -- has begun, the one step that can follow is its `value++`, and then that waiter is READY and out
  -- of the queue, the lock is free, and the thread that released is still the one that runs.
  pub release_hands : ltb_ℤ (s.kernel.priority t) (s.kernel.priority (runner s)) ≡ false → Hands
  release_hands lower =
      let (_, how) =
        ready_to_run_lem t s.kernel c.waiting.sane
          (status_blocked (s.kernel.status t) (first_blocked t rest c)) in
      let same : ready_to_run t s.kernel ≡ (make_ready t s.kernel, false) = rw lower at how in
      let back : runner after_wake ≡ runner s = ap (λ r. r.0.current_thread) same in
      let raises : after_wake.place (runner after_wake) ≡ raising =
        rw back (update_self s.place (runner s) raising) in
      let handed : Handed (raised after_wake) = record {
        free = omega (arith, free_soon);
        woken = ap (λ r. r.0.status t) same ∙ update_self s.kernel.status t ready;
        queue = refl;
        back = back;
        left = rw back (update_self after_wake.place (runner s) outside);
      } in
      record {
        begins = (after_wake, wakes, update_self s.place (runner s) raising);
        ends = λ {u} first at_raise.
            subst (λ v. (w : Lock) × Step v w) (sym (only_wake first at_raise))
              (raised after_wake, raise raises);
        hands = λ {u} {w} first at_raise second.
            let e = only_wake first at_raise in
            subst Handed (sym (only_raise (subst (λ v. Step v w) e second) raises)) handed;
      }
