-- ===== src/Threads/Scheduler/Dispatch.antt =====
-- Who runs next.
use op_prac.Base.{
  ℕ, ◌≡◌, refl, sym, ap, ◌∙◌, ◌≢◌, ◌⊎◌, inl, inr, true, false, Option, none, some, List, [], ◌∷◌,
  arith, ◌==◌, if◌then◌else◌, Bool-cases, All, update,
}
use op_prac.Base.Int.{ℤ, ltb_ℤ, ◌≤ℤ◌}
use op_prac.Threads.LinkedList.Entries.{IsSorted}
use op_prac.Threads.Scheduler.{
  running, blocked, is_blocked, is_ready, Kernel, make_ready, run, find_next_to_run, yield_thread,
  ready_to_run, sleep,
}
use op_prac.Threads.Scheduler.Ready.{occurs, All-occurs, All-both}
use op_prac.Threads.Scheduler.Sane.{IsQueued, IsSane, make_ready-IsQueued, run_first-IsSane}

-- The first of the ready list is taken, if the current thread is blocked or comes after it.
pub find_next_to_run-first :
    (e : ℤ × ℕ) (rest : List (ℤ × ℕ)) (k : Kernel)
    → k.ready_list ≡ e ∷ rest
    → (is_blocked (k.status k.current_thread) ≡ true)
      ⊎ (k.priority e.1 ≤ℤ k.priority k.current_thread)
    → find_next_to_run k ≡ (some e.1, record k { ready_list = rest })
unfolding find_next_to_run
find_next_to_run-first e rest k same (inl asleep) = rw same (rw asleep refl)
find_next_to_run-first e rest k same (inr le) =
    let later : ltb_ℤ (k.priority k.current_thread) (k.priority e.1) ≡ false = ground arith in
    elim (Bool-cases (is_blocked (k.status k.current_thread))) [
      | inl asleep ↦ rw same (rw asleep refl)
      | inr awake ↦ rw same (rw awake (rw later refl))
    ]

find_next_to_run-nil : (k : Kernel) → k.ready_list ≡ [] → find_next_to_run k ≡ (none, k)
unfolding find_next_to_run
find_next_to_run-nil k same = rw same refl

first_ready :
    (e : ℤ × ℕ) (rest : List (ℤ × ℕ)) (k : Kernel)
    → k.ready_list ≡ e ∷ rest
    → IsQueued k
    → is_ready (k.status e.1) ≡ true
first_ready e rest k same q =
    let count : occurs (e.1) (e ∷ rest) ≡ (if is_ready (k.status e.1) then 1 else 0) =
      rw same at (q.counted (e.1)) in
    elim (Bool-cases (is_ready (k.status e.1))) [
      | inl w ↦ w
      | inr out ↦ absurd (ground (arith, count, out))
    ]

-- The first entry has the least key of all threads on the list.
first-least :
    (e : ℤ × ℕ) (rest : List (ℤ × ℕ)) (k : Kernel) (t : ℕ)
    → k.ready_list ≡ e ∷ rest
    → IsQueued k
    → is_ready (k.status t) ≡ true
    → k.priority e.1 ≤ℤ k.priority t
first-least e rest k t same q w =
    let sorted : IsSorted (e ∷ rest) = rw same at q.sorted in
    let keyed : All (λ d. d.0 ≡ k.priority d.1) (e ∷ rest) = rw same at q.keyed in
    let count : occurs t (e ∷ rest) ≡ (if is_ready (k.status t) then 1 else 0) =
      rw same at (q.counted t) in
    let both =
      All-both (λ d. e.0 ≤ℤ d.0) (λ d. d.0 ≡ k.priority d.1) (e ∷ rest)
        ((let le : e.0 ≤ℤ e.0 = omega arith in le), sorted.0) keyed in
    let (key, (le, of_t)) =
      All-occurs (λ d. (e.0 ≤ℤ d.0) × (d.0 ≡ k.priority d.1)) t (e ∷ rest) both
        (ground (arith, count, w)) in
    ground (arith, le, of_t, keyed.0)

-- After a dispatch, the state is sane and the thread that runs has a priority as high as any that is
-- ready; a lower number is a higher priority.
pub record Dispatches (k k' : Kernel) : Type 0 where
  pub sane : IsSane k'
  pub priorities : k'.priority ≡ k.priority
  pub highest :
      (t : ℕ) → is_ready (k'.status t) ≡ true → k'.priority k'.current_thread ≤ℤ k'.priority t
  pub sleepers : (t : ℕ) → is_blocked (k'.status t) ≡ is_blocked (k.status t)

run_first-Dispatches :
    (e : ℤ × ℕ) (rest : List (ℤ × ℕ)) (k : Kernel)
    → k.ready_list ≡ e ∷ rest
    → IsQueued k
    → ((t : ℕ) → k.status t ≢ running)
    → Dispatches k (run (e.1) (record k { ready_list = rest }))
run_first-Dispatches e rest k same q idle = record {
  sane = run_first-IsSane e rest k same q idle;
  priorities = refl;
  highest = λ t w. first-least e rest k t same q (ground (arith, w));
  sleepers = λ t. ground (arith, first_ready e rest k same q);
}

-- The state in which `Yield` looks for the next thread.
module _ (k : Kernel) (s : IsSane k) where
  abbrev offered : Kernel
  offered = make_ready k.current_thread k

  offered-IsQueued : IsQueued offered
  offered-IsQueued = make_ready-IsQueued k.current_thread k (ground (arith, s.runs)) s.queued

  offered_idle : (t : ℕ) → offered.status t ≢ running
  offered_idle t h = ground (arith, s.alone t)

  offered_awake : (t : ℕ) → is_blocked (offered.status t) ≡ is_blocked (k.status t)
  offered_awake t = ground (arith, s.runs)

  offered_ready : is_ready (offered.status k.current_thread) ≡ true
  offered_ready = ground arith

  offered-cons : (e : ℤ × ℕ) × (rest : List (ℤ × ℕ)) × (offered.ready_list ≡ e ∷ rest)
  offered-cons = cons_of offered.ready_list (offered-IsQueued.counted k.current_thread)
    where
      cons_of :
          (xs : List (ℤ × ℕ))
          → occurs k.current_thread xs
            ≡ (if is_ready (offered.status k.current_thread) then 1 else 0)
          → (e : ℤ × ℕ) × (rest : List (ℤ × ℕ)) × (xs ≡ e ∷ rest)
      cons_of [] c = absurd (ground (arith, offered_ready))
      cons_of (e ∷ rest) c = (e, rest, refl)

  -- In a sane state, `Yield` leaves a sane state, in which the current thread has a priority as high
  -- as any thread that is ready, and as the thread that called it.
  pub yield_thread-Dispatches :
      Dispatches k (yield_thread k)
      × (k.priority (yield_thread k).current_thread ≤ℤ k.priority k.current_thread)
  unfolding yield_thread
  yield_thread-Dispatches =
      let (e, rest, same) = offered-cons in
      let le = first-least e rest offered k.current_thread same offered-IsQueued offered_ready in
      let d = run_first-Dispatches e rest offered same offered-IsQueued offered_idle in
      rw (find_next_to_run-first e rest offered same (inr le)) (
        record {
          sane = d.sane;
          priorities = d.priorities;
          highest = d.highest;
          sleepers = λ t. d.sleepers t ∙ offered_awake t;
        },
        le,
      )

-- The state in which `Sleep` looks for the next thread.
module _ (k : Kernel) (s : IsSane k) where
  abbrev pub asleep : Kernel
  asleep = record k { status = update k.status k.current_thread blocked }

  asleep-IsQueued : IsQueued asleep
  asleep-IsQueued = record {
    sorted = s.queued.sorted;
    keyed = s.queued.keyed;
    counted = λ t. s.queued.counted t ∙ ground (arith, s.runs);
  }

  asleep_idle : (t : ℕ) → asleep.status t ≢ running
  asleep_idle t h = ground (arith, s.alone t)

  pub asleep_blocked : is_blocked (asleep.status k.current_thread) ≡ true
  asleep_blocked = ground arith

  -- What `Sleep` does: it waits where no thread is ready, and else runs a thread of the highest
  -- priority; the caller is BLOCKED then.
  abbrev pub Sleeps : Option Kernel → Type 0
  Sleeps none = (t : ℕ) → is_ready (k.status t) ≡ false
  Sleeps (some k') = Dispatches asleep k' × (k'.status k.current_thread ≡ blocked)

  sleep_by : (xs : List (ℤ × ℕ)) → k.ready_list ≡ xs → Sleeps (sleep k)
  unfolding sleep
  sleep_by [] same = rw (find_next_to_run-nil asleep same) (λ t.
      let count : 0 ≡ (if is_ready (k.status t) then 1 else 0) = rw same at (s.queued.counted t) in
      elim (Bool-cases (is_ready (k.status t))) [
        | inl w ↦ absurd (ground (arith, count, w))
        | inr out ↦ out
      ])
  sleep_by (e ∷ rest) same =
      let d = run_first-Dispatches e rest asleep same asleep-IsQueued asleep_idle in
      let w = first_ready e rest k same s.queued in
      let other : update asleep.status (e.1) running k.current_thread ≡ blocked =
        ground (arith, w, s.runs) in
      rw (find_next_to_run-first e rest asleep same (inl asleep_blocked)) (d, other)

  -- In a sane state, `Sleep` finds no thread only where none is ready; else it leaves a sane state, in
  -- which the caller is BLOCKED and the current thread has a priority as high as any that is ready.
  pub sleep-Sleeps : Sleeps (sleep k)
  sleep-Sleeps = sleep_by k.ready_list refl

-- The thread that is made ready may take the processor from its waker.
module _ (t : ℕ) (k : Kernel) (s : IsSane k) (waits : k.status t ≡ blocked) where
  abbrev pub woken : Kernel
  woken = make_ready t k

  woken-IsSane : IsSane woken
  woken-IsSane = record {
    queued = make_ready-IsQueued t k (ground (arith, waits)) s.queued;
    runs = ground (arith, s.runs, waits);
    alone = λ u h. ground (arith, s.alone u);
  }

  -- In a sane state, `ReadyToRun` of a thread that waits leaves a sane state. It gives the processor
  -- away exactly if the thread has a higher priority than its caller, and then the current thread has
  -- a priority as high as any that is ready; else the caller goes on, and the thread has only been put on the ready list.
  pub ready_to_run_lem :
      IsSane (ready_to_run t k).0
      × (if ltb_ℤ (k.priority t) (k.priority k.current_thread)
          then ((ready_to_run t k).1 ≡ true) × Dispatches woken (ready_to_run t k).0
          else (ready_to_run t k ≡ (woken, false)))
  unfolding ready_to_run
  ready_to_run_lem =
      let ne : t ≢ k.current_thread = λ e. cc (sym (ap k.status e ∙ s.runs) ∙ waits) in
      let other : (t == k.current_thread) ≡ false = ground arith in
      elim (Bool-cases (ltb_ℤ (k.priority t) (k.priority k.current_thread))) [
        | inl higher ↦
            let (d, _) = yield_thread-Dispatches woken woken-IsSane in
            rw other (rw higher (d.sane, (refl, d)))
        | inr lower ↦ rw other (rw lower (woken-IsSane, refl))
      ]
