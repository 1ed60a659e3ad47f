-- ===== src/Threads/Lock/Tests.antt =====
-- The theorems about the lock at concrete states.
use op_prac.Base.{ℕ, ◌≡◌, refl, some, [], ◌∷◌, arith, ◌==◌, if◌then◌else◌}
use op_prac.Base.Int.{ℤ, pos}
use op_prac.Threads.Scheduler.{just_created, running, blocked, Kernel}
use op_prac.Threads.Lock.{outside, testing, holding, Lock, call, take, Reach, start, later}
use op_prac.Threads.Lock.Invariant.{mutual_exclusion}
use op_prac.Threads.Lock.Wakeup.{Contended, Lost, release_loses, Hands, release_hands}

-- Thread 0 runs with priority 4, thread 1 waits with priority `p`.
abbrev two : ℤ → Kernel
two p = record {
  ready_list = [];
  current_thread = 0;
  status = λ t. if t == 0 then running else if t == 1 then blocked else just_created;
  priority = λ t. if t == 0 then pos 4 else p;
}

-- Thread 0 has the lock, and thread 1 waits for it.
abbrev contended : ℤ → Lock
contended p = record {
  kernel = two p;
  value = 0;
  queue = 1 ∷ [];
  owner_id = some 0;
  place = λ t. if t == 0 then holding else if t == 1 then testing else outside;
}

contended-Contended : (p : ℤ) → Contended (contended p) 1 []
contended-Contended p = record {
  waiting = record {
    sane = record {
      queued = record { sorted = tt; keyed = tt; counted = λ t. ground arith };
      runs = refl;
      alone = λ t h. ground arith;
    };
    queued = λ t. ground arith;
    at_test = λ t h. ground arith;
  };
  exclusive = record {
    binary = omega arith;
    taken = λ t h. refl;
    unique = λ t u h h'. ground arith;
    some_one = λ e. (0, refl);
    owned = λ t h. ground arith;
    owner = λ t h. ground arith;
  };
  held = refl;
  first = refl;
}

release_loses_example : (u : Lock) × Lost 1 [] (contended-Contended (pos 3)) u
release_loses_example = release_loses 1 [] (contended-Contended (pos 3)) refl refl

release_hands_example : Hands 1 [] (contended-Contended (pos 7))
release_hands_example = release_hands 1 [] (contended-Contended (pos 7)) refl

abbrev held_by_0 : Lock
held_by_0 = record {
  kernel = two (pos 7);
  value = 0;
  queue = [];
  owner_id = some 0;
  place = λ t. if 0 == t then holding else if 0 == t then testing else outside;
}

acquired : Reach (two (pos 7)) held_by_0
acquired = later (later start (call refl)) (take refl (omega arith))

mutual_exclusion_example : ◌≡◌ {A = ℕ} 0 0 × (held_by_0.owner_id ≡ some 0) × (held_by_0.value ≡ 0)
mutual_exclusion_example = mutual_exclusion 0 0 acquired refl refl
