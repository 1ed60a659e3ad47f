-- ===== src/Threads/Lock/Invariant.antt =====
-- What holds of a lock between two steps: one holder at most, and the queue is that of the blocked.
use op_prac.Base.{refl, ℕ, ◌≤◌, ◌≡◌, ap, Bool, true, false, some, arith}
use op_prac.Threads.Scheduler.{Kernel}
use op_prac.Threads.Lock.{
  Place, outside, testing, holding, reentering, raising, call_again, Lock, runner, Step, call, take,
  wait, release, wake, raise, yield, new_lock, Reach, start, later,
}

-- From the end of `P` to `value++`.
abbrev pub is_busy : Place → Bool
is_busy holding = true
is_busy reentering = true
is_busy raising = true
is_busy _ = false

-- From the end of `P` to `Release`.
abbrev pub is_owner : Place → Bool
is_owner holding = true
is_owner reentering = true
is_owner _ = false

owner_busy : (p : Place) → is_owner p ≡ true → is_busy p ≡ true
owner_busy holding h = refl
owner_busy reentering h = refl
owner_busy outside h = cc
owner_busy testing h = cc
owner_busy raising h = cc

-- Who may have the lock.
pub record IsExclusive (s : Lock) : Type 0 where
  pub binary : s.value ≤ 1
  pub taken : (t : ℕ) → is_busy (s.place t) ≡ true → s.value ≡ 0
  pub unique : (t u : ℕ) → is_busy (s.place t) ≡ true → is_busy (s.place u) ≡ true → t ≡ u
  pub some_one : s.value ≡ 0 → (t : ℕ) × (is_busy (s.place t) ≡ true)
  pub owned : (t : ℕ) → s.owner_id ≡ some t → is_owner (s.place t) ≡ true
  pub owner : (t : ℕ) → is_owner (s.place t) ≡ true → s.owner_id ≡ some t

pub new_lock-IsExclusive : (k : Kernel) → IsExclusive (new_lock k)
new_lock-IsExclusive k = record {
  binary = omega arith;
  taken = λ t h. cc;
  unique = λ t u h. cc;
  some_one = λ h. absurd (omega arith);
  owned = λ t h. cc;
  owner = λ t h. cc;
}

-- Every step keeps it.
pub Step-IsExclusive : {s t : Lock} → Step s t → IsExclusive s → IsExclusive t
Step-IsExclusive {s} (call here) x = record {
  binary = x.binary;
  taken = λ t h. ground (arith, x.taken t);
  unique = λ t u h h'. ground (arith, x.unique t u);
  some_one = λ e. let (t, h) = x.some_one e in (t, ground (arith, h, here));
  owned = λ t h. ground (arith, x.owned t h);
  owner = λ t h. ground (arith, x.owner t);
}
Step-IsExclusive {s} (call_again here) x = record {
  binary = x.binary;
  taken = λ t h. ground (arith, x.taken t, here);
  unique = λ t u h h'. ground (arith, x.unique t u, here);
  some_one = λ e. let (t, h) = x.some_one e in (t, ground (arith, h, here));
  owned = λ t h. ground (arith, x.owned t h, here);
  owner = λ t h. ground (arith, x.owner t, here);
}
Step-IsExclusive {s} (take here free) x = record {
  binary = omega (arith, x.binary);
  taken = λ t h. omega (arith, x.binary);
  unique = λ t u h h'. ground (arith, x.taken t, x.taken u);
  some_one = λ e. (runner s, ground arith);
  owned = λ t h. ground arith;
  owner = λ t h. ground (arith, x.taken t, owner_busy (s.place t));
}
Step-IsExclusive (wait here none_left slept) x = record {
  binary = x.binary;
  taken = x.taken;
  unique = x.unique;
  some_one = x.some_one;
  owned = x.owned;
  owner = x.owner;
}
Step-IsExclusive {s} (release here mine empty) x = record {
  binary = x.binary;
  taken = λ t h. ground (arith, x.taken t, x.taken (runner s));
  unique =
      λ t u h h'. ground (arith, here, x.unique t u, x.unique t (runner s), x.unique u (runner s));
  some_one = λ e. (runner s, ground arith);
  owned = λ t h. cc;
  owner = λ t h. ground (arith, here, x.unique t (runner s), owner_busy (s.place t));
}
Step-IsExclusive {s} (wake here mine first) x = record {
  binary = x.binary;
  taken = λ t h. ground (arith, x.taken t, x.taken (runner s));
  unique =
      λ t u h h'. ground (arith, here, x.unique t u, x.unique t (runner s), x.unique u (runner s));
  some_one = λ e. (runner s, ground arith);
  owned = λ t h. cc;
  owner = λ t h. ground (arith, here, x.unique t (runner s), owner_busy (s.place t));
}
Step-IsExclusive {s} (raise here) x = record {
  binary = ground (arith, here, x.taken (runner s));
  taken = λ t h. ground (arith, here, x.unique t (runner s));
  unique = λ t u h h'. ground (arith, x.unique t u);
  some_one = λ e. absurd (omega arith);
  owned = λ t h. ground (arith, here, x.owned t h);
  owner = λ t h. ground (arith, here, x.owner t);
}
Step-IsExclusive (yield free) x = record {
  binary = x.binary;
  taken = x.taken;
  unique = x.unique;
  some_one = x.some_one;
  owned = x.owned;
  owner = x.owner;
}

Reach-IsExclusive : {k : Kernel} {s : Lock} → Reach k s → IsExclusive s
Reach-IsExclusive {k} start = new_lock-IsExclusive k
Reach-IsExclusive (later r st) = Step-IsExclusive st (Reach-IsExclusive r)

-- In every state that is reached from a new lock, by any threads of any priorities, two threads never
-- have the lock at a time, the owner on record is the thread that has it, and the value of the
-- semaphore is 0 while one has it.
pub mutual_exclusion :
    {k : Kernel} {s : Lock} (t u : ℕ)
    → Reach k s
    → s.place t ≡ holding
    → s.place u ≡ holding
    → (t ≡ u) × (s.owner_id ≡ some t) × (s.value ≡ 0)
mutual_exclusion t u r h h' =
    let x = Reach-IsExclusive r in
    (
      x.unique t u (ap is_busy h) (ap is_busy h'),
      x.owner t (ap is_owner h),
      x.taken t (ap is_busy h),
    )
