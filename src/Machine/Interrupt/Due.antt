-- ===== src/Machine/Interrupt/Due.antt =====
-- Which interrupts are due, and that the loop of `OneTick` has fired them all when it ends.
use op_prac.Base.{
  ℕ, zero, suc, ◌+◌, ◌≤◌, ◌<◌, ◌≡◌, refl, ap, ◌∙◌, inl, inr, Bool, true, false, List, [], ◌∷◌,
  arith, Result, ok, ltb, leb, if◌then◌else◌, ltb→lt, lt→ltb, Bool-cases, length, All, Gives,
  Gives-bind, Gives-map,
}
use op_prac.Base.Int.{ℤ, pos, negsuc, pos_part, ◌≤ℤ◌}
use op_prac.Threads.LinkedList.Entries.{insert_entry, insert_entry-IsSorted, IsSorted}
use op_prac.Machine.Interrupt.{
  IntType, int_off, int_on, is_off, system_mode, is_idle, is_system, advance, tick_and_fire,
  PendingInterrupt, Interrupt, schedule, invoke, occur, consider, consider_first, check_if_due,
  fire_due, rounds, new_pending,
}

-- How many of the interrupts are due at time `now`.
abbrev pub due : ℕ → List (ℤ × PendingInterrupt) → ℕ
due now [] = 0
due now (e ∷ es) = (if leb (pos_part e.0) now then 1 else 0) + due now es

due-insert_entry :
    (now : ℕ) (e : ℤ × PendingInterrupt) (es : List (ℤ × PendingInterrupt))
    → due now (insert_entry e es) ≡ due now (e ∷ es)
unfolding insert_entry
due-insert_entry now e [] = refl
due-insert_entry now e (d ∷ es) = ground (arith, due-insert_entry now e es)

-- Behind an interrupt that is not due, none is.
due_later :
    (now : ℕ) (key : ℤ) (es : List (ℤ × PendingInterrupt))
    → now < pos_part key
    → All (λ d. key ≤ℤ d.0) es
    → due now es ≡ 0
due_later now key [] lt h = refl
due_later now (negsuc n) (d ∷ es) lt h = absurd (omega arith)
due_later now (pos n) (d ∷ es) lt h = ground (arith, due_later now (pos n) es lt (h.1), h.0)

due-le-length : (now : ℕ) (es : List (ℤ × PendingInterrupt)) → due now es ≤ length es
due-le-length now [] = omega arith
due-le-length now (e ∷ es) = ground (arith, due-le-length now es)

-- Between two rounds: interrupts are off, and the list is in the order of the times.
pub record IsTicking {W : Type 0} (s : Interrupt W) : Type 0 where
  pub off : s.level ≡ int_off
  pub sorted : IsSorted s.pending

-- The clock stands still, and no more is due than before.
pub record Settles {W : Type 0} (s s' : Interrupt W) : Type 0 where
  pub ticking : IsTicking s'
  pub time : s'.total_ticks ≡ s.total_ticks
  pub bounded : due s'.total_ticks s'.pending ≤ due s.total_ticks s.pending

-- `Schedule` asks for a time to come, so that it makes nothing due.
pub schedule-Settles :
    {W : Type 0} (handler arg from_now : ℕ) (kind : IntType) (s : Interrupt W)
    → 0 < from_now
    → IsTicking s
    → Gives (Settles s) (schedule handler arg from_now kind s)
unfolding schedule
schedule-Settles handler arg from_now kind s lt t =
    let when = s.total_ticks + from_now in
    let e : ℤ × PendingInterrupt = (pos when, new_pending handler arg when kind) in
    rw (lt→ltb 0 from_now lt) (record {
      ticking = record { off = t.off; sorted = insert_entry-IsSorted e s.pending t.sorted };
      time = refl;
      bounded = ground (arith, due-insert_entry s.total_ticks e s.pending);
    })

module _ {W : Type 0} (run_handler : PendingInterrupt → Interrupt W → Result (Interrupt W))
    (quiet : (p : PendingInterrupt) (s : Interrupt W)
      → IsTicking s
      → Gives (Settles s) (run_handler p s)) where
  -- After a round: an interrupt that was due has been fired, or none is due.
  abbrev Rounded : Interrupt W → Bool × Interrupt W → Type 0
  Rounded s (true, s') =
      IsTicking s'
      × (s'.total_ticks ≡ s.total_ticks)
      × (s'.status ≡ s.status)
      × (due s'.total_ticks s'.pending < due s.total_ticks s.pending)
  Rounded s (false, s') =
      IsTicking s'
      × (s'.total_ticks ≡ s.total_ticks)
      × (s'.status ≡ s.status)
      × (due s'.total_ticks s'.pending ≡ 0)

  -- The state without the first interrupt.
  abbrev without_first : List (ℤ × PendingInterrupt) → Interrupt W → Interrupt W
  without_first rest s = record s { pending = rest }

  put_back-Rounded :
      (key : ℤ) (p : PendingInterrupt) (rest : List (ℤ × PendingInterrupt)) (s : Interrupt W)
      → s.pending ≡ (key, p) ∷ rest
      → IsTicking s
      → s.total_ticks < pos_part key
      → Rounded s (false, record s { pending = insert_entry (key, p) rest })
  put_back-Rounded key p rest s first t later =
      let sorted : IsSorted ((key, p) ∷ rest) = rw first at t.sorted in
      (
        record { off = t.off; sorted = insert_entry-IsSorted (key, p) rest (sorted.1) },
        refl,
        refl,
        due-insert_entry s.total_ticks (key, p) rest
            ∙ ground (arith, due_later s.total_ticks key rest later (sorted.0)),
      )

  invoke-Rounded :
      (key : ℤ) (p : PendingInterrupt) (rest : List (ℤ × PendingInterrupt)) (s : Interrupt W)
      → s.pending ≡ (key, p) ∷ rest
      → IsTicking s
      → pos_part key ≤ s.total_ticks
      → Gives (Rounded s) (invoke run_handler p (without_first rest s))
  unfolding invoke
  invoke-Rounded key p rest s first t now =
      let sorted : IsSorted ((key, p) ∷ rest) = rw first at t.sorted in
      let s₁ = record (without_first rest s) { in_handler = true; status = system_mode } in
      Gives-bind (Settles s₁) _ _ _ (quiet p s₁ (record { off = t.off; sorted = sorted.1 })) λ s' f.
        (record { off = f.ticking.off; sorted = f.ticking.sorted }, f.time, refl, fewer s' f)
    where
      fewer :
          (s' : Interrupt W)
          → Settles (record (without_first rest s) { in_handler = true; status = system_mode }) s'
          → due s'.total_ticks s'.pending < due s.total_ticks s.pending
      fewer s' f = rw first (ground (arith, f.bounded))

  consider-Rounded :
      (key : ℤ) (p : PendingInterrupt) (rest : List (ℤ × PendingInterrupt)) (s : Interrupt W)
      → s.pending ≡ (key, p) ∷ rest
      → IsTicking s
      → is_idle s.status ≡ false
      → Gives (Rounded s) (consider run_handler false key p (without_first rest s))
  unfolding consider occur
  consider-Rounded key p rest s first t awake =
      elim (Bool-cases (ltb s.total_ticks (pos_part key))) [
        | inl later ↦ rw later (put_back-Rounded key p rest s first t (ltb→lt _ _ later))
        | inr now ↦ rw (now, awake) (invoke-Rounded key p rest s first t (ground (arith, now)))
      ]

  check_if_due-Rounded :
      (s : Interrupt W)
      → IsTicking s
      → is_idle s.status ≡ false
      → Gives (Rounded s) (check_if_due run_handler false s)
  unfolding check_if_due
  check_if_due-Rounded s t awake =
      let off : is_off s.level ≡ true = ap is_off t.off in rw off (first_of s.pending refl)
    where
      first_of :
          (es : List (ℤ × PendingInterrupt))
          → s.pending ≡ es
          → Gives (Rounded s) (consider_first run_handler false es s)
      first_of [] none_left = (t, refl, refl, ap (due s.total_ticks) none_left)
      first_of ((key, p) ∷ rest) first = consider-Rounded key p rest s first t awake

  -- The loop has an end, and then nothing is due.
  pub record Fires (s s' : Interrupt W) : Type 0 where
    pub ticking : IsTicking s'
    pub time : s'.total_ticks ≡ s.total_ticks
    pub status : s'.status ≡ s.status
    pub none_due : due s'.total_ticks s'.pending ≡ 0

  Rounded-Fires :
      (fuel : ℕ) (s : Interrupt W)
      → is_idle s.status ≡ false
      → due s.total_ticks s.pending < suc fuel
      → ((u : Interrupt W)
          → IsTicking u
          → is_idle u.status ≡ false
          → due u.total_ticks u.pending < fuel
          → Gives (Fires u) (fire_due run_handler fuel u))
      → (fired : Bool) (s' : Interrupt W) → Rounded s (fired, s')
      → Gives (Fires s) (if fired then fire_due run_handler fuel s' else ok s')
  Rounded-Fires fuel s awake lt more false s' (t', time, status, none_due) = record {
    ticking = t';
    time = time;
    status = status;
    none_due = none_due;
  }
  Rounded-Fires fuel s awake lt more true s' (t', time, status, fewer) =
      Gives-map {P = Fires s'} {Q = Fires s}
        (λ u f. record {
          ticking = f.ticking;
          time = f.time ∙ time;
          status = f.status ∙ status;
          none_due = f.none_due;
        })
        (fire_due run_handler fuel s')
        (more s' t' (ap is_idle status ∙ awake) (omega (arith, fewer, lt)))

  -- If no handler makes anything due at once, the loop of `OneTick` comes to an end when the fuel is
  -- more than the number of interrupts that are due; time stands still in it, and in the end none is
  -- due.
  pub fire_due-Fires :
      (fuel : ℕ) (s : Interrupt W)
      → IsTicking s
      → is_idle s.status ≡ false
      → due s.total_ticks s.pending < fuel
      → Gives (Fires s) (fire_due run_handler fuel s)
  unfolding fire_due
  fire_due-Fires zero s t awake lt = absurd (omega arith)
  fire_due-Fires (suc fuel) s t awake lt =
      Gives-bind (Rounded s) _ _ _ (check_if_due-Rounded s t awake)
        λ (fired, s') r. Rounded-Fires fuel s awake lt (fire_due-Fires fuel) fired s' r

  -- The clock has moved by the tick of the mode, interrupts are on, and none is due.
  pub record Ticks (s s' : Interrupt W) : Type 0 where
    pub time : s'.total_ticks ≡ s.total_ticks + (if is_system s.status then 10 else 1)
    pub on : s'.level ≡ int_on
    pub none_due : due s'.total_ticks s'.pending ≡ 0
    pub kept_order : IsSorted s'.pending

  advanced : Interrupt W → Interrupt W
  advanced s = record (advance s) { level = int_off }

  advance-IsTicking :
      (s : Interrupt W)
      → IsSorted s.pending
      → IsTicking (advanced s)
        × ((advanced s).status ≡ s.status)
        × ((advanced s).total_ticks ≡ s.total_ticks + (if is_system s.status then 10 else 1))
  unfolding advanced
  advance-IsTicking s sorted = elim (Bool-cases (is_system s.status)) [
    | inl system ↦ rw system (record { off = refl; sorted = sorted }, refl, refl)
    | inr user ↦ rw user (record { off = refl; sorted = sorted }, refl, refl)
  ]

  -- Outside of the idle mode, with the interrupts in the order of their times and no handler that
  -- makes anything due at once, `OneTick` comes to the point where it may switch threads: the clock
  -- has moved on by 10 in system mode and by 1 in user mode, interrupts are on, none that is due is
  -- left, and the rest are in order.
  pub tick_and_fire-Ticks :
      (s : Interrupt W)
      → IsSorted s.pending
      → is_idle s.status ≡ false
      → Gives (Ticks s) (tick_and_fire run_handler s)
  unfolding tick_and_fire advanced
  tick_and_fire-Ticks s sorted awake =
      let s₁ = advanced s in
      let (t, status, time) = advance-IsTicking s sorted in
      Gives-bind (Fires s₁) _ _ _
        (fire_due-Fires (rounds s₁) s₁ t (ap is_idle status ∙ awake)
          (omega (arith, due-le-length s₁.total_ticks s₁.pending)))
        λ s₂ f. record {
          time = f.time ∙ time;
          on = refl;
          none_due = f.none_due;
          kept_order = f.ticking.sorted;
        }
