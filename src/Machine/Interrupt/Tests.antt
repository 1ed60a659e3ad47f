-- ===== src/Machine/Interrupt/Tests.antt =====
-- The theorems about interrupts at concrete states: a timer that sets itself again.
use op_prac.Base.{ℕ, ◌+◌, ◌≡◌, refl, [], ◌∷◌, arith, Result, ok, ◌>>=◌, Gives, Gives-bind}
use op_prac.Base.Int.{pos}
use op_prac.Threads.LinkedList.Entries.{insert_entry}
use op_prac.Machine.Interrupt.{
  timer_int, disk_int, int_on, user_mode, PendingInterrupt, Interrupt, new_interrupt, new_pending,
  schedule, timer_expired, timer_ticks, check_if_due, consider, occur, invoke, fire_due,
  tick_and_fire,
}
use op_prac.Machine.Interrupt.Due.{IsTicking, Settles, schedule-Settles, Ticks, tick_and_fire-Ticks}

-- The world counts the calls of the kernel's handler.
abbrev count_call : Interrupt ℕ → Result (Interrupt ℕ)
count_call s = ok (record s { world = s.world + 1 })

abbrev on_timer : PendingInterrupt → Interrupt ℕ → Result (Interrupt ℕ)
on_timer = timer_expired count_call

on_timer-Settles :
    (p : PendingInterrupt) (s : Interrupt ℕ) → IsTicking s → Gives (Settles s) (on_timer p s)
unfolding timer_expired
on_timer-Settles p s t =
    Gives-bind (Settles s) _ _ _
      (schedule-Settles p.handler p.arg timer_ticks timer_int s (omega arith) t)
      λ s' f. record {
        ticking = record { off = f.ticking.off; sorted = f.ticking.sorted };
        time = f.time;
        bounded = f.bounded;
      }

-- A timer and a disk interrupt, at the times 80 and 81.
abbrev two_pending : Interrupt ℕ
two_pending = record (new_interrupt 0) {
  level = int_on;
  status = user_mode;
  total_ticks = 79;
  pending = (pos 80, new_pending 1 0 80 timer_int) ∷ (pos 81, new_pending 1 0 81 disk_int) ∷ [];
}

tick_and_fire-Ticks_example :
    Gives (Ticks on_timer on_timer-Settles two_pending) (tick_and_fire on_timer two_pending)
tick_and_fire-Ticks_example =
    tick_and_fire-Ticks on_timer on_timer-Settles two_pending ((omega arith, tt), (tt, tt)) refl

abbrev calls : Result (Interrupt ℕ) → Result (ℕ × ℕ)
calls r = r >>= λ s. ok (s.world, s.total_ticks)

one_call : calls (tick_and_fire on_timer two_pending) ≡ ok (1, 80)
unfolding tick_and_fire fire_due check_if_due consider occur invoke timer_expired schedule
    insert_entry
one_call = refl
