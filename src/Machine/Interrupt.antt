-- ===== src/Machine/Interrupt.antt =====
-- code/machine/interrupt.cc: simulated time and the hardware interrupts that wait for it, and the
-- timer of code/machine/timer.cc that is not random.
-- `pending` is what the sorted list of that name represents (Threads.LinkedList.Entries); `world` is
-- all that the handlers work on beside this state. The handlers are functions that devices hand in,
-- and so is `run_handler`. Times are not negative and stay below 2 ^ 31. The delayed load of the
-- simulated machine before a handler, and output, are left out.
pub mod Due
mod Tests
use op_prac.Base.{
  ℕ, zero, suc, ◌+◌, ◌-◌, ◌*◌, ◌/◌, ◌%◌, ◌^◌, ◌≤◌, ◌<◌, ◌≡◌, refl, sym, ap, subst, ◌∙◌, ◌≢◌, ◌↔◌,
  ◌⊎◌, inl, inr, Bool, true, false, not, ◌&&◌, ◌||◌, Option, none, some, List, [], ◌∷◌, ◌++◌, map,
  arith, dec_lt, dec_le, ℕ_discrete, Error, assert_failed, bad_access, arithmetic_fault,
  out_of_fuel, Result, ok, err, ◌>>=◌, ◌>>◌, assert, or_fault, Result-cases, ltb, leb, ◌==◌,
  if◌then◌else◌, ltb→lt, lt→ltb, le→ltb, lt→leb, le→leb, leb→le, ==_iff, tests, Bool-cases,
  Option-cases, length, get_elem?, set, get_or, take, drop, replicate, All, length-append,
  length-set, length-replicate, get_or-set_self, get_or-set_ne, get_elem?-eq-get_or, get_elem?-none,
  get_elem?-set_self, get_elem?-set_ne, get_elem?-append, get_elem?-some, All-set, All-get_or,
  bit_and, bit_or, bit_xor, Gives, Gives-bind, Gives-map, update, update_self, update_ne,
}
use op_prac.Base.Int.{ℤ, pos, pos_part}
use op_prac.Threads.LinkedList.Entries.{insert_entry}

pub data IntStatus : Type 0 where
  int_off int_on : IntStatus

pub data MachineStatus : Type 0 where
  idle_mode system_mode user_mode : MachineStatus

pub data IntType : Type 0 where
  timer_int disk_int console_write_int console_read_int elevator_int network_send_int
        network_recv_int :
      IntType

-- `when` is the key on the list, too.
pub record PendingInterrupt : Type 0 where
  pub handler : ℕ
  pub arg : ℕ
  pub when : ℕ
  pub kind : IntType

abbrev pub new_pending : ℕ → ℕ → ℕ → IntType → PendingInterrupt
new_pending handler arg when kind = record {
  handler = handler;
  arg = arg;
  when = when;
  kind = kind;
}

pub record Interrupt (W : Type 0) : Type 0 where
  pub level : IntStatus
  pub pending : List (ℤ × PendingInterrupt)
  pub in_handler : Bool
  pub yield_on_return : Bool
  pub status : MachineStatus
  pub total_ticks : ℕ
  pub idle_ticks : ℕ
  pub system_ticks : ℕ
  pub user_ticks : ℕ
  pub world : W

abbrev pub is_off : IntStatus → Bool
is_off int_off = true
is_off int_on = false

abbrev pub is_idle : MachineStatus → Bool
is_idle idle_mode = true
is_idle _ = false

abbrev pub is_system : MachineStatus → Bool
is_system system_mode = true
is_system _ = false

abbrev pub is_timer : IntType → Bool
is_timer timer_int = true
is_timer _ = false

abbrev pub is_nil {ℓ} : {A : Type ℓ} → List A → Bool
is_nil [] = true
is_nil (x ∷ xs) = false

module _ {W : Type 0} where
  -- The constructor.
  abbrev pub new_interrupt : W → Interrupt W
  new_interrupt w = record {
    level = int_off;
    pending = [];
    in_handler = false;
    yield_on_return = false;
    status = system_mode;
    total_ticks = 0;
    idle_ticks = 0;
    system_ticks = 0;
    user_ticks = 0;
    world = w;
  }

  pub schedule : ℕ → ℕ → ℕ → IntType → Interrupt W → Result (Interrupt W)
  schedule handler arg from_now kind s = do
    let when = s.total_ticks + from_now
    let to_occur = new_pending handler arg when kind
    assert (ltb 0 from_now)
    ok (record s { pending = insert_entry (pos when, to_occur) s.pending })

  unfoldable pub ask_for_yield : Interrupt W → Result (Interrupt W)
  ask_for_yield s = assert s.in_handler >> ok (record s { yield_on_return = true })

module _ {W : Type 0} where
  -- The fuel: each round takes one interrupt that is due.
  abbrev pub rounds : Interrupt W → ℕ
  rounds s = length s.pending + 1

  abbrev pub advance : Interrupt W → Interrupt W
  advance s =
      if is_system s.status
      then (record s { total_ticks = s.total_ticks + 10; system_ticks = s.system_ticks + 10 })
      else (record s { total_ticks = s.total_ticks + 1; user_ticks = s.user_ticks + 1 })

  -- `currentThread->Yield()`, if a handler has asked for it.
  abbrev pub yield_if :
      (Interrupt W → Result (Interrupt W)) → MachineStatus → Interrupt W → Result (Interrupt W)
  yield_if yield_thread old s =
      if s.yield_on_return
      then (yield_thread (record s { yield_on_return = false; status = system_mode }) >>= λ s'.
          ok (record s' { status = old }))
      else ok s

module _ {W : Type 0} (run_handler : PendingInterrupt → Interrupt W → Result (Interrupt W)) where
  -- The handler of `p` is called, in system mode.
  pub invoke : PendingInterrupt → Interrupt W → Result (Bool × Interrupt W)
  invoke p s = do
    s' ← run_handler p (record s { in_handler = true; status = system_mode })
    ok (true, record s' { status = s.status; in_handler = false })

  -- The interrupt has been taken off the list; `when` is its key, and it is due.
  pub occur : ℤ → PendingInterrupt → Interrupt W → Result (Bool × Interrupt W)
  occur when p s =
      if is_idle s.status && is_timer p.kind && is_nil s.pending
      then ok (false, record s { pending = insert_entry (when, p) s.pending })
      else invoke p s

  pub consider : Bool → ℤ → PendingInterrupt → Interrupt W → Result (Bool × Interrupt W)
  consider advance_clock when p s =
      if ltb s.total_ticks (pos_part when)
      then (if advance_clock
          then occur when p (record s {
            idle_ticks = s.idle_ticks + (pos_part when - s.total_ticks);
            total_ticks = pos_part when;
          })
          else ok (false, record s { pending = insert_entry (when, p) s.pending }))
      else occur when p s

  abbrev pub consider_first :
      Bool → List (ℤ × PendingInterrupt) → Interrupt W → Result (Bool × Interrupt W)
  consider_first advance_clock [] s = ok (false, s)
  consider_first advance_clock (e ∷ rest) s =
      consider advance_clock (e.0) (e.1) (record s { pending = rest })

  pub check_if_due : Bool → Interrupt W → Result (Bool × Interrupt W)
  check_if_due advance_clock s = do
    assert (is_off s.level)
    consider_first advance_clock s.pending s

  -- `while (CheckIfDue(FALSE));`
  pub fire_due : ℕ → Interrupt W → Result (Interrupt W)
  fire_due zero s = err out_of_fuel
  fire_due (suc fuel) s =
      check_if_due false s >>= λ (fired, s'). if fired then fire_due fuel s' else ok s'

  -- `OneTick` up to the switch of threads.
  pub tick_and_fire : Interrupt W → Result (Interrupt W)
  tick_and_fire s = do
    let s₁ = record (advance s) { level = int_off }
    s₂ ← fire_due (rounds s₁) s₁
    ok (record s₂ { level = int_on })

  unfoldable pub one_tick :
      (Interrupt W → Result (Interrupt W)) → Interrupt W → Result (Interrupt W)
  one_tick yield_thread s = tick_and_fire s >>= yield_if yield_thread s.status

  unfoldable pub set_level :
      (Interrupt W → Result (Interrupt W))
      → IntStatus
      → Interrupt W
      → Result (IntStatus × Interrupt W)
  set_level yield_thread now s = do
    assert (is_off now || not s.in_handler)
    let s' = record s { level = now }
    s'' ← if not (is_off now) && is_off s.level then one_tick yield_thread s' else ok s'
    ok (s.level, s'')

  -- `Idle`, but for `Halt`: `none` is the end of the program.
  unfoldable pub idle : Interrupt W → Result (Option (Interrupt W))
  idle s = check_if_due true (record s { status = idle_mode }) >>= λ (fired, s').
      if fired
      then (fire_due (rounds s') s' >>= λ s''.
          ok (some (record s'' { yield_on_return = false; status = system_mode })))
      else ok none

-- `TimeOfNextInterrupt` of code/machine/timer.cc, without `randomize`.
abbrev pub timer_ticks : ℕ
timer_ticks = 80

module _ {W : Type 0} where
  -- `TimerExpired`: the next interrupt of the timer, and the kernel's handler.
  pub timer_expired :
      (Interrupt W → Result (Interrupt W)) → PendingInterrupt → Interrupt W → Result (Interrupt W)
  timer_expired kernel_handler p s =
      schedule p.handler p.arg timer_ticks timer_int s >>= kernel_handler
