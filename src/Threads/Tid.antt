-- ===== src/Threads/Tid.antt =====
-- The numbers of threads: `TidMap` and `MinAvailableTid` of code/threads/system.cc, as the constructor
-- and the destructor of code/threads/thread.cc use them. `PCBList`, the list of all threads, and the rest of a thread are left out.
pub mod Numbers
mod Tests
use op_prac.Base.{
  ℕ, zero, suc, ◌+◌, ◌-◌, ◌*◌, ◌/◌, ◌%◌, ◌^◌, ◌≤◌, ◌<◌, ◌≡◌, refl, sym, ap, subst, ◌∙◌, ◌≢◌, ◌↔◌,
  ◌⊎◌, inl, inr, Bool, true, false, not, ◌&&◌, ◌||◌, Option, none, some, List, [], ◌∷◌, ◌++◌, map,
  arith, dec_lt, dec_le, ℕ_discrete, Error, assert_failed, bad_access, arithmetic_fault,
  out_of_fuel, Result, ok, err, ◌>>=◌, ◌>>◌, assert, or_fault, Result-cases, ltb, leb, ◌==◌,
  if◌then◌else◌, ltb→lt, lt→ltb, le→ltb, lt→leb, le→leb, leb→le, ==_iff, tests, Bool-cases,
  Option-cases, length, get_elem?, set, get_or, take, drop, replicate, All, length-append,
  length-set, length-replicate, get_or-set_self, get_or-set_ne, get_elem?-eq-get_or, get_elem?-none,
  get_elem?-set_self, get_elem?-set_ne, get_elem?-append, get_elem?-some, All-set, All-get_or,
  bit_and, bit_or, bit_xor, Gives, Gives-bind, Gives-map, update, update_self, update_ne,
}

abbrev pub threads_num_limit : ℕ
threads_num_limit = 128

pub record Tids : Type 0 where
  pub tid_map : ℕ → Bool
  pub min_available_tid : ℕ

-- What `Initialize` sets.
abbrev pub no_threads : Tids
no_threads = record { tid_map = λ t. false; min_available_tid = 0 }

-- The `for` loop behind the new number: its `break` stands outside of the `if`, so that it looks at one
-- number only.
abbrev pub next_number : ℕ → (ℕ → Bool) → ℕ
next_number tid tid_map =
    if ltb (tid + 1) threads_num_limit && not (tid_map (tid + 1)) then tid + 1 else tid

abbrev pub limit_if_none : ℕ → ℕ → ℕ
limit_if_none tid next = if next == tid then threads_num_limit else next

-- The constructor: the number of the new thread.
pub new_thread : Tids → Result (ℕ × Tids)
new_thread s = do
  let tid = s.min_available_tid
  assert (ltb tid threads_num_limit)
  assert (not (s.tid_map tid))
  let tid_map = update s.tid_map tid true
  let next = limit_if_none tid (next_number tid tid_map)
  ok (tid, record s { tid_map = tid_map; min_available_tid = next })

-- The destructor.
pub delete_thread : ℕ → Tids → Result Tids
delete_thread tid s = do
  assert (s.tid_map tid)
  ok (record s {
    tid_map = update s.tid_map tid false;
    min_available_tid = if ltb tid s.min_available_tid then tid else s.min_available_tid;
  })
