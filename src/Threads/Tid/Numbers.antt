-- ===== src/Threads/Tid/Numbers.antt =====
-- Which numbers are given out.
use op_prac.Base.{
  ℕ, ◌+◌, ◌<◌, ◌≡◌, refl, ◌≢◌, true, false, arith, assert_failed, err, ◌>>=◌, ltb, if◌then◌else◌,
  lt→ltb, Gives, update, update_self, update_ne,
}
use op_prac.Threads.Tid.{
  Tids, threads_num_limit, next_number, limit_if_none, new_thread, delete_thread,
}

-- The number that comes next is free, if it is below the limit.
abbrev pub IsOpen : Tids → Type 0
IsOpen s =
    if ltb s.min_available_tid threads_num_limit
    then s.tid_map s.min_available_tid ≡ false
    else Unit {0}

-- A new thread has a number of its own: it was free and below the limit, it is taken now, and no other
-- number has changed.
pub record Numbers (s : Tids) (r : ℕ × Tids) : Type 0 where
  pub below : r.0 < threads_num_limit
  pub was_free : s.tid_map r.0 ≡ false
  pub taken : r.1.tid_map r.0 ≡ true
  pub others : (t : ℕ) → t ≢ r.0 → r.1.tid_map t ≡ s.tid_map t
  pub open_again : IsOpen r.1

-- Where `MinAvailableTid` is below the limit and free, the constructor gives a number that was free and
-- below the limit; it marks that number and no other, and `MinAvailableTid` is free again or the
-- limit.
pub new_thread-Numbers :
    (s : Tids)
    → IsOpen s
    → s.min_available_tid < threads_num_limit
    → Gives (Numbers s) (new_thread s)
unfolding new_thread
new_thread-Numbers s free lt =
    let is_free : s.tid_map s.min_available_tid ≡ false = ground (arith, free) in
    rw (lt→ltb s.min_available_tid threads_num_limit lt, is_free)
      (record {
        below = lt;
        was_free = is_free;
        taken = update_self s.tid_map s.min_available_tid true;
        others = λ t ne. update_ne s.tid_map s.min_available_tid true t ne;
        open_again = ground arith;
      })

-- The destructor keeps that, and makes the number free.
pub delete_thread-IsOpen :
    (tid : ℕ) (s : Tids)
    → IsOpen s
    → s.tid_map tid ≡ true
    → Gives (λ s'. IsOpen s' × (s'.tid_map tid ≡ false)) (delete_thread tid s)
unfolding delete_thread
delete_thread-IsOpen tid s free taken = ground (arith, free, taken)

-- Where `MinAvailableTid` is below the limit and free, and the number behind it is taken, the second of
-- two constructors ends the program at an ASSERT, whatever other numbers are free.
pub new_thread_exhausts :
    (s : Tids)
    → IsOpen s
    → s.min_available_tid < threads_num_limit
    → s.tid_map (s.min_available_tid + 1) ≡ true
    → (new_thread s >>= λ (tid, s'). new_thread s') ≡ err assert_failed
unfolding new_thread
new_thread_exhausts s free lt next =
    let is_free : s.tid_map s.min_available_tid ≡ false = ground (arith, free) in
    let none_left : limit_if_none s.min_available_tid
          (next_number s.min_available_tid (update s.tid_map s.min_available_tid true))
        ≡ threads_num_limit =
      ground (arith, next) in
    rw (lt→ltb s.min_available_tid threads_num_limit lt, is_free) (rw none_left refl)
