-- ===== src/Machine/DiskHead.antt =====
-- code/machine/disk.cc: how long a request to the raw disk takes, by the position of the head.
-- `ticks` is `stats->totalTicks`. Where a difference of times would be negative, the test that it is
-- in fails in the source, as it does for 0 here.
pub mod Rotation
mod Tests
use op_prac.Base.{
  ℕ, zero, suc, ◌+◌, ◌-◌, ◌*◌, ◌/◌, ◌%◌, ◌^◌, ◌≤◌, ◌<◌, ◌≡◌, refl, sym, ap, subst, ◌∙◌, ◌≢◌, ◌↔◌,
  ◌⊎◌, inl, inr, Bool, true, false, not, ◌&&◌, ◌||◌, Option, none, some, List, [], ◌∷◌, ◌++◌, map,
  arith, dec_lt, dec_le, ℕ_discrete, Error, assert_failed, bad_access, arithmetic_fault,
  out_of_fuel, Result, ok, err, ◌>>=◌, ◌>>◌, assert, or_fault, Result-cases, ltb, leb, ◌==◌,
  if◌then◌else◌, ltb→lt, lt→ltb, le→ltb, leb→le, ==_iff, tests, Bool-cases, Option-cases, length,
  get_elem?, set, get_or, take, drop, replicate, All, length-append, length-set, length-replicate,
  get_or-set_self, get_or-set_ne, get_elem?-eq-get_or, get_elem?-none, get_elem?-set_self,
  get_elem?-set_ne, get_elem?-append, get_elem?-some, All-set, All-get_or, bit_and, bit_or, bit_xor,
}

abbrev pub sectors_per_track : ℕ
sectors_per_track = 32

abbrev pub rotation_time : ℕ
rotation_time = 500

abbrev pub seek_time : ℕ
seek_time = 500

pub record DiskHead : Type 0 where
  pub last_sector : ℕ
  pub buffer_init : ℕ

abbrev pub abs_diff : ℕ → ℕ → ℕ
abs_diff a b = if leb a b then b - a else a - b

-- The seek time, and the rotation to the next boundary of a sector.
pub time_to_seek : ℕ → ℕ → DiskHead → ℕ × ℕ
time_to_seek ticks new_sector head =
    let new_track = new_sector / sectors_per_track in
    let old_track = head.last_sector / sectors_per_track in
    let seek = abs_diff new_track old_track * seek_time in
    let over = (ticks + seek) % rotation_time in
    (seek, (if ltb 0 over then rotation_time - over else 0))

pub modulo_diff : ℕ → ℕ → ℕ
modulo_diff to from =
    let to_offset = to % sectors_per_track in
    let from_offset = from % sectors_per_track in
    (to_offset + sectors_per_track - from_offset) % sectors_per_track

pub compute_latency : ℕ → ℕ → Bool → DiskHead → ℕ
compute_latency ticks new_sector writing head =
    let (seek, rotation) = time_to_seek ticks new_sector head in
    let time_after = ticks + seek + rotation in
    let buffered =
      ltb (modulo_diff new_sector (head.buffer_init / rotation_time))
        ((time_after - head.buffer_init) / rotation_time) in
    if not writing && (seek == 0) && buffered
    then rotation_time
    else seek
      + (rotation + modulo_diff new_sector (time_after / rotation_time) * rotation_time)
      + rotation_time

pub update_last : ℕ → ℕ → DiskHead → DiskHead
update_last ticks new_sector head =
    let (seek, rotate) = time_to_seek ticks new_sector head in
    record {
      last_sector = new_sector;
      buffer_init = if seek == 0 then head.buffer_init else ticks + seek + rotate;
    }
