-- ===== src/Machine/DiskHead/Rotation.antt =====
-- Where the head is when a request ends, and how long it can take.
use op_prac.Base.{ℕ, ◌+◌, ◌/◌, ◌%◌, ◌≤◌, ◌<◌, ◌≡◌, Bool, true, arith}
use op_prac.Machine.DiskHead.{
  DiskHead, time_to_seek, modulo_diff, compute_latency, rotation_time, sectors_per_track,
}

-- After the seek and the rotation the head is at the boundary of a sector.
boundary :
    (ticks new_sector : ℕ) (head : DiskHead)
    → let r = time_to_seek ticks new_sector head in (ticks + r.0 + r.1) % 500 ≡ 0
unfolding time_to_seek
boundary ticks new_sector head = ground arith

rotation-lt :
    (ticks new_sector : ℕ) (head : DiskHead) → (time_to_seek ticks new_sector head).1 < 500
unfolding time_to_seek
rotation-lt ticks new_sector head = ground arith

modulo_diff_lem :
    (to from : ℕ) → (modulo_diff to from < 32) × ((from + modulo_diff to from) % 32 ≡ to % 32)
unfolding modulo_diff
modulo_diff_lem to from = (omega arith, omega arith)

seek-le :
    (ticks new_sector : ℕ) (head : DiskHead)
    → new_sector < 1024
    → head.last_sector < 1024
    → (time_to_seek ticks new_sector head).0 ≤ 15500
unfolding time_to_seek
seek-le ticks new_sector head h k = ground arith

-- A write ends at the boundary of a sector, just when the sector that was asked for has passed below
-- the head, wherever the head was.
pub compute_latency-passes :
    (ticks new_sector : ℕ) (head : DiskHead)
    → let end = ticks + compute_latency ticks new_sector true head in
      (end % rotation_time ≡ 0)
      × (end / rotation_time % sectors_per_track ≡ (new_sector + 1) % sectors_per_track)
unfolding compute_latency
compute_latency-passes ticks new_sector head =
    let r = time_to_seek ticks new_sector head in
    let at = boundary ticks new_sector head in
    let d = modulo_diff_lem new_sector ((ticks + r.0 + r.1) / rotation_time) in
    (omega (arith, at), omega (arith, at, d.1))

-- On sectors of the disk, a request takes the time of one sector at least, and of a seek over all
-- tracks and a whole turn with the start of a sector at most.
pub compute_latency-bounds :
    (ticks new_sector : ℕ) (writing : Bool) (head : DiskHead)
    → new_sector < 1024
    → head.last_sector < 1024
    → (500 ≤ compute_latency ticks new_sector writing head)
      × (compute_latency ticks new_sector writing head < 15500 + 500 + 16000)
unfolding compute_latency
compute_latency-bounds ticks new_sector writing head h k =
    let r = time_to_seek ticks new_sector head in
    let seek = seek-le ticks new_sector head h k in
    let start = rotation-lt ticks new_sector head in
    let d = modulo_diff_lem new_sector ((ticks + r.0 + r.1) / rotation_time) in
    (ground arith, ground (arith, seek, start, d.0))
