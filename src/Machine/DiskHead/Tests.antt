-- ===== src/Machine/DiskHead/Tests.antt =====
-- Requests to a disk whose head is at sector 40.
use op_prac.Base.{◌+◌, ◌/◌, ◌%◌, ◌≤◌, ◌<◌, ◌≡◌, refl, true, false, arith}
use op_prac.Machine.DiskHead.{DiskHead, compute_latency, time_to_seek, modulo_diff}
use op_prac.Machine.DiskHead.Rotation.{compute_latency-passes, compute_latency-bounds}

abbrev head : DiskHead
head = record { last_sector = 40; buffer_init = 0 }

buffered_read : compute_latency 20000 41 false head ≡ 500
unfolding compute_latency time_to_seek modulo_diff
buffered_read = refl

compute_latency-passes_example :
    ((1234 + compute_latency 1234 100 true head) % 500 ≡ 0)
    × ((1234 + compute_latency 1234 100 true head) / 500 % 32 ≡ 5)
compute_latency-passes_example = compute_latency-passes 1234 100 head

compute_latency-bounds_example :
    (500 ≤ compute_latency 1234 100 false head) × (compute_latency 1234 100 false head < 32000)
compute_latency-bounds_example =
    compute_latency-bounds 1234 100 false head (omega arith) (omega arith)
