-- ===== src/Timing/Tests.antt =====
-- The timing model at concrete requests.
use nctusde.Base.{ℕ, ◌*◌, ◌≤◌, ◌<◌, ◌^◌, ◌≡◌, refl, false, true, some, arith}
use nctusde.Timing.{request_size_kb, request_size_index, emulated_time, ram_time}
use nctusde.Timing.Bucket.{IsFirstFit, request_size_index-IsFirstFit}
use nctusde.Timing.Agreement.{ram_time-eq-emulated_time}
use nctusde.Timing.Bounds.{emulated_time_bounds}

random_read_of_4096 : emulated_time false 0 3 1000 ≡ 565000
unfolding emulated_time
random_read_of_4096 = refl

request_size_index-IsFirstFit_example :
    (i : ℕ) × (request_size_index 4096 ≡ some i) × IsFirstFit 4096 request_size_kb i
request_size_index-IsFirstFit_example = request_size_index-IsFirstFit 4096 (omega arith)

ram_time-eq-emulated_time_example :
    (ram_time true 1 7 1000 ≡ emulated_time true 1 7 1000) × (ram_time true 1 7 1000 < 2 ^ 31)
ram_time-eq-emulated_time_example =
    ram_time-eq-emulated_time true 1 7 1000 (omega arith) (omega arith) (omega arith)

emulated_time_bounds_example :
    (191 * 1000 ≤ emulated_time false 1 0 1000) × (emulated_time false 1 0 1000 ≤ 270270 * 1000)
emulated_time_bounds_example = emulated_time_bounds false 1 0 1000 (omega arith) (omega arith)
