-- ===== src/Timing.antt =====
-- The timing model that emulator_server/udp_server.cxx and emulator_kernel/nctuss_ramdisk_main.c
-- both hold a copy of: the I/O rates measured per request size, and the response times that
-- `main` and `emudisk_init` compute from them.
pub mod Bucket
pub mod Agreement
pub mod Bounds
mod Tests
use nctusde.Base.{
  ℕ, ◌+◌, ◌*◌, ◌/◌, ◌%◌, ◌^◌, Bool, Option, none, some, List, [], ◌∷◌, map, ltb, leb, get_or, true,
  if◌then◌else◌,
}

abbrev pub sector_size : ℕ
sector_size = 512

-- The sizes are bytes, whatever the name says.
abbrev pub request_size_kb : List ℕ
request_size_kb = 512 ∷ 1024 ∷ 2048 ∷ 4096 ∷ 8192 ∷ 16384 ∷ 32768 ∷ 65536 ∷ []

-- Row 0 is for reads, row 1 for writes; the unit is 1/100 requests a second.
abbrev pub iorate_table_random : List (List ℕ)
iorate_table_random =
    (194672 ∷ 189513 ∷ 186798 ∷ 176876 ∷ 159182 ∷ 141700 ∷ 104546 ∷ 66149 ∷ [])
    ∷ (898 ∷ 899 ∷ 898 ∷ 862 ∷ 778 ∷ 795 ∷ 450 ∷ 370 ∷ [])
    ∷ []

abbrev pub iorate_table_seq : List (List ℕ)
iorate_table_seq =
    (522101 ∷ 488278 ∷ 429834 ∷ 371532 ∷ 298845 ∷ 281019 ∷ 146861 ∷ 71935 ∷ [])
    ∷ (108649 ∷ 104858 ∷ 101045 ∷ 87071 ∷ 73645 ∷ 289488 ∷ 143416 ∷ 72945 ∷ [])
    ∷ []

-- `table[rw][index]`
abbrev pub entry : List (List ℕ) → ℕ → ℕ → ℕ
entry table rw index = get_or (get_or table rw []) index 0

-- The server's table entry: nanoseconds for one request.
abbrev pub response_time : ℕ → ℕ
response_time iorate = 1000000000 / iorate * 100

unfoldable pub response_time_table_random : List (List ℕ)
response_time_table_random = map (map response_time) iorate_table_random

unfoldable pub response_time_table_seq : List (List ℕ)
response_time_table_seq = map (map response_time) iorate_table_seq

-- What the server adds to a request's time: `table[rw][index] / 1000 * speed_factor_`.
unfoldable pub emulated_time : Bool → ℕ → ℕ → ℕ → ℕ
unfolding response_time_table_seq response_time_table_random
emulated_time seq rw index speed_factor =
    (if seq
      then entry response_time_table_seq rw index
      else entry response_time_table_random rw index)
    / 1000
    * speed_factor

-- The RAM disk's table entry, a 32-bit `int`: its `long` speed factor is multiplied in at once.
abbrev pub scaled_response_time : ℕ → ℕ → ℕ
scaled_response_time speed_factor iorate = 1000000000 / iorate * 100 / 1000 * speed_factor % 2 ^ 32

unfoldable pub ram_table_random : ℕ → List (List ℕ)
ram_table_random speed_factor = map (map (scaled_response_time speed_factor)) iorate_table_random

unfoldable pub ram_table_seq : ℕ → List (List ℕ)
ram_table_seq speed_factor = map (map (scaled_response_time speed_factor)) iorate_table_seq

-- The RAM disk's response time: `table[rw][index]`.
unfoldable pub ram_time : Bool → ℕ → ℕ → ℕ → ℕ
unfolding ram_table_seq ram_table_random
ram_time seq rw index speed_factor =
    if seq
    then entry (ram_table_seq speed_factor) rw index
    else entry (ram_table_random speed_factor) rw index

-- `nbytes <= size` for an `int` held as its bit pattern: a negative `nbytes` passes.
abbrev pub int_le : ℕ → ℕ → Bool
int_le nbytes size = if ltb nbytes (2 ^ 31) then leb nbytes size else true

-- The loop that finds the first size that fits from index `i` on; `none` is the source's -1.
unfoldable pub first_fit : ℕ → List ℕ → ℕ → Option ℕ
first_fit nbytes [] i = none
first_fit nbytes (size ∷ sizes) i =
    if int_le nbytes size then some i else first_fit nbytes sizes (i + 1)

unfoldable pub request_size_index : ℕ → Option ℕ
unfolding first_fit
request_size_index nbytes = first_fit nbytes request_size_kb 0
