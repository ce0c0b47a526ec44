-- ===== src/Timing/Agreement.antt =====
-- The server's copy of the timing model set against the RAM disk's.
use nctusde.Base.{
  ℕ, zero, suc, ◌*◌, ◌/◌, ◌^◌, ◌≤◌, ◌<◌, ◌≡◌, Bool, true, false, List, [], ◌∷◌, map, arith, get_or,
  length, All,
}
use nctusde.Timing.{
  emulated_time, ram_time, response_time, scaled_response_time, iorate_table_random,
  iorate_table_seq,
}

-- An entry that fits an `int` and equals what the server computes from its own table.
abbrev Agrees : ℕ → ℕ → Type 0
Agrees speed_factor iorate =
    (scaled_response_time speed_factor iorate ≡ response_time iorate / 1000 * speed_factor)
    × (scaled_response_time speed_factor iorate < 2 ^ 31)

row-Agrees :
    (speed_factor : ℕ) (iorates : List ℕ) (index : ℕ)
    → All (Agrees speed_factor) iorates
    → index < length iorates
    → (get_or (map (scaled_response_time speed_factor) iorates) index 0
        ≡ get_or (map response_time iorates) index 0 / 1000 * speed_factor)
      × (get_or (map (scaled_response_time speed_factor) iorates) index 0 < 2 ^ 31)
row-Agrees speed_factor [] index h lt = absurd (omega arith)
row-Agrees speed_factor (r ∷ rs) zero h lt = h.0
row-Agrees speed_factor (r ∷ rs) (suc index) h lt =
    row-Agrees speed_factor rs index h.1 (omega arith)

tables-Agree :
    (speed_factor : ℕ)
    → speed_factor ≤ 7945
    → All (All (Agrees speed_factor)) iorate_table_random
      × All (All (Agrees speed_factor)) iorate_table_seq
tables-Agree speed_factor h = omega arith

-- Up to the speed factor at which the RAM disk's table entries overflow an `int`, the RAM disk and
-- the server give every request the same response time.
pub ram_time-eq-emulated_time :
    (seq : Bool) (rw index speed_factor : ℕ)
    → rw < 2
    → index < 8
    → speed_factor ≤ 7945
    → (ram_time seq rw index speed_factor ≡ emulated_time seq rw index speed_factor)
      × (ram_time seq rw index speed_factor < 2 ^ 31)
unfolding ram_time emulated_time
ram_time-eq-emulated_time true zero index s hr hi hs =
    row-Agrees s (get_or iorate_table_seq 0 []) index (tables-Agree s hs).1.0 hi
ram_time-eq-emulated_time true (suc zero) index s hr hi hs =
    row-Agrees s (get_or iorate_table_seq 1 []) index (tables-Agree s hs).1.1.0 hi
ram_time-eq-emulated_time false zero index s hr hi hs =
    row-Agrees s (get_or iorate_table_random 0 []) index (tables-Agree s hs).0.0 hi
ram_time-eq-emulated_time false (suc zero) index s hr hi hs =
    row-Agrees s (get_or iorate_table_random 1 []) index (tables-Agree s hs).0.1.0 hi
ram_time-eq-emulated_time seq (suc (suc rw)) index s hr hi hs = absurd (omega arith)
