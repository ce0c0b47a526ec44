-- ===== src/Timing/Bounds.antt =====
-- How long a request can take.
use nctusde.Base.{
  ℕ, zero, suc, ◌*◌, ◌/◌, ◌≤◌, ◌<◌, Bool, true, false, List, [], ◌∷◌, map, arith, get_or, length,
  All,
}
use nctusde.Timing.{emulated_time, response_time, iorate_table_random, iorate_table_seq}

abbrev InRange : ℕ → Type 0
InRange iorate = (191 ≤ response_time iorate / 1000) × (response_time iorate / 1000 ≤ 270270)

row-InRange :
    (iorates : List ℕ) (index : ℕ)
    → All InRange iorates
    → index < length iorates
    → (191 ≤ get_or (map response_time iorates) index 0 / 1000)
      × (get_or (map response_time iorates) index 0 / 1000 ≤ 270270)
row-InRange [] index h lt = absurd (omega arith)
row-InRange (r ∷ rs) zero h lt = h.0
row-InRange (r ∷ rs) (suc index) h lt = row-InRange rs index h.1 (omega arith)

unscaled-InRange :
    (seq : Bool) (rw index : ℕ)
    → rw < 2
    → index < 8
    → (191 ≤ emulated_time seq rw index 1) × (emulated_time seq rw index 1 ≤ 270270)
unfolding emulated_time
unscaled-InRange true zero index hr hi =
    omega (arith, row-InRange (get_or iorate_table_seq 0 []) index (omega arith) hi)
unscaled-InRange true (suc zero) index hr hi =
    omega (arith, row-InRange (get_or iorate_table_seq 1 []) index (omega arith) hi)
unscaled-InRange false zero index hr hi =
    omega (arith, row-InRange (get_or iorate_table_random 0 []) index (omega arith) hi)
unscaled-InRange false (suc zero) index hr hi =
    omega (arith, row-InRange (get_or iorate_table_random 1 []) index (omega arith) hi)
unscaled-InRange seq (suc (suc rw)) index hr hi = absurd (omega arith)

-- The response time in nanoseconds is between 191 and 270270 times the speed factor: at a factor of
-- 1000 a request takes between 0.191 and 270.27 milliseconds.
pub emulated_time_bounds :
    (seq : Bool) (rw index speed_factor : ℕ)
    → rw < 2
    → index < 8
    → (191 * speed_factor ≤ emulated_time seq rw index speed_factor)
      × (emulated_time seq rw index speed_factor ≤ 270270 * speed_factor)
unfolding emulated_time
emulated_time_bounds seq rw index speed_factor hr hi =
    grind (arith, unscaled-InRange seq rw index hr hi)
