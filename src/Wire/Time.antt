-- ===== src/Wire/Time.antt =====
-- Times on the wire.
use nctusde.Base.{ℕ, ◌^◌, ◌<◌, ◌≡◌, arith}
use nctusde.Wire.{high_word, low_word, join_words}

-- A 64-bit time is sent as two words and put together again as it was.
pub join_words-words :
    (time : ℕ) → time < 2 ^ 64 → join_words (high_word time) (low_word time) ≡ time
join_words-words time h = omega arith
