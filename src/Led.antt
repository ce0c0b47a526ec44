-- ===== src/Led.antt =====
-- emulator_kernel/nctuss_led.c: a module that lights two lamps while it is loaded.
-- `base` is what nctuss_get_my_ipi_base of the kernel says, and memory is a function of the address.
use nctusde.Base.{ℕ, ◌+◌, ◌≡◌, ◌≢◌, Option, none, some, arith, ◌==◌, if◌then◌else◌}

abbrev pub writel : ℕ → ℕ → (ℕ → ℕ) → ℕ → ℕ
writel value address memory a = if a == address then value else memory a

pub data Loaded : Type 0 where
  success failure : Loaded

unfoldable pub led_init : Option ℕ → (ℕ → ℕ) → (ℕ → ℕ) × Loaded
led_init none memory = (memory, failure)
led_init (some base) memory = (writel 1 (base + 12) (writel 1 (base + 8) memory), success)

-- `my_ipi_base` is the one that led_init found.
unfoldable pub led_exit : ℕ → (ℕ → ℕ) → ℕ → ℕ
led_exit base memory = writel 0 (base + 12) (writel 0 (base + 8) memory)

-- Loading lights the lamps at offsets 8 and 12, and unloading turns them off.
led_exit-led_init :
    (base : ℕ) (memory : ℕ → ℕ)
    → let lit = (led_init (some base) memory).0 in
      let after = led_exit base lit in
      (lit (base + 8) ≡ 1)
      × (lit (base + 12) ≡ 1)
      × (after (base + 8) ≡ 0)
      × (after (base + 12) ≡ 0)
unfolding led_init led_exit
led_exit-led_init base memory = (ground arith, ground arith, ground arith, ground arith)

-- No other word of the memory is ever changed.
led_exit-others :
    (base : ℕ) (memory : ℕ → ℕ) (a : ℕ)
    → a ≢ base + 8
    → a ≢ base + 12
    → let lit = (led_init (some base) memory).0 in
      (lit a ≡ memory a) × (led_exit base lit a ≡ memory a)
unfolding led_init led_exit
led_exit-others base memory a h k = (ground arith, ground arith)
