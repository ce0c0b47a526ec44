-- ===== src/Ramdisk/Run/Loaded.antt =====
-- The RAM disk as it is loaded.
use nctusde.Base.{ℕ, zero, suc, ◌^◌, ◌≤◌, ◌<◌, ◌≡◌, refl, ap, inl, arith, length, All}
use nctusde.Emudisk.{max_disk_requests_in_parallel, segments_size}
use nctusde.Ramdisk.Init.{loaded_channels, loaded_ramdisk, loaded_ramdisk-IsPunctual}
use nctusde.Ramdisk.Progress.{pending_count, IsWithin}
use nctusde.Ramdisk.Run.Steady.{IsSteady}

length-loaded_channels : (n : ℕ) → length (loaded_channels n) ≡ n
unfolding loaded_channels
length-loaded_channels zero = refl
length-loaded_channels (suc n) = ap suc (length-loaded_channels n)

pending_count-loaded_channels : (n : ℕ) → pending_count (loaded_channels n) ≡ 0
unfolding loaded_channels pending_count
pending_count-loaded_channels zero = refl
pending_count-loaded_channels (suc n) = pending_count-loaded_channels n

loaded_channels-IsWithin : (n size : ℕ) → All (IsWithin size) (loaded_channels n)
unfolding loaded_channels segments_size
loaded_channels-IsWithin zero size = tt
loaded_channels-IsWithin (suc n) size =
    ((omega arith, omega arith), loaded_channels-IsWithin n size)

loaded_channels-in_time : (n : ℕ) → All (λ c. c.completion_time < 2 ^ 63) (loaded_channels n)
unfolding loaded_channels
loaded_channels-in_time zero = tt
loaded_channels-in_time (suc n) = (omega arith, loaded_channels-in_time n)

-- With one to eight channels, the RAM disk is steady once it is loaded.
pub loaded_ramdisk-IsSteady :
    (disk_channels speed_factor : ℕ) (memory : ℕ → ℕ)
    → 0 < disk_channels
    → disk_channels ≤ max_disk_requests_in_parallel
    → IsSteady (record { disk = loaded_ramdisk disk_channels speed_factor memory; unended = 0 })
unfolding loaded_ramdisk
loaded_ramdisk-IsSteady disk_channels speed_factor memory some_ few =
    let n = disk_channels in
    record {
      kept = record {
        sized = length-loaded_channels n;
        few = omega (arith, few);
        some_ = some_;
        counted = omega (arith, pending_count-loaded_channels n);
        bounded = omega arith;
        within = loaded_channels-IsWithin n (loaded_ramdisk n speed_factor memory).size;
        in_time = loaded_channels-in_time n;
        punctual = loaded_ramdisk-IsPunctual n speed_factor memory;
      };
      room = inl (refl, some_);
    }
