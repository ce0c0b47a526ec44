-- ===== src/Ramdisk/Run.antt =====
-- The RAM disk, the block layer and the clock as one system that makes steps: calls of
-- nctuss_emudisk_strategy, turns of the processing task and nctuss_emudisk_softirq_done of
-- emulator_kernel/nctuss_ramdisk_main.c. The functions hold the lock, so a step is a whole call.
pub mod Free
pub mod Placed
pub mod Called
pub mod Taken
pub mod Turned
pub mod Steady
pub mod Drained
pub mod Loaded
use nctusde.Base.{
  ℕ, ◌+◌, ◌-◌, ◌*◌, ◌%◌, ◌^◌, ◌≤◌, ◌<◌, ◌≡◌, Bool, true, false, List, [], ◌∷◌, All, done, length,
}
use nctusde.Timing.{sector_size}
use nctusde.Emudisk.{BlockRequest, request_bytes}
use nctusde.Ramdisk.Progress.{LiesWithin}
use nctusde.Ramdisk.{Ramdisk, ullong_max, ramdisk_strategy, process_responses, ramdisk_softirq_done}

-- `unended` requests are completed, but nctuss_emudisk_softirq_done is not called for them yet.
pub record World : Type 0 where
  pub disk : Ramdisk
  pub unended : ℕ

-- A request that the block layer may hand over, with the time at which it is fetched: at least two
-- seconds after the clock's start, so that a negative entry of the tables gives no time before it.
pub record IsArriving (size now : ℕ) (req : BlockRequest) : Type 0 where
  pub small : request_bytes req ≤ 65536
  pub inside : LiesWithin size req
  pub started : 2 ^ 31 ≤ now
  pub soon : now + 2 ^ 32 < 2 ^ 63

abbrev pub AreArriving : ℕ → List (ℕ × BlockRequest) → Type 0
AreArriving size = All (λ r. IsArriving size r.0 r.1)

-- The world after a call of the strategy function, a turn of the task, and the end of a request.
abbrev pub after_call : World → Ramdisk × Bool × List (ℕ × BlockRequest) → World
after_call w r = record w { disk = r.0 }

abbrev pub after_turn : World → Ramdisk → World
after_turn w d = record {
  disk = d;
  unended = w.unended + (length d.finished - length (w.disk).finished);
}

abbrev pub after_end : World → World
after_end w = record { disk = (ramdisk_softirq_done w.disk).0; unended = w.unended - 1 }

-- The task takes a turn once the time that it sleeps until has come, and ends it.
pub data Step (w : World) : World → Type 0 where
  calls :
      (queue : List (ℕ × BlockRequest)) (r : Ramdisk × Bool × List (ℕ × BlockRequest))
      → w.disk.queue_stopped ≡ false
      → AreArriving w.disk.size queue
      → ramdisk_strategy w.disk false queue ≡ done r
      → Step w (after_call w r)
  turns :
      (now : ℕ) (readings : List ℕ) (d : Ramdisk)
      → w.disk.next_response_time ≤ now
      → process_responses w.disk now readings ≡ done (d, true)
      → Step w (after_turn w d)
  ends : 0 < w.unended → Step w (after_end w)

pub data Reach (w : World) : World → Type 0 where
  start : Reach w w
  later : {v u : World} → Reach w v → Step v u → Reach w u
