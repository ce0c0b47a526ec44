-- ===== src/Ramdisk/Init.antt =====
-- emudisk_init and emudisk_exit of emulator_kernel/nctuss_ramdisk_main.c: what the RAM disk
-- acquires and gives back, and the state that it starts from. The calls into the kernel are among
-- those of the emulated disk.
use nctusde.Base.{
  ℕ, zero, suc, ◌/◌, Bool, true, false, List, [], ◌∷◌, ◌≡◌, ◌≤◌, All, ◌⊎◌, inl, ltb, if◌then◌else◌,
  refl,
}
use nctusde.Timing.{sector_size}
use nctusde.Emudisk.{max_disk_requests_in_parallel}
use nctusde.Emudisk.Init.{
  Action, register_blkdev, unregister_blkdev, init_queue, cleanup_queue, alloc_disk, put_disk,
  map_memory, unmap_memory, start_task, stop_task, add_disk, del_disk, Kernel, ReturnCode,
  nctuss_emudisk, emudisk0, success, enomem, ebusy, einval,
}
use nctusde.Ramdisk
use nctusde.Ramdisk.{Ramdisk, no_request}
use nctusde.Ramdisk.Schedule.{IsPunctual}

-- Up to the first failing call; the labels of the error paths are at its end.
unfoldable pub ramdisk_init : Kernel → ℕ → List Action × ReturnCode
ramdisk_init k disk_channels =
    if ltb max_disk_requests_in_parallel disk_channels
    then ([], einval)
    else if k.has_major
    then if k.has_queue
      then if k.has_gendisk
        then if k.has_memory
          then (
            register_blkdev nctuss_emudisk
                ∷ init_queue
                ∷ alloc_disk
                ∷ map_memory
                ∷ start_task
                ∷ add_disk
                ∷ [],
            success,
          )
          else (
            register_blkdev nctuss_emudisk
                ∷ init_queue
                ∷ alloc_disk
                ∷ cleanup_queue
                ∷ unregister_blkdev emudisk0
                ∷ [],
            enomem,
          )
        else (
          register_blkdev nctuss_emudisk
              ∷ init_queue
              ∷ cleanup_queue
              ∷ unregister_blkdev emudisk0
              ∷ [],
          enomem,
        )
      else (register_blkdev nctuss_emudisk ∷ unregister_blkdev emudisk0 ∷ [], enomem)
    else ([], ebusy)

unfoldable pub ramdisk_exit : List Action
ramdisk_exit =
    del_disk
    ∷ put_disk
    ∷ cleanup_queue
    ∷ unregister_blkdev nctuss_emudisk
    ∷ stop_task
    ∷ unmap_memory
    ∷ []

-- The loop over the channels: each is free, and completed at time 0.
unfoldable pub loaded_channels : ℕ → List Ramdisk.Channel
loaded_channels zero = []
loaded_channels (suc n) =
    record {
      completion_time = 0;
      completed = true;
      request = no_request;
      request_rw = 0;
      request_last_sector = 0;
    }
    ∷ loaded_channels n

-- `Emudisk` and the other variables of the file, over the memory that is mapped.
unfoldable pub loaded_ramdisk : (disk_channels speed_factor : ℕ) → (ℕ → ℕ) → Ramdisk
unfolding loaded_channels
loaded_ramdisk disk_channels speed_factor memory = record {
  size = 0x19000000 / sector_size;
  disk_channels = disk_channels;
  speed_factor = speed_factor;
  memory = memory;
  request_inflight = 0;
  channels = loaded_channels disk_channels;
  next_response_to_reply = false;
  next_response_time = 0;
  queue_stopped = false;
  finished = [];
  failed = [];
}

loaded_channels-IsPunctual :
    (n : ℕ) (flag : Bool) (time : ℕ)
    → All
        (λ c. (c.completed ≡ true) ⊎ ((flag ≡ true) × (time ≤ c.completion_time)))
        (loaded_channels n)
unfolding loaded_channels
loaded_channels-IsPunctual zero flag time = tt
loaded_channels-IsPunctual (suc n) flag time = (inl refl, loaded_channels-IsPunctual n flag time)

-- The RAM disk starts with no request in flight that the task does not wait for.
pub loaded_ramdisk-IsPunctual :
    (disk_channels speed_factor : ℕ) (memory : ℕ → ℕ)
    → IsPunctual (loaded_ramdisk disk_channels speed_factor memory)
unfolding loaded_ramdisk
loaded_ramdisk-IsPunctual disk_channels speed_factor memory = record {
  in_time = loaded_channels-IsPunctual disk_channels false 0;
}
