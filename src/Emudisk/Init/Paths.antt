-- ===== src/Emudisk/Init/Paths.antt =====
-- What emudisk_init holds when it returns, and the memory that the slots share.
use nctusde.Base.{ℕ, ◌+◌, ◌≤◌, ◌<◌, ◌≡◌, ◌⊎◌, Bool, true, false, List, [], ◌∷◌, arith}
use nctusde.Emudisk.{max_disk_requests_in_parallel}
use nctusde.Emudisk.Init.{
  Action, get_device, put_device, register_blkdev, unregister_blkdev, init_queue, cleanup_queue,
  alloc_disk, put_disk, map_memory, unmap_memory, open_channel, close_channel, reset_emulator,
  start_task, stop_task, add_disk, del_disk, Kernel, emudisk_init, emudisk_exit, nctuss_emudisk,
  emudisk0, success, enomem, einval, failure, enodev, slot_buffer, memory_storage_size,
}

-- The buffers of two slots do not overlap, and all lie in the mapped memory.
pub slot_buffer-disjoint :
    (i j : ℕ)
    → i < j
    → j < max_disk_requests_in_parallel
    → (slot_buffer i + 65536 ≤ slot_buffer j) × (slot_buffer j + 65536 ≤ memory_storage_size)
unfolding slot_buffer
slot_buffer-disjoint i j h k = omega arith

-- What the module holds of the kernel.
pub record Held : Type 0 where
  pub device : Bool
  pub blkdev : Bool
  pub queue : Bool
  pub gendisk : Bool
  pub memory : Bool
  pub channel : Bool
  pub task : Bool

abbrev pub nothing : Held
nothing = record {
  device = false;
  blkdev = false;
  queue = false;
  gendisk = false;
  memory = false;
  channel = false;
  task = false;
}

-- The kernel gives up a block device only under the name that it was registered by, which is
-- always nctuss_emudisk here.
abbrev pub act : Held → Action → Held
act h get_device = record h { device = true }
act h put_device = record h { device = false }
act h (register_blkdev name) = record h { blkdev = true }
act h (unregister_blkdev nctuss_emudisk) = record h { blkdev = false }
act h (unregister_blkdev emudisk0) = h
act h init_queue = record h { queue = true }
act h cleanup_queue = record h { queue = false }
act h alloc_disk = record h { gendisk = true }
act h put_disk = record h { gendisk = false }
act h map_memory = record h { memory = true }
act h unmap_memory = record h { memory = false }
act h open_channel = record h { channel = true }
act h close_channel = record h { channel = false }
act h reset_emulator = h
act h start_task = record h { task = true }
act h stop_task = record h { task = false }
act h add_disk = h
act h del_disk = h

abbrev pub acts : Held → List Action → Held
acts h [] = h
acts h (a ∷ as_) = acts (act h a) as_

-- Loading and unloading the module gives back all that it acquired but the reference to the network
-- device, which stays held.
pub init-exit :
    (k : Kernel) (disk_channels : ℕ)
    → (emudisk_init k disk_channels).1 ≡ success
    → acts (acts nothing (emudisk_init k disk_channels).0) emudisk_exit
      ≡ record nothing { device = true }
unfolding emudisk_init emudisk_exit
init-exit k disk_channels e = ground arith

-- Wherever loading fails for want of memory, the block device stays registered, since it is
-- unregistered under another name.
pub init-enomem :
    (k : Kernel) (disk_channels : ℕ)
    → (emudisk_init k disk_channels).1 ≡ enomem
    → (acts nothing (emudisk_init k disk_channels).0).blkdev ≡ true
unfolding emudisk_init
init-enomem k disk_channels e = ground arith

-- Where loading fails before it asks for the network device, nothing stays held.
init-refused :
    (k : Kernel) (disk_channels : ℕ)
    → ((emudisk_init k disk_channels).1 ≡ einval)
      ⊎ ((emudisk_init k disk_channels).1 ≡ failure)
      ⊎ ((emudisk_init k disk_channels).1 ≡ enodev)
    → acts nothing (emudisk_init k disk_channels).0 ≡ nothing
unfolding emudisk_init
init-refused k disk_channels h = ground arith
