-- ===== src/Emudisk/Init.antt =====
-- emudisk_init and emudisk_exit of emulator_kernel/nctuss_emudisk_main.c: the addresses that the
-- module gives itself, the buffers of its slots, and what it acquires and gives back.
pub mod Paths
pub mod Loaded
pub mod Task
use Prim.Native.String.{String}
use nctusde.Base.{
  ℕ, zero, suc, ◌+◌, ◌*◌, ◌/◌, ◌%◌, ◌^◌, Bool, List, [], ◌∷◌, map, get_or, ltb, if◌then◌else◌,
}
use nctusde.Timing.{sector_size}
use nctusde.Emudisk.{max_disk_requests_in_parallel, max_request_sector_num}
use nctusde.Link.{Netpoll}

abbrev pub memory_storage_start : ℕ
memory_storage_start = 0x07000000

abbrev pub memory_storage_size : ℕ
memory_storage_size = 0x19000000

-- The address behind `data` of slot `i`, as an offset into the mapped memory.
unfoldable pub slot_buffer : ℕ → ℕ
slot_buffer i = max_request_sector_num * sector_size * i + (512 * 8 + 128) * 2048 * 8

-- `Emudisk.size` in sectors.
abbrev pub disk_size : ℕ
disk_size = 0x19000000 / sector_size

-- The two names in the source: "nctuss_emudisk" and "emudisk0".
pub data DeviceName : Type 0 where
  nctuss_emudisk emudisk0 : DeviceName

-- What is acquired and given back, and what is started, in the order of the calls. dev_get_by_name
-- takes a reference to the network device, which dev_put would give back: nothing in the source
-- calls it.
pub data Action : Type 0 where
  get_device put_device : Action
  register_blkdev unregister_blkdev : DeviceName → Action
  init_queue cleanup_queue alloc_disk put_disk map_memory unmap_memory : Action
  open_channel close_channel reset_emulator start_task stop_task add_disk del_disk : Action

pub data ReturnCode : Type 0 where
  success failure enodev ebusy enomem einval : ReturnCode

-- What the calls into the kernel come to.
pub record Kernel : Type 0 where
  pub has_ipi_base : Bool
  pub has_eth0 : Bool
  pub has_major : Bool
  pub has_queue : Bool
  pub has_gendisk : Bool
  pub has_memory : Bool

-- Up to the first failing call. open_ethernet_channel always returns 0.
unfoldable pub emudisk_init : Kernel → ℕ → List Action × ReturnCode
emudisk_init k disk_channels =
    if ltb max_disk_requests_in_parallel disk_channels
    then ([], einval)
    else if k.has_ipi_base
    then if k.has_eth0
      then if k.has_major
        then if k.has_queue
          then if k.has_gendisk
            then if k.has_memory
              then (
                get_device
                    ∷ register_blkdev nctuss_emudisk
                    ∷ init_queue
                    ∷ alloc_disk
                    ∷ map_memory
                    ∷ open_channel
                    ∷ reset_emulator
                    ∷ start_task
                    ∷ add_disk
                    ∷ [],
                success,
              )
              else (
                get_device
                    ∷ register_blkdev nctuss_emudisk
                    ∷ init_queue
                    ∷ alloc_disk
                    ∷ cleanup_queue
                    ∷ unregister_blkdev emudisk0
                    ∷ [],
                enomem,
              )
            else (
              get_device
                  ∷ register_blkdev nctuss_emudisk
                  ∷ init_queue
                  ∷ cleanup_queue
                  ∷ unregister_blkdev emudisk0
                  ∷ [],
              enomem,
            )
          else (
            get_device ∷ register_blkdev nctuss_emudisk ∷ unregister_blkdev emudisk0 ∷ [],
            enomem,
          )
        else (get_device ∷ [], ebusy)
      else ([], enodev)
    else ([], failure)

unfoldable pub emudisk_exit : List Action
emudisk_exit =
    del_disk
    ∷ put_disk
    ∷ cleanup_queue
    ∷ unregister_blkdev nctuss_emudisk
    ∷ stop_task
    ∷ unmap_memory
    ∷ close_channel
    ∷ []

-- The two switches on `server_port_offset`. An offset without a case leaves the zeros of `memset`.
abbrev pub local_hosts : List String
local_hosts =
    "10.48.101.20" ∷ "10.48.101.21" ∷ "10.48.101.22" ∷ "10.48.101.23" ∷ "10.48.101.24"
    ∷ "10.48.101.25" ∷ "10.48.101.26" ∷ "10.48.101.27" ∷ "10.48.101.28" ∷ "10.48.101.29"
    ∷ "10.48.101.30" ∷ "10.48.101.31" ∷ "10.48.101.32" ∷ []

abbrev pub local_mac_ends : List ℕ
local_mac_ends =
    0x20 ∷ 0x21 ∷ 0x22 ∷ 0x23 ∷ 0x24 ∷ 0x25 ∷ 0x26 ∷ 0x27 ∷ 0x28 ∷ 0x29 ∷ 0x30 ∷ 0x31 ∷ 0x32 ∷ []

unfoldable pub local_mac : ℕ → List ℕ
local_mac offset = 0x00 ∷ 0x0a ∷ 0x35 ∷ 0x00 ∷ 0x01 ∷ get_or local_mac_ends offset 0 ∷ []

-- `in_aton` is the kernel's parser of addresses.
unfoldable pub emudisk_netpoll : (String → ℕ) → ℕ → Netpoll
emudisk_netpoll in_aton offset = record {
  local_ip = get_or (map in_aton local_hosts) offset 0;
  remote_ip = in_aton "10.48.101.68";
  local_port = 5135;
  remote_port = (5134 + offset) % 2 ^ 16;
}
