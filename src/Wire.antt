-- ===== src/Wire.antt =====
-- What the kernel module and the server send each other: `struct nctuss_emu_request` and
-- `struct nctuss_emu_reply`, declared alike in emulator_kernel/nctuss_emudisk_main.c and
-- emulator_server/udp_server.cxx. A word is a number below 2 ^ 32, a byte is any number.
pub mod Time
use nctusde.Base.{ℕ, ◌+◌, ◌*◌, ◌/◌, ◌%◌, ◌^◌, List}

-- `enum NctussEmuRequestType`
abbrev pub request_reset : ℕ
request_reset = 1

abbrev pub request_submit : ℕ
request_submit = 2

abbrev pub request_next_responses : ℕ
request_next_responses = 3

abbrev pub request_read_write_data : ℕ
request_read_write_data = 4

-- `enum NctussEmuReplyType`
abbrev pub reply_ok : ℕ
reply_ok = 1

abbrev pub reply_error : ℕ
reply_error = 2

pub record Request : Type 0 where
  pub id : ℕ
  pub type : ℕ
  pub data1 : ℕ
  pub data2 : ℕ
  pub data3 : ℕ
  pub data4 : ℕ
  pub data5 : ℕ
  pub data6 : ℕ
  pub id_check : ℕ

pub record Reply : Type 0 where
  pub id : ℕ
  pub type : ℕ
  pub data1 : ℕ
  pub data2 : ℕ
  pub data3 : ℕ
  pub data4 : ℕ
  pub io_request_ids : List ℕ
  pub id_check : ℕ

-- The sizes of the two structs in bytes.
abbrev pub request_size : ℕ
request_size = 36

abbrev pub reply_size : ℕ
reply_size = 156

-- A datagram to the server: cut short within the header, or with the bytes behind it.
pub data Datagram : Type 0 where
  truncated : Datagram
  full : Request → List ℕ → Datagram

-- A datagram from the server.
pub record Packet : Type 0 where
  pub reply : Reply
  pub payload : List ℕ

-- A time in two words, `(u32)(time >> 32)` and `(u32)(time & 0xFFFFFFFF)`, and back.
abbrev pub high_word : ℕ → ℕ
high_word time = time / 2 ^ 32 % 2 ^ 32

abbrev pub low_word : ℕ → ℕ
low_word time = time % 2 ^ 32

-- The sum of a 64-bit type.
abbrev pub join_words : ℕ → ℕ → ℕ
join_words high low = (high * 2 ^ 32 + low) % 2 ^ 64
