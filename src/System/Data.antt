-- ===== src/System/Data.antt =====
-- emulator_transfer_data and the server's storage: the way of a sector's bytes.
pub mod Sectors
pub mod First
pub mod Skbs
use nctusde.Base.{
  ℕ, zero, suc, ◌+◌, ◌*◌, ◌^◌, ◌≤◌, ◌<◌, ◌≡◌, refl, ap, ◌∙◌, List, [], ◌∷◌, arith, length,
  length-take, length-drop_le, take, drop, done,
}
use nctusde.Timing.{sector_size}
use nctusde.Wire.{Request, request_read_write_data, reply_ok}
use nctusde.Server.{
  Server, Storage, handle, dispatch, handle_read, handle_write, send, packet, answer, write_sector,
  read_bytes,
}
use nctusde.Server.Sectors.{InStorage, put_sector-done, get_sector-done, read-write_same}
use nctusde.Emudisk.{Emudisk}
use nctusde.Emudisk.Transfer.{copy_to, copy_from}
use nctusde.Emudisk.Transfer.RoundTrip.{take-overlay}
use nctusde.Emudisk.Calls.{emulator_transfer_data, next_id}
use nctusde.Link.{checked}
use nctusde.System.{direct_call}

length-read_bytes : (storage : Storage) (a n : ℕ) → length (read_bytes storage a n) ≡ n
unfolding read_bytes
length-read_bytes storage a zero = refl
length-read_bytes storage a (suc n) = ap suc (length-read_bytes storage (a + 1) n)

take_all : (xs : List ℕ) (n : ℕ) → length xs ≡ n → take n xs ≡ xs
take_all [] zero h = refl
take_all [] (suc n) h = absurd (omega arith)
take_all (x ∷ xs) zero h = absurd (omega arith)
take_all (x ∷ xs) (suc n) h = ap (◌∷◌ x) (take_all xs n (omega arith))

-- What is copied into a buffer is found there.
copy_from-copy_to :
    (buffer : List ℕ) (o : ℕ) (bytes : List ℕ)
    → o + length bytes ≤ length buffer
    → copy_from (copy_to buffer o bytes) o (length bytes) ≡ bytes
unfolding copy_to
copy_from-copy_to buffer zero bytes h = take-overlay bytes buffer (omega arith)
copy_from-copy_to [] (suc o) bytes h = absurd (omega arith)
copy_from-copy_to (b ∷ buffer) (suc o) bytes h = copy_from-copy_to buffer o bytes (omega arith)

-- The server after a sector was written.
abbrev pub after_write : Server → Request → List ℕ → Server
after_write s q bytes =
    (send
      (answer
        (record s { current_max_request_id = q.id; storage = write_sector s.storage q.data2 bytes })
        reply_ok q.id)
      q).0

direct_call-write :
    (s : Server) (q : Request) (bytes : List ℕ)
    → q.type ≡ request_read_write_data
    → q.data1 ≡ 1
    → s.current_max_request_id < q.id
    → InStorage q.data2
    → sector_size ≤ length bytes
    → direct_call s q bytes
      ≡ done (after_write s (checked q) bytes, packet (after_write s (checked q) bytes))
unfolding direct_call handle dispatch handle_write send
direct_call-write s q bytes t w lt within enough =
    let put = put_sector-done s.storage q.data2 bytes within in ground arith

-- The server after a sector was read.
abbrev pub after_read : Server → Request → Server
after_read s q =
    (send
      (answer
        (record s {
          current_max_request_id = q.id;
          reply_sector = read_bytes s.storage (q.data2 * sector_size) sector_size;
        })
        reply_ok q.id)
      q).0

direct_call-read :
    (s : Server) (q : Request)
    → q.type ≡ request_read_write_data
    → q.data1 ≡ 0
    → s.current_max_request_id < q.id
    → InStorage q.data2
    → direct_call s q [] ≡ done (after_read s (checked q), packet (after_read s (checked q)))
unfolding direct_call handle dispatch handle_read send
direct_call-read s q t w lt within =
    let get = get_sector-done s.storage q.data2 within in ground arith

reads_sector :
    (s : Server) (sector : ℕ) (bytes : List ℕ)
    → length bytes ≡ sector_size
    → read_bytes (write_sector s.storage sector bytes) (sector * sector_size) sector_size ≡ bytes
reads_sector s sector bytes h =
    read-write_same s.storage sector bytes (sector * sector_size) 0 sector_size (omega arith)
      (omega arith) (omega (arith, h))
    ∙ take_all bytes sector_size h

found_there :
    (into : List ℕ) (i : ℕ) (bytes sent : List ℕ)
    → bytes ≡ sent
    → length sent ≡ sector_size
    → i + sector_size ≤ length into
    → copy_from (copy_to into i bytes) i sector_size ≡ sent
found_there into i bytes sent e num room =
    rw e (rw num at (copy_from-copy_to into i sent (omega (arith, num))))

module _ (blank : Request) where
  pub message : ℕ → ℕ → ℕ → Request
  message id dir sector = record blank {
    type = request_read_write_data;
    id = id;
    data1 = dir;
    data2 = sector;
  }

  write-call :
      (e : Emudisk) (s : Server) (sector : ℕ) (out : List ℕ) (o : ℕ)
      → s.current_max_request_id < e.udp_send_reply_id
      → InStorage sector
      → sector_size ≤ length (copy_from out o sector_size)
      → emulator_transfer_data blank direct_call e s 1 sector out o
        ≡ done (
          next_id e,
          after_write s
              (checked (message e.udp_send_reply_id 1 sector))
              (copy_from out o sector_size),
          out,
        )
  unfolding emulator_transfer_data message send packet
  write-call e s sector out o lt within enough =
      rw
        (direct_call-write s (message e.udp_send_reply_id 1 sector) (copy_from out o sector_size)
          refl refl lt within enough)
        refl

  read-call :
      (e : Emudisk) (s : Server) (sector : ℕ) (into : List ℕ) (i : ℕ)
      → s.current_max_request_id < e.udp_send_reply_id
      → InStorage sector
      → emulator_transfer_data blank direct_call e s 0 sector into i
        ≡ done (
          next_id e,
          after_read s (checked (message e.udp_send_reply_id 0 sector)),
          copy_to into i (read_bytes s.storage (sector * sector_size) sector_size),
        )
  unfolding emulator_transfer_data message send packet
  read-call e s sector into i lt within =
      let whole : take sector_size (read_bytes s.storage (sector * sector_size) sector_size)
          ≡ read_bytes s.storage (sector * sector_size) sector_size =
        take_all _ sector_size (length-read_bytes s.storage (sector * sector_size) sector_size) in
      rw
        (
          direct_call-read s (message e.udp_send_reply_id 0 sector) refl refl lt within,
          whole,
          whole,
        )
        refl

  written-storage :
      (s : Server) (id sector : ℕ) (sent : List ℕ)
      → (after_write s (checked (message id 1 sector)) sent).storage
        ≡ write_sector s.storage sector sent
  unfolding send message
  written-storage s id sector sent = refl

  written-same :
      (s : Server) (id sector : ℕ) (sent : List ℕ)
      → let s' = after_write s (checked (message id 1 sector)) sent in
        (s'.ssd ≡ s.ssd) × (s'.reply.io_request_ids ≡ s.reply.io_request_ids)
  unfolding send message
  written-same s id sector sent = (refl, refl)

  read-same :
      (s : Server) (id sector : ℕ)
      → let s' = after_read s (checked (message id 0 sector)) in
        (s'.ssd ≡ s.ssd)
        × (s'.reply.io_request_ids ≡ s.reply.io_request_ids)
        × (s'.storage ≡ s.storage)
  unfolding send message
  read-same s id sector = (refl, refl, refl)

  read-fresh :
      (e : Emudisk) (s : Server) (sector : ℕ)
      → e.udp_send_reply_id + 1 < 2 ^ 32
      → (after_read s (checked (message e.udp_send_reply_id 0 sector))).current_max_request_id
        < (next_id e).udp_send_reply_id
  unfolding send message
  read-fresh e s sector wraps = omega arith

  written-fresh :
      (e : Emudisk) (s : Server) (sector : ℕ) (sent : List ℕ)
      → e.udp_send_reply_id + 1 < 2 ^ 32
      → (after_write s (checked (message e.udp_send_reply_id 1 sector)) sent).current_max_request_id
        < (next_id e).udp_send_reply_id
  unfolding send message
  written-fresh e s sector sent wraps = omega arith

  -- A sector of the storage that the module writes from one place of a buffer is read back, by a
  -- later message, into any place of another buffer that has room for it: no call hangs or fails,
  -- as long as the ids of both messages are new and fit 32 bits.
  pub emulator_transfer_data-read_back :
      (e : Emudisk) (s : Server) (sector : ℕ) (out into : List ℕ) (o i : ℕ)
      → InStorage sector
      → o + sector_size ≤ length out
      → i + sector_size ≤ length into
      → s.current_max_request_id < e.udp_send_reply_id
      → e.udp_send_reply_id + 2 < 2 ^ 32
      → (e1 : Emudisk) × (s1 : Server) × (e2 : Emudisk) × (s2 : Server) × (into' : List ℕ)
        × (emulator_transfer_data blank direct_call e s 1 sector out o ≡ done (e1, s1, out))
        × (emulator_transfer_data blank direct_call e1 s1 0 sector into i ≡ done (e2, s2, into'))
        × (copy_from into' i sector_size ≡ copy_from out o sector_size)
  emulator_transfer_data-read_back e s sector out into o i within room_out room_into lt wraps =
      let sent = copy_from out o sector_size in
      let room = length-drop_le o out sector_size room_out in
      let num : length sent ≡ sector_size =
        omega (arith, length-take sector_size (drop o out), room) in
      let s1 = after_write s (checked (message e.udp_send_reply_id 1 sector)) sent in
      (
        next_id e,
        s1,
        next_id (next_id e),
        after_read s1 (checked (message (next_id e).udp_send_reply_id 0 sector)),
        copy_to into i (read_bytes s1.storage (sector * sector_size) sector_size),
        write-call e s sector out o lt within (omega (arith, num)),
        read-call (next_id e) s1 sector into i (written-fresh e s sector sent (omega arith)) within,
        found_there into i (read_bytes s1.storage (sector * sector_size) sector_size) sent
            (rw (written-storage s e.udp_send_reply_id sector sent)
              (reads_sector s sector sent num))
            num room_into,
      )
