-- ===== src/Emudisk/Calls.antt =====
-- The four requests that emulator_kernel/nctuss_emudisk_main.c sends: emulator_reset,
-- emulator_submit_request, emulator_get_responses and emulator_transfer_data.
-- `call` stands for communicate_with_emulator on some state of the network and the server: it
-- sends a request with the bytes behind it and comes back with the reply. `blank` is what the
-- fresh skb holds, since a sender fills only the fields that it uses. The source does not
-- pass on a reply that is not ok; its callers then read variables that nobody set, a fault here.
pub mod Skbs
use nctusde.Base.{
  ℕ, List, [], take, ltb, leb, ◌==◌, if◌then◌else◌, ◌&&◌, Outcome, done, fault, ◌>>=◌,
}
use nctusde.Timing.{sector_size}
use nctusde.Wire.{
  Request, Packet, request_reset, request_submit, request_next_responses, request_read_write_data,
  reply_ok, high_word, low_word, join_words,
}
use nctusde.Emudisk.{Emudisk, succ32, max_disk_requests_in_parallel}
use nctusde.Emudisk.Transfer.{copy_to, copy_from}

-- What emulator_get_responses writes through its pointers.
pub record Answer : Type 0 where
  pub num_responses : ℕ
  pub response_time : ℕ
  pub io_request_ids : List ℕ

-- `request->id = Emudisk.udp_send_reply_id++`
abbrev pub next_id : Emudisk → Emudisk
next_id e = record e { udp_send_reply_id = succ32 e.udp_send_reply_id }

-- The ids go into an array of MAX_DISK_REQUESTS_IN_PARALLEL words.
unfoldable pub read_answer : Packet → Outcome Answer
read_answer p =
    if p.reply.type == reply_ok
    then if ltb max_disk_requests_in_parallel p.reply.data1
      then fault
      else done (record {
        num_responses = p.reply.data1;
        response_time = join_words p.reply.data2 p.reply.data3;
        io_request_ids = take p.reply.data1 p.reply.io_request_ids;
      })
    else fault

module _ {Net : Type 0} (blank : Request)
    (call : Net → Request → List ℕ → Outcome (Net × Packet)) where
  -- An error reply to the reset is only printed.
  unfoldable pub emulator_reset : Emudisk → Net → Outcome (Emudisk × Net)
  emulator_reset e net =
      call net
        (record blank {
          type = request_reset;
          id = e.udp_send_reply_id;
          data1 = e.size;
          data2 = e.disk_channels;
          data3 = e.speed_factor;
        })
        []
      >>= λ (net', p). done (next_id e, net')

  -- An error reply is only printed.
  unfoldable pub emulator_submit_request :
      Emudisk → Net → ℕ → ℕ → ℕ → ℕ → ℕ → Outcome (Emudisk × Net)
  emulator_submit_request e net time dir sector count io_request_id =
      call net
        (record blank {
          type = request_submit;
          id = e.udp_send_reply_id;
          data1 = high_word time;
          data2 = low_word time;
          data3 = dir;
          data4 = sector;
          data5 = count;
          data6 = io_request_id;
        })
        []
      >>= λ (net', p). done (next_id e, net')

  unfoldable pub emulator_get_responses : Emudisk → Net → ℕ → Outcome (Emudisk × Net × Answer)
  unfolding read_answer
  emulator_get_responses e net current_time =
      call net
        (record blank {
          type = request_next_responses;
          id = e.udp_send_reply_id;
          data1 = high_word current_time;
          data2 = low_word current_time;
        })
        []
      >>= λ (net', p). read_answer p >>= λ answer. done (
        record (next_id e) {
          current_max_get_responses_time =
              if leb e.current_max_get_responses_time current_time
              then current_time
              else e.current_max_get_responses_time;
        },
        net',
        answer,
      )

  -- Moves one sector at `offset` of a slot's buffer; `dir` is 0 for a read. The last result is the
  -- buffer, which a read changes if the reply is ok.
  unfoldable pub emulator_transfer_data :
      Emudisk → Net → ℕ → ℕ → List ℕ → ℕ → Outcome (Emudisk × Net × List ℕ)
  emulator_transfer_data e net dir sector buffer offset =
      call net
        (record blank {
          type = request_read_write_data;
          id = e.udp_send_reply_id;
          data1 = dir;
          data2 = sector;
        })
        (if dir == 0 then [] else copy_from buffer offset sector_size)
      >>= λ (net', p). done (
        next_id e,
        net',
        if p.reply.type == reply_ok && dir == 0
            then copy_to buffer offset (take sector_size p.payload)
            else buffer,
      )
