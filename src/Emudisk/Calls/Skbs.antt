-- ===== src/Emudisk/Calls/Skbs.antt =====
-- emulator_transfer_data of emulator_kernel/nctuss_emudisk_main.c as it is compiled without
-- COMBINE_REQ_DATA: the sectors of a request, in one skb each.
use nctusde.Base.{
  ℕ, zero, suc, ◌+◌, ◌-◌, ◌%◌, ◌^◌, List, [], ◌∷◌, ◌++◌, length, take, Outcome, done, fault, ◌>>=◌,
}
use nctusde.Timing.{sector_size}
use nctusde.Wire.{Request, Packet, request_size, reply_size, request_read_write_data}
use nctusde.Emudisk.{Emudisk}
use nctusde.Emudisk.Transfer.Skbs.{Skb}
use nctusde.Emudisk.Calls.{next_id}

-- The bytes behind the header that are sent: `skb->len` is lengthened once more. `beyond` is what
-- the skb holds behind the sector.
abbrev pub sent_bytes : List ℕ → Skb → List ℕ
sent_bytes beyond skb =
    take (skb.len + (request_size + sector_size) - request_size) (skb.sector ++ beyond)

-- The reply, as it is handed on.
abbrev pub reply_skb : Packet → Skb
reply_skb p = record { len = reply_size + length p.payload; sector = p.payload }

module _ {Net : Type 0} (blank : Request)
    (call : Net → Request → List ℕ → Outcome (Net × Packet)) where
  -- The loop for a write, from sector `i` on for `n` sectors. `fresh` is the skb that takes the
  -- place of one that is sent.
  unfoldable pub write_sector_skbs :
      List ℕ → Skb → ℕ → ℕ → Emudisk → Net → ℕ → List Skb → Outcome (Emudisk × Net × List Skb)
  write_sector_skbs beyond fresh zero i e net pos skbs = done (e, net, skbs)
  write_sector_skbs beyond fresh (suc n) i e net pos [] = fault
  write_sector_skbs beyond fresh (suc n) i e net pos (skb ∷ skbs) =
      call net
        (record blank {
          type = request_read_write_data;
          id = e.udp_send_reply_id;
          data1 = 1;
          data2 = (pos + i) % 2 ^ 32;
        })
        (sent_bytes beyond skb)
      >>= λ (net', p).
          (write_sector_skbs beyond fresh n (i + 1) (next_id e) net' pos skbs
            >>= λ (e1, net1, rest). done (e1, net1, fresh ∷ rest))

  -- The loop for a read.
  unfoldable pub read_sector_skbs :
      ℕ → ℕ → Emudisk → Net → ℕ → List Skb → Outcome (Emudisk × Net × List Skb)
  read_sector_skbs zero i e net pos skbs = done (e, net, skbs)
  read_sector_skbs (suc n) i e net pos [] = fault
  read_sector_skbs (suc n) i e net pos (skb ∷ skbs) =
      call net
        (record blank {
          type = request_read_write_data;
          id = e.udp_send_reply_id;
          data1 = 0;
          data2 = (pos + i) % 2 ^ 32;
        })
        []
      >>= λ (net', p).
          (read_sector_skbs n (i + 1) (next_id e) net' pos skbs >>= λ (e1, net1, rest).
          done (e1, net1, reply_skb p ∷ rest))
