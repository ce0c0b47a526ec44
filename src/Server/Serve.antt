-- ===== src/Server/Serve.antt =====
-- The loop of `main` in emulator_server/udp_server.cxx over the datagrams that come in.
pub mod Answers
use mathlib.Core.Path.{ap₂}
use nctusde.Base.{
  ==_iff, ℕ, ◌+◌, ◌*◌, ◌≤◌, ◌<◌, ◌≡◌, ◌≢◌, refl, ap, sym, subst, ◌∙◌, ◌⊎◌, inl, inr, Option, none,
  some, List, [], ◌∷◌, map, arith, length, Outcome, done, ◌>>=◌, ltb, leb, ◌==◌, true, false, Bool,
  Bool-cases, if◌then◌else◌,
}
use nctusde.Timing.{sector_size, request_size_index}
use nctusde.Ssd.{
  Ssd, setup, restart, max_emulator_channels, submit_request, oldest_channel, memory_storage_size,
  request_nbytes, occupy, get_next_responses,
}
use nctusde.Ssd.Submit.{count_bucket}
use nctusde.Wire.{
  Request, Datagram, truncated, full, Packet, request_reset, request_submit, request_next_responses,
  request_read_write_data, request_size, join_words, reply_ok, reply_error,
}
use nctusde.Server.{
  Server, handle, dispatch, send, packet, handle_reset, handle_submit, handle_next_responses,
  handle_read, handle_write, write_sector, read_bytes, no_counts, answer,
}
use nctusde.Server.Sectors.{InStorage, get_sector-done, put_sector-done}

-- What recvfrom comes to.
pub data Received : Type 0 where
  failed : Received
  datagram : Datagram → Received

-- The packets are those that `sendto` is given.
unfoldable pub serve : Server → List Received → Outcome (Server × List Packet)
serve s [] = done (s, [])
serve s (failed ∷ received) = serve s received
serve s (datagram d ∷ received) = handle s d >>= λ (s', sent).
    (serve s' received >>= λ (s'', packets).
    done (s'', elim sent [ none ↦ packets | some p ↦ p ∷ packets ]))

-- The ids of the requests.
unfoldable pub request_ids : List Received → List ℕ
request_ids [] = []
request_ids (failed ∷ received) = request_ids received
request_ids (datagram truncated ∷ received) = request_ids received
request_ids (datagram (full q bytes) ∷ received) = q.id ∷ request_ids received

-- A disk that the storage is large enough for by the test of `setup`, at most 128 sectors for a
-- request, and for a transfer a sector of the storage and, for a write, its bytes.
pub data IsServable (q : Request) (bytes : List ℕ) : Type 0 where
  resets : q.type ≡ request_reset → q.data1 ≤ memory_storage_size → IsServable q bytes
  submits : q.type ≡ request_submit → q.data5 ≤ 128 → IsServable q bytes
  queries : q.type ≡ request_next_responses → IsServable q bytes
  reads : q.type ≡ request_read_write_data → q.data1 ≡ 0 → InStorage q.data2 → IsServable q bytes
  writes :
      q.type ≡ request_read_write_data
      → q.data1 ≢ 0
      → InStorage q.data2
      → sector_size ≤ length bytes
      → IsServable q bytes

-- All requests are servable, and the ids of those that are no resets do not decrease from `cur` on.
-- A reset starts the ids anew.
abbrev pub AreServable : ℕ → List Received → Type 0
AreServable cur [] = Unit
AreServable cur (failed ∷ received) = AreServable cur received
AreServable cur (datagram truncated ∷ received) = AreServable cur received
AreServable cur (datagram (full q bytes) ∷ received) =
    IsServable q bytes
    × (((q.type ≡ request_reset) × AreServable 0 received)
        ⊎ ((q.type ≢ request_reset)
            × (0 < q.id)
            × (cur ≤ q.id)
            × (q.id ≡ q.id_check)
            × AreServable q.id received))
