-- ===== src/System/Loaded.antt =====
-- From the loading of the module to a world that makes steps.
use mathlib.Core.List.Perm
use nctusde.Base.{
  ℕ, zero, suc, ◌+◌, ◌*◌, ◌≤◌, ◌<◌, ◌≡◌, refl, sym, ap, ◌∙◌, inl, List, [], arith, length,
  length-take, length-drop_le, All, done, drop,
}
use nctusde.Wire.{Request, Packet, request_reset, reply_ok}
use nctusde.Ssd.{Ssd, setup, max_emulator_channels}
use nctusde.Ssd.Setup.{setup-IsFresh}
use nctusde.Server.{Server, handle, dispatch, handle_reset, no_counts, answer, send, packet}
use nctusde.Emudisk.{segments_size, Emudisk, Os, max_disk_requests_in_parallel}
use nctusde.Emudisk.Slots.Table.{occupied_ids}
use nctusde.Emudisk.Pause.{IsRunning}
use nctusde.Emudisk.Calls.{emulator_reset}
use nctusde.Emudisk.Init.{slot_buffer}
use nctusde.Emudisk.Init.Loaded.{loaded_slots, loaded_disk}
use nctusde.Emudisk.Processing.Completion.{Fits}
use nctusde.Link.{checked}
use nctusde.System.{direct_call}
use nctusde.System.Run.Steady.{IsSteady}

length-loaded_slots : (memory : List ℕ) (n i : ℕ) → length (loaded_slots memory n i) ≡ n
unfolding loaded_slots
length-loaded_slots memory zero i = refl
length-loaded_slots memory (suc n) i = ap suc (length-loaded_slots memory n (i + 1))

occupied_ids-loaded_slots :
    (memory : List ℕ) (n i : ℕ) → occupied_ids (loaded_slots memory n i) ≡ []
unfolding loaded_slots occupied_ids
occupied_ids-loaded_slots memory zero i = refl
occupied_ids-loaded_slots memory (suc n) i = occupied_ids-loaded_slots memory n (i + 1)

loaded_slots-Fits :
    (memory : List ℕ) (n i : ℕ)
    → i + n ≤ max_disk_requests_in_parallel
    → 419430400 ≤ length memory
    → All Fits (loaded_slots memory n i)
unfolding loaded_slots slot_buffer segments_size
loaded_slots-Fits memory zero i few mapped = tt
loaded_slots-Fits memory (suc n) i few mapped = (
  (
    omega arith,
    omega (
      arith,
      length-take 65536 (drop (65536 * i + (512 * 8 + 128) * 2048 * 8) memory),
      length-drop_le (65536 * i + (512 * 8 + 128) * 2048 * 8) memory 65536
          (omega (arith, few, mapped)),
    ),
  ),
  loaded_slots-Fits memory n (i + 1) (omega (arith, few)) mapped,
)

-- The server once a reset is handled.
abbrev pub after_reset : Server → Request → Ssd → Server
after_reset s q ssd =
    (send (answer (record s { current_max_request_id = 0; ssd = ssd }) reply_ok q.id) q).0

direct_call-reset :
    (s : Server) (q : Request) (bytes : List ℕ) (ssd : Ssd)
    → q.type ≡ request_reset
    → setup (record (s.ssd) { counts = no_counts }) q.data1 q.data2 q.data3 ≡ done ssd
    → (s' : Server) × (p : Packet) × (direct_call s q bytes ≡ done (s', p))
      × (s'.ssd ≡ ssd)
      × (s'.current_max_request_id ≡ 0)
      × (s'.reply.io_request_ids ≡ s.reply.io_request_ids)
unfolding direct_call handle handle_reset dispatch send
direct_call-reset s q bytes ssd t e = (
  after_reset s (checked q) ssd,
  packet (after_reset s (checked q) ssd),
  ground arith,
  refl,
  refl,
  refl,
)

module _ (blank : Request) where
  -- Where the module is loaded with one to eight channels and a speed that is not 0, with the OS
  -- running and the memory mapped, and the server's arrays have their 32 places, the reset gets
  -- through, and leaves module and server steady, whatever the server did before.
  pub emulator_reset-IsSteady :
      (s : Server) (disk_channels speed_factor : ℕ) (memory : List ℕ) (os : Os) (clock : ℕ)
      → 0 < disk_channels
      → disk_channels ≤ max_disk_requests_in_parallel
      → 0 < speed_factor
      → 419430400 ≤ length memory
      → IsRunning os
      → length s.ssd.ssd_channels ≡ max_emulator_channels
      → length s.reply.io_request_ids ≡ max_emulator_channels
      → (e' : Emudisk) × (s' : Server) × (emulator_reset blank direct_call
            (loaded_disk disk_channels speed_factor memory os)
            s
          ≡ done (e', s'))
        × IsSteady (record { disk = e'; net = s'; unended = 0; clock = clock })
  unfolding emulator_reset loaded_disk
  emulator_reset-IsSteady s disk_channels speed_factor memory os clock some_ few runs mapped running
        array words =
      let e = loaded_disk disk_channels speed_factor memory os in
      let (ssd, set_up, fresh) =
        setup-IsFresh (record (s.ssd) { counts = no_counts }) e.size disk_channels speed_factor
          array (omega (arith, few)) (omega arith) in
      let (s', p, called, ssd_e, cur_e, words_e) =
        direct_call-reset s
          (record blank {
            type = request_reset;
            id = e.udp_send_reply_id;
            data1 = e.size;
            data2 = e.disk_channels;
            data3 = e.speed_factor;
          })
          [] ssd refl set_up in
      let size = length-loaded_slots memory disk_channels 0 in
      let empty = occupied_ids-loaded_slots memory disk_channels 0 in
      (
        record e { udp_send_reply_id = 124 },
        s',
        rw called refl,
        record {
          ready = record {
            in_sync = record {
              valid = rw ssd_e fresh.valid;
              channels = ap (λ (x : Ssd). x.channels) ssd_e ∙ fresh.parameters.1 ∙ sym size;
              few = omega (arith, size, few);
              running =
                  omega (arith, ap (λ (x : Ssd). x.speed_factor) ssd_e, fresh.parameters.2, runs);
              fresh = omega (arith, cur_e);
              words = ap length words_e ∙ words;
              ids = rw empty tt;
              in_flight = rw (empty, ssd_e, fresh.nothing_pending 0) Perm.nil;
            };
            fits = loaded_slots-Fits memory disk_channels 0 (omega (arith, few)) mapped;
            running = running;
            ids_array = refl;
          };
          counted = record {
            inflight = omega (arith, ap length empty);
            channels = sym size;
            bounded = omega arith;
          };
          waits = inl (refl, empty);
          room = inl (refl, some_);
          some_channels = some_;
          past = omega arith;
          word = omega arith;
        },
      )
