-- ===== src/System/Network/Loaded.antt =====
-- The reset at the start of the module, over the network. The server carries it out each time that
-- it comes in.
use nctusde.Base.{
  ℕ, zero, suc, ◌+◌, ◌≤◌, ◌<◌, ◌≡◌, refl, sym, ap, ◌∙◌, some, List, [], ◌∷◌, arith, length, done,
  ◌>>=◌, subst, done-injective,
}
use nctusde.Wire.{Request, Packet, full, request_reset}
use nctusde.Ssd.{
  Ssd, Channel, unused_id, setup, restart, reset_channels, max_emulator_channels,
  memory_storage_size,
}
use nctusde.Server.{Server, handle, dispatch, handle_reset, no_counts, send, packet}
use nctusde.Link.{Waiting, Fate, checked, await, exchange}
use nctusde.Link.Delivery.{Delivers, exchange-first}
use nctusde.Emudisk.{Emudisk, Os, max_disk_requests_in_parallel}
use nctusde.Emudisk.Pause.{IsRunning}
use nctusde.Emudisk.Calls.{emulator_reset, next_id}
use nctusde.Emudisk.Init.Loaded.{loaded_disk}
use nctusde.System.{direct_call}
use nctusde.System.Run.Steady.{IsSteady}
use nctusde.System.Network.{Network, network_call}
use nctusde.System.Network.Run.{seen}
use nctusde.System.Loaded.{emulator_reset-IsSteady, after_reset}

reset_channels-again :
    (n : ℕ) (cs : List Channel) → reset_channels n (reset_channels n cs) ≡ reset_channels n cs
unfolding reset_channels
reset_channels-again zero cs = refl
reset_channels-again (suc n) [] = refl
reset_channels-again (suc n) (c ∷ cs) =
    ap (λ r. record c { io_request_id = unused_id; completion_time = 0 } ∷ r)
      (reset_channels-again n cs)

abbrev set_up : Server → Request → Ssd
set_up s q = restart (record (s.ssd) { counts = no_counts }) q.data1 q.data2 q.data3

setup-done :
    (ssd : Ssd) (size channels speed_factor : ℕ)
    → channels ≤ max_emulator_channels
    → size ≤ memory_storage_size
    → setup ssd size channels speed_factor ≡ done (restart ssd size channels speed_factor)
unfolding setup
setup-done ssd size channels speed_factor few small = ground arith

-- Setting up again changes nothing.
setup-again :
    (s : Server) (q : Request)
    → q.data2 ≤ max_emulator_channels
    → q.data1 ≤ memory_storage_size
    → setup (record (set_up s q) { counts = no_counts }) q.data1 q.data2 q.data3 ≡ done (set_up s q)
setup-again s q few small =
    setup-done (record (set_up s q) { counts = no_counts }) q.data1 q.data2 q.data3 few small
    ∙ ap (λ (cs : List Channel). done (record (set_up s q) { ssd_channels = cs }))
        (reset_channels-again q.data2 s.ssd.ssd_channels)

handle-reset :
    (s : Server) (q : Request) (bytes : List ℕ) (ssd : Ssd)
    → q.type ≡ request_reset
    → setup (record (s.ssd) { counts = no_counts }) q.data1 q.data2 q.data3 ≡ done ssd
    → handle s (full q bytes) ≡ done (after_reset s q ssd, some (packet (after_reset s q ssd)))
unfolding handle handle_reset dispatch send
handle-reset s q bytes ssd t e = ground arith

after_reset-again :
    (s : Server) (q : Request) (ssd : Ssd)
    → after_reset (after_reset s q ssd) q ssd ≡ after_reset s q ssd
unfolding send
after_reset-again s q ssd = refl

reset-length :
    (s : Server) (q : Request) (ssd : Ssd)
    → q.type ≡ request_reset
    → length (packet (after_reset s q ssd)).payload ≡ 0
unfolding send packet
reset-length s q ssd t = ground arith

reset-id : (s : Server) (q : Request) (ssd : Ssd) → (packet (after_reset s q ssd)).reply.id ≡ q.id
unfolding send packet
reset-id s q ssd = refl

-- Sent once or several times, the reset leaves the server as it does when it comes in once.
exchange-reset :
    (s : Server) (w : Waiting) (q : Request) (bytes : List ℕ) (fates : List Fate)
    → q.type ≡ request_reset
    → q.data2 ≤ max_emulator_channels
    → q.data1 ≤ memory_storage_size
    → Delivers fates
    → (w' : Waiting) × (p : Packet) × (exchange s (await w q) q bytes fates
        ≡ done (some (after_reset s (checked q) (set_up s (checked q)), w', p)))
unfolding send
exchange-reset s w q bytes fates t few small d =
    let c = checked q in
    let ssd = set_up s c in
    let s' = after_reset s c ssd in
    let first =
      setup-done (record (s.ssd) { counts = no_counts }) q.data1 q.data2 q.data3 few small in
    let again = handle-reset s' c bytes ssd t (setup-again s c few small) in
    (
      _,
      _,
      exchange-first (await w q) q bytes s' (packet s') s fates (reset-id s c ssd)
          (omega (arith, reset-length s c ssd t)) (handle-reset s c bytes ssd t first)
          (again ∙ ap (λ (x : Server). done (x, some (packet x))) (after_reset-again s c ssd)) d,
    )

direct_call-reset :
    (s : Server) (q : Request) (bytes : List ℕ)
    → q.type ≡ request_reset
    → q.data2 ≤ max_emulator_channels
    → q.data1 ≤ memory_storage_size
    → (p : Packet) × (direct_call s q bytes
        ≡ done (after_reset s (checked q) (set_up s (checked q)), p))
unfolding direct_call
direct_call-reset s q bytes t few small =
    let c = checked q in
    let first =
      setup-done (record (s.ssd) { counts = no_counts }) q.data1 q.data2 q.data3 few small in
    (packet (after_reset s c (set_up s c)), rw (handle-reset s c bytes (set_up s c) t first) refl)

module _ (fates : ℕ → List Fate) (delivers : (k : ℕ) → Delivers (fates k)) (blank : Request) where
  -- Over a network that loses datagrams, but not all sendings of a request, the reset of a module
  -- loaded with one to eight channels and a speed that is not 0, with the OS running and the memory
  -- mapped, gets through and leaves module and server steady, however often it comes in, if the
  -- server's arrays have their 32 places.
  pub network_reset-IsSteady :
      (n : Network) (disk_channels speed_factor : ℕ) (memory : List ℕ) (os : Os) (clock : ℕ)
      → 0 < disk_channels
      → disk_channels ≤ max_disk_requests_in_parallel
      → 0 < speed_factor
      → 419430400 ≤ length memory
      → IsRunning os
      → length n.server.ssd.ssd_channels ≡ max_emulator_channels
      → length n.server.reply.io_request_ids ≡ max_emulator_channels
      → (e' : Emudisk) × (n' : Network) × (emulator_reset blank
            (network_call fates)
            (loaded_disk disk_channels speed_factor memory os)
            n
          ≡ done (e', n'))
        × IsSteady (seen (record { disk = e'; net = n'; unended = 0; clock = clock }))
  unfolding emulator_reset loaded_disk network_call
  network_reset-IsSteady n disk_channels speed_factor memory os clock some_ few runs mapped running
        array words =
      let e = loaded_disk disk_channels speed_factor memory os in
      let q : Request = record blank {
        type = request_reset;
        id = e.udp_send_reply_id;
        data1 = e.size;
        data2 = e.disk_channels;
        data3 = e.speed_factor;
      } in
      let (e', s', called, steady) =
        emulator_reset-IsSteady blank n.server disk_channels speed_factor memory os clock some_ few
          runs mapped running array words in
      let (p1, direct) = direct_call-reset n.server q [] refl (omega (arith, few)) (omega arith) in
      let (w', p, answered) =
        exchange-reset n.server n.waiting q [] (fates n.sent) refl (omega (arith, few))
          (omega arith) (delivers n.sent) in
      let s1 = after_reset n.server (checked q) (set_up n.server (checked q)) in
      let same : (e', s') ≡ (next_id e, s1) =
        done-injective (sym called ∙ ap (λ m. m >>= λ (net', p). done (next_id e, net')) direct) in
      (
        next_id e,
        record { server = s1; waiting = w'; sent = n.sent + 1 },
        rw answered refl,
        subst
            (λ (r : Emudisk × Server).
              IsSteady (record { disk = r.0; net = r.1; unended = 0; clock = clock }))
            same steady,
      )
