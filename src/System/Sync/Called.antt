-- ===== src/System/Sync/Called.antt =====
-- nctuss_emudisk_strategy as a whole.
use nctusde.Base.{
  ℕ, ◌+◌, ◌^◌, ◌≤◌, ◌<◌, ◌≡◌, refl, sym, ap, subst, ◌∙◌, ◌⊎◌, inl, inr, Bool, true, false, List, [],
  arith, length, done, Bool-cases, Outcome, ◌>>=◌,
}
use nctusde.Wire.{Request}
use nctusde.Server.{Server}
use nctusde.Emudisk.{Emudisk, BlockRequest}
use nctusde.Emudisk.Strategy.{Turn, submit_loop, ask_next_response, emudisk_strategy}
use nctusde.System.{direct_call}
use nctusde.System.Sync.Ready.{IsReady, AwaitsRest, IsTurn}
use nctusde.System.Sync.Waits.{
  IsCounted, LoopWaits, IsStaleOrNone, Room, AreTimely, messages, accepted,
}
use nctusde.Emudisk.Slots.Occupied.{HandedBack-nil}
use nctusde.System.Sync.Taken.{IsTaken, IsTaken-then}
use nctusde.System.Sync.Loop.{submit_loop-IsLooped}
use nctusde.System.Sync.Asked.{ask_next_response-IsTurn}

module _ (blank : Request) (counter : ℕ) where
  pub record IsCalled (e : Emudisk) (s : Server) (unended : ℕ) (queue : List (ℕ × BlockRequest))
      (e' : Emudisk) (s' : Server) (left : List (ℕ × BlockRequest)) (wake : Bool) : Type 0 where
    pub result : emudisk_strategy blank direct_call counter e s queue ≡ done (e', s', left, wake)
    pub ready : IsReady e' s'
    pub counted : IsCounted e' unended
    pub waits : AwaitsRest e' s'
    pub room : Room e'
    pub number : e'.udp_send_reply_id ≤ e.udp_send_reply_id + messages queue + 1
    pub same_completed : e'.completed ≡ e.completed
    pub same_channels : e'.disk_channels ≡ e.disk_channels
    pub same_latest : e'.latest_response_time ≡ e.latest_response_time
    pub ended : (left ≡ []) ⊎ ((e'.queue_stopped ≡ true) × (e'.request_inflight ≡ e'.disk_channels))
    pub taken : IsTaken e queue e' left
    pub all : accepted e' + length left ≡ accepted e + length queue

  -- What follows the loop.
  abbrev looped : Turn Server → Bool → Outcome (Emudisk × Server × List (ℕ × BlockRequest) × Bool)
  looped t b = elim b [
    | false ↦ done (t.disk, t.net, t.queue, false)
    | true ↦
        (ask_next_response blank direct_call counter t.disk t.net >>= λ (e', net', wake).
        done (e', net', t.queue, wake))
  ]

  strategy-idle :
      (e : Emudisk) (s : Server) (queue : List (ℕ × BlockRequest)) (t : Turn Server)
      → submit_loop blank direct_call counter e s false queue ≡ done t
      → t.submitted ≡ false
      → emudisk_strategy blank direct_call counter e s queue ≡ done (t.disk, t.net, t.queue, false)
  unfolding emudisk_strategy
  strategy-idle e s queue t loop idle =
      rw loop (subst (λ b. looped t b ≡ looped t false) (sym idle) refl)

  strategy-asks :
      (e : Emudisk) (s : Server) (queue : List (ℕ × BlockRequest)) (t : Turn Server) (e' : Emudisk)
      (s' : Server) (wake : Bool)
      → submit_loop blank direct_call counter e s false queue ≡ done t
      → t.submitted ≡ true
      → ask_next_response blank direct_call counter t.disk t.net ≡ done (e', s', wake)
      → emudisk_strategy blank direct_call counter e s queue ≡ done (e', s', t.queue, wake)
  unfolding emudisk_strategy
  strategy-asks e s queue t e' s' wake loop busy asked =
      rw loop (subst (λ b. looped t b ≡ done (e', s', t.queue, wake)) (sym busy) (rw asked refl))

  -- The counts and the room do not depend on what is waited for.
  pub turned-IsCounted :
      (e : Emudisk) (s : Server) (num latest : ℕ) (e' : Emudisk) (s' : Server) (unended total : ℕ)
      → IsTurn e s num latest e' s'
      → IsCounted e unended
      → total ≡ unended + num
      → IsCounted e' total
  turned-IsCounted e s num latest e' s' unended total t c sum = record {
    inflight = omega (arith, t.keeps.inflight, c.inflight, t.left, sum);
    channels = omega (arith, t.keeps.channels, c.channels, t.keeps.size);
    bounded = omega (arith, t.keeps.inflight, t.keeps.channels, c.bounded);
  }

  pub turned-Room :
      (e : Emudisk) (s : Server) (num latest : ℕ) (e' : Emudisk) (s' : Server)
      → IsTurn e s num latest e' s'
      → Room e
      → Room e'
  turned-Room e s num latest e' s' t (inl (runs, room)) =
      inl (t.keeps.stopped ∙ runs, omega (arith, room, t.keeps.inflight, t.keeps.channels))
  turned-Room e s num latest e' s' t (inr (stops, full)) =
      inr (t.keeps.stopped ∙ stops, t.keeps.inflight ∙ full ∙ sym t.keeps.channels)

  ended_by :
      (left : List (ℕ × BlockRequest)) (e : Emudisk)
      → Room e
      → (left ≡ []) ⊎ (e.queue_stopped ≡ true)
      → (left ≡ []) ⊎ ((e.queue_stopped ≡ true) × (e.request_inflight ≡ e.disk_channels))
  ended_by left e room (inl none) = inl none
  ended_by left e (inl (runs, _)) (inr stops) = cc
  ended_by left e (inr (_, full)) (inr stops) = inr (stops, full)

  -- With table and server in step and the queue running, nctuss_emudisk_strategy never hangs on
  -- timely requests, far from the last of the ids and with a latest response time that fits the
  -- server's signed 64 bits. It takes requests off the front of the queue
  -- until the queue is empty, or as many are in flight as the disk has channels and the queue is
  -- stopped. The file-system requests among those that it took are in the table then, beside just
  -- those that were there, the others ended with an error, and nothing else is completed or ended.
  -- Table and server are in step again, and the processing task waits for the requests that
  -- complete next.
  pub emudisk_strategy-IsCalled :
      (e : Emudisk) (s : Server) (unended : ℕ) (queue : List (ℕ × BlockRequest))
      → IsReady e s
      → IsCounted e unended
      → AwaitsRest e s
      → e.latest_response_time < 2 ^ 63
      → e.queue_stopped ≡ false
      → e.request_inflight < e.disk_channels
      → AreTimely e s queue
      → e.udp_send_reply_id + messages queue + 1 < 2 ^ 32
      → (e' : Emudisk) × (s' : Server) × (left : List (ℕ × BlockRequest)) × (wake : Bool) × IsCalled
          e s unended queue e' s' left wake
  emudisk_strategy-IsCalled e s unended queue r c w word runs room timely wraps =
      let (t, l) =
        submit_loop-IsLooped blank counter e s unended false queue r c w runs room timely
          (omega (arith, wraps)) in
      elim (Bool-cases t.submitted) [
        | inl busy ↦
            let stale : IsStaleOrNone t.disk t.net = subst (LoopWaits t.disk t.net) busy l.waits in
            let (e', s', wake, asked, turn) =
              ask_next_response-IsTurn blank counter t.disk t.net l.ready stale
                (omega (arith, l.same_latest, word)) (omega (arith, l.number, wraps)) in
            (
              e',
              s',
              t.queue,
              wake,
              record {
                result = strategy-asks e s queue t e' s' wake l.result busy asked;
                ready = turn.ready;
                counted =
                    turned-IsCounted t.disk t.net 0 _ e' s' unended unended turn l.counted
                      (omega arith);
                waits = turn.rest;
                room = turned-Room t.disk t.net 0 _ e' s' turn l.room;
                number = omega (arith, turn.number, l.number);
                same_completed =
                    (HandedBack-nil t.disk.slots e'.slots t.disk.completed e'.completed
                      turn.handed).1
                    ∙ l.same_completed;
                ended =
                    ended_by t.queue e' (turned-Room t.disk t.net 0 _ e' s' turn l.room)
                      (elim l.ended [
                        | inl none ↦ inl none
                        | inr stops ↦ inr (turn.keeps.stopped ∙ stops)
                      ]);
                taken =
                    IsTaken-then e t.disk e' queue t.queue l.taken turn.handed turn.keeps.failed;
                same_channels = turn.keeps.channels ∙ l.same_channels;
                same_latest = turn.now_latest ∙ l.same_latest;
                all = omega (arith, turn.left, ap length turn.keeps.failed, l.all);
              },
            )
        | inr idle ↦ (
          t.disk,
          t.net,
          t.queue,
          false,
          record {
            result = strategy-idle e s queue t l.result idle;
            ready = l.ready;
            counted = l.counted;
            waits = subst (LoopWaits t.disk t.net) idle l.waits;
            room = l.room;
            number = omega (arith, l.number);
            same_completed = l.same_completed;
            ended = ended_by t.queue t.disk l.room l.ended;
            taken = l.taken;
            same_channels = l.same_channels;
            same_latest = l.same_latest;
            all = l.all;
          },
        )
      ]
