-- ===== src/System/Network/Run.antt =====
-- The system over the network and the system without it make the same steps.
use nctusde.Base.{
  ℕ, ◌+◌, ◌^◌, ◌<◌, ◌≡◌, refl, sym, ap, subst, ◌∙◌, List, arith, length, done, done-injective,
}
use nctusde.Wire.{Request}
use nctusde.Server.{Server}
use nctusde.Link.{Fate}
use nctusde.Link.Delivery.{Delivers}
use nctusde.Emudisk.Slots.Table.{occupied_ids}
use nctusde.System.Network.{Network, network_call}
use nctusde.System.Network.Calls.{
  direct_strategy, direct_responses, strategy_over_network, responses_over_network,
}
use nctusde.System.Run.{World, StepOver, ReachOver, Step, Reach, after_call, after_turn, after_end}
use nctusde.System.Run.Steady.{IsSteady, called, turned, Reach-IsSteady}
use nctusde.System.Run.Drained.{IsDrained, drains}

-- The world without its network.
abbrev pub seen : World Network → World Server
seen w = record { disk = w.disk; net = w.net.server; unended = w.unended; clock = w.clock }

abbrev pub NetworkStep : (ℕ → List Fate) → Request → ℕ → World Network → World Network → Type 0
NetworkStep fates = StepOver (λ n. n.server) (network_call fates)

abbrev pub NetworkReach : (ℕ → List Fate) → Request → ℕ → World Network → World Network → Type 0
NetworkReach fates = ReachOver (λ n. n.server) (network_call fates)

module _ (fates : ℕ → List Fate) (delivers : (k : ℕ) → Delivers (fates k)) (blank : Request)
    (counter : ℕ) where
  network-Step :
      (w w' : World Network)
      → IsSteady (seen w)
      → NetworkStep fates blank counter w w'
      → Step blank counter (seen w) (seen w')
  network-Step w _ v (StepOver.calls queue clock r runs arriving forth wraps result) =
      let (r1, direct, _) = called blank counter (seen w) queue clock v runs arriving forth wraps in
      let (r2, carried, same) =
        strategy_over_network fates delivers blank counter w.disk w.net queue r1
          v.ready.in_sync.fresh (omega (arith, wraps)) direct in
      let equal : r2 ≡ r = done-injective (sym carried ∙ result) in
      StepOver.calls queue clock (direct_strategy r) runs arriving forth wraps
        (direct ∙ ap done (sym same ∙ ap direct_strategy equal))
  network-Step w _ v (StepOver.turns now later r some_ due forth on wraps result) =
      let (r1, direct, _, _) = turned blank counter (seen w) now later v some_ due forth on wraps in
      let (r2, carried, same) =
        responses_over_network fates delivers blank counter w.disk w.net now later r1
          v.ready.in_sync.fresh (omega (arith, wraps)) direct in
      let equal : r2 ≡ r = done-injective (sym carried ∙ result) in
      StepOver.turns now later (direct_responses r) some_ due forth on wraps
        (direct ∙ ap done (sym same ∙ ap direct_responses equal))
  network-Step w _ v (StepOver.ends some_) = StepOver.ends some_

  Step-over_network :
      (w : World Network) (u : World Server)
      → IsSteady (seen w)
      → Step blank counter (seen w) u
      → (w' : World Network) × NetworkStep fates blank counter w w' × (seen w' ≡ u)
  Step-over_network w _ v (StepOver.calls queue clock r runs arriving forth wraps result) =
      let (r2, carried, same) =
        strategy_over_network fates delivers blank counter w.disk w.net queue r
          v.ready.in_sync.fresh (omega (arith, wraps)) result in
      (
        after_call w clock r2,
        StepOver.calls queue clock r2 runs arriving forth wraps carried,
        ap (after_call (seen w) clock) same,
      )
  Step-over_network w _ v (StepOver.turns now later r some_ due forth on wraps result) =
      let (r2, carried, same) =
        responses_over_network fates delivers blank counter w.disk w.net now later r
          v.ready.in_sync.fresh (omega (arith, wraps)) result in
      (
        after_turn w later r2,
        StepOver.turns now later r2 some_ due forth on wraps carried,
        ap (after_turn (seen w) later) same,
      )
  Step-over_network w _ v (StepOver.ends some_) = (after_end w, StepOver.ends some_, refl)

  -- From a steady world, whatever the system does over a network that loses datagrams, but not all
  -- sendings of a request, it also does without the network: every world that it reaches, seen
  -- without the network, is reached there.
  pub network-refines :
      (w w' : World Network)
      → IsSteady (seen w)
      → NetworkReach fates blank counter w w'
      → Reach blank counter (seen w) (seen w')
  network-refines w _ v ReachOver.start = ReachOver.start
  network-refines w w' v (ReachOver.later {v = u} reach step) =
      let before = network-refines w u v reach in
      ReachOver.later before
        (network-Step u w' (Reach-IsSteady blank counter (seen w) (seen u) v before) step)

  -- Every world that the system reaches without the network it also reaches over it.
  pub network-attains :
      (w : World Network) (u : World Server)
      → IsSteady (seen w)
      → Reach blank counter (seen w) u
      → (w' : World Network) × NetworkReach fates blank counter w w' × (seen w' ≡ u)
  network-attains w _ v ReachOver.start = (w, ReachOver.start, refl)
  network-attains w u v (ReachOver.later {v = x} reach step) =
      let (x', reach', same) = network-attains w x v reach in
      let steady : IsSteady (seen x') =
        subst IsSteady (sym same) (Reach-IsSteady blank counter (seen w) x v reach) in
      let (w', step', same') =
        Step-over_network x' u steady (subst (λ y. Step blank counter y u) (sym same) step) in
      (w', ReachOver.later reach' step', same')

  -- Over a network that loses datagrams, but not all sendings of a request, the system gets from
  -- every steady world to one in which every request that was in flight is completed and ended, the
  -- table empty and the queue running, if there is an id left for one message per request. What is
  -- completed then, but for the order, is what was completed before and the requests that were in
  -- the table, a write as it was and a read with the bytes of its slot's buffer in its segments.
  pub network-drains :
      (w : World Network)
      → IsSteady (seen w)
      → w.disk.udp_send_reply_id + length (occupied_ids w.disk.slots) < 2 ^ 32
      → (w' : World Network) × NetworkReach fates blank counter w w'
        × IsDrained blank counter (seen w) (seen w')
  network-drains w v wraps =
      let (u, d) = drains blank counter (seen w) v wraps in
      let (w', reach, same) = network-attains w u v d.reached in
      (w', reach, subst (IsDrained blank counter (seen w)) (sym same) d)
