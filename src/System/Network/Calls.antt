-- ===== src/System/Network/Calls.antt =====
-- What the strategy function and the processing task do over the network.
use nctusde.Base.{ℕ, ◌^◌, ◌<◌, ◌≡◌, refl, ap, subst, ◌∙◌, inl, Bool, List, Outcome, done}
use nctusde.Wire.{Request}
use nctusde.Server.{Server}
use nctusde.Link.{Fate}
use nctusde.Link.Delivery.{Delivers}
use nctusde.Emudisk.{Emudisk, BlockRequest}
use nctusde.Emudisk.Strategy.{emudisk_strategy, start_request}
use nctusde.Emudisk.Processing.{process_responses}
use nctusde.Emudisk.Simulation.{Follows, Same2, Same3, Same4}
use nctusde.Emudisk.Simulation.Steps.{
  emudisk_strategy-Follows, start_request-Follows, process_responses-Follows,
}
use nctusde.System.{direct_call}
use nctusde.System.Network.{Network, network_call}
use nctusde.System.Network.Carried.{IsCarried, network-Follows}

-- The results, seen from the server.
abbrev pub direct_strategy :
    Emudisk × Network × List (ℕ × BlockRequest) × Bool
    → Emudisk × Server × List (ℕ × BlockRequest) × Bool
direct_strategy (e, n, left, wake) = (e, n.server, left, wake)

abbrev pub direct_responses : Emudisk × Network × Bool → Emudisk × Server × Bool
direct_responses (e, n, again) = (e, n.server, again)

Follows-result :
    {A B : Type 0} (Q : A → B → Type 0) (m : Outcome A) (m' : Outcome B) (a : A)
    → Follows Q m m'
    → m ≡ done a
    → (b : B) × (m' ≡ done b) × Q a b
Follows-result Q m m' a follows h = subst (λ x. Follows Q x m') h follows

strategy_same :
    (r : Emudisk × Server × List (ℕ × BlockRequest) × Bool)
    (r' : Emudisk × Network × List (ℕ × BlockRequest) × Bool)
    → Same4 IsCarried r r'
    → direct_strategy r' ≡ r
strategy_same (e, s, left, wake) (e', n, left', wake') (disk, queue, flag, c) =
    ap (λ x. (x, n.server, left', wake')) disk
    ∙ ap (λ x. (e, x, left', wake')) c.same
    ∙ ap (λ x. (e, s, x, wake')) queue
    ∙ ap (λ x. (e, s, left, x)) flag

responses_same :
    (r : Emudisk × Server × Bool) (r' : Emudisk × Network × Bool)
    → Same3 IsCarried r r'
    → direct_responses r' ≡ r
responses_same (e, s, again) (e', n, again') (disk, flag, c) =
    ap (λ x. (x, n.server, again')) disk
    ∙ ap (λ x. (e, x, again')) c.same
    ∙ ap (λ x. (e, s, x)) flag

start_same :
    (r : Emudisk × Server) (r' : Emudisk × Network) → Same2 IsCarried r r' → (r'.0, r'.1.server) ≡ r
start_same (e, s) (e', n) (disk, c) = ap (λ x. (x, n.server)) disk ∙ ap (λ x. (e, x)) c.same

module _ (fates : ℕ → List Fate) (delivers : (k : ℕ) → Delivers (fates k)) (blank : Request)
    (counter : ℕ) where
  start-IsCarried :
      (e : Emudisk) (n : Network)
      → n.server.current_max_request_id < e.udp_send_reply_id
      → e.udp_send_reply_id < 2 ^ 32
      → IsCarried e.udp_send_reply_id n.server n
  start-IsCarried e n fresh word = record { same = refl; word = word; fresh = inl fresh }

  -- What the strategy function comes to without a network it comes to over one that loses
  -- datagrams, but not all sendings of a request.
  pub strategy_over_network :
      (e : Emudisk) (n : Network) (queue : List (ℕ × BlockRequest))
      (r : Emudisk × Server × List (ℕ × BlockRequest) × Bool)
      → n.server.current_max_request_id < e.udp_send_reply_id
      → e.udp_send_reply_id < 2 ^ 32
      → emudisk_strategy blank direct_call counter e n.server queue ≡ done r
      → (r' : Emudisk × Network × List (ℕ × BlockRequest) × Bool) × (emudisk_strategy blank
            (network_call fates)
            counter
            e
            n
            queue
          ≡ done r')
        × (direct_strategy r' ≡ r)
  strategy_over_network e n queue r fresh word h =
      let (r', result, same) =
        Follows-result (Same4 IsCarried) _ _ r
          (emudisk_strategy-Follows blank direct_call (network_call fates) counter IsCarried
            (network-Follows fates delivers) e n.server n queue (start-IsCarried e n fresh word))
          h in
      (r', result, strategy_same r r' same)

  -- The same of a turn of the processing task.
  pub responses_over_network :
      (e : Emudisk) (n : Network) (now later : ℕ) (r : Emudisk × Server × Bool)
      → n.server.current_max_request_id < e.udp_send_reply_id
      → e.udp_send_reply_id < 2 ^ 32
      → process_responses blank direct_call counter e n.server now later ≡ done r
      → (r' : Emudisk × Network × Bool) × (process_responses blank
            (network_call fates)
            counter
            e
            n
            now
            later
          ≡ done r')
        × (direct_responses r' ≡ r)
  responses_over_network e n now later r fresh word h =
      let (r', result, same) =
        Follows-result (Same3 IsCarried) _ _ r
          (process_responses-Follows blank direct_call (network_call fates) counter IsCarried
            (network-Follows fates delivers) e n.server n now later
            (start-IsCarried e n fresh word))
          h in
      (r', result, responses_same r r' same)

  -- The same of one request of the strategy function.
  pub start_over_network :
      (e : Emudisk) (n : Network) (now : ℕ) (req : BlockRequest) (r : Emudisk × Server)
      → n.server.current_max_request_id < e.udp_send_reply_id
      → e.udp_send_reply_id < 2 ^ 32
      → start_request blank direct_call counter e n.server now req ≡ done r
      → (r' : Emudisk × Network) × (start_request blank (network_call fates) counter e n now req
          ≡ done r')
        × ((r'.0, r'.1.server) ≡ r)
  start_over_network e n now req r fresh word h =
      let (r', result, same) =
        Follows-result (Same2 IsCarried) _ _ r
          (start_request-Follows blank direct_call (network_call fates) counter IsCarried
            (network-Follows fates delivers) e n.server n now req (start-IsCarried e n fresh word))
          h in
      (r', result, start_same r r' same)
