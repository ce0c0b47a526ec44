-- ===== src/System/Run.antt =====
-- The kernel module, the server, the block layer and the clock, as one system that makes steps.
-- The block layer calls nctuss_emudisk_strategy unless the queue is stopped, and ends completed
-- requests through nctuss_emudisk_softirq_done; the processing task takes a turn when the time of
-- the responses that it waits for has come (all of emulator_kernel/nctuss_emudisk_main.c). The
-- functions hold the queue lock, so a step is a whole call.
pub mod Steady
pub mod Drained
pub mod Tests
use nctusde.Base.{ℕ, ◌+◌, ◌-◌, ◌*◌, ◌^◌, ◌≤◌, ◌<◌, ◌≡◌, Bool, true, false, List, All, Outcome, done}
use nctusde.Wire.{Request, Packet}
use nctusde.Server.{Server}
use nctusde.Ssd.{long_max}
use nctusde.Emudisk.{Emudisk, BlockRequest}
use nctusde.Emudisk.Strategy.{emudisk_strategy, emudisk_softirq_done}
use nctusde.Emudisk.Processing.{process_responses}
use nctusde.System.{direct_call}
use nctusde.System.Sync.Start.{IsAdmissible}
use nctusde.System.Sync.Waits.{messages}

-- `unended` requests are completed, but nctuss_emudisk_softirq_done is not called for them yet.
-- `net` is what lies behind the calls: the server, and the way to it.
pub record World (Net : Type 0) : Type 0 where
  pub disk : Emudisk
  pub net : Net
  pub unended : ℕ
  pub clock : ℕ

-- A request that the block layer may hand over, with the time at which it is fetched.
pub record IsArriving (clock speed_factor now : ℕ) (req : BlockRequest) : Type 0 where
  pub admissible : IsAdmissible req
  pub late : clock < now
  pub soon : now + 270270 * speed_factor < long_max

abbrev pub AreArriving : ℕ → ℕ → List (ℕ × BlockRequest) → Type 0
AreArriving clock speed_factor = All (λ r. IsArriving clock speed_factor r.0 r.1)

-- The world after a call of the strategy function, a turn of the task, and the end of a request.
module _ {Net : Type 0} where
  abbrev pub after_call : World Net → ℕ → Emudisk × Net × List (ℕ × BlockRequest) × Bool → World Net
  after_call w clock (e, n, left, wake) = record {
    disk = e;
    net = n;
    unended = w.unended;
    clock = clock;
  }

  abbrev pub after_turn : World Net → ℕ → Emudisk × Net × Bool → World Net
  after_turn w clock (e, n, again) = record {
    disk = e;
    net = n;
    unended = w.unended + w.disk.next_response_num;
    clock = clock;
  }

  abbrev pub after_end : World Net → World Net
  after_end w = record w { disk = (emudisk_softirq_done w.disk).0; unended = w.unended - 1 }

-- `view` is the server in what lies behind the calls.
module _ {Net : Type 0} (view : Net → Server)
    (call : Net → Request → List ℕ → Outcome (Net × Packet)) (blank : Request) (counter : ℕ) where
  pub data StepOver (w : World Net) : World Net → Type 0 where
    calls :
        (queue : List (ℕ × BlockRequest)) (clock : ℕ)
        (r : Emudisk × Net × List (ℕ × BlockRequest) × Bool)
        → w.disk.queue_stopped ≡ false
        → AreArriving w.clock (view w.net).ssd.speed_factor queue
        → w.clock ≤ clock
        → w.disk.udp_send_reply_id + messages queue + 1 < 2 ^ 32
        → emudisk_strategy blank call counter w.disk w.net queue ≡ done r
        → StepOver w (after_call w clock r)
    turns :
        (now later : ℕ) (r : Emudisk × Net × Bool)
        → 0 < w.disk.next_response_num
        → w.disk.next_response_time ≤ now
        → w.clock ≤ now
        → now ≤ later
        → w.disk.udp_send_reply_id + 1 < 2 ^ 32
        → process_responses blank call counter w.disk w.net now later ≡ done r
        → StepOver w (after_turn w later r)
    ends : 0 < w.unended → StepOver w (after_end w)

  pub data ReachOver (w : World Net) : World Net → Type 0 where
    start : ReachOver w w
    later : {v u : World Net} → ReachOver w v → StepOver v u → ReachOver w u

-- Without a network in between.
abbrev pub Step : Request → ℕ → World Server → World Server → Type 0
Step = StepOver (λ s. s) direct_call

abbrev pub Reach : Request → ℕ → World Server → World Server → Type 0
Reach = ReachOver (λ s. s) direct_call
