-- ===== src/Ssd/Tests.antt =====
-- The simulated SSD on two channels.
use nctusde.Base.{ℕ, ◌≡◌, refl, ◌⊎◌, false, [], ◌∷◌, arith, replicate, All, done, ◌≤◌}
use nctusde.Ssd.{Ssd, Channel, active, submit_request, get_next_responses, unused_id}
use nctusde.Ssd.Valid.{IsValid}
use nctusde.Ssd.Pending.{pending_ids}
use nctusde.Ssd.Answers.{IsAnswer, get_next_responses-IsAnswer}
use nctusde.Ssd.Submit.{Takes, submit_request-cases}
use nctusde.Ssd.Flow.{IsAdded, submit_request-IsAdded}

abbrev idle : Channel
idle = record {
  io_request_id = unused_id;
  completion_time = 0;
  request_last_sector = 0;
  request_rw = 0;
}

-- Request 130 is to complete at time 9000, the other channel is idle.
abbrev busy : Ssd
busy = record {
  size = 819200;
  channels = 2;
  speed_factor = 1000;
  current_time = 0;
  most_frontier_simulation_time = 9000;
  ssd_channels =
      record idle { io_request_id = 130; completion_time = 9000 } ∷ idle ∷ replicate 30 idle;
  counts = record {
    total_random_request_count = 1;
    total_sequential_request_count = 0;
    total_rollback_request_count = 0;
  };
}

busy-IsValid : IsValid busy
busy-IsValid = record { array = refl; in_array = omega arith; in_time = omega arith }

submit_request-IsAdded_example : (ssd' : Ssd) × IsAdded busy 100 200 0 64 8 131 ssd'
unfolding pending_ids
submit_request-IsAdded_example =
    submit_request-IsAdded busy 100 200 0 64 8 131 busy-IsValid (omega arith) (omega arith)
      (omega arith) (omega arith) (omega arith)

get_next_responses-IsAnswer_example : IsAnswer (active busy) 100 (get_next_responses busy 100).0
get_next_responses-IsAnswer_example = get_next_responses-IsAnswer busy 100 busy-IsValid

submit_request-cases_example :
    (All (λ c. 200 ≤ c.completion_time) (active busy)
      × (submit_request busy 200 1 64 8 131 ≡ done (false, busy)))
    ⊎ ((pos : ℕ) × (index : ℕ) × Takes busy 200 1 64 8 131 pos index)
submit_request-cases_example = submit_request-cases busy 200 1 64 8 131 (omega arith) (omega arith)

reports_130 : ((get_next_responses busy 100).0).io_request_ids ≡ 130 ∷ []
unfolding get_next_responses
reports_130 = refl
