-- ===== src/Ssd/Long.antt =====
-- submit_request and get_next_responses of emulator_server/udp_server.cxx at the times that the
-- server's `long` holds as they are.
use nctusde.Base.{ℕ, ◌^◌, ◌<◌, ◌≡◌, refl, true, arith, ltb}
use nctusde.Ssd.{
  Ssd, submit_request, submit_request_long, get_next_responses, get_next_responses_long,
}

pub get_next_responses_long-natural :
    (ssd : Ssd) (time : ℕ)
    → time < 2 ^ 63
    → get_next_responses_long ssd time ≡ get_next_responses ssd time
unfolding get_next_responses_long
get_next_responses_long-natural ssd time h =
    let natural : ltb time (2 ^ 63) ≡ true = ground arith in rw natural refl

pub submit_request_long-natural :
    (ssd : Ssd) (time rw_ sector count io_request_id : ℕ)
    → time < 2 ^ 63
    → submit_request_long ssd time rw_ sector count io_request_id
      ≡ submit_request ssd time rw_ sector count io_request_id
unfolding submit_request_long
submit_request_long-natural ssd time rw_ sector count io_request_id h =
    let natural : ltb time (2 ^ 63) ≡ true = ground arith in rw natural refl
