-- ===== src/Ssd/Setup.antt =====
-- What `setup` leaves behind.
use nctusde.Base.{
  ℕ, zero, suc, ◌≤◌, ◌<◌, ◌≡◌, refl, ap, List, [], ◌∷◌, arith, length, take, All, done,
}
use nctusde.Ssd.{
  Ssd, Channel, active, setup, restart, reset_channels, unused_id, max_emulator_channels,
  memory_storage_size, long_max,
}
use nctusde.Ssd.Valid.{IsValid}
use nctusde.Ssd.Pending.{pending_ids, pending_ids-none}

-- A channel that is not in use, and is free from time 1 on.
abbrev pub IsIdle : Channel → Type 0
IsIdle c = (c.io_request_id ≡ unused_id) × (c.completion_time ≡ 0)

length-reset_channels : (n : ℕ) (cs : List Channel) → length (reset_channels n cs) ≡ length cs
unfolding reset_channels
length-reset_channels zero cs = refl
length-reset_channels (suc n) [] = refl
length-reset_channels (suc n) (c ∷ cs) = ap suc (length-reset_channels n cs)

reset_channels-IsIdle : (n : ℕ) (cs : List Channel) → All IsIdle (take n (reset_channels n cs))
unfolding reset_channels
reset_channels-IsIdle zero cs = tt
reset_channels-IsIdle (suc n) [] = tt
reset_channels-IsIdle (suc n) (c ∷ cs) = ((refl, refl), reset_channels-IsIdle n cs)

idle-in_time :
    (cs : List Channel) (time : ℕ)
    → All IsIdle cs
    → All (λ c. c.completion_time < long_max) cs × All (λ c. c.completion_time ≤ time) cs
idle-in_time [] time h = (tt, tt)
idle-in_time (c ∷ cs) time h =
    let (below, free) = idle-in_time cs time h.1 in
    ((omega (arith, h.0.1), below), (omega (arith, h.0.1), free))

pub record IsFresh (size channels speed_factor : ℕ) (ssd : Ssd) : Type 0 where
  pub valid : IsValid ssd
  pub parameters : (ssd.size ≡ size) × (ssd.channels ≡ channels) × (ssd.speed_factor ≡ speed_factor)
  pub idle : All IsIdle (active ssd)
  pub nothing_pending : (time : ℕ) → pending_ids (active ssd) time ≡ []
  pub clock : (ssd.current_time ≡ 0) × (ssd.most_frontier_simulation_time ≡ 0)

-- A reset with at most 32 channels, and a size that passes its check, leaves a valid SSD of the
-- given size, channels and speed on which every channel is idle and no request is pending.
pub setup-IsFresh :
    (ssd : Ssd) (size channels speed_factor : ℕ)
    → length ssd.ssd_channels ≡ max_emulator_channels
    → channels ≤ max_emulator_channels
    → size ≤ memory_storage_size
    → (ssd' : Ssd) × (setup ssd size channels speed_factor ≡ done ssd')
      × IsFresh size channels speed_factor ssd'
unfolding setup
setup-IsFresh ssd size channels speed_factor e hc hs =
    let idle = reset_channels-IsIdle channels ssd.ssd_channels in
    (
      restart ssd size channels speed_factor,
      ground arith,
      record {
        valid = record {
          array = omega (arith, length-reset_channels channels ssd.ssd_channels);
          in_array = hc;
          in_time = (idle-in_time _ 0 idle).0;
        };
        parameters = (refl, refl, refl);
        idle = idle;
        nothing_pending = λ time. pending_ids-none _ time (idle-in_time _ time idle).1;
        clock = (refl, refl);
      },
    )

-- A reset with too many channels is ignored: the SSD goes on with its old parameters.
pub setup-ignored :
    (ssd : Ssd) (size channels speed_factor : ℕ)
    → max_emulator_channels < channels
    → setup ssd size channels speed_factor ≡ done ssd
unfolding setup
setup-ignored ssd size channels speed_factor h = ground arith
