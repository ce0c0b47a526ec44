-- ===== src/Ramdisk/Choice.antt =====
-- The RAM disk's choice of a channel, set against the emulator server's: "Should find the oldeset completed disk
-- channel to match the behavior with emulator server", says its source.
use nctusde.Base.{
  ℕ, ◌+◌, ◌≤◌, ◌<◌, ◌≡◌, refl, Bool, false, Option, none, some, List, [], ◌∷◌, arith, All, ltb, leb,
  if◌then◌else◌,
}
use nctusde.Timing.{ram_time, emulated_time}
use nctusde.Timing.Agreement.{ram_time-eq-emulated_time}
use nctusde.Ssd
use nctusde.Ssd.{Ssd, active, oldest, oldest_channel, is_sequential_request, long_max}
use nctusde.Ramdisk
use nctusde.Ramdisk.{Ramdisk, oldest_completed, keep_older, sequential}

-- The RAM disk's channels hold what the server's hold.
abbrev pub Mirrors : List Ramdisk.Channel → List Ssd.Channel → Type 0
Mirrors [] [] = Unit {0}
Mirrors [] (s ∷ ss) = ⊥
Mirrors (c ∷ cs) [] = ⊥
Mirrors (c ∷ cs) (s ∷ ss) =
    (c.completion_time ≡ s.completion_time)
    × (c.request_last_sector ≡ s.request_last_sector)
    × (c.request_rw ≡ s.request_rw)
    × Mirrors cs ss

-- The processing task has completed the requests whose time has come by `now`, and no others.
abbrev pub IsPrompt : ℕ → List Ramdisk.Channel → Type 0
IsPrompt now = All (λ c. c.completed ≡ ltb c.completion_time now)

-- What the two loops hold after the same channels.
abbrev SameBest : ℕ → Option (ℕ × ℕ) → ℕ → ℕ → Type 0
SameBest now none time pos = now ≤ time
SameBest now (some (t, p)) time pos = (t ≡ time) × (p ≡ pos) × (t < now)

keep_older-SameBest :
    (now : ℕ) (c : Ramdisk.Channel) (t : ℕ) (i : ℕ) (best : Option (ℕ × ℕ)) (time pos : ℕ)
    → c.completed ≡ ltb c.completion_time now
    → c.completion_time ≡ t
    → SameBest now best time pos
    → SameBest now
        (keep_older c i best)
        (if ltb t time then t else time)
        (if ltb t time then i else pos)
unfolding keep_older
keep_older-SameBest now c t i none time pos p e h = ground arith
keep_older-SameBest now c t i (some (u, j)) time pos p e h = ground arith

oldest_completed-SameBest :
    (now : ℕ) (cs : List Ramdisk.Channel) (ss : List Ssd.Channel) (i : ℕ) (best : Option (ℕ × ℕ))
    (time pos : ℕ)
    → Mirrors cs ss
    → IsPrompt now cs
    → SameBest now best time pos
    → SameBest now (oldest_completed cs i best) (oldest ss i time pos).0 (oldest ss i time pos).1
unfolding oldest_completed oldest
oldest_completed-SameBest now [] [] i best time pos m p h = h
oldest_completed-SameBest now [] (s ∷ ss) i best time pos m p h = absurd m
oldest_completed-SameBest now (c ∷ cs) [] i best time pos m p h = absurd m
oldest_completed-SameBest now (c ∷ cs) (s ∷ ss) i best time pos m p h =
    oldest_completed-SameBest now cs ss (i + 1) _ _ _ m.3 p.1
      (keep_older-SameBest now c s.completion_time i best time pos p.0 m.0 h)

sequential-mirror :
    (cs : List Ramdisk.Channel) (ss : List Ssd.Channel) (rw sector : ℕ) (found : Bool)
    → Mirrors cs ss
    → sequential cs rw sector found ≡ Ssd.sequential ss rw sector found
unfolding sequential Ssd.sequential
sequential-mirror [] [] dir sector found m = refl
sequential-mirror [] (s ∷ ss) dir sector found m = absurd m
sequential-mirror (c ∷ cs) [] dir sector found m = absurd m
sequential-mirror (c ∷ cs) (s ∷ ss) dir sector found m =
    rw (m.1, m.2) (sequential-mirror cs ss dir sector _ m.3)

agree :
    (now : ℕ) (found : Option (ℕ × ℕ)) (best : ℕ × ℕ)
    → SameBest now found best.0 best.1
    → found ≡ (if leb now best.0 then none else some best)
agree now none best h = ground arith
agree now (some (t, p)) best h = ground arith

-- With the same history on its channels, a processing task that keeps up, and the same speed
-- factor, of at most 7945, the RAM disk puts a request on the channel that the server chooses, or
-- finds none if the server refuses it; and the request takes the same time on both.
pub ramdisk-matches-server :
    (d : Ramdisk) (ssd : Ssd) (now dir sector index : ℕ)
    → Mirrors d.channels (active ssd)
    → IsPrompt now d.channels
    → now ≤ long_max
    → d.speed_factor ≡ ssd.speed_factor
    → ssd.speed_factor ≤ 7945
    → dir < 2
    → index < 8
    → (oldest_completed d.channels 0 none
        ≡ (if leb now (oldest_channel ssd).0 then none else some (oldest_channel ssd)))
      × (ram_time (sequential d.channels dir sector false) dir index d.speed_factor
          ≡ emulated_time (is_sequential_request ssd dir sector) dir index ssd.speed_factor)
unfolding oldest_channel is_sequential_request
ramdisk-matches-server d ssd now dir sector index m p h s small hd hi = (
  agree now _ _ (oldest_completed-SameBest now d.channels (active ssd) 0 none long_max 0 m p h),
  rw (s, sequential-mirror d.channels (active ssd) dir sector false m)
      (ram_time-eq-emulated_time _ dir index ssd.speed_factor hd hi small).0,
)
