-- ===== src/Ssd/Pending.antt =====
-- The requests that have not completed by a given time, as the list of their ids.
use mathlib.Core.List.{Perm, perm_middle}
use mathlib.Core.List.Perm
use nctusde.Base.{
  ℕ, zero, suc, ◌≤◌, ◌<◌, ◌≡◌, refl, ◌⊎◌, inl, inr, List, [], ◌∷◌, ◌++◌, arith, length, set, All,
  ltb, if◌then◌else◌, Bool-cases,
}
use nctusde.Ssd.{Channel, completing}
use nctusde.Ssd.Oldest.{completion_at}

unfoldable pub pending_ids : List Channel → ℕ → List ℕ
pending_ids [] time = []
pending_ids (c ∷ cs) time =
    if ltb time c.completion_time
    then c.io_request_id ∷ pending_ids cs time
    else pending_ids cs time

-- Between `current_time` and the next completion time nothing completes, so the requests pending
-- at `current_time` are those that complete at `time` and those pending after it.
pub pending_ids-completing :
    (cs : List Channel) (current_time time : ℕ)
    → current_time < time
    → All (λ c. (c.completion_time ≤ current_time) ⊎ (time ≤ c.completion_time)) cs
    → Perm (pending_ids cs current_time) (completing cs time ++ pending_ids cs time)
unfolding pending_ids completing
pending_ids-completing [] t u lt h = Perm.nil
pending_ids-completing (c ∷ cs) t u lt h =
    let ih = pending_ids-completing cs t u lt h.1 in
    let rest = Perm.cons c.io_request_id ih in
    ground (
      arith,
      h.0,
      ih,
      rest,
      Perm.trans rest (Perm.symm (perm_middle (completing cs u) (pending_ids cs u))),
    )

pub pending_ids-none :
    (cs : List Channel) (time : ℕ)
    → All (λ c. c.completion_time ≤ time) cs
    → pending_ids cs time ≡ []
unfolding pending_ids
pending_ids-none [] t h = refl
pending_ids-none (c ∷ cs) t h = ground (arith, h.0, pending_ids-none cs t h.1)

-- Overwriting a channel that has completed by `time` with a later request adds that request.
pub pending_ids-set :
    (cs : List Channel) (time pos : ℕ) (c : Channel)
    → pos < length cs
    → completion_at cs pos ≤ time
    → time < c.completion_time
    → Perm (pending_ids (set cs pos c) time) (c.io_request_id ∷ pending_ids cs time)
unfolding pending_ids
pending_ids-set [] t pos c lt old new = absurd (omega arith)
pending_ids-set (d ∷ cs) t zero c lt old new =
    ground (arith, Perm.refl (c.io_request_id ∷ pending_ids cs t))
pending_ids-set (d ∷ cs) t (suc pos) c lt old new =
    let ih = pending_ids-set cs t pos c (omega arith) old new in
    ground (
      arith,
      ih,
      Perm.trans (Perm.cons d.io_request_id ih)
          (Perm.swap c.io_request_id d.io_request_id (pending_ids cs t)),
    )

-- Fewer pending requests than channels leave a channel that has completed.
pub pending_ids-room :
    (cs : List Channel) (time : ℕ)
    → length (pending_ids cs time) < length cs
    → (k : ℕ) × (k < length cs) × (completion_at cs k ≤ time)
unfolding pending_ids
pending_ids-room [] t h = absurd (omega arith)
pending_ids-room (c ∷ cs) t h = elim (Bool-cases (ltb t c.completion_time)) [
  | inl e ↦
      let (k, lt, old) = pending_ids-room cs t (ground arith) in (suc k, omega (arith, lt), old)
  | inr e ↦ (0, omega arith, ground arith)
]
