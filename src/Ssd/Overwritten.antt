-- ===== src/Ssd/Overwritten.antt =====
-- What overwriting a channel means for the requests that complete at a given time.
use mathlib.Core.List.{Perm}
use mathlib.Core.List.Perm
use nctusde.Base.{
  ℕ, zero, suc, ◌≤◌, ◌<◌, List, [], ◌∷◌, ◌++◌, arith, length, set, ◌==◌, if◌then◌else◌, inl, inr,
  Bool-cases,
}
use nctusde.Ssd.{Channel, completing}
use nctusde.Ssd.Oldest.{completion_at}
use nctusde.Ssd.Flow.{IsPlaced}

-- The new request, if it completes at `time`.
abbrev pub newly : Channel → ℕ → List ℕ
newly c time = if c.completion_time == time then c.io_request_id ∷ [] else []

completing-set :
    (cs : List Channel) (latest time pos : ℕ) (c : Channel)
    → pos < length cs
    → completion_at cs pos ≤ latest
    → latest < time
    → Perm (completing (set cs pos c) time) (newly c time ++ completing cs time)
unfolding completing
completing-set [] latest time pos c lt old later = absurd (omega arith)
completing-set (d ∷ cs) latest time zero c lt old later =
    ground (arith, Perm.refl (completing cs time), Perm.refl (c.io_request_id ∷ completing cs time))
completing-set (d ∷ cs) latest time (suc pos) c lt old later =
    let ih = completing-set cs latest time pos c (omega arith) old later in
    elim (Bool-cases (d.completion_time == time)) [
      | inl e ↦ elim (Bool-cases (c.completion_time == time)) [
        | inl new ↦
            rw (e, new)
              (Perm.trans (Perm.cons d.io_request_id (rw new at ih))
                (Perm.swap c.io_request_id d.io_request_id (completing cs time)))
        | inr none ↦ rw (e, none) (Perm.cons d.io_request_id (rw none at ih))
      ]
      | inr e ↦ rw e ih
    ]

pub completing-IsPlaced :
    (cs cs' : List Channel) (latest time : ℕ)
    → IsPlaced cs latest cs'
    → latest < time
    → (more : List ℕ) × Perm (completing cs' time) (more ++ completing cs time)
completing-IsPlaced cs cs' latest time p later = (
  newly p.channel time,
  rw p.result (completing-set cs latest time p.pos p.channel p.in_range p.was_over later),
)
