-- ===== src/Ssd/Oldest.antt =====
-- The loop of `submit_request` that chooses a channel.
use nctusde.Base.{
  ℕ, suc, ◌+◌, ◌≤◌, ◌<◌, ◌≡◌, refl, sym, ◌⊎◌, inl, inr, List, [], ◌∷◌, arith, length, get_or, All,
  ltb, Bool-cases,
}
use nctusde.Ssd.{Channel, oldest}

abbrev pub no_channel : Channel
no_channel = record {
  io_request_id = 0;
  completion_time = 0;
  request_last_sector = 0;
  request_rw = 0;
}

abbrev pub completion_at : List Channel → ℕ → ℕ
completion_at cs k = (get_or cs k no_channel).completion_time

-- The loop keeps its start values if no channel is older, and else ends at a channel.
pub record IsOldest (cs : List Channel) (i time pos : ℕ) (r : ℕ × ℕ) : Type 0 where
  pub least : All (λ c. r.0 ≤ c.completion_time) cs
  pub below : r.0 ≤ time
  pub attained :
      ((r.0 ≡ time) × (r.1 ≡ pos))
      ⊎ ((k : ℕ) × (r.1 ≡ i + k) × (k < length cs) × (completion_at cs k ≡ r.0))

taken :
    (c : Channel) (cs : List Channel) (i time pos : ℕ) (r : ℕ × ℕ)
    → c.completion_time < time
    → IsOldest cs (i + 1) c.completion_time i r
    → IsOldest (c ∷ cs) i time pos r
taken c cs i time pos r older h = record {
  least = (h.below, h.least);
  below = omega (arith, h.below);
  attained = inr (elim h.attained [
    | inl (t, p) ↦ (0, omega arith, omega arith, sym t)
    | inr (k, p, lt, e) ↦ (suc k, omega arith, omega arith, e)
  ]);
}

passed :
    (c : Channel) (cs : List Channel) (i time pos : ℕ) (r : ℕ × ℕ)
    → time ≤ c.completion_time
    → IsOldest cs (i + 1) time pos r
    → IsOldest (c ∷ cs) i time pos r
passed c cs i time pos r younger h = record {
  least = (omega (arith, h.below), h.least);
  below = h.below;
  attained = elim h.attained [
    | inl t ↦ inl t
    | inr (k, p, lt, e) ↦ inr (suc k, omega arith, omega arith, e)
  ];
}

pub oldest-IsOldest :
    (cs : List Channel) (i time pos : ℕ) → IsOldest cs i time pos (oldest cs i time pos)
unfolding oldest
oldest-IsOldest [] i time pos = record {
  least = tt;
  below = omega arith;
  attained = inl (refl, refl);
}
oldest-IsOldest (c ∷ cs) i time pos = elim (Bool-cases (ltb c.completion_time time)) [
  | inl e ↦
      rw e (taken c cs i time pos _ (ground arith) (oldest-IsOldest cs (i + 1) c.completion_time i))
  | inr e ↦ rw e (passed c cs i time pos _ (ground arith) (oldest-IsOldest cs (i + 1) time pos))
]
