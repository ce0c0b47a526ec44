-- ===== src/Ramdisk/Completion.antt =====
-- The search of the RAM disk's processing task for the next request that is due.
use nctusde.Base.{
  ℕ, ◌+◌, ◌≤◌, ◌≡◌, subst, Bool, true, none, some, List, [], ◌∷◌, arith, All, ltb, ◌&&◌, Bool-cases,
  Option-cases, inl, inr, done, >>=-eq-done, done-injective,
}
use nctusde.Ramdisk.{Ramdisk, Channel, process_due, complete_at, next_due, keep_due, is_due}
use nctusde.Ramdisk.Schedule.{NonePendingBefore}

next_due-some :
    (cs : List Channel) (now i : ℕ) (best : ℕ × ℕ)
    → (r : ℕ × ℕ) × (next_due cs now i (some best) ≡ some r) × (r.0 ≤ best.0)
unfolding next_due keep_due
next_due-some [] now i best = (best, ground arith, omega arith)
next_due-some (c ∷ cs) now i (time, pos) =
    elim (Bool-cases (is_due c now && ltb c.completion_time time)) [
      | inl e ↦
          let (r, h, le) = next_due-some cs now (i + 1) (c.completion_time, i) in
          (r, simp (e, h), ground arith)
      | inr e ↦ let (r, h, le) = next_due-some cs now (i + 1) (time, pos) in (r, simp (e, h), le)
    ]

next_due-none :
    (cs : List Channel) (now i : ℕ) → next_due cs now i none ≡ none → NonePendingBefore now cs
unfolding next_due keep_due
next_due-none [] now i h = tt
next_due-none (c ∷ cs) now i h = elim (Bool-cases (is_due c now)) [
  | inl e ↦
      let (r, h', le) = next_due-some cs now (i + 1) (c.completion_time, i) in cc (h', simp e at h)
  | inr e ↦ (ground arith, next_due-none cs now (i + 1) (simp e at h))
]

weaken : (cs : List Channel) (t u : ℕ) → t ≤ u → NonePendingBefore u cs → NonePendingBefore t cs
weaken [] t u h p = tt
weaken (c ∷ cs) t u h p =
    (elim p.0 [ inl e ↦ inl e | inr e ↦ inr (omega arith) ], weaken cs t u h p.1)

-- When the task has caught up, no request in flight was to complete before the time at which the
-- task began, and so none before any time up to then.
pub process_due-NonePendingBefore :
    (d d' : Ramdisk) (start : ℕ) (readings : List ℕ)
    → All (λ now. start ≤ now) readings
    → process_due d readings ≡ done (d', true)
    → NonePendingBefore start d'.channels
unfolding process_due
process_due-NonePendingBefore d d' start [] later e = cc
process_due-NonePendingBefore d d' start (now ∷ readings) later e =
    elim (Option-cases (next_due d.channels now 0 none)) [
      | inl caught_up ↦
          subst (λ (r : Ramdisk × Bool). NonePendingBefore start (r.0).channels)
            (done-injective (rw (caught_up, process_due) at e))
            (weaken d.channels start now later.0 (next_due-none d.channels now 0 caught_up))
      | inr ((time, pos), found) ↦
          let (d1, e1, e2) = >>=-eq-done (complete_at d pos) _ (rw (found, process_due) at e) in
          process_due-NonePendingBefore d1 d' start readings later.1 e2
    ]
