-- ===== src/Emudisk/Slots/Filled.antt =====
-- The slot that nctuss_put_request_id_to_req_mapping fills, and changes to the buffer of a slot.
use nctusde.Base.{
  ℕ, zero, suc, ◌<◌, ◌≡◌, refl, ap, subst, inl, inr, List, [], ◌∷◌, arith, length, get_or, set,
  ◌==◌, done, >>=-eq-done, done-injective, Bool-cases,
}
use nctusde.Emudisk.{Slot, BlockRequest}
use nctusde.Emudisk.Slots.{fill, put_request_id_to_req_mapping}
use nctusde.Emudisk.Slots.Table.{occupied_ids}

-- Only one slot is filled.
pub put-set :
    (slots slots' : List Slot) (id : ℕ) (req : BlockRequest) (n i : ℕ) (d : Slot)
    → put_request_id_to_req_mapping slots id req n ≡ done (slots', i)
    → (i < length slots) × (slots' ≡ set slots i (fill (get_or slots i d) id req n))
unfolding put_request_id_to_req_mapping
put-set [] slots' id req n i d h = cc
put-set (s ∷ slots) slots' id req n i d h = elim (Bool-cases (s.request_id == 0)) [
  | inl e ↦
      subst
        (λ (r : List Slot × ℕ).
          (r.1 < suc (length slots))
          × (r.0 ≡ set (s ∷ slots) r.1 (fill (get_or (s ∷ slots) r.1 d) id req n)))
        (done-injective (simp e at h)) (omega arith, refl)
  | inr e ↦
      let (r, e1, e2) =
        >>=-eq-done (put_request_id_to_req_mapping slots id req n) _ (simp e at h) in
      let (lt, filled) = put-set slots r.0 id req n r.1 d e1 in
      subst
        (λ (r : List Slot × ℕ).
          (r.1 < suc (length slots))
          × (r.0 ≡ set (s ∷ slots) r.1 (fill (get_or (s ∷ slots) r.1 d) id req n)))
        (done-injective e2) (omega (arith, lt), ap (◌∷◌ s) filled)
]

-- The ids in flight do not depend on the rest of a slot.
pub occupied_ids-set :
    (slots : List Slot) (i : ℕ) (s' d : Slot)
    → s'.request_id ≡ (get_or slots i d).request_id
    → occupied_ids (set slots i s') ≡ occupied_ids slots
unfolding occupied_ids
occupied_ids-set [] i s' d h = refl
occupied_ids-set (s ∷ slots) zero s' d h = rw h refl
occupied_ids-set (s ∷ slots) (suc i) s' d h = elim (Bool-cases (s.request_id == 0)) [
  | inl e ↦ rw e (occupied_ids-set slots i s' d h)
  | inr e ↦ rw e (ap (◌∷◌ s.request_id) (occupied_ids-set slots i s' d h))
]
