-- ===== src/Emudisk/Slots/Occupied.antt =====
-- The slots of the table that hold a request, and the requests that come back from them: what
-- nctuss_get_request_id_to_req_mapping takes out, with the data of a read.
use mathlib.Core.List.{Perm, perm_middle}
use mathlib.Core.List.Perm
use nctusde.Base.{
  take, drop, length, ℕ, ◌≡◌, ◌≢◌, refl, ap, subst, inl, inr, List, [], ◌∷◌, ◌++◌, map, map-append,
  map-perm, arith, ◌==◌, if◌then◌else◌, done, done-injective, >>=-eq-done, Bool-cases, ◌∙◌,
}
use nctusde.Emudisk.{Slot, BlockRequest}
use nctusde.Emudisk.Slots.{get_request_id_to_req_mapping}
use nctusde.Emudisk.Slots.Table.{occupied_ids}

-- The slots with a request in flight.
unfoldable pub occupied : List Slot → List Slot
occupied [] = []
occupied (s ∷ slots) = if s.request_id == 0 then occupied slots else s ∷ occupied slots

-- The bytes dealt out to segments as long as the given ones, from the first byte on.
unfoldable pub deal : List (List ℕ) → List ℕ → List (List ℕ)
deal [] bytes = []
deal (seg ∷ segs) bytes = take (length seg) bytes ∷ deal segs (drop (length seg) bytes)

-- The request of a slot as it is to come back: a write as it was, a read with its segments filled
-- from the buffer of the slot, one after the other.
abbrev pub answered : Slot → BlockRequest
answered s =
    if s.req.is_write then s.req else record (s.req) { segments = deal s.req.segments s.buffer }

abbrev pub answers : List Slot → List BlockRequest
answers slots = map answered (occupied slots)

-- What is completed once the requests of the slots `found` have come back one after the other.
abbrev pub hand_back : List Slot → List BlockRequest → List BlockRequest
hand_back [] completed = completed
hand_back (s ∷ found) completed = hand_back found (answered s ∷ completed)

-- From one table and list of completed requests to another: just the requests under `ids` have come
-- back, and the others are still in their slots.
pub record HandedBack (slots : List Slot) (completed : List BlockRequest) (ids : List ℕ)
    (slots' : List Slot) (completed' : List BlockRequest) : Type 0 where
  pub found : List Slot
  pub named : map (λ s. s.request_id) found ≡ ids
  pub table : Perm (occupied slots) (found ++ occupied slots')
  pub log : completed' ≡ hand_back found completed

pub HandedBack-none :
    (slots : List Slot) (completed : List BlockRequest)
    → HandedBack slots completed [] slots completed
HandedBack-none slots completed = record {
  found = [];
  named = refl;
  table = Perm.refl (occupied slots);
  log = refl;
}

map-nil : {A B : Type 0} (f : A → B) (xs : List A) → map f xs ≡ [] → xs ≡ []
map-nil f [] e = refl
map-nil f (x ∷ xs) e = cc

pub HandedBack-nil :
    (slots slots' : List Slot) (completed completed' : List BlockRequest)
    → HandedBack slots completed [] slots' completed'
    → Perm (occupied slots) (occupied slots') × (completed' ≡ completed)
HandedBack-nil slots slots' completed completed' h =
    let none : h.found ≡ [] = map-nil (λ s. s.request_id) h.found h.named in
    (
      subst (λ found. Perm (occupied slots) (found ++ occupied slots')) none h.table,
      h.log ∙ ap (λ found. hand_back found completed) none,
    )

-- The request of one more slot comes back before the others.
pub HandedBack-cons :
    (slots slots1 slots' : List Slot) (s : Slot) (completed completed' : List BlockRequest)
    (ids : List ℕ)
    → Perm (occupied slots) (s ∷ occupied slots1)
    → HandedBack slots1 (answered s ∷ completed) ids slots' completed'
    → HandedBack slots completed (s.request_id ∷ ids) slots' completed'
HandedBack-cons slots slots1 slots' s completed completed' ids p h = record {
  found = s ∷ h.found;
  named = ap (◌∷◌ s.request_id) h.named;
  table = Perm.trans p (Perm.cons s h.table);
  log = h.log;
}

pub HandedBack-then :
    (slots slots1 slots' : List Slot) (completed completed1 completed' : List BlockRequest)
    (ids : List ℕ)
    → HandedBack slots completed ids slots1 completed1
    → HandedBack slots1 completed1 [] slots' completed'
    → HandedBack slots completed ids slots' completed'
HandedBack-then slots slots1 slots' completed completed1 completed' ids h k =
    let (p, same) = HandedBack-nil slots1 slots' completed1 completed' k in
    record {
      found = h.found;
      named = h.named;
      table = Perm.trans h.table (Perm.append_left h.found p);
      log = same ∙ h.log;
    }

-- What is taken out of the table is the slot of the request; the other slots stay as they are.
pub get-occupied :
    (slots slots' : List Slot) (id : ℕ) (found : Slot)
    → get_request_id_to_req_mapping slots id ≡ done (slots', found)
    → id ≢ 0
    → Perm (occupied slots) (found ∷ occupied slots') × (found.request_id ≡ id)
unfolding get_request_id_to_req_mapping occupied
get-occupied [] slots' id found e nz = cc
get-occupied (s ∷ slots) slots' id found e nz = elim (Bool-cases (s.request_id == id)) [
  | inl same ↦
      subst
        (λ (r : List Slot × Slot).
          Perm (occupied (s ∷ slots)) (r.1 ∷ occupied r.0) × (r.1.request_id ≡ id))
        (done-injective (simp same at e))
        (ground (arith, Perm.refl (s ∷ occupied slots)), ground arith)
  | inr other ↦
      let (r, e1, e2) = >>=-eq-done (get_request_id_to_req_mapping slots id) _ (simp other at e) in
      let (p, named) = get-occupied slots r.0 id r.1 e1 nz in
      subst
        (λ (r : List Slot × Slot).
          Perm (occupied (s ∷ slots)) (r.1 ∷ occupied r.0) × (r.1.request_id ≡ id))
        (done-injective e2)
        (
          elim (Bool-cases (s.request_id == 0)) [
            | inl z ↦ rw z p
            | inr u ↦ rw u (Perm.trans (Perm.cons s p) (Perm.swap r.1 s (occupied r.0)))
          ],
          named,
        )
]

-- The requests that come back join those that are completed, and leave the table: together they
-- stay the same.
hand_back-Perm :
    (found : List Slot) (completed rest : List BlockRequest)
    → Perm (hand_back found completed ++ rest) (completed ++ (map answered found ++ rest))
hand_back-Perm [] completed rest = Perm.refl (completed ++ rest)
hand_back-Perm (s ∷ found) completed rest =
    Perm.trans (hand_back-Perm found (answered s ∷ completed) rest)
      (Perm.symm (perm_middle completed (map answered found ++ rest)))

pub HandedBack-Perm :
    (slots slots' : List Slot) (completed completed' : List BlockRequest) (ids : List ℕ)
    → HandedBack slots completed ids slots' completed'
    → Perm (completed' ++ answers slots') (completed ++ answers slots)
HandedBack-Perm slots slots' completed completed' ids h = rw h.log (
    Perm.trans (hand_back-Perm h.found completed (answers slots')) (
      Perm.append_left completed (
        subst (λ l. Perm l (answers slots)) (map-append answered h.found (occupied slots'))
          (Perm.symm (map-perm answered _ _ h.table)))))

-- An empty table holds no request.
pub occupied-nil : (slots : List Slot) → occupied_ids slots ≡ [] → occupied slots ≡ []
unfolding occupied occupied_ids
occupied-nil [] e = refl
occupied-nil (s ∷ slots) e = elim (Bool-cases (s.request_id == 0)) [
  | inl z ↦ rw z (occupied-nil slots (simp z at e))
  | inr u ↦ cc (simp u at e)
]
