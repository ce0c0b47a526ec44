-- ===== src/Emudisk/Processing/Completion.antt =====
-- The loop of the processing task over the ids of the responses that are due.
use mathlib.Core.List.{Perm}
use mathlib.Core.List.Perm
use nctusde.Base.{
  take, drop, ap, ℕ, ◌+◌, ◌*◌, ◌≤◌, ◌≡◌, ◌≢◌, refl, ◌∙◌, subst, inl, inr, ◌⊎◌, none, some, List, [],
  ◌∷◌, ◌++◌, arith, length, All, All-perm, ◌==◌, done, >>=-eq-done, done-injective, Bool-cases,
  Option-cases,
}
use nctusde.Timing.{sector_size}
use nctusde.Emudisk.{Emudisk, Slot, request_bytes, max_request_sector_num}
use nctusde.Emudisk.Slots.{get_request_id_to_req_mapping}
use nctusde.Emudisk.Slots.Table.{occupied_ids, find_slot, get-IsGot}
use nctusde.Emudisk.Slots.Occupied.{
  answered, deal, HandedBack, HandedBack-none, HandedBack-cons, get-occupied,
}
use nctusde.Emudisk.Transfer.{emudisk_transfer, scatter}
use nctusde.Emudisk.Transfer.RoundTrip.{drop-drop}
use nctusde.Emudisk.Processing.{complete_requests, fetch_data}

-- The request of a slot is no larger than the block layer is told to make it, and the buffer of
-- the slot no smaller.
abbrev pub Fits : Slot → Type 0
Fits s =
    (request_bytes s.req ≤ max_request_sector_num * sector_size)
    × (max_request_sector_num * sector_size ≤ length s.buffer)

find_slot-none :
    (slots : List Slot) (id : ℕ)
    → find_slot slots id ≡ none
    → All (λ x. x ≢ id) (occupied_ids slots)
unfolding find_slot occupied_ids
find_slot-none [] id h = tt
find_slot-none (s ∷ slots) id h = elim (Bool-cases (s.request_id == id)) [
  | inl e ↦ cc (simp e at h)
  | inr e ↦ elim (Bool-cases (s.request_id == 0)) [
    | inl z ↦ rw z (find_slot-none slots id (simp e at h))
    | inr u ↦ rw u (ground arith, find_slot-none slots id (simp e at h))
  ]
]

occupied_ids-nonzero : (slots : List Slot) → All (λ x. x ≢ 0) (occupied_ids slots)
unfolding occupied_ids
occupied_ids-nonzero [] = tt
occupied_ids-nonzero (s ∷ slots) = elim (Bool-cases (s.request_id == 0)) [
  | inl z ↦ rw z (occupied_ids-nonzero slots)
  | inr u ↦ rw u (ground arith, occupied_ids-nonzero slots)
]

-- An id of the table is not 0, and has a slot.
pub in_flight-nonzero :
    (slots : List Slot) (id : ℕ) (ids : List ℕ) → Perm (occupied_ids slots) (id ∷ ids) → id ≢ 0
in_flight-nonzero slots id ids p =
    (All-perm {P = λ x. x ≢ 0} (λ x. hlevel) _ _ p (occupied_ids-nonzero slots)).0

in_flight-slot :
    (slots : List Slot) (id : ℕ) (ids : List ℕ)
    → Perm (occupied_ids slots) (id ∷ ids)
    → (found : Slot) × (find_slot slots id ≡ some found)
in_flight-slot slots id ids p = elim (Option-cases (find_slot slots id)) [
  | inl h ↦
      absurd ((All-perm {P = λ x. x ≢ id} (λ x. hlevel) _ _ p (find_slot-none slots id h)).0 refl)
  | inr found ↦ found
]

get-Fits :
    (slots slots' : List Slot) (id : ℕ) (found : Slot)
    → get_request_id_to_req_mapping slots id ≡ done (slots', found)
    → All Fits slots
    → Fits found × All Fits slots'
unfolding get_request_id_to_req_mapping
get-Fits [] slots' id found e h = cc
get-Fits (s ∷ slots) slots' id found e h = elim (Bool-cases (s.request_id == id)) [
  | inl same ↦
      subst (λ (r : List Slot × Slot). Fits r.1 × All Fits r.0) (done-injective (simp same at e))
        (h.0, (h.0, h.1))
  | inr other ↦
      let (r, e1, e2) = >>=-eq-done (get_request_id_to_req_mapping slots id) _ (simp other at e) in
      let (fits, rest) = get-Fits slots r.0 id r.1 e1 h.1 in
      subst (λ (r : List Slot × Slot). Fits r.1 × All Fits r.0) (done-injective e2)
        (fits, (h.0, rest))
]

scatter-deal :
    (segs : List (List ℕ)) (offset : ℕ) (buffer : List ℕ)
    → scatter segs offset buffer ≡ deal segs (drop offset buffer)
unfolding scatter deal
scatter-deal [] offset buffer = refl
scatter-deal (seg ∷ segs) offset buffer = rw (drop-drop offset (length seg) buffer) (
    ap (◌∷◌ (take (length seg) (drop offset buffer)))
      (scatter-deal segs (offset + length seg) buffer))

fetch_data-done : (s : Slot) → Fits s → fetch_data s ≡ done (answered s)
unfolding emudisk_transfer
fetch_data-done s h =
    let dealt = scatter-deal s.req.segments 0 s.buffer in
    elim (Bool-cases s.req.is_write) [ inl write ↦ ground arith | inr read ↦ ground (arith, dealt) ]

-- What completing the requests `ids` comes to, where `rest` are in flight besides them.
pub record AreCompleted (e : Emudisk) (ids rest : List ℕ) (e' : Emudisk) : Type 0 where
  pub result : complete_requests e ids ≡ done e'
  pub in_flight : Perm (occupied_ids e'.slots) rest
  pub counted : length e'.completed ≡ length ids + length e.completed
  pub handed : HandedBack e.slots e.completed ids e'.slots e'.completed
  pub latest :
      ((ids ≡ []) × (e'.latest_response_time ≡ e.latest_response_time))
      ⊎ (e'.latest_response_time ≡ e.next_response_time)
  pub fits : All Fits e'.slots
  pub same_size : length e'.slots ≡ length e.slots
  pub same :
      (e'.next_response_ids ≡ e.next_response_ids)
      × (e'.udp_send_reply_id ≡ e.udp_send_reply_id)
      × (e'.os ≡ e.os)
  pub same_queue :
      (e'.request_inflight ≡ e.request_inflight)
      × (e'.disk_channels ≡ e.disk_channels)
      × (e'.queue_stopped ≡ e.queue_stopped)
      × (e'.failed ≡ e.failed)

-- With just the requests that are due and some others in the table, each no larger than it may be
-- and with a buffer for that size, every request that is due is completed: the loop neither hangs
-- nor fails.
-- What it hands back are the requests in the slots of just those ids, one after the other, a write
-- as it was and a read with the bytes of its slot's buffer in its segments. The requests besides
-- them stay in flight, in their slots.
pub complete_requests-AreCompleted :
    (e : Emudisk) (ids rest : List ℕ)
    → Perm (occupied_ids e.slots) (ids ++ rest)
    → All Fits e.slots
    → (e' : Emudisk) × AreCompleted e ids rest e'
unfolding complete_requests
complete_requests-AreCompleted e [] rest p fits = (
  e,
  record {
    result = refl;
    in_flight = p;
    counted = omega arith;
    handed = HandedBack-none e.slots e.completed;
    latest = inl (refl, refl);
    fits = fits;
    same_size = refl;
    same = (refl, refl, refl);
    same_queue = (refl, refl, refl, refl);
  },
)
complete_requests-AreCompleted e (id ∷ ids) rest p fits =
    let (found, at_id) = in_flight-slot e.slots id _ p in
    let (slots, got) = get-IsGot e.slots id found (in_flight-nonzero e.slots id _ p) at_id in
    let (found_fits, slots_fit) = get-Fits e.slots slots id found got.result fits in
    let fetched = fetch_data-done found found_fits in
    let (taken_out, named) =
      get-occupied e.slots slots id found got.result (in_flight-nonzero e.slots id _ p) in
    let (e', h) =
      complete_requests-AreCompleted
        (record e {
          slots = slots;
          latest_response_time = e.next_response_time;
          completed = answered found ∷ e.completed;
        })
        ids rest (Perm.cons_inv (Perm.trans (Perm.symm got.ids) p)) slots_fit in
    (
      e',
      record {
        result = rw (got.result, fetched) h.result;
        in_flight = h.in_flight;
        counted = omega (arith, h.counted);
        handed =
            subst (λ i. HandedBack e.slots e.completed (i ∷ ids) e'.slots e'.completed) named
              (HandedBack-cons e.slots slots e'.slots found e.completed e'.completed ids taken_out
                h.handed);
        latest = inr (elim h.latest [ inl last ↦ last.1 | inr time ↦ time ]);
        fits = h.fits;
        same_size = h.same_size ∙ got.same_size;
        same = h.same;
        same_queue = h.same_queue;
      },
    )
