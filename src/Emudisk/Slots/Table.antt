-- ===== src/Emudisk/Slots/Table.antt =====
-- The table of the requests in flight as a finite map from ids to slots.
use mathlib.Core.List.{Perm}
use mathlib.Core.List.Perm
use nctusde.Base.{
  ℕ, suc, ◌<◌, ◌≡◌, ◌≢◌, refl, ap, inl, inr, false, Option, none, some, List, [], ◌∷◌, arith,
  length, ◌==◌, if◌then◌else◌, done, >>=-eq-done, subst, Bool-cases,
}
use nctusde.Emudisk.{Slot, BlockRequest}
use nctusde.Emudisk.Slots.{fill, put_request_id_to_req_mapping, get_request_id_to_req_mapping}

-- The ids of the requests in flight, in the order of their slots.
unfoldable pub occupied_ids : List Slot → List ℕ
occupied_ids [] = []
occupied_ids (s ∷ slots) =
    if s.request_id == 0 then occupied_ids slots else s.request_id ∷ occupied_ids slots

-- The slot of a request.
unfoldable pub find_slot : List Slot → ℕ → Option Slot
find_slot [] request_id = none
find_slot (s ∷ slots) request_id =
    if s.request_id == request_id then some s else find_slot slots request_id

-- The table after a request was put into it.
pub record IsEntered (slots : List Slot) (request_id : ℕ) (req : BlockRequest) (req_sectors : ℕ)
    (slots' : List Slot) (i : ℕ) : Type 0 where
  pub result : put_request_id_to_req_mapping slots request_id req req_sectors ≡ done (slots', i)
  pub same_size : length slots' ≡ length slots
  pub ids : Perm (occupied_ids slots') (request_id ∷ occupied_ids slots)

IsEntered-cons :
    (s : Slot) (slots slots' : List Slot) (request_id : ℕ) (req : BlockRequest) (n i : ℕ)
    → (s.request_id == 0) ≡ false
    → IsEntered slots request_id req n slots' i
    → IsEntered (s ∷ slots) request_id req n (s ∷ slots') (suc i)
unfolding put_request_id_to_req_mapping occupied_ids
IsEntered-cons s slots slots' request_id req n i e h = record {
  result = rw (e, h.result) refl;
  same_size = ap suc h.same_size;
  ids = rw e (
      Perm.trans (Perm.cons s.request_id h.ids)
        (Perm.swap request_id s.request_id (occupied_ids slots)));
}

-- A request under an id other than 0 is put into the table whenever fewer are in flight than there
-- are slots. Its id is then in flight beside the others.
pub put_request_id_to_req_mapping-IsEntered :
    (slots : List Slot) (request_id : ℕ) (req : BlockRequest) (req_sectors : ℕ)
    → request_id ≢ 0
    → length (occupied_ids slots) < length slots
    → (slots' : List Slot) × (i : ℕ) × IsEntered slots request_id req req_sectors slots' i
unfolding put_request_id_to_req_mapping occupied_ids
put_request_id_to_req_mapping-IsEntered [] request_id req n nz h = absurd (omega arith)
put_request_id_to_req_mapping-IsEntered (s ∷ slots) request_id req n nz h =
    elim (Bool-cases (s.request_id == 0)) [
      | inl e ↦ (
        fill s request_id req n ∷ slots,
        0,
        record {
          result = rw e refl;
          same_size = refl;
          ids = ground (arith, Perm.refl (request_id ∷ occupied_ids slots));
        },
      )
      | inr e ↦
          let (slots', i, h') =
            put_request_id_to_req_mapping-IsEntered slots request_id req n nz (ground arith) in
          (s ∷ slots', suc i, IsEntered-cons s slots slots' request_id req n i e h')
    ]

-- What taking a request out of the table comes to.
pub record IsGot (slots : List Slot) (request_id : ℕ) (found : Slot) (slots' : List Slot)
    : Type 0 where
  pub result : get_request_id_to_req_mapping slots request_id ≡ done (slots', found)
  pub same_size : length slots' ≡ length slots
  pub ids : Perm (occupied_ids slots) (request_id ∷ occupied_ids slots')

get-cons :
    (s : Slot) (slots slots' : List Slot) (request_id : ℕ) (found : Slot)
    → (s.request_id == request_id) ≡ false
    → IsGot slots request_id found slots'
    → IsGot (s ∷ slots) request_id found (s ∷ slots')
unfolding get_request_id_to_req_mapping occupied_ids
get-cons s slots slots' request_id found e h = record {
  result = rw (e, h.result) refl;
  same_size = ap suc h.same_size;
  ids = ground (
    arith,
    h.ids,
    Perm.trans (Perm.cons s.request_id h.ids)
        (Perm.swap request_id s.request_id (occupied_ids slots')),
  );
}

-- A request in flight is found in its slot, and is no longer in flight then; the others are.
pub get-IsGot :
    (slots : List Slot) (request_id : ℕ) (found : Slot)
    → request_id ≢ 0
    → find_slot slots request_id ≡ some found
    → (slots' : List Slot) × IsGot slots request_id found slots'
unfolding get_request_id_to_req_mapping occupied_ids find_slot
get-IsGot [] request_id found nz h = cc
get-IsGot (s ∷ slots) request_id found nz h = elim (Bool-cases (s.request_id == request_id)) [
  | inl e ↦ (
    record s { request_id = 0 } ∷ slots,
    record {
      result = ground arith;
      same_size = refl;
      ids = ground (arith, Perm.refl (request_id ∷ occupied_ids slots));
    },
  )
  | inr e ↦
      let (slots', h') = get-IsGot slots request_id found nz (ground arith) in
      (s ∷ slots', get-cons s slots slots' request_id found e h')
]

-- What taking out the request that was just put in comes to.
pub record IsReturned (slots slots' : List Slot) (request_id : ℕ) (req : BlockRequest)
    (req_sectors : ℕ) (found : Slot) (slots'' : List Slot) : Type 0 where
  pub result : get_request_id_to_req_mapping slots' request_id ≡ done (slots'', found)
  pub request : (found.req ≡ req) × (found.req_sectors ≡ req_sectors)
  pub ids : occupied_ids slots'' ≡ occupied_ids slots

IsReturned-cons :
    (s : Slot) (slots slots' slots'' : List Slot) (request_id : ℕ) (req : BlockRequest) (n : ℕ)
    (found : Slot)
    → (s.request_id == request_id) ≡ false
    → IsReturned slots slots' request_id req n found slots''
    → IsReturned (s ∷ slots) (s ∷ slots') request_id req n found (s ∷ slots'')
unfolding get_request_id_to_req_mapping occupied_ids
IsReturned-cons s slots slots' slots'' request_id req n found e h = record {
  result = rw (e, h.result) refl;
  request = h.request;
  ids = rw h.ids;
}

IsReturned-here :
    (s : Slot) (slots : List Slot) (request_id : ℕ) (req : BlockRequest) (n : ℕ)
    → s.request_id ≡ 0
    → IsReturned
        (s ∷ slots)
        (fill s request_id req n ∷ slots)
        request_id
        req
        n
        (fill s request_id req n)
        (record (fill s request_id req n) { request_id = 0 } ∷ slots)
unfolding get_request_id_to_req_mapping occupied_ids
IsReturned-here s slots request_id req n free = record {
  result = ground arith;
  request = (refl, refl);
  ids = ground arith;
}

-- Some slot is returned.
abbrev pub Returned : List Slot → List Slot → ℕ → BlockRequest → ℕ → Type 0
Returned slots slots' request_id req n =
    (found : Slot) × (slots'' : List Slot) × IsReturned slots slots' request_id req n found slots''

Returned-later :
    (s : Slot) (slots rest : List Slot) (request_id : ℕ) (req : BlockRequest) (n : ℕ)
    → (s.request_id == request_id) ≡ false
    → Returned slots rest request_id req n
    → Returned (s ∷ slots) (s ∷ rest) request_id req n
Returned-later s slots rest request_id req n e (found, slots'', r) =
    (found, s ∷ slots'', IsReturned-cons s slots rest slots'' request_id req n found e r)

-- A request that was put under an id not yet in the table is what that id gives back, with its
-- sectors, and taking it out leaves the ids that were in flight before, in the order they were in.
pub get-put :
    (slots slots' : List Slot) (request_id : ℕ) (req : BlockRequest) (req_sectors i : ℕ)
    → find_slot slots request_id ≡ none
    → put_request_id_to_req_mapping slots request_id req req_sectors ≡ done (slots', i)
    → Returned slots slots' request_id req req_sectors
unfolding put_request_id_to_req_mapping find_slot
get-put [] slots' request_id req n i fresh h = cc
get-put (s ∷ slots) slots' request_id req n i fresh h = elim (Bool-cases (s.request_id == 0)) [
  | inl e ↦
      let here : fill s request_id req n ∷ slots ≡ slots' = ground arith in
      subst (λ t. Returned (s ∷ slots) t request_id req n) here
        (
          fill s request_id req n,
          record s { request_id = 0; req = req; req_sectors = n } ∷ slots,
          IsReturned-here s slots request_id req n (ground arith),
        )
  | inr e ↦
      let (r, e', h') =
        >>=-eq-done (put_request_id_to_req_mapping slots request_id req n) _ (rw e at h) in
      let later : s ∷ r.0 ≡ slots' = cc in
      subst (λ t. Returned (s ∷ slots) t request_id req n) later
        (Returned-later s slots r.0 request_id req n (ground arith)
          (get-put slots r.0 request_id req n r.1 (ground arith) e'))
]
