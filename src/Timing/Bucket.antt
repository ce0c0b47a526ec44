-- ===== src/Timing/Bucket.antt =====
-- Which size bucket a request falls into.
use nctusde.Base.{
  ℕ, zero, suc, ◌+◌, ◌^◌, ◌≤◌, ◌<◌, ◌≡◌, none, some, List, [], ◌∷◌, arith, get_or, length, take,
  All, leb, Bool-cases, inl, inr, ◌∙◌, ap, true, false,
}
use nctusde.Timing.{request_size_kb, first_fit, request_size_index}

-- The first position of a list whose size holds the request.
pub record IsFirstFit (nbytes : ℕ) (sizes : List ℕ) (k : ℕ) : Type 0 where
  pub in_table : k < length sizes
  pub fits : nbytes ≤ get_or sizes k 0
  pub smallest : All (λ size. size < nbytes) (take k sizes)

first_fit-cons :
    (nbytes size : ℕ) (sizes : List ℕ) (i : ℕ)
    → nbytes < 2 ^ 31
    → leb nbytes size ≡ false
    → first_fit nbytes (size ∷ sizes) i ≡ first_fit nbytes sizes (i + 1)
unfolding first_fit
first_fit-cons nbytes size sizes i small e = ground arith

first_fit-here :
    (nbytes size : ℕ) (sizes : List ℕ) (i : ℕ)
    → leb nbytes size ≡ true
    → first_fit nbytes (size ∷ sizes) i ≡ some (i + 0)
unfolding first_fit
first_fit-here nbytes size sizes i e = ground arith

-- The search from any index, where the size at position `m` is known to fit.
first_fit-IsFirstFit :
    (nbytes : ℕ) (sizes : List ℕ) (i m : ℕ)
    → nbytes < 2 ^ 31
    → m < length sizes
    → nbytes ≤ get_or sizes m 0
    → (k : ℕ) × (first_fit nbytes sizes i ≡ some (i + k)) × IsFirstFit nbytes sizes k
first_fit-IsFirstFit nbytes [] i m small lt fit = absurd (omega arith)
first_fit-IsFirstFit nbytes (size ∷ sizes) i zero small lt fit = (
  0,
  first_fit-here nbytes size sizes i (ground arith),
  record { in_table = omega arith; fits = fit; smallest = tt },
)
first_fit-IsFirstFit nbytes (size ∷ sizes) i (suc m) small lt fit =
    elim (Bool-cases (leb nbytes size)) [
      | inl e ↦ (
        0,
        first_fit-here nbytes size sizes i e,
        record { in_table = omega arith; fits = ground arith; smallest = tt },
      )
      | inr e ↦
          let (k, found, fit') =
            first_fit-IsFirstFit nbytes sizes (i + 1) m small (omega arith) fit in
          (
            suc k,
            first_fit-cons nbytes size sizes i small e ∙ found ∙ ap some (omega arith),
            record {
              in_table = omega (arith, fit'.in_table);
              fits = fit'.fits;
              smallest = (ground arith, fit'.smallest);
            },
          )
    ]

-- A request of at most 128 sectors, the most that the block layer is told to send, falls into the
-- smallest bucket that holds it: the search never fails.
pub request_size_index-IsFirstFit :
    (nbytes : ℕ)
    → nbytes ≤ 65536
    → (i : ℕ) × (request_size_index nbytes ≡ some i) × IsFirstFit nbytes request_size_kb i
unfolding request_size_index
request_size_index-IsFirstFit nbytes h =
    let (k, found, fit) =
      first_fit-IsFirstFit nbytes request_size_kb 0 7 (omega arith) (omega arith) h in
    (k, found ∙ ap some (omega arith), fit)

-- The loop's -1 is left only by a request beyond the last bucket.
pub request_size_index-none :
    (nbytes : ℕ) → nbytes < 2 ^ 31 → 65536 < nbytes → request_size_index nbytes ≡ none
unfolding request_size_index
request_size_index-none nbytes small h = ground arith
