-- ===== src/System/Data/First.antt =====
-- The server looks at the first sector of what a message carries.
use nctusde.Base.{
  ℕ, zero, suc, ◌+◌, ◌-◌, ◌*◌, ◌≤◌, ◌<◌, ◌≡◌, ◌≢◌, refl, sym, ◌∙◌, false, List, [], ◌∷◌, ◌++◌,
  arith, length, drop, get_or, take, Bool-cases, inl, inr, ltb, leb, ◌&&◌, ◌==◌, length-take,
  length-append, get_or-take,
}
use nctusde.Timing.{sector_size}
use nctusde.Wire.{Request, request_size, request_reset}
use nctusde.Server.{Server, Storage, handle, dispatch, handle_write, put_sector, write_sector}
use nctusde.Link.{checked}
use nctusde.System.{direct_call}

-- The server looks at the first sector of what is sent.
abbrev pub StartsAs : List ℕ → List ℕ → Type 0
StartsAs xs ys =
    (sector_size ≤ length xs)
    × (sector_size ≤ length ys)
    × ((i : ℕ) → i < sector_size → get_or xs i 0 ≡ get_or ys i 0)

byte-StartsAs :
    (storage : Storage) (sector : ℕ) (xs ys : List ℕ) (a : ℕ)
    → StartsAs xs ys
    → write_sector storage sector xs a ≡ write_sector storage sector ys a
unfolding write_sector
byte-StartsAs storage sector xs ys a (_, _, same) =
    elim (Bool-cases (leb (sector * sector_size) a && ltb a (sector * sector_size + sector_size))) [
      | inl inside ↦ rw inside (same (a - sector * sector_size) (ground arith))
      | inr outside ↦ rw outside refl
    ]

write_sector-StartsAs :
    (storage : Storage) (sector : ℕ) (xs ys : List ℕ)
    → StartsAs xs ys
    → write_sector storage sector xs ≡ write_sector storage sector ys
write_sector-StartsAs storage sector xs ys h i a = byte-StartsAs storage sector xs ys a h i

handle_write-StartsAs :
    (s : Server) (q : Request) (xs ys : List ℕ)
    → StartsAs xs ys
    → handle_write s q xs ≡ handle_write s q ys
unfolding handle_write put_sector
handle_write-StartsAs s q xs ys h = rw (write_sector-StartsAs s.storage q.data2 xs ys h) refl

dispatch-StartsAs :
    (s : Server) (q : Request) (xs ys : List ℕ) → StartsAs xs ys → dispatch s q xs ≡ dispatch s q ys
unfolding dispatch
dispatch-StartsAs s q xs ys h =
    let long_xs : ltb (request_size + length xs) (request_size + sector_size) ≡ false =
      ground (arith, h.0) in
    let long_ys : ltb (request_size + length ys) (request_size + sector_size) ≡ false =
      ground (arith, h.1) in
    rw (long_xs, long_ys, handle_write-StartsAs s q xs ys h) refl

pub direct_call-StartsAs :
    (s : Server) (q : Request) (xs ys : List ℕ)
    → q.type ≢ request_reset
    → StartsAs xs ys
    → direct_call s q xs ≡ direct_call s q ys
unfolding direct_call handle
direct_call-StartsAs s q xs ys ne h =
    let other : (q.type == request_reset) ≡ false = ground arith in
    rw (other, dispatch-StartsAs (record s { current_max_request_id = q.id }) (checked q) xs ys h)
      refl

get_or-front : (xs ys : List ℕ) (i : ℕ) → i < length xs → get_or (xs ++ ys) i 0 ≡ get_or xs i 0
get_or-front [] ys i h = absurd (omega arith)
get_or-front (x ∷ xs) ys zero h = refl
get_or-front (x ∷ xs) ys (suc i) h = get_or-front xs ys i (omega arith)

-- Both begin with the sector.
pub front-StartsAs :
    (sector xs ys : List ℕ) (n m : ℕ)
    → length sector ≡ sector_size
    → sector_size ≤ n
    → sector_size ≤ m
    → StartsAs (take n (sector ++ xs)) (take m (sector ++ ys))
front-StartsAs sector xs ys n m l hn hm = (
  omega (arith, length-take n (sector ++ xs), length-append sector xs, l, hn),
  omega (arith, length-take m (sector ++ ys), length-append sector ys, l, hm),
  λ i h.
      get_or-take n (sector ++ xs) i 0 (omega arith)
      ∙ get_or-front sector xs i (omega (arith, l))
      ∙ sym (get_or-front sector ys i (omega (arith, l)))
      ∙ sym (get_or-take m (sector ++ ys) i 0 (omega arith)),
)

pub drop-front : (xs ys : List ℕ) (n : ℕ) → length xs ≡ n → drop n (xs ++ ys) ≡ ys
drop-front [] ys zero h = refl
drop-front [] ys (suc n) h = absurd (omega arith)
drop-front (x ∷ xs) ys zero h = absurd (omega arith)
drop-front (x ∷ xs) ys (suc n) h = drop-front xs ys n (omega arith)
