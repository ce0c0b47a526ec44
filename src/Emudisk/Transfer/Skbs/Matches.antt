-- ===== src/Emudisk/Transfer/Skbs/Matches.antt =====
-- The two versions of nctuss_emudisk_transfer.
use nctusde.Base.{
  ℕ, ◌*◌, ◌≤◌, ◌≡◌, refl, sym, subst, inl, inr, true, false, if◌then◌else◌, ◌>>=◌, List, length,
  All, Outcome, done, Bool, Bool-cases,
}
use nctusde.Timing.{sector_size}
use nctusde.Emudisk.{BlockRequest, request_bytes, max_request_sector_num}
use nctusde.Emudisk.Transfer.{emudisk_transfer}
use nctusde.Emudisk.Transfer.Skbs.{Skb, transfer_skbs, write_skbs, read_skbs}
use nctusde.Emudisk.Transfer.Skbs.Flat.{IsSector, flat}
use nctusde.Emudisk.Transfer.Skbs.Same.{write_skbs-matches}
use nctusde.Emudisk.Transfer.Skbs.Read.{read_skbs-matches}

-- What follows the test of the direction.
abbrev by_direction : BlockRequest → ℕ → List Skb → Bool → Outcome (BlockRequest × List Skb)
by_direction req n skbs b =
    if b
    then (write_skbs req n skbs >>= λ skbs'. done (req, skbs'))
    else (read_skbs req n skbs >>= λ req'. done (req', skbs))

transfer-reads :
    (req req' : BlockRequest) (n : ℕ) (skbs : List Skb)
    → req.is_write ≡ false
    → read_skbs req n skbs ≡ done req'
    → transfer_skbs req n skbs ≡ done (req', skbs)
unfolding transfer_skbs
transfer-reads req req' n skbs reads result =
    subst (λ b. by_direction req n skbs b ≡ done (req', skbs)) (sym reads) (rw result refl)

transfer-writes :
    (req : BlockRequest) (n : ℕ) (skbs skbs' : List Skb)
    → req.is_write ≡ true
    → write_skbs req n skbs ≡ done skbs'
    → transfer_skbs req n skbs ≡ done (req, skbs')
unfolding transfer_skbs
transfer-writes req n skbs skbs' writes result =
    subst (λ b. by_direction req n skbs b ≡ done (req, skbs')) (sym writes) (rw result refl)

-- For a request of at most 64 KB with an skb for each of its sectors, the version of
-- nctuss_emudisk_transfer that fills and reads single skbs, whatever the sizes of the segments,
-- runs without a fault and does what the compiled version does on one buffer: it leaves the
-- request with the same bytes, and the sectors, one after the other, are the same buffer.
pub transfer_skbs-matches :
    (req : BlockRequest) (skbs : List Skb)
    → All IsSector skbs
    → request_bytes req ≤ length skbs * sector_size
    → length skbs ≤ max_request_sector_num
    → (req' : BlockRequest) × (skbs' : List Skb) × (transfer_skbs req (length skbs) skbs
        ≡ done (req', skbs'))
      × (emudisk_transfer req (flat skbs) ≡ done (req', flat skbs'))
      × All IsSector skbs'
transfer_skbs-matches req skbs sectors room few = elim (Bool-cases req.is_write) [
  | inl writes ↦
      let (skbs', result, same, sectors') = write_skbs-matches req skbs writes sectors room few in
      (req, skbs', transfer-writes req (length skbs) skbs skbs' writes result, same, sectors')
  | inr reads ↦
      let (req', result, same) = read_skbs-matches req skbs reads sectors room few in
      (req', skbs, transfer-reads req req' (length skbs) skbs reads result, same, sectors)
]
