-- ===== src/Ledger/Reaching.antt =====
-- The sums of sorted keys, and of those that discovery.go's `bigLedgerPeers` selects.
use dmq_lib.Prelude.{
  ℕ, ◌+◌, ◌%◌, ◌^◌, ◌≤◌, ◌<◌, ◌≡◌, refl, String, Bool, List, [], ◌∷◌, nat_eq, string_eq, arith,
}
use dmq_lib.Prelude.Dict.{Dict}
use dmq_lib.Prelude.Sort.{slice_stable, insert_sorted}
use dmq_lib.Peer.{LedgerPeer}
use dmq_lib.Ledger.{pool_stake, select_pools}
use dmq_lib.Ledger.Collecting.{sum_stakes}

-- Sorting changes no sum.
sum_stakes-insert_sorted :
    (pools : Dict String LedgerPeer) (less : String → String → Bool) (k : String) (ks : List String)
    → sum_stakes pools (insert_sorted less k ks) ≡ pool_stake pools k + sum_stakes pools ks
unfolding insert_sorted
sum_stakes-insert_sorted pools less k [] = refl
sum_stakes-insert_sorted pools less k (j ∷ ks) =
    ground (arith, sum_stakes-insert_sorted pools less k ks)

pub sum_stakes-sorted :
    (pools : Dict String LedgerPeer) (less : String → String → Bool) (ks : List String)
    → sum_stakes pools (slice_stable less ks) ≡ sum_stakes pools ks
unfolding slice_stable
sum_stakes-sorted pools less [] = refl
sum_stakes-sorted pools less (k ∷ ks) = omega (
  arith,
  sum_stakes-insert_sorted pools less k (slice_stable less ks),
  sum_stakes-sorted pools less ks,
)

-- The second loop stops at the threshold, or takes all.
pub select_pools-reach :
    (pools : Dict String LedgerPeer) (threshold acc : ℕ) (ks : List String)
    → acc + sum_stakes pools ks < 2 ^ 64
    → threshold ≤ acc + sum_stakes pools ks
    → acc < threshold
    → threshold ≤ acc + sum_stakes pools (select_pools pools threshold acc ks)
unfolding select_pools
select_pools-reach pools threshold acc [] h t a = t
select_pools-reach pools threshold acc (k ∷ ks) h t a =
    let acc' = (acc + pool_stake pools k) % 2 ^ 64 in
    ground (
      arith,
      h,
      t,
      a,
      λ (b : acc' < threshold).
          select_pools-reach pools threshold acc' ks (omega (arith, h)) (omega (arith, h, t)) b,
    )
