-- ===== src/Ledger/Snapshots/Stakes.antt =====
-- The stakes that discovery.go makes of the shares in a snapshot of the local-state-query protocol.
use native.Mathlib.Nat.{div-mul-le_self}
use dmq_lib.Prelude.{
  ℕ, ◌+◌, ◌-◌, ◌*◌, ◌/◌, ◌^◌, ◌≤◌, ◌<◌, ◌≡◌, ap, sym, ◌∙◌, true, Option, none, some, List, [], ◌∷◌,
  map, leb, length, if_cases, arith,
}
use dmq_lib.Prelude.Int.{ℤ, pos, negsuc, pos_part}
use dmq_lib.Ledger.Snapshots.{
  Rat, SnapshotPool, SnapshotResult, max_uint64, scale, ledger_stake_from_rat, convert_pool,
  convert_local_state_query_ledger_peer_snapshot,
}
use dmq_lib.Ledger.Collecting.{sum_peers}
use dmq_lib.Ledger.Names.{numbered}
use dmq_lib.Ledger.Totals.{is_big}
use dmq_lib.Ledger.Stake.{selected_pools-stake}
use dmq_lib.Ledger.Snapshots.Unnamed.{
  stake_at, stake_at-all, length-convert_pool, sum_greatest-convert_pool,
}

-- The share of a pool, as a number of parts of which `whole` make the total stake.
abbrev pub HasShare : ℕ → Option Rat → ℕ → Type 0
HasShare whole none part = part ≡ 0
HasShare whole (some r) part = (0 < r.denom) × (pos_part r.num * whole ≡ part * r.denom)

-- The shares of the pools, which are at most the total stake together.
abbrev pub sum_parts : List ℕ → ℕ
sum_parts [] = 0
sum_parts (m ∷ ms) = m + sum_parts ms

abbrev pub HaveShares : ℕ → List SnapshotPool → List ℕ → Type 0
HaveShares whole [] [] = Unit
HaveShares whole (p ∷ ps) (m ∷ ms) = HasShare whole p.pool_stake m × HaveShares whole ps ms
HaveShares whole _ _ = ⊥

mul-le-mul : (a b c : ℕ) → a ≤ b → a * c ≤ b * c
mul-le-mul a b c h = grind arith

scale-le : (z : ℤ) (d : ℕ) → scale z d * d ≤ pos_part z * max_uint64
scale-le (negsuc n) d = omega arith
scale-le (pos n) d =
    let q = n * max_uint64 / d in
    if_cases (λ x. x * d ≤ n * max_uint64) (leb q max_uint64) q max_uint64
      (λ _. div-mul-le_self (n * max_uint64) d)
      (λ b.
        let over : max_uint64 ≤ q = ground (arith, b) in
        omega (arith, div-mul-le_self (n * max_uint64) d, mul-le-mul max_uint64 q d over))

cancel : (a b d : ℕ) → 0 < d → a * d ≤ b * d → a ≤ b
cancel a b d h k = grind arith

-- A stake s of d parts of a number n, where n of d is the share of `part` of `whole`.
share-le :
    (s d n whole part m : ℕ) → 0 < d → s * d ≤ n * m → n * whole ≡ part * d → s * whole ≤ part * m
share-le s d n whole part m h k e =
    cancel (s * whole) (part * m) d h
      (omega (arith, mul-le-mul (s * d) (n * m) whole k, ap (λ (x : ℕ). x * m) e))

stake-le :
    (whole part : ℕ) (stake : Option Rat)
    → HasShare whole stake part
    → ledger_stake_from_rat stake * whole ≤ part * max_uint64
unfolding ledger_stake_from_rat
stake-le whole part none h = omega (arith, h)
stake-le whole part (some r) (d, e) =
    share-le (scale r.num r.denom) r.denom (pos_part r.num) whole part max_uint64 d
      (scale-le r.num r.denom) e

stakes-le :
    (whole : ℕ) (pools : List SnapshotPool) (parts : List ℕ)
    → HaveShares whole pools parts
    → sum_peers (map convert_pool pools) * whole ≤ sum_parts parts * max_uint64
unfolding convert_pool
stakes-le whole [] [] h = omega arith
stakes-le whole [] (m ∷ ms) h = elim h [ ]
stakes-le whole (p ∷ ps) [] h = elim h [ ]
stakes-le whole (p ∷ ps) (m ∷ ms) (h, hs) =
    omega (arith, stake-le whole m p.pool_stake h, stakes-le whole ps ms hs)

stakes_fit :
    (whole : ℕ) (pools : List SnapshotPool) (parts : List ℕ)
    → 0 < whole
    → HaveShares whole pools parts
    → sum_parts parts ≤ whole
    → sum_peers (map convert_pool pools) < 2 ^ 64
stakes_fit whole pools parts w h total =
    let fits = cancel (sum_peers (map convert_pool pools)) max_uint64 whole w (
      omega (
        arith,
        stakes-le whole pools parts h,
        mul-le-mul (sum_parts parts) whole max_uint64 total,
      )) in
    omega (arith, fits)

-- Where the shares of the pools in a snapshot are at most the whole stake together, and there are fewer
-- than 10^20 pools: the scaled stakes sum to less than 2^64, so that the 64-bit sums of the selection do
-- not wrap, and the pools at the positions that are selected as big ledger pools hold at least that sum
-- less a tenth of it, rounded down.
pub snapshot_selected-stake :
    (whole : ℕ) (snapshot : SnapshotResult) (parts : List ℕ)
    → 0 < whole
    → HaveShares whole snapshot.pools parts
    → sum_parts parts ≤ whole
    → length snapshot.pools < 10 ^ 20
    → let ps = (convert_local_state_query_ledger_peer_snapshot (some snapshot)).peers in
      (sum_peers ps < 2 ^ 64)
      × (sum_peers ps - sum_peers ps / 10 ≤ stake_at (λ i. is_big ps (numbered i)) 0 ps)
unfolding convert_local_state_query_ledger_peer_snapshot
snapshot_selected-stake whole snapshot parts w h total l =
    let ps = map convert_pool snapshot.pools in
    let fits = stakes_fit whole snapshot.pools parts w h total in
    let s = selected_pools-stake ps fits (omega (arith, l, length-convert_pool snapshot.pools)) in
    let sums = sum_greatest-convert_pool (λ _. true) snapshot.pools ∙ stake_at-all 0 ps in
    let big = sum_greatest-convert_pool (is_big ps) snapshot.pools in
    (fits, rw (sym sums, sym big) s.0)
