-- ===== src/Ledger/Snapshots/Unnamed.antt =====
-- The pools of a snapshot of the local-state-query protocol, which discovery.go converts without an ID.
use dmq_lib.Prelude.{
  ℕ, ◌+◌, ◌≤◌, ◌<◌, ◌≡◌, refl, Bool, true, false, List, [], ◌∷◌, map, nat_eq, string_eq, length,
  if◌then◌else◌, any, arith,
}
use dmq_lib.Peer.{LedgerPeer}
use dmq_lib.Ledger.Collecting.{sum_peers}
use dmq_lib.Ledger.Names.{PoolName, numbered, pool_name, is_same}
use dmq_lib.Ledger.Greatest.{greatest, names}
use dmq_lib.Ledger.Totals.{sum_greatest}
use dmq_lib.Ledger.Snapshots.{SnapshotPool, convert_pool}

-- The stake of the peers at the positions that the test takes.
abbrev pub stake_at : (ℕ → Bool) → ℕ → List LedgerPeer → ℕ
stake_at f i [] = 0
stake_at f i (p ∷ ps) = (if f i then p.stake else 0) + stake_at f (i + 1) ps

pub stake_at-all : (i : ℕ) (ps : List LedgerPeer) → stake_at (λ _. true) i ps ≡ sum_peers ps
stake_at-all i [] = refl
stake_at-all i (p ∷ ps) = omega (arith, stake_at-all (i + 1) ps)

pub length-convert_pool :
    (pools : List SnapshotPool) → length (map convert_pool pools) ≡ length pools
length-convert_pool [] = refl
length-convert_pool (p ∷ pools) = omega (arith, length-convert_pool pools)

pool_name-convert_pool : (p : SnapshotPool) (i : ℕ) → pool_name (convert_pool p) i ≡ numbered i
unfolding convert_pool
pool_name-convert_pool p i = refl

-- No later peer is in the pool of a position.
greatest-later :
    (i j : ℕ) (pools : List SnapshotPool)
    → i < j
    → greatest (numbered i) j (map convert_pool pools) ≡ 0
greatest-later i j [] h = refl
greatest-later i j (p ∷ pools) h =
    rw (pool_name-convert_pool p j)
      (ground (arith, h, greatest-later i (j + 1) pools (omega (arith, h))))

any-later :
    (i j : ℕ) (pools : List SnapshotPool)
    → i < j
    → any (is_same (numbered i)) (names j (map convert_pool pools)) ≡ false
any-later i j [] h = refl
any-later i j (p ∷ pools) h =
    rw (pool_name-convert_pool p j)
      (ground (arith, h, any-later i (j + 1) pools (omega (arith, h))))

names-convert_pool :
    (i : ℕ) (p : SnapshotPool) (pools : List SnapshotPool)
    → names i (map convert_pool (p ∷ pools)) ≡ numbered i ∷ names (i + 1) (map convert_pool pools)
names-convert_pool i p pools =
    rw (pool_name-convert_pool p i, any-later i (i + 1) pools (omega arith)) refl

greatest-here :
    (i : ℕ) (p : SnapshotPool) (pools : List SnapshotPool)
    → greatest (numbered i) i (map convert_pool (p ∷ pools)) ≡ (convert_pool p).stake
greatest-here i p pools =
    rw (pool_name-convert_pool p i) (ground (arith, greatest-later i (i + 1) pools (omega arith)))

greatest-after :
    (i j : ℕ) (p : SnapshotPool) (pools : List SnapshotPool)
    → i < j
    → greatest (numbered j) i (map convert_pool (p ∷ pools))
      ≡ greatest (numbered j) (i + 1) (map convert_pool pools)
greatest-after i j p pools h = rw (pool_name-convert_pool p i) (ground (arith, h))

module _ (ps : List LedgerPeer) (f : PoolName → Bool) where
  sum_greatest-from :
      (i : ℕ) (pools : List SnapshotPool)
      → ((j : ℕ)
          → i ≤ j
          → greatest (numbered j) 0 ps ≡ greatest (numbered j) i (map convert_pool pools))
      → sum_greatest ps f (names i (map convert_pool pools))
        ≡ stake_at (λ j. f (numbered j)) i (map convert_pool pools)
  sum_greatest-from i [] h = refl
  sum_greatest-from i (p ∷ pools) h =
      let rest = sum_greatest-from (i + 1) pools (λ j e.
        omega (arith, h j (omega (arith, e)), greatest-after i j p pools (omega (arith, e)))) in
      rw (names-convert_pool i p pools)
        (ground (arith, rest, h i (omega arith), greatest-here i p pools))

-- Each counts as a pool of its own.
pub sum_greatest-convert_pool :
    (f : PoolName → Bool) (pools : List SnapshotPool)
    → sum_greatest (map convert_pool pools) f (names 0 (map convert_pool pools))
      ≡ stake_at (λ j. f (numbered j)) 0 (map convert_pool pools)
sum_greatest-convert_pool f pools =
    sum_greatest-from (map convert_pool pools) f 0 pools (λ j _. refl)
