-- ===== src/Ledger/Collecting.antt =====
-- The first two loops of `bigLedgerPeers` of discovery.go, by keys: what is collected, and its sums.
use dmq_lib.Prelude.{
  ℕ, ◌+◌, ◌-◌, ◌%◌, ◌^◌, ◌≤◌, ◌<◌, ◌≡◌, refl, String, Bool, true, false, ◌||◌, Option, none, some,
  List, [], ◌∷◌, ◌++◌, ◌==◌, ==_iff, nat_eq, string_eq, ltb, if◌then◌else◌, any, arith, if_cases,
  option_cases,
}
use dmq_lib.Prelude.Dict.{Dict, lookup, insert, lookup-insert}
use dmq_lib.Peer.{LedgerPeer}
use dmq_lib.Ledger.{
  Collected, collect_pool, collect_pools, pool_stake, nothing_collected, ledger_peer_pool_key,
}

abbrev pub mem_key : String → List String → Bool
mem_key k ks = any (λ j. j == k) ks

abbrev pub IsNodup : List String → Type 0
IsNodup [] = Unit
IsNodup (k ∷ ks) = (mem_key k ks ≡ false) × IsNodup ks

-- The stake of the pools with the keys.
abbrev pub sum_stakes : Dict String LedgerPeer → List String → ℕ
sum_stakes pools [] = 0
sum_stakes pools (k ∷ ks) = pool_stake pools k + sum_stakes pools ks

-- The stake of the peers, counted twice where a pool is.
abbrev pub sum_peers : List LedgerPeer → ℕ
sum_peers [] = 0
sum_peers (p ∷ ps) = p.stake + sum_peers ps

abbrev pub is_known : Option LedgerPeer → Bool
is_known none = false
is_known (some p) = true

pub pool_stake-insert :
    (key k : String) (p : LedgerPeer) (pools : Dict String LedgerPeer)
    → pool_stake (insert key p pools) k ≡ (if key == k then p.stake else pool_stake pools k)
unfolding pool_stake
pool_stake-insert key k p pools = rw (lookup-insert key k p pools) (ground arith)

-- One entry of the map counts once.
sum_stakes-insert :
    (key : String) (p : LedgerPeer) (pools : Dict String LedgerPeer) (ks : List String)
    → IsNodup ks
    → sum_stakes (insert key p pools) ks + (if mem_key key ks then pool_stake pools key else 0)
      ≡ sum_stakes pools ks + (if mem_key key ks then p.stake else 0)
sum_stakes-insert key p pools [] h = refl
sum_stakes-insert key p pools (k ∷ ks) h = ground (
  arith,
  h.0,
  ==_iff key k,
  ==_iff k key,
  pool_stake-insert key k p pools,
  sum_stakes-insert key p pools ks h.1,
)

sum_stakes-append :
    (pools : Dict String LedgerPeer) (ks js : List String)
    → sum_stakes pools (ks ++ js) ≡ sum_stakes pools ks + sum_stakes pools js
sum_stakes-append pools [] js = omega arith
sum_stakes-append pools (k ∷ ks) js = omega (arith, sum_stakes-append pools ks js)

pub mem_key-append :
    (k : String) (ks js : List String) → mem_key k (ks ++ js) ≡ (mem_key k ks || mem_key k js)
mem_key-append k [] js = refl
mem_key-append k (j ∷ ks) js = ground (arith, mem_key-append k ks js)

pub IsNodup-append :
    (k : String) (ks : List String) → mem_key k ks ≡ false → IsNodup ks → IsNodup (ks ++ k ∷ [])
IsNodup-append k [] e h = (refl, tt)
IsNodup-append k (j ∷ ks) e h =
    ground (
      arith,
      e,
      h.0,
      ==_iff j k,
      ==_iff k j,
      mem_key-append j ks (k ∷ []),
      IsNodup-append k ks,
      h.1,
    )

-- What the first loop keeps true, where the stakes so far sum to less than 2^64.
pub record Consistent (seen : ℕ) (c : Collected) : Type 0 where
  pub nodup : IsNodup c.pool_order
  pub known : (k : String) → mem_key k c.pool_order ≡ is_known (lookup k c.pools)
  pub sums : c.total ≡ sum_stakes c.pools c.pool_order
  pub bounded : c.total ≤ seen

module _ (seen : ℕ) (c : Collected) (key : String) (p : LedgerPeer) (h : seen + p.stake < 2 ^ 64)
    (s : Consistent seen c) where
  known-insert :
      (k : String)
      → is_known (lookup k (insert key p c.pools)) ≡ ((key == k) || mem_key k c.pool_order)
  known-insert k = rw (lookup-insert key k p c.pools, s.known k) (ground arith)

  added-Consistent :
      lookup key c.pools ≡ none
      → Consistent (seen + p.stake) (record {
        pools = insert key p c.pools;
        pool_order = c.pool_order ++ key ∷ [];
        total = (c.total + p.stake) % 2 ^ 64;
      })
  added-Consistent e =
      let fresh : mem_key key c.pool_order ≡ false = rw (s.known key, e) refl in
      record {
        nodup = IsNodup-append key c.pool_order fresh s.nodup;
        known = λ k. ground (arith, mem_key-append k c.pool_order (key ∷ []), known-insert k);
        sums = ground (
          arith,
          h,
          fresh,
          s.bounded,
          s.sums,
          ==_iff key key,
          pool_stake-insert key key p c.pools,
          sum_stakes-insert key p c.pools c.pool_order s.nodup,
          sum_stakes-append (insert key p c.pools) c.pool_order (key ∷ []),
        );
        bounded = omega (arith, s.bounded, h);
      }

  raised-Consistent :
      (q : LedgerPeer)
      → lookup key c.pools ≡ some q
      → ltb q.stake p.stake ≡ true
      → Consistent (seen + p.stake) (record c {
        pools = insert key p c.pools;
        total = (c.total + (p.stake - q.stake)) % 2 ^ 64;
      })
  raised-Consistent q e b =
      let held : mem_key key c.pool_order ≡ true = rw (s.known key, e) refl in
      let stake : pool_stake c.pools key ≡ q.stake = unfold pool_stake in rw e refl in
      record {
        nodup = s.nodup;
        known = λ k. ground (arith, known-insert k, ==_iff key k, held);
        sums = ground (
          arith,
          h,
          held,
          b,
          stake,
          s.bounded,
          s.sums,
          sum_stakes-insert key p c.pools c.pool_order s.nodup,
        );
        bounded = ground (arith, s.bounded, h, b);
      }

collect_pool-Consistent :
    (seen : ℕ) (c : Collected) (key : String) (p : LedgerPeer)
    → seen + p.stake < 2 ^ 64
    → Consistent seen c
    → Consistent (seen + p.stake) (collect_pool c key p)
unfolding collect_pool
collect_pool-Consistent seen c key p h s =
    if_cases (Consistent (seen + p.stake)) (p.stake == 0) _ _
      (λ _. record {
        nodup = s.nodup;
        known = s.known;
        sums = s.sums;
        bounded = omega (arith, s.bounded);
      })
      λ _.
        option_cases (Consistent (seen + p.stake)) (lookup key c.pools) _ _
          (λ e. added-Consistent seen c key p h s e)
          (λ q e.
            if_cases (Consistent (seen + p.stake)) (ltb q.stake p.stake) _ _
              (λ b. raised-Consistent seen c key p h s q e b)
              (λ _. record {
                nodup = s.nodup;
                known = s.known;
                sums = s.sums;
                bounded = omega (arith, s.bounded);
              }))

collect_pools-Consistent :
    (seen i : ℕ) (c : Collected) (ps : List LedgerPeer)
    → seen + sum_peers ps < 2 ^ 64
    → Consistent seen c
    → Consistent (seen + sum_peers ps) (collect_pools c i ps)
unfolding collect_pools
collect_pools-Consistent seen i c [] h s = record {
  nodup = s.nodup;
  known = s.known;
  sums = s.sums;
  bounded = omega (arith, s.bounded);
}
collect_pools-Consistent seen i c (p ∷ ps) h s =
    let next = collect_pool-Consistent seen c (ledger_peer_pool_key p i) p (omega (arith, h)) s in
    let r =
      collect_pools-Consistent (seen + p.stake) (i + 1)
        (collect_pool c (ledger_peer_pool_key p i) p) ps (omega (arith, h)) next in
    record { nodup = r.nodup; known = r.known; sums = r.sums; bounded = omega (arith, r.bounded) }

nothing-Consistent : Consistent 0 nothing_collected
nothing-Consistent = record {
  nodup = tt;
  known = λ k. unfold lookup in refl;
  sums = refl;
  bounded = omega arith;
}

-- The pools that are collected from the peers of a snapshot.
abbrev pub collected : List LedgerPeer → Collected
collected ps = collect_pools nothing_collected 0 ps

pub collected-Consistent :
    (ps : List LedgerPeer) → sum_peers ps < 2 ^ 64 → Consistent (0 + sum_peers ps) (collected ps)
collected-Consistent ps h =
    collect_pools-Consistent 0 0 nothing_collected ps (omega (arith, h)) nothing-Consistent
