-- ===== src/Ledger/Counting.antt =====
-- The keys of discovery.go's `bigLedgerPeers`, counted by the pools of the peers.
use dmq_lib.Prelude.{
  ℕ, ◌+◌, ◌^◌, ◌<◌, ◌≡◌, refl, String, true, false, ◌||◌, List, [], ◌∷◌, ◌==◌, ==_iff, nat_eq,
  string_eq, ltb, length, if◌then◌else◌, any, map, All, arith, if_cases, option_cases,
}
use dmq_lib.Prelude.Dict.{Dict, lookup}
use dmq_lib.Peer.{LedgerPeer}
use dmq_lib.Ledger.{
  Collected, collect_pool, collect_pools, pool_stake, ledger_peer_pool_key, nothing_collected,
}
use dmq_lib.Ledger.Collecting.{mem_key, mem_key-append, IsNodup, sum_stakes, collected}
use dmq_lib.Ledger.Names.{
  PoolName, pool_name, is_same, name_key, name_key_inj, IsSmall, ledger_peer_pool_key_lem,
}
use dmq_lib.Ledger.Greatest.{names, IsSmall-name}

pub names-IsSmall :
    (i : ℕ) (ps : List LedgerPeer) → i + length ps < 10 ^ 20 → All IsSmall (names i ps)
names-IsSmall i [] h = tt
names-IsSmall i (p ∷ ps) h =
    let rest = names-IsSmall (i + 1) ps (omega (arith, h)) in
    if_cases (All IsSmall) (any (is_same (pool_name p i)) (names (i + 1) ps)) _ _ (λ _. rest)
      (λ _. (IsSmall-name p i (omega (arith, h)), rest))

any-is_same :
    (x : PoolName) (xs : List PoolName)
    → IsSmall x
    → All IsSmall xs
    → any (is_same x) xs ≡ mem_key (name_key x) (map name_key xs)
any-is_same x [] h hs = refl
any-is_same x (y ∷ xs) h hs = ground (
  arith,
  name_key_inj x y h hs.0,
  ==_iff (name_key x) (name_key y),
  ==_iff (name_key y) (name_key x),
  any-is_same x xs h hs.1,
)

module _ (i : ℕ) (p : LedgerPeer) (ps : List LedgerPeer) (h : i + length (p ∷ ps) < 10 ^ 20) where
  known_name :
      any (is_same (pool_name p i)) (names (i + 1) ps)
      ≡ mem_key (name_key (pool_name p i)) (map name_key (names (i + 1) ps))
  known_name =
      any-is_same (pool_name p i) (names (i + 1) ps) (IsSmall-name p i (omega (arith, h)))
        (names-IsSmall (i + 1) ps (omega (arith, h)))

  mem_key-names :
      (k : String)
      → mem_key k (map name_key (names i (p ∷ ps)))
        ≡ (name_key (pool_name p i) == k || mem_key k (map name_key (names (i + 1) ps)))
  mem_key-names k = ground (arith, known_name, ==_iff (name_key (pool_name p i)) k)

pub names-IsNodup :
    (i : ℕ) (ps : List LedgerPeer) → i + length ps < 10 ^ 20 → IsNodup (map name_key (names i ps))
names-IsNodup i [] h = tt
names-IsNodup i (p ∷ ps) h =
    let rest = names-IsNodup (i + 1) ps (omega (arith, h)) in
    ground (arith, known_name i p ps h, rest)

collect_pool-order :
    (c : Collected) (key k : String) (p : LedgerPeer)
    → mem_key k (collect_pool c key p).pool_order ≡ true
    → (mem_key k c.pool_order || key == k) ≡ true
unfolding collect_pool
collect_pool-order c key k p =
    let P = λ (d : Collected).
      mem_key k d.pool_order ≡ true → (mem_key k c.pool_order || key == k) ≡ true in
    if_cases P (p.stake == 0) _ _ (λ _ h. ground (arith, h))
      (λ _.
        option_cases P (lookup key c.pools) _ _
          (λ _ h. ground (arith, h, mem_key-append k c.pool_order (key ∷ [])))
          (λ q _.
            if_cases P (ltb q.stake p.stake) _ _ (λ _ h. ground (arith, h))
              (λ _ h. ground (arith, h))))

collect_pools-order :
    (c : Collected) (i : ℕ) (k : String) (ps : List LedgerPeer)
    → i + length ps < 10 ^ 20
    → mem_key k (collect_pools c i ps).pool_order ≡ true
    → (mem_key k c.pool_order || mem_key k (map name_key (names i ps))) ≡ true
unfolding collect_pools
collect_pools-order c i k [] h e = ground (arith, e)
collect_pools-order c i k (p ∷ ps) h e =
    let key = ledger_peer_pool_key p i in
    let same : key ≡ name_key (pool_name p i) = ledger_peer_pool_key_lem p i in
    let next : (key == k) ≡ (name_key (pool_name p i) == k) = rw same refl in
    ground (
      arith,
      next,
      mem_key-names i p ps h k,
      collect_pool-order c key k p,
      collect_pools-order (collect_pool c key p) (i + 1) k ps (omega (arith, h)) e,
    )

-- What is collected is a pool of a peer.
pub collected-order :
    (k : String) (ps : List LedgerPeer)
    → length ps < 10 ^ 20
    → mem_key k (collected ps).pool_order ≡ true
    → mem_key k (map name_key (names 0 ps)) ≡ true
collected-order k ps h e = collect_pools-order nothing_collected 0 k ps (omega (arith, h)) e

-- The stake of those of the keys that are chosen.
abbrev pub sum_chosen : Dict String LedgerPeer → List String → List String → ℕ
sum_chosen pools chosen [] = 0
sum_chosen pools chosen (k ∷ ks) =
    (if mem_key k chosen then pool_stake pools k else 0) + sum_chosen pools chosen ks

module _ (pools : Dict String LedgerPeer) where
  sum_chosen-none : (ks : List String) → sum_chosen pools [] ks ≡ 0
  sum_chosen-none [] = refl
  sum_chosen-none (k ∷ ks) = omega (arith, sum_chosen-none ks)

  -- One more chosen key counts once.
  sum_chosen-cons :
      (j : String) (chosen ks : List String)
      → mem_key j chosen ≡ false
      → IsNodup ks
      → sum_chosen pools (j ∷ chosen) ks
        ≡ sum_chosen pools chosen ks + (if mem_key j ks then pool_stake pools j else 0)
  sum_chosen-cons j chosen [] e h = refl
  sum_chosen-cons j chosen (k ∷ ks) e h =
      ground (arith, e, h.0, ==_iff j k, ==_iff k j, sum_chosen-cons j chosen ks e h.1)

  pub sum_stakes-chosen :
      (chosen ks : List String)
      → IsNodup chosen
      → IsNodup ks
      → ((k : String) → mem_key k chosen ≡ true → mem_key k ks ≡ true)
      → sum_stakes pools chosen ≡ sum_chosen pools chosen ks
  sum_stakes-chosen [] ks h n s = omega (arith, sum_chosen-none ks)
  sum_stakes-chosen (j ∷ chosen) ks h n s =
      let there : mem_key j ks ≡ true = s j (ground (arith, ==_iff j j)) in
      let rest = sum_stakes-chosen chosen ks h.1 n (λ k e. s k (ground (arith, e))) in
      ground (arith, rest, there, sum_chosen-cons j chosen ks h.0 n)
