-- ===== src/Ledger/Greatest.antt =====
-- What the pools of `bigLedgerPeers` of discovery.go hold, by the pools of the peers.
use Prim.Native.Nat.{max}
use dmq_lib.Prelude.{
  ℕ, ◌+◌, ◌^◌, ◌<◌, ◌≡◌, refl, String, List, [], ◌∷◌, ◌==◌, ==_iff, nat_eq, string_eq, ltb, length,
  if◌then◌else◌, any, arith, if_cases, option_cases,
}
use dmq_lib.Prelude.Dict.{lookup}
use dmq_lib.Peer.{LedgerPeer}
use dmq_lib.Ledger.{
  Collected, collect_pool, collect_pools, pool_stake, ledger_peer_pool_key, nothing_collected,
}
use dmq_lib.Ledger.Collecting.{pool_stake-insert, collected}
use dmq_lib.Ledger.Names.{
  PoolName, pool_name, is_same, name_key, name_key_inj, IsSmall, numbered, named,
  ledger_peer_pool_key_lem,
}

-- The greatest stake that the peers from the position on give the pool.
abbrev pub greatest : PoolName → ℕ → List LedgerPeer → ℕ
greatest x i [] = 0
greatest x i (p ∷ ps) =
    max (if is_same (pool_name p i) x then p.stake else 0) (greatest x (i + 1) ps)

-- The pools of the peers from the position on, each once.
abbrev pub names : ℕ → List LedgerPeer → List PoolName
names i [] = []
names i (p ∷ ps) =
    let rest = names (i + 1) ps in
    if any (is_same (pool_name p i)) rest then rest else pool_name p i ∷ rest

pool_stake-collect_pool :
    (c : Collected) (key k : String) (p : LedgerPeer)
    → pool_stake (collect_pool c key p).pools k
      ≡ max (if key == k then p.stake else 0) (pool_stake c.pools k)
unfolding collect_pool
pool_stake-collect_pool c key k p =
    let P = λ (d : Collected).
      pool_stake d.pools k ≡ max (if key == k then p.stake else 0) (pool_stake c.pools k) in
    if_cases P (p.stake == 0) _ _ (λ z. ground (arith, z))
      (λ z.
        option_cases P (lookup key c.pools) _ _
          (λ e.
            let held : pool_stake c.pools key ≡ 0 = unfold pool_stake in rw e refl in
            ground (arith, held, ==_iff key k, pool_stake-insert key k p c.pools))
          (λ q e.
            let held : pool_stake c.pools key ≡ q.stake = unfold pool_stake in rw e refl in
            if_cases P (ltb q.stake p.stake) _ _
              (λ b. ground (arith, b, held, ==_iff key k, pool_stake-insert key k p c.pools))
              (λ b. ground (arith, b, held, ==_iff key k))))

pub IsSmall-name : (p : LedgerPeer) (i : ℕ) → i < 10 ^ 20 → IsSmall (pool_name p i)
IsSmall-name p i h =
    if_cases IsSmall (p.pool_id == "") (numbered i) (named p.pool_id) (λ _. h) (λ _. tt)

pool_stake-collect_pools :
    (c : Collected) (i : ℕ) (ps : List LedgerPeer) (x : PoolName)
    → i + length ps < 10 ^ 20
    → IsSmall x
    → pool_stake (collect_pools c i ps).pools (name_key x)
      ≡ max (pool_stake c.pools (name_key x)) (greatest x i ps)
unfolding collect_pools
pool_stake-collect_pools c i [] x h s = omega arith
pool_stake-collect_pools c i (p ∷ ps) x h s =
    let key = ledger_peer_pool_key p i in
    let same : (key == name_key x) ≡ is_same (pool_name p i) x =
      rw (ledger_peer_pool_key_lem p i)
        (name_key_inj (pool_name p i) x (IsSmall-name p i (omega (arith, h))) s) in
    let rest = pool_stake-collect_pools (collect_pool c key p) (i + 1) ps x (omega (arith, h)) s in
    ground (arith, rest, same, pool_stake-collect_pool c key (name_key x) p)

-- A pool holds the greatest stake that a peer gives it.
pub pool_stake-greatest :
    (ps : List LedgerPeer) (x : PoolName)
    → length ps < 10 ^ 20
    → IsSmall x
    → pool_stake (collected ps).pools (name_key x) ≡ greatest x 0 ps
pool_stake-greatest ps x h s =
    let none_held : pool_stake [] (name_key x) ≡ 0 = unfold pool_stake lookup in refl in
    omega (arith, none_held, pool_stake-collect_pools nothing_collected 0 ps x (omega (arith, h)) s)
