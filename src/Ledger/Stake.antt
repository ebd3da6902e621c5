-- ===== src/Ledger/Stake.antt =====
-- Which pools `bigLedgerPeers` of discovery.go takes, by the pools of the peers.
use dmq_lib.Prelude.{
  ℕ, ◌+◌, ◌-◌, ◌/◌, ◌^◌, ◌≤◌, ◌<◌, ◌≡◌, refl, sym, ap, ◌∙◌, String, true, false, ◌⊎◌, inl, inr,
  List, [], ◌∷◌, ◌==◌, ==_iff, nat_eq, string_eq, length, map, All, arith, Bool-cases,
}
use dmq_lib.Prelude.Sort.{slice_stable}
use dmq_lib.Peer.{LedgerPeer}
use dmq_lib.Ledger.{pool_stake, pool_less, select_pools, selected_pools}
use dmq_lib.Ledger.Reaching.{sum_stakes-sorted, select_pools-reach}
use dmq_lib.Ledger.Collecting.{mem_key, IsNodup, sum_stakes, sum_peers, collected}
use dmq_lib.Ledger.Names.{PoolName, name_key, IsSmall}
use dmq_lib.Ledger.Greatest.{greatest, names, pool_stake-greatest}
use dmq_lib.Ledger.Counting.{collected-order}
use dmq_lib.Ledger.Choosing.{
  mem_key-sorted, IsNodup-sorted, IsDescending-sorted, mem_key-select_pools, IsNodup-select_pools,
  select_pools-greatest, select_pools-least,
}
use dmq_lib.Ledger.Totals.{
  is_big, total_stake, big_stake, held, small, unknown, sum_stakes-greatest, total-greatest,
}

-- A pool that is taken holds no less than one that is not.
abbrev pub IsBefore : List LedgerPeer → PoolName → PoolName → Type 0
IsBefore ps x y =
    (is_big ps x ≡ false) ⊎ ((is_big ps y ≡ true) ⊎ (greatest y 0 ps ≤ greatest x 0 ps))

name_of_key :
    (k : String) (xs : List PoolName)
    → All IsSmall xs
    → mem_key k (map name_key xs) ≡ true
    → (x : PoolName) × (IsSmall x × (name_key x ≡ k))
name_of_key k [] h e = ground (arith, e)
name_of_key k (x ∷ xs) h e = elim (Bool-cases (name_key x == k)) [
  | inl b ↦ (x, (h.0, (==_iff (name_key x) k).0 b))
  | inr b ↦ name_of_key k xs h.1 (ground (arith, e, b))
]

module _ (ps : List LedgerPeer) (h : sum_peers ps < 2 ^ 64) (l : length ps < 10 ^ 20) where
  abbrev order : List String
  order = slice_stable (pool_less (collected ps).pools) (collected ps).pool_order

  abbrev threshold : ℕ
  threshold = (collected ps).total - (collected ps).total / 10

  -- The two outcomes: no stake at all, or the selection from the sorted keys.
  selected_pools_cases :
      (((collected ps).total ≡ 0) × (selected_pools ps ≡ []))
      ⊎ ((0 < (collected ps).total)
          × (selected_pools ps ≡ select_pools (collected ps).pools threshold 0 order))
  unfolding selected_pools
  selected_pools_cases = elim (Bool-cases ((collected ps).total == 0)) [
    | inl e ↦ inl (ground (arith, e), rw e refl)
    | inr e ↦ inr (ground (arith, e), rw e refl)
  ]

  selected_pools-order :
      (k : String)
      → mem_key k (selected_pools ps) ≡ true
      → mem_key k (collected ps).pool_order ≡ true
  selected_pools-order k = elim selected_pools_cases [
    | inl (_, e) ↦ rw e (λ b. ground (arith, b))
    | inr (_, e) ↦ rw e (λ b.
        rw (sym (mem_key-sorted (pool_less (collected ps).pools) k (collected ps).pool_order))
          (mem_key-select_pools (collected ps).pools threshold k 0 order b))
  ]

  selected_pools-IsNodup : IsNodup (selected_pools ps)
  selected_pools-IsNodup = elim selected_pools_cases [
    | inl (_, e) ↦ rw e tt
    | inr (_, e) ↦ rw e (
        IsNodup-select_pools (collected ps).pools threshold 0 order (
          IsNodup-sorted (pool_less (collected ps).pools) (collected ps).pool_order
            (held ps h l).nodup))
  ]

  selected-greatest : sum_stakes (collected ps).pools (selected_pools ps) ≡ big_stake ps
  selected-greatest =
      (sum_stakes-greatest ps h l) (selected_pools ps) selected_pools-IsNodup selected_pools-order

  order-total : sum_stakes (collected ps).pools order ≡ (collected ps).total
  order-total =
      sum_stakes-sorted (collected ps).pools (pool_less (collected ps).pools)
        (collected ps).pool_order
      ∙ sym (held ps h l).sums

  enough : (collected ps).total - (collected ps).total / 10 ≤ big_stake ps
  enough = rw (sym selected-greatest) (elim selected_pools_cases [
    | inl (z, e) ↦ omega (arith, z)
    | inr (z, e) ↦ rw e (
        omega (
          arith,
          select_pools-reach (collected ps).pools threshold 0 order
              (omega (arith, order-total, (held ps h l).bounded, h)) (omega (arith, order-total))
              (omega (arith, z)),
        ))
  ])

  left_out :
      (k j : String)
      → mem_key k (selected_pools ps) ≡ true
      → mem_key j (selected_pools ps) ≡ false
      → pool_stake (collected ps).pools j ≤ pool_stake (collected ps).pools k
  left_out k j = elim (Bool-cases (mem_key j (collected ps).pool_order)) [
    | inr n ↦ λ _ _. omega (arith, (unknown ps h l) j n)
    | inl m ↦ elim selected_pools_cases [
      | inl (_, e) ↦ rw e (λ b _. ground (arith, b))
      | inr (_, e) ↦ rw e (
          select_pools-greatest (collected ps).pools threshold j k 0 order
            (IsDescending-sorted (collected ps).pools (collected ps).pool_order)
            (rw (mem_key-sorted (pool_less (collected ps).pools) j (collected ps).pool_order) m))
    ]
  ]

  -- No pool that is left out holds more than one that is taken.
  greatest_first : (x y : PoolName) → IsSmall x → IsSmall y → IsBefore ps x y
  greatest_first x y s t = elim (Bool-cases (is_big ps x)) [
    | inr e ↦ inl e
    | inl e ↦ inr (elim (Bool-cases (is_big ps y)) [
      | inl d ↦ inl d
      | inr d ↦ inr (
          rw (sym (pool_stake-greatest ps x l s), sym (pool_stake-greatest ps y l t))
            (left_out (name_key x) (name_key y) e d))
    ])
  ]

  -- Without some pool that is taken, the threshold is not reached.
  least :
      ((collected ps).total ≡ 0)
      ⊎ ((x : PoolName) × ((is_big ps x ≡ true) × (big_stake ps < threshold + greatest x 0 ps)))
  least = elim selected_pools_cases [
    | inl (z, _) ↦ inl z
    | inr (z, e) ↦
        let r =
          select_pools-least (collected ps).pools threshold 0 order
            (omega (arith, order-total, (held ps h l).bounded, h)) (omega (arith, z))
            (omega (arith, order-total)) in
        let taken : mem_key r.0 (selected_pools ps) ≡ true = rw e r.1.0 in
        let x =
          name_of_key r.0 (names 0 ps) (small ps h l)
            (collected-order r.0 ps l (selected_pools-order r.0 taken)) in
        let sum : sum_stakes (collected ps).pools (selected_pools ps)
            < threshold + pool_stake (collected ps).pools r.0 =
          rw e (omega (arith, r.1.1)) in
        inr (
          x.0,
          (
            rw x.1.1 taken,
            omega (
              arith,
              sum,
              selected-greatest,
              pool_stake-greatest ps x.0 l x.1.0,
              ap (pool_stake (collected ps).pools) x.1.1,
            ),
          ),
        )
  ]

  left_out_at_most :
      (x : PoolName) → IsSmall x → (ys : List PoolName) → All IsSmall ys → All (IsBefore ps x) ys
  left_out_at_most x s [] t = tt
  left_out_at_most x s (y ∷ ys) t = (greatest_first x y s t.0, left_out_at_most x s ys t.1)

  All-IsBefore :
      (xs : List PoolName) → All IsSmall xs → All (λ x. All (IsBefore ps x) (names 0 ps)) xs
  All-IsBefore [] s = tt
  All-IsBefore (x ∷ xs) s =
      (left_out_at_most x s.0 (names 0 ps) (small ps h l), All-IsBefore xs s.1)

-- The pools of the peers are told apart by their ID, and a peer without one is a pool of its own. Each
-- counts once, with the greatest stake that a peer gives it. Where the stakes of the peers sum to less
-- than 2^64, and there are fewer than 10^20 peers: the big ledger pools hold at least the total less a
-- tenth of it, rounded down; none of them holds less than a pool that is left out; and unless the
-- total is 0 the selection stops there: without some one of them they would hold less than that.
pub selected_pools-stake :
    (ps : List LedgerPeer)
    → sum_peers ps < 2 ^ 64
    → length ps < 10 ^ 20
    → (total_stake ps - total_stake ps / 10 ≤ big_stake ps)
      × (All (λ x. All (IsBefore ps x) (names 0 ps)) (names 0 ps)
          × ((total_stake ps ≡ 0)
              ⊎ ((x : PoolName) × ((is_big ps x ≡ true)
                    × (big_stake ps < total_stake ps - total_stake ps / 10 + greatest x 0 ps)))))
selected_pools-stake ps h l =
    rw (sym (total-greatest ps h l))
      (enough ps h l, (All-IsBefore ps h l (names 0 ps) (small ps h l), least ps h l))
