-- ===== src/Ledger/Totals.antt =====
-- The stake of the pools of discovery.go's `bigLedgerPeers`, summed over the pools of the peers.
use dmq_lib.Prelude.{
  ℕ, ◌+◌, ◌^◌, ◌<◌, ◌≡◌, refl, ◌∙◌, String, Bool, true, false, inl, inr, List, [], ◌∷◌, nat_eq,
  string_eq, length, if◌then◌else◌, map, All, arith, Option-cases,
}
use dmq_lib.Prelude.Dict.{lookup}
use dmq_lib.Peer.{LedgerPeer}
use dmq_lib.Ledger.{pool_stake, selected_pools}
use dmq_lib.Ledger.Collecting.{
  mem_key, IsNodup, sum_stakes, sum_peers, Consistent, collected, collected-Consistent,
}
use dmq_lib.Ledger.Names.{PoolName, name_key, IsSmall}
use dmq_lib.Ledger.Greatest.{greatest, names, pool_stake-greatest}
use dmq_lib.Ledger.Counting.{
  sum_chosen, sum_stakes-chosen, collected-order, names-IsNodup, names-IsSmall,
}

-- Whether the pool is one of the big ledger pools.
abbrev pub is_big : List LedgerPeer → PoolName → Bool
is_big ps x = mem_key (name_key x) (selected_pools ps)

-- The greatest stakes of those of the pools that the test takes, each once.
abbrev pub sum_greatest : List LedgerPeer → (PoolName → Bool) → List PoolName → ℕ
sum_greatest ps f [] = 0
sum_greatest ps f (x ∷ xs) = (if f x then greatest x 0 ps else 0) + sum_greatest ps f xs

abbrev pub total_stake : List LedgerPeer → ℕ
total_stake ps = sum_greatest ps (λ _. true) (names 0 ps)

abbrev pub big_stake : List LedgerPeer → ℕ
big_stake ps = sum_greatest ps (is_big ps) (names 0 ps)

module _ (ps : List LedgerPeer) (h : sum_peers ps < 2 ^ 64) (l : length ps < 10 ^ 20) where
  pub held : Consistent (0 + sum_peers ps) (collected ps)
  held = collected-Consistent ps h

  sum_greatest-chosen :
      (chosen : List String) (xs : List PoolName)
      → All IsSmall xs
      → sum_chosen (collected ps).pools chosen (map name_key xs)
        ≡ sum_greatest ps (λ x. mem_key (name_key x) chosen) xs
  sum_greatest-chosen chosen [] s = refl
  sum_greatest-chosen chosen (x ∷ xs) s =
      ground (arith, pool_stake-greatest ps x l s.0, sum_greatest-chosen chosen xs s.1)

  pub small : All IsSmall (names 0 ps)
  small = names-IsSmall 0 ps (omega (arith, l))

  -- The sum over chosen keys is the sum over the chosen pools of the peers.
  pub sum_stakes-greatest :
      (chosen : List String)
      → IsNodup chosen
      → ((k : String) → mem_key k chosen ≡ true → mem_key k (collected ps).pool_order ≡ true)
      → sum_stakes (collected ps).pools chosen
        ≡ sum_greatest ps (λ x. mem_key (name_key x) chosen) (names 0 ps)
  sum_stakes-greatest chosen n s =
      sum_stakes-chosen (collected ps).pools chosen (map name_key (names 0 ps)) n
        (names-IsNodup 0 ps (omega (arith, l))) (λ k e. collected-order k ps l (s k e))
      ∙ sum_greatest-chosen chosen (names 0 ps) small

  -- A pool that is not collected holds nothing.
  pub unknown :
      (k : String)
      → mem_key k (collected ps).pool_order ≡ false
      → pool_stake (collected ps).pools k ≡ 0
  unfolding pool_stake
  unknown k e = elim (Option-cases (lookup k (collected ps).pools)) [
    | inl n ↦ rw n refl
    | inr (q, n) ↦
        let there : mem_key k (collected ps).pool_order ≡ true = rw (held.known k, n) refl in
        ground (arith, there, e)
  ]

  sum_greatest-known :
      (xs : List PoolName)
      → All IsSmall xs
      → sum_greatest ps (λ x. mem_key (name_key x) (collected ps).pool_order) xs
        ≡ sum_greatest ps (λ _. true) xs
  sum_greatest-known [] s = refl
  sum_greatest-known (x ∷ xs) s =
      ground
        (arith, unknown (name_key x), pool_stake-greatest ps x l s.0, sum_greatest-known xs s.1)

  -- The total of the code is that of the pools.
  pub total-greatest : (collected ps).total ≡ total_stake ps
  total-greatest =
      held.sums
      ∙ (sum_stakes-greatest (collected ps).pool_order held.nodup (λ k e. e)
          ∙ sum_greatest-known (names 0 ps) small)
