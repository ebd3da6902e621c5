-- ===== src/Ledger/Choosing.antt =====
-- The selection of `bigLedgerPeers` of discovery.go, by keys: which are taken, and where it stops.
use dmq_lib.Prelude.{
  ℕ, ◌+◌, ◌%◌, ◌^◌, ◌≤◌, ◌<◌, ◌≡◌, refl, String, Bool, true, false, ◌||◌, inl, inr, List, [], ◌∷◌,
  ◌==◌, ==_iff, nat_eq, string_eq, leb, arith, Bool-cases,
}
use dmq_lib.Prelude.Dict.{Dict}
use dmq_lib.Prelude.Sort.{slice_stable, insert_sorted}
use dmq_lib.Peer.{LedgerPeer}
use dmq_lib.Ledger.{pool_stake, pool_less, select_pools}
use dmq_lib.Ledger.Collecting.{mem_key, IsNodup, sum_stakes}

module _ (less : String → String → Bool) where
  mem_key-insert_sorted :
      (k x : String) (ks : List String)
      → mem_key k (insert_sorted less x ks) ≡ (x == k || mem_key k ks)
  unfolding insert_sorted
  mem_key-insert_sorted k x [] = refl
  mem_key-insert_sorted k x (y ∷ ks) = ground (arith, mem_key-insert_sorted k x ks)

  IsNodup-insert_sorted :
      (x : String) (ks : List String)
      → mem_key x ks ≡ false
      → IsNodup ks
      → IsNodup (insert_sorted less x ks)
  unfolding insert_sorted
  IsNodup-insert_sorted x [] e h = (refl, tt)
  IsNodup-insert_sorted x (y ∷ ks) e h = ground (
    arith,
    e,
    h.0,
    h.1,
    ==_iff x y,
    ==_iff y x,
    mem_key-insert_sorted y x ks,
    IsNodup-insert_sorted x ks,
  )

  pub mem_key-sorted :
      (k : String) (ks : List String) → mem_key k (slice_stable less ks) ≡ mem_key k ks
  unfolding slice_stable
  mem_key-sorted k [] = refl
  mem_key-sorted k (x ∷ ks) =
      ground (arith, mem_key-insert_sorted k x (slice_stable less ks), mem_key-sorted k ks)

  pub IsNodup-sorted : (ks : List String) → IsNodup ks → IsNodup (slice_stable less ks)
  unfolding slice_stable
  IsNodup-sorted [] h = tt
  IsNodup-sorted (x ∷ ks) h =
      IsNodup-insert_sorted x (slice_stable less ks) (ground (arith, h.0, mem_key-sorted x ks))
        (IsNodup-sorted ks h.1)

module _ (pools : Dict String LedgerPeer) where
  -- No key stands before one of a greater stake.
  abbrev IsAtMost : ℕ → List String → Type 0
  IsAtMost n [] = Unit
  IsAtMost n (k ∷ ks) = (pool_stake pools k ≤ n) × IsAtMost n ks

  abbrev pub IsDescending : List String → Type 0
  IsDescending [] = Unit
  IsDescending (k ∷ ks) = IsAtMost (pool_stake pools k) ks × IsDescending ks

  IsAtMost-trans : (m n : ℕ) (ks : List String) → m ≤ n → IsAtMost m ks → IsAtMost n ks
  IsAtMost-trans m n [] e h = tt
  IsAtMost-trans m n (k ∷ ks) e h = (omega (arith, e, h.0), IsAtMost-trans m n ks e h.1)

  IsAtMost-mem :
      (n : ℕ) (k : String) (ks : List String)
      → IsAtMost n ks
      → mem_key k ks ≡ true
      → pool_stake pools k ≤ n
  IsAtMost-mem n k [] h e = ground (arith, e)
  IsAtMost-mem n k (j ∷ ks) h e = grind (arith, e, h.0, ==_iff j k, IsAtMost-mem n k ks h.1)

  IsAtMost-insert_sorted :
      (n : ℕ) (x : String) (ks : List String)
      → pool_stake pools x ≤ n
      → IsAtMost n ks
      → IsAtMost n (insert_sorted (pool_less pools) x ks)
  unfolding insert_sorted
  IsAtMost-insert_sorted n x [] e h = (e, tt)
  IsAtMost-insert_sorted n x (y ∷ ks) e h =
      ground (arith, e, h.0, h.1, IsAtMost-insert_sorted n x ks e h.1)

  less_at_most :
      (x y : String) → pool_less pools y x ≡ true → pool_stake pools x ≤ pool_stake pools y
  unfolding pool_less
  less_at_most x y e = ground (arith, e)

  not_less_at_most :
      (x y : String) → pool_less pools y x ≡ false → pool_stake pools y ≤ pool_stake pools x
  unfolding pool_less
  not_less_at_most x y e = ground (arith, e)

  IsDescending-insert_sorted :
      (x : String) (ks : List String)
      → IsDescending ks
      → IsDescending (insert_sorted (pool_less pools) x ks)
  unfolding insert_sorted
  IsDescending-insert_sorted x [] h = (tt, tt)
  IsDescending-insert_sorted x (y ∷ ks) h = elim (Bool-cases (pool_less pools y x)) [
    | inl e ↦ rw e (
      IsAtMost-insert_sorted (pool_stake pools y) x ks (less_at_most x y e) h.0,
      IsDescending-insert_sorted x ks h.1,
    )
    | inr e ↦
        let over = not_less_at_most x y e in
        rw e ((over, IsAtMost-trans (pool_stake pools y) (pool_stake pools x) ks over h.0), h)
  ]

  pub IsDescending-sorted : (ks : List String) → IsDescending (slice_stable (pool_less pools) ks)
  unfolding slice_stable
  IsDescending-sorted [] = tt
  IsDescending-sorted (x ∷ ks) =
      IsDescending-insert_sorted x (slice_stable (pool_less pools) ks) (IsDescending-sorted ks)

  module _ (threshold : ℕ) where
    pub mem_key-select_pools :
        (k : String) (acc : ℕ) (ks : List String)
        → mem_key k (select_pools pools threshold acc ks) ≡ true
        → mem_key k ks ≡ true
    unfolding select_pools
    mem_key-select_pools k acc [] h = h
    mem_key-select_pools k acc (j ∷ ks) h =
        ground (arith, h, mem_key-select_pools k ((acc + pool_stake pools j) % 2 ^ 64) ks)

    pub IsNodup-select_pools :
        (acc : ℕ) (ks : List String) → IsNodup ks → IsNodup (select_pools pools threshold acc ks)
    unfolding select_pools
    IsNodup-select_pools acc [] h = tt
    IsNodup-select_pools acc (j ∷ ks) h =
        let acc' = (acc + pool_stake pools j) % 2 ^ 64 in
        ground (arith, h.0, mem_key-select_pools j acc' ks, IsNodup-select_pools acc' ks h.1)

    -- What is left out is at most what is taken.
    pub select_pools-greatest :
        (j k : String) (acc : ℕ) (ks : List String)
        → IsDescending ks
        → mem_key j ks ≡ true
        → mem_key k (select_pools pools threshold acc ks) ≡ true
        → mem_key j (select_pools pools threshold acc ks) ≡ false
        → pool_stake pools j ≤ pool_stake pools k
    unfolding select_pools
    select_pools-greatest j k acc [] d m h e = ground (arith, m)
    select_pools-greatest j k acc (i ∷ ks) d m h e =
        let acc' = (acc + pool_stake pools i) % 2 ^ 64 in
        grind (
          arith,
          d.0,
          m,
          h,
          e,
          ==_iff i j,
          ==_iff i k,
          IsAtMost-mem (pool_stake pools i) j ks d.0,
          select_pools-greatest j k acc' ks d.1,
        )

    -- Without the last that is taken, the threshold is not reached.
    pub select_pools-least :
        (acc : ℕ) (ks : List String)
        → acc + sum_stakes pools ks < 2 ^ 64
        → acc < threshold
        → threshold ≤ acc + sum_stakes pools ks
        → (k : String) × ((mem_key k (select_pools pools threshold acc ks) ≡ true)
            × (acc + sum_stakes pools (select_pools pools threshold acc ks)
                < threshold + pool_stake pools k))
    unfolding select_pools
    select_pools-least acc [] h a t = absurd (omega (arith, a, t))
    select_pools-least acc (j ∷ ks) h a t =
        let acc' = (acc + pool_stake pools j) % 2 ^ 64 in
        elim (Bool-cases (leb threshold acc')) [
          | inl e ↦ rw e (j, (ground (arith, ==_iff j j), omega (arith, h, a)))
          | inr e ↦
              let r =
                select_pools-least acc' ks (omega (arith, h)) (ground (arith, e))
                  (omega (arith, h, t)) in
              rw e (r.0, (ground (arith, r.1.0), omega (arith, h, r.1.1)))
        ]
