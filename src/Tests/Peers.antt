-- ===== src/Tests/Peers.antt =====
-- Examples of what is shown of the selection of peers, and of the periods of KES keys.
use Prim.Native.Nat.{min}
use dmq_lib.Prelude.{
  ◌-◌, ◌<◌, ◌⊎◌, String, true, All, List, ℕ, ◌≡◌, ◌≤◌, ◌+◌, ◌*◌, ◌/◌, ◌↔◌, refl, [], ◌∷◌, length,
  filter, arith,
}
use dmq_lib.Prelude.Int.{pos, ◌≤ℤ◌}
use dmq_lib.Errors.{ok}
use dmq_lib.Time.{seconds, nanos_per_second}
use dmq_lib.Selector.{
  PeerSelector, new_peer_selector, add_peers, all_peers, select, sort_peers, peer_less,
  add_peers_locked, add_peer, with_address, peer_key, quota_for_source, is_topology_quota_source,
}
use dmq_lib.Prelude.Dict.{lookup, insert}
use dmq_lib.Prelude.Sort.{slice_stable, insert_sorted}
use dmq_lib.Text.{str_ltb}
use dmq_lib.Selector.Quotas.{limited, select-class_exact}
use dmq_lib.Cardano.{
  NetworkParams, cardano_slots_per_kes_period, cardano_preview_start, current_kes_period_for,
  kes_period_start,
}
use dmq_lib.Cardano.Periods.{kes_period_start-current}
use dmq_lib.Peer.{LedgerPeer}
use dmq_lib.Ledger.{
  selected_pools, select_pools, pool_less, pool_stake, collect_pools, collect_pool,
  ledger_peer_pool_key,
}
use dmq_lib.Ledger.Names.{PoolName}
use dmq_lib.Ledger.Greatest.{greatest, names}
use dmq_lib.Ledger.Totals.{total_stake, big_stake, is_big}
use dmq_lib.Ledger.Stake.{IsBefore, selected_pools-stake}
use dmq_lib.Tests.{static_peer}

abbrev sample_selector : PeerSelector
sample_selector =
    add_peers
      (new_peer_selector (record {
        topology_quota = pos 1;
        peer_share_quota = pos 0;
        ledger_quota = pos 0;
        big_ledger_quota = pos 0;
      }))
      (static_peer "a:1" ∷ static_peer "b:1" ∷ [])

select-class_exact_example :
    length (filter (limited sample_selector.cfg "topology") (select sample_selector (pos 0)))
    ≡ min 1 (length (filter (limited sample_selector.cfg "topology") (all_peers sample_selector)))
unfolding add_peers new_peer_selector all_peers sort_peers slice_stable peer_less add_peers_locked
    add_peer with_address peer_key insert quota_for_source is_topology_quota_source insert_sorted
    str_ltb
select-class_exact_example =
    select-class_exact sample_selector (pos 0) "topology" 1 (omega arith) refl
      (λ _. refl, (λ _. refl, tt))

-- The parameters of the preview network.
abbrev preview : NetworkParams
preview = record {
  start = cardano_preview_start;
  absolute_start_slot = 0;
  slot_length = seconds 1;
  epoch_length = 86400;
  slots_per_kes_period = cardano_slots_per_kes_period;
  max_kes_evolutions = 62;
}

abbrev second : ℕ
second = nanos_per_second

kes_period_start-current_example :
    (current_kes_period_for preview (pos (1666656000 * second + 200000 * second))
      ≡ ok ((0 + 200000 * second / second) / 129600))
    × ((kes_period_start preview 1 ≤ℤ pos (1666656000 * second + 200000 * second))
        ↔ (1 ≤ (0 + 200000 * second / second) / 129600))
kes_period_start-current_example =
    kes_period_start-current preview second (1666656000 * second) 0 129600 refl refl refl refl
      (omega arith) (omega arith) 1 (200000 * second) (omega arith) (omega arith) (omega arith)
      (omega arith) (omega arith) (omega arith)

abbrev pool_peer : String → ℕ → LedgerPeer
pool_peer id stake = record { pool_id = id; stake = stake; relays = [] }

abbrev three_pools : List LedgerPeer
three_pools = pool_peer "a" 50 ∷ pool_peer "b" 45 ∷ pool_peer "c" 5 ∷ pool_peer "a" 40 ∷ []

selected_pools-stake_example :
    (total_stake three_pools - total_stake three_pools / 10 ≤ big_stake three_pools)
    × (All (λ x. All (IsBefore three_pools x) (names 0 three_pools)) (names 0 three_pools)
        × ((total_stake three_pools ≡ 0)
            ⊎ ((x : PoolName) × ((is_big three_pools x ≡ true)
                  × (big_stake three_pools
                      < total_stake three_pools
                        - total_stake three_pools / 10
                        + greatest x 0 three_pools)))))
selected_pools-stake_example = selected_pools-stake three_pools (omega arith) (omega arith)

-- 100 in three pools, of which the two that are selected hold 95.
three_pools_sums : (total_stake three_pools ≡ 100) × (big_stake three_pools ≡ 95)
unfolding selected_pools select_pools slice_stable insert_sorted pool_less pool_stake collect_pools
    collect_pool lookup insert ledger_peer_pool_key str_ltb
three_pools_sums = (refl, refl)
