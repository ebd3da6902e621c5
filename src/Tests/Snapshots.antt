-- ===== src/Tests/Snapshots.antt =====
-- Examples of what is shown of ledger snapshots.
use dmq_lib.Prelude.{◌-◌, ◌/◌, ◌^◌, ◌≤◌, ◌<◌, ◌⊎◌, refl, true, none, some, [], ◌∷◌, arith}
use dmq_lib.Prelude.Int.{pos}
use dmq_lib.Errors.{ok}
use dmq_lib.Peer.{LedgerPeerSnapshot}
use dmq_lib.Ledger.Collecting.{sum_peers}
use dmq_lib.Ledger.Names.{numbered}
use dmq_lib.Ledger.Totals.{is_big}
use dmq_lib.Ledger.Snapshots.Unnamed.{stake_at}
use dmq_lib.Ledger.Snapshots.{
  SnapshotResult, DingoAdapter, relay_only, convert_local_state_query_ledger_peer_snapshot,
  dingo_snapshot, relay_only_snapshot,
}
use dmq_lib.Ledger.Snapshots.Stakes.{snapshot_selected-stake}
use dmq_lib.Ledger.Snapshots.Sources.{IsStaked, IsRelayOnly, dingo_snapshot_cases}

-- Shares of three tenths and of a half, and a pool without one.
abbrev three_pools : SnapshotResult
three_pools = record {
  slot = some 7;
  pools =
      record { pool_stake = some (record { num = pos 3; denom = 10 }); relays = [] }
      ∷ record { pool_stake = some (record { num = pos 1; denom = 2 }); relays = [] }
      ∷ record { pool_stake = none; relays = [] }
      ∷ [];
}

abbrev three_peers : LedgerPeerSnapshot
three_peers = convert_local_state_query_ledger_peer_snapshot (some three_pools)

snapshot_selected-stake_example :
    (sum_peers three_peers.peers < 2 ^ 64)
    × (sum_peers three_peers.peers - sum_peers three_peers.peers / 10
        ≤ stake_at (λ i. is_big three_peers.peers (numbered i)) 0 three_peers.peers)
snapshot_selected-stake_example =
    snapshot_selected-stake 10 three_pools (3 ∷ 5 ∷ 0 ∷ []) (omega arith)
      ((omega arith, refl), ((omega arith, refl), (refl, tt))) (omega arith) (omega arith)

-- An adapter with relays only.
abbrev relays_only : DingoAdapter
relays_only = record {
  provider = some (record {
    pool_relays = ok (record { hostname = "relay"; port = 3001; ipv4 = none; ipv6 = none } ∷ []);
    current_slot = 7;
    staked = none;
  });
  staked_provider = none;
  allow_relay_only = true;
}

abbrev relay_snapshot : LedgerPeerSnapshot
relay_snapshot = record {
  slot = 7;
  peers = relay_only (record { hostname = "relay"; port = 3001; ipv4 = none; ipv6 = none }) ∷ [];
}

dingo_snapshot_cases_example :
    IsStaked relays_only relay_snapshot ⊎ IsRelayOnly relays_only "all-ledger-peers" relay_snapshot
unfolding dingo_snapshot relay_only_snapshot
dingo_snapshot_cases_example =
    dingo_snapshot_cases relays_only none "all-ledger-peers" relay_snapshot refl
