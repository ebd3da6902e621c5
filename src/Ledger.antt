-- ===== src/Ledger.antt =====
-- discovery.go: the peers of a ledger snapshot. The text of an IP address, of Go's package `net`, is
-- the parameter `ip_string`. Stakes are 64-bit words.
pub mod Names
pub mod Collecting
pub mod Greatest
pub mod Counting
pub mod Totals
pub mod Reaching
pub mod Choosing
pub mod Stake
pub mod Snapshots
use dmq_lib.Prelude.{
  ℕ, ◌+◌, ◌-◌, ◌/◌, ◌%◌, ◌^◌, String, Bool, true, false, ◌&&◌, ◌||◌, not, Option, none, some, List,
  [], ◌∷◌, ◌++◌, ◌==◌, nat_eq, string_eq, ltb, leb, if◌then◌else◌, any, map, Bytes,
}
use dmq_lib.Prelude.Dict.{Dict, lookup, insert}
use dmq_lib.Prelude.Sort.{slice_stable}
use dmq_lib.Text.{◌+s◌, format_uint, str_ltb}
use dmq_lib.Peer.{
  Peer, zero_peer, LedgerPeer, LedgerPeerSnapshot, LedgerRelay, ledger_relay_srv,
  peer_source_ledger, peer_source_big_ledger,
}
use dmq_lib.Selector.{new_peer}

-- `LedgerRelay.IsSRV`
pub is_srv : LedgerRelay → Bool
is_srv r =
    r.kind == ledger_relay_srv
    || not (r.srv_name == "")
    || (r.kind == "" && not (r.hostname == "") && r.port == 0)

abbrev pub is_nonempty : Bytes → Bool
is_nonempty [] = false
is_nonempty (b ∷ bs) = true

-- if host == "" { host = other }
abbrev pub or_else : String → String → String
or_else host other = if host == "" then other else host

-- if ok { peers = append(peers, p) }
abbrev pub cons_if : Bool → Peer → List Peer → List Peer
cons_if b p ps = if b then p ∷ ps else ps

pub ledger_base : LedgerPeer → Peer
ledger_base lp = record zero_peer {
  source = peer_source_ledger;
  pool_id = lp.pool_id;
  stake = lp.stake;
}

module _ (ip_string : Bytes → String) where
  unfoldable pub ledger_relay_peers : LedgerPeer → LedgerRelay → List Peer
  unfolding is_srv ledger_base
  ledger_relay_peers lp relay =
      let base = ledger_base lp in
      let srv_host = or_else relay.srv_name relay.hostname in
      let port = if relay.port == 0 then 3001 else relay.port in
      if is_srv relay
      then cons_if (not (srv_host == "")) (new_peer srv_host relay.port base) []
      else cons_if (not (relay.hostname == "")) (new_peer relay.hostname port base) (
          cons_if (is_nonempty relay.ipv4) (new_peer (ip_string relay.ipv4) port base)
            (cons_if (is_nonempty relay.ipv6) (new_peer (ip_string relay.ipv6) port base) []))

  -- for _, relay := range lp.Relays { … append(…, ledgerRelayPeers(lp, relay)...) }
  unfoldable pub relays_peers : LedgerPeer → List LedgerRelay → List Peer
  relays_peers lp [] = []
  relays_peers lp (r ∷ rs) = ledger_relay_peers lp r ++ relays_peers lp rs

  unfoldable pub all_ledger_peers : List LedgerPeer → List Peer
  all_ledger_peers [] = []
  all_ledger_peers (lp ∷ lps) = relays_peers lp lp.relays ++ all_ledger_peers lps

-- The order of `BuildLedgerPeerPools`: by stake, the greatest first, and then by address.
unfoldable pub stake_less : Peer → Peer → Bool
stake_less a b = if a.stake == b.stake then str_ltb a.address b.address else ltb b.stake a.stake

unfoldable pub ledger_peer_pool_key : LedgerPeer → ℕ → String
ledger_peer_pool_key p index =
    if p.pool_id == "" then "idx:" +s format_uint index else "pool:" +s p.pool_id

-- The variables of the first loop of `bigLedgerPeers`.
pub record Collected : Type 0 where
  pub pools : Dict String LedgerPeer
  pub pool_order : List String
  pub total : ℕ

unfoldable pub collect_pool : Collected → String → LedgerPeer → Collected
collect_pool c key p = if p.stake == 0 then c else elim (lookup key c.pools) [
  | none ↦ record {
    pools = insert key p c.pools;
    pool_order = c.pool_order ++ key ∷ [];
    total = (c.total + p.stake) % 2 ^ 64;
  }
  | some current ↦
      if ltb current.stake p.stake
      then record c {
        pools = insert key p c.pools;
        total = (c.total + (p.stake - current.stake)) % 2 ^ 64;
      }
      else c
]

unfoldable pub collect_pools : Collected → ℕ → List LedgerPeer → Collected
collect_pools c i [] = c
collect_pools c i (p ∷ ps) = collect_pools (collect_pool c (ledger_peer_pool_key p i) p) (i + 1) ps

abbrev pub stake_or_zero : Option LedgerPeer → ℕ
stake_or_zero none = 0
stake_or_zero (some p) = p.stake

-- pools[key].Stake
unfoldable pub pool_stake : Dict String LedgerPeer → String → ℕ
pool_stake pools key = stake_or_zero (lookup key pools)

-- The order of `poolOrder`: by stake, the greatest first, and then by key.
unfoldable pub pool_less : Dict String LedgerPeer → String → String → Bool
pool_less pools a b =
    if pool_stake pools a == pool_stake pools b
    then str_ltb a b
    else ltb (pool_stake pools b) (pool_stake pools a)

-- The second loop: pools until their stake reaches the threshold.
unfoldable pub select_pools : Dict String LedgerPeer → ℕ → ℕ → List String → List String
select_pools pools threshold acc [] = []
select_pools pools threshold acc (k ∷ ks) =
    let acc' = (acc + pool_stake pools k) % 2 ^ 64 in
    let rest = select_pools pools threshold acc' ks in
    if leb threshold acc' then k ∷ [] else k ∷ rest

abbrev pub nothing_collected : Collected
nothing_collected = record { pools = []; pool_order = []; total = 0 }

-- The keys in `selectedPools`.
unfoldable pub selected_pools : List LedgerPeer → List String
selected_pools peers =
    let c = collect_pools nothing_collected 0 peers in
    if c.total == 0
    then []
    else select_pools c.pools (c.total - c.total / 10) 0
        (slice_stable (pool_less c.pools) c.pool_order)

pub record LedgerPeerPools : Type 0 where
  pub all : List Peer
  pub big : List Peer

abbrev pub as_big : Peer → Peer
as_big p = record p { source = peer_source_big_ledger }

module _ (ip_string : Bytes → String) where
  -- The third loop: the relays of the selected pools.
  unfoldable pub big_peers : List String → ℕ → List LedgerPeer → List Peer
  big_peers keys i [] = []
  big_peers keys i (p ∷ ps) =
      let rest = big_peers keys (i + 1) ps in
      if any (λ k. k == ledger_peer_pool_key p i) keys
      then map as_big (relays_peers ip_string p p.relays) ++ rest
      else rest

  unfoldable pub big_ledger_peers : List LedgerPeer → List Peer
  big_ledger_peers peers = big_peers (selected_pools peers) 0 peers

  unfoldable pub build_ledger_peer_pools : LedgerPeerSnapshot → LedgerPeerPools
  build_ledger_peer_pools snapshot = record {
    all = slice_stable stake_less (all_ledger_peers ip_string snapshot.peers);
    big = big_ledger_peers snapshot.peers;
  }
