-- ===== src/Ledger/Snapshots.antt =====
-- discovery.go: where ledger snapshots come from, and how dingo's and gOuroboros's relays become those of
-- the package. A provider of theirs is what it answers; a context that has ended is its error, which
-- each `select` on it reads as an argument.
pub mod Unnamed
pub mod Stakes
pub mod Sources
use dmq_lib.Prelude.{
  ℕ, ◌+◌, ◌-◌, ◌*◌, ◌/◌, ◌≤◌, ◌^◌, String, Bool, true, false, not, Option, none, some, List, [],
  ◌∷◌, ◌==◌, ◌&&◌, ◌||◌, nat_eq, string_eq, map, leb, ltb, if◌then◌else◌, Bytes,
}
use dmq_lib.Prelude.Int.{ℤ, pos, negsuc}
use dmq_lib.Errors.{
  Error, Result, ok, err, sentinel, detailed, note, plain, fail_if,
  ledger_peer_snapshot_unsupported, ledger_peer_snapshot_provider_unset, ◌>>=◌, ◌>>◌,
}
use dmq_lib.Peer.{
  LedgerRelay, LedgerRelayKind, LedgerPeer, LedgerPeerSnapshot, LedgerPeerSnapshotKind,
  ledger_peer_snapshot_all, ledger_peer_snapshot_big, ledger_relay_single_host_address,
  ledger_relay_single_host_name, ledger_relay_srv,
}

-- An address of 4 or 16 bytes, behind a pointer. A pointer to an empty address is as good as nil.
abbrev address : Option Bytes → Bytes
address none = []
address (some ip) = ip

abbrev number : Option ℕ → ℕ
number none = 0
number (some n) = n

abbrev text : Option String → String
text none = ""
text (some s) = s

abbrev zero_relay : LedgerRelay
zero_relay = record { kind = ""; hostname = ""; srv_name = ""; port = 0; ipv4 = []; ipv6 = [] }

-- peergov.PoolRelay
pub record PoolRelay : Type 0 where
  pub hostname : String
  pub port : ℕ
  pub ipv4 : Option Bytes
  pub ipv6 : Option Bytes

abbrev is_set : Option Bytes → Bool
is_set none = false
is_set (some ip) = true

unfoldable pub dingo_relay_to_ledger_relay : PoolRelay → LedgerRelay
dingo_relay_to_ledger_relay relay = record {
  kind =
      if is_set relay.ipv4 || is_set relay.ipv6
      then ledger_relay_single_host_address
      else if not (relay.hostname == "") && relay.port == 0
      then ledger_relay_srv
      else ledger_relay_single_host_name;
  hostname = relay.hostname;
  srv_name = "";
  port = relay.port;
  ipv4 = address relay.ipv4;
  ipv6 = address relay.ipv6;
}

-- localstatequery.RelayAccessPoint, with the kinds that the package knows.
pub data RelayKind : Type 0 where
  kind_ipv4 kind_ipv6 kind_domain kind_srv kind_unknown : RelayKind

pub record RelayAccessPoint : Type 0 where
  pub kind : RelayKind
  pub port : Option ℕ
  pub ipv4 : Option Bytes
  pub ipv6 : Option Bytes
  pub domain : Option String

abbrev relay_of : RelayAccessPoint → RelayKind → LedgerRelay
relay_of relay kind_ipv4 = record zero_relay {
  kind = ledger_relay_single_host_address;
  port = number relay.port;
  ipv4 = address relay.ipv4;
}
relay_of relay kind_ipv6 = record zero_relay {
  kind = ledger_relay_single_host_address;
  port = number relay.port;
  ipv6 = address relay.ipv6;
}
relay_of relay kind_domain = record zero_relay {
  kind = ledger_relay_single_host_name;
  port = number relay.port;
  hostname = text relay.domain;
}
relay_of relay kind_srv = record zero_relay {
  kind = ledger_relay_srv;
  srv_name = text relay.domain;
}
relay_of relay kind_unknown = zero_relay

unfoldable pub local_state_query_relay_to_ledger_relay : RelayAccessPoint → LedgerRelay
local_state_query_relay_to_ledger_relay relay = relay_of relay relay.kind

-- A big.Rat: its denominator is positive.
pub record Rat : Type 0 where
  pub num : ℤ
  pub denom : ℕ

abbrev pub max_uint64 : ℕ
max_uint64 = 2 ^ 64 - 1

abbrev pub scale : ℤ → ℕ → ℕ
scale (negsuc n) d = 0
scale (pos n) d =
    let scaled = n * max_uint64 / d in if leb scaled max_uint64 then scaled else max_uint64

-- The stake as a share, scaled to 64 bits. A quotient of numbers that are not negative, rounded down, is
-- `Quo`, and a zero numerator gives the zero of the early return.
unfoldable pub ledger_stake_from_rat : Option Rat → ℕ
ledger_stake_from_rat none = 0
ledger_stake_from_rat (some r) = scale r.num r.denom

-- localstatequery.LedgerPeerSnapshotResult, by the fields that the program reads.
pub record SnapshotPool : Type 0 where
  pub pool_stake : Option Rat
  pub relays : List RelayAccessPoint

pub record SnapshotResult : Type 0 where
  pub slot : Option ℕ
  pub pools : List SnapshotPool

unfoldable pub convert_pool : SnapshotPool → LedgerPeer
unfolding ledger_stake_from_rat
convert_pool pool = record {
  pool_id = "";
  stake = ledger_stake_from_rat pool.pool_stake;
  relays = map local_state_query_relay_to_ledger_relay pool.relays;
}

unfoldable pub convert_local_state_query_ledger_peer_snapshot :
    Option SnapshotResult → LedgerPeerSnapshot
convert_local_state_query_ledger_peer_snapshot none = record { slot = 0; peers = [] }
convert_local_state_query_ledger_peer_snapshot (some snapshot) = record {
  slot = number snapshot.slot;
  peers = map convert_pool snapshot.pools;
}

pub data PeerKind : Type 0 where
  all_peers big_peers : PeerKind

unfoldable pub local_state_query_ledger_peer_kind : LedgerPeerSnapshotKind → Result PeerKind
local_state_query_ledger_peer_kind kind =
    if kind == "" || kind == ledger_peer_snapshot_all
    then ok all_peers
    else if kind == ledger_peer_snapshot_big
    then ok big_peers
    else err (plain "unknown ledger peer snapshot kind")

-- select { case <-ctx.Done(): return …, ctx.Err() default: }
abbrev pub checked : Option Error → Result (Unit {0})
checked none = ok tt
checked (some e) = err e

-- The answer of the client: a snapshot, which may be nil, no support for the query, or an error.
pub data QueryAnswer : Type 0 where
  answered : Option SnapshotResult → QueryAnswer
  unsupported_version : QueryAnswer
  query_failed : Error → QueryAnswer

abbrev pub query_result : QueryAnswer → Result (Option SnapshotResult)
query_result (answered s) = ok s
query_result unsupported_version = err (sentinel ledger_peer_snapshot_unsupported)
query_result (query_failed e) = err e

-- `(LocalStateQueryLedgerPeerSnapshotProvider).LedgerPeerSnapshot`; the context is read twice.
unfoldable pub local_state_query_snapshot :
    Option (PeerKind → QueryAnswer)
    → Option Error
    → Option Error
    → LedgerPeerSnapshotKind
    → Result LedgerPeerSnapshot
local_state_query_snapshot none before after kind =
    err (sentinel ledger_peer_snapshot_provider_unset)
local_state_query_snapshot (some client) before after kind = do
  peer_kind ← local_state_query_ledger_peer_kind kind
  checked before
  snapshot ← query_result (client peer_kind)
  checked after
  ok (convert_local_state_query_ledger_peer_snapshot snapshot)

-- `StakedLedgerPeerProvider`, and a `peergov.LedgerPeerProvider` that may be one, too.
pub record StakedProvider : Type 0 where
  pub peers : Result (List LedgerPeer)
  pub current_slot : ℕ

pub record LedgerPeerProvider : Type 0 where
  pub pool_relays : Result (List PoolRelay)
  pub current_slot : ℕ
  pub staked : Option StakedProvider

pub record DingoAdapter : Type 0 where
  pub provider : Option LedgerPeerProvider
  pub staked_provider : Option StakedProvider
  pub allow_relay_only : Bool

unfoldable pub staked_provider_snapshot : Option Error → StakedProvider → Result LedgerPeerSnapshot
staked_provider_snapshot cancelled p = do
  checked cancelled
  peers ← p.peers
  ok (record { slot = p.current_slot; peers = peers })

-- A peer of a pool of which only one relay is known.
abbrev pub relay_only : PoolRelay → LedgerPeer
relay_only relay = record {
  pool_id = "";
  stake = 0;
  relays = dingo_relay_to_ledger_relay relay ∷ [];
}

unfoldable pub relay_only_snapshot :
    Bool → Option Error → LedgerPeerSnapshotKind → LedgerPeerProvider → Result LedgerPeerSnapshot
relay_only_snapshot allowed cancelled kind p = do
  fail_if (not allowed) (
      detailed ledger_peer_snapshot_unsupported (
        note
          "dingo peergov.LedgerPeerProvider does not expose pool stake metadata; use StakedProvider or LocalStateQueryLedgerPeerSnapshotProvider"))
  fail_if (kind == ledger_peer_snapshot_big) (
      detailed ledger_peer_snapshot_unsupported
        (note "relay-only dingo peergov.LedgerPeerProvider cannot produce big-ledger peers"))
  checked cancelled
  found ← p.pool_relays
  ok (record { slot = p.current_slot; peers = map relay_only found })

-- `(DingoLedgerPeerProviderAdapter).LedgerPeerSnapshot`
unfoldable pub dingo_snapshot :
    DingoAdapter → Option Error → LedgerPeerSnapshotKind → Result LedgerPeerSnapshot
dingo_snapshot a cancelled kind = elim a.staked_provider [
  | some p ↦ staked_provider_snapshot cancelled p
  | none ↦ elim a.provider [
    | none ↦ err (sentinel ledger_peer_snapshot_provider_unset)
    | some p ↦ elim p.staked [
      | some q ↦ staked_provider_snapshot cancelled q
      | none ↦ relay_only_snapshot a.allow_relay_only cancelled kind p
    ]
  ]
]
