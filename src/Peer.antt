-- ===== src/Peer.antt =====
-- discovery.go: the data types of peers and of their sources, and the discovery configuration.
use dmq_lib.Prelude.{ℕ, String, Bool, Option, List, Bytes}
use dmq_lib.Prelude.Int.{ℤ}
use dmq_lib.Errors.{Result}

-- A Go string type: any text is a value, the named ones are the constants.
abbrev pub PeerSource : Type 0
PeerSource = String

abbrev pub peer_source_static : PeerSource
peer_source_static = "static"

abbrev pub peer_source_topology_local_root : PeerSource
peer_source_topology_local_root = "topology-local-root"

abbrev pub peer_source_topology_public : PeerSource
peer_source_topology_public = "topology-public-root"

abbrev pub peer_source_topology_bootstrap : PeerSource
peer_source_topology_bootstrap = "topology-bootstrap"

abbrev pub peer_source_peer_sharing : PeerSource
peer_source_peer_sharing = "peer-sharing"

abbrev pub peer_source_ledger : PeerSource
peer_source_ledger = "ledger"

abbrev pub peer_source_big_ledger : PeerSource
peer_source_big_ledger = "big-ledger"

pub record Peer : Type 0 where
  pub address : String
  pub host : String
  pub port : ℕ
  pub source : PeerSource
  pub pool_id : String
  pub stake : ℕ
  pub valency : ℕ
  pub warm_valency : ℕ
  pub advertise : Bool
  pub trustable : Bool

-- `Peer{}`
abbrev pub zero_peer : Peer
zero_peer = record {
  address = "";
  host = "";
  port = 0;
  source = "";
  pool_id = "";
  stake = 0;
  valency = 0;
  warm_valency = 0;
  advertise = Bool.false;
  trustable = Bool.false;
}

abbrev pub LedgerPeerSnapshotKind : Type 0
LedgerPeerSnapshotKind = String

abbrev pub ledger_peer_snapshot_all : LedgerPeerSnapshotKind
ledger_peer_snapshot_all = "all-ledger-peers"

abbrev pub ledger_peer_snapshot_big : LedgerPeerSnapshotKind
ledger_peer_snapshot_big = "big-ledger-peers"

abbrev pub LedgerRelayKind : Type 0
LedgerRelayKind = String

abbrev pub ledger_relay_single_host_address : LedgerRelayKind
ledger_relay_single_host_address = "single-host-address"

abbrev pub ledger_relay_single_host_name : LedgerRelayKind
ledger_relay_single_host_name = "single-host-name"

abbrev pub ledger_relay_srv : LedgerRelayKind
ledger_relay_srv = "srv"

pub record LedgerRelay : Type 0 where
  pub kind : LedgerRelayKind
  pub hostname : String
  pub srv_name : String
  pub port : ℕ
  pub ipv4 : Bytes
  pub ipv6 : Bytes

pub record LedgerPeer : Type 0 where
  pub pool_id : String
  pub stake : ℕ
  pub relays : List LedgerRelay

pub record LedgerPeerSnapshot : Type 0 where
  pub slot : ℕ
  pub peers : List LedgerPeer

-- dingo's parsed topology, by the fields that `TopologyPeers` reads.
pub record AccessPoint : Type 0 where
  pub address : String
  pub port : ℕ

pub record TopologyRoot : Type 0 where
  pub access_points : List AccessPoint
  pub valency : ℕ
  pub warm_valency : ℕ
  pub advertise : Bool
  pub trustable : Bool

pub record TopologyConfig : Type 0 where
  pub local_roots : List TopologyRoot
  pub public_roots : List TopologyRoot
  pub bootstrap_peers : List AccessPoint

-- A snapshot provider answers a call with a snapshot or an error.
abbrev pub LedgerPeerSnapshotProvider : Type 0
LedgerPeerSnapshotProvider = LedgerPeerSnapshotKind → Result LedgerPeerSnapshot

pub record LedgerPeerDiscoveryConfig : Type 0 where
  pub enabled : Bool
  pub use_ledger_after_slot : ℤ
  pub refresh_interval : ℤ
  pub target : ℤ
  pub big_ledger_target : ℤ
  pub provider : Option LedgerPeerSnapshotProvider
  pub allow_unsupported : Bool

pub record DiscoveryConfig : Type 0 where
  pub topology : Option TopologyConfig
  pub static_peers : List Peer
  pub peer_sharing : Bool
  pub peer_sharing_quota : ℤ
  pub topology_quota : ℤ
  pub ledger_peers : LedgerPeerDiscoveryConfig
