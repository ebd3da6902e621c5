-- ===== src/Topology.antt =====
-- discovery.go, `TopologyPeers`: the peers of a topology file, as one list.
use dmq_lib.Prelude.{Option, none, some, List, [], ◌∷◌, ◌++◌}
use dmq_lib.Peer.{
  Peer, zero_peer, AccessPoint, TopologyRoot, TopologyConfig, peer_source_topology_local_root,
  peer_source_topology_public, peer_source_topology_bootstrap,
}
use dmq_lib.Selector.{new_peer}

unfoldable pub access_point_peers : Peer → List AccessPoint → List Peer
access_point_peers base [] = []
access_point_peers base (ap ∷ aps) = new_peer ap.address ap.port base ∷ access_point_peers base aps

unfoldable pub local_root_peers : List TopologyRoot → List Peer
local_root_peers [] = []
local_root_peers (root ∷ roots) =
    access_point_peers
      (record zero_peer {
        source = peer_source_topology_local_root;
        valency = root.valency;
        warm_valency = root.warm_valency;
        advertise = root.advertise;
        trustable = root.trustable;
      })
      root.access_points
    ++ local_root_peers roots

unfoldable pub public_root_peers : List TopologyRoot → List Peer
public_root_peers [] = []
public_root_peers (root ∷ roots) =
    access_point_peers
      (record zero_peer {
        source = peer_source_topology_public;
        valency = root.valency;
        warm_valency = root.warm_valency;
        advertise = root.advertise;
      })
      root.access_points
    ++ public_root_peers roots

unfoldable pub topology_peers : Option TopologyConfig → List Peer
topology_peers none = []
topology_peers (some cfg) =
    local_root_peers cfg.local_roots
    ++ (public_root_peers cfg.public_roots
        ++ access_point_peers (record zero_peer { source = peer_source_topology_bootstrap })
            cfg.bootstrap_peers)
