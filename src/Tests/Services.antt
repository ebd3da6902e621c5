-- ===== src/Tests/Services.antt =====
-- Examples of what is shown of node-to-node services and of topic nodes.
use dmq_lib.Prelude.{
  ◌*◌, ◌≡◌, refl, String, true, false, Option, none, List, [], ◌∷◌, string_eq, All, arith,
}
use dmq_lib.Prelude.Int.{pos}
use dmq_lib.Errors.{Error, Result, ok, err, plain}
use dmq_lib.Time.{nanos_per_second}
use dmq_lib.Peer.{TopologyConfig}
use dmq_lib.Config.{TopicConfig, ReconnectConfig, default_reconnect_config, default_topic_config}
use dmq_lib.Prelude.Dict.{has}
use dmq_lib.Topic.{TopicRuntime, new_topic_runtime}
use dmq_lib.Manager.{Manager, new_manager, register_topic, configured}
use dmq_lib.Network.{Service, NodeToNodeConfig, new_node_to_node_service, start_node_to_node}
use dmq_lib.Network.Backoff.{Between, outbound_waits, failures, doubling, outbound_waits-bounds}
use dmq_lib.Network.Calls.{
  ServiceCall, adds_peer, connects, disconnects, accept_fails, opens_listener, closes,
}
use dmq_lib.Network.Starting.{runs, is_ok, start_node_to_node-runs}
use dmq_lib.Network.Peering.{
  Setup, PeerConnection, finished, protocol_failed, close_refused, handshake, by_error, close_peer,
  wait, new_node_to_node_peer_connection,
}
use dmq_lib.Network.Peering.Closing.{IsMade}
use dmq_lib.Network.Peering.Life.{
  Lives, IsClosedBeside, refused, made_now, then_happens, waits, closing,
  new_node_to_node_peer_connection-IsMade,
}
use dmq_lib.Node.{
  TopicNodeConfig, TopicNode, node_topic_config, new_topic_node, topic_node_network_configured,
  new_discovery_config, merge_discovery_config,
}
use dmq_lib.Tests.{no_ip, sample_config, static_peer}

abbrev no_reconnect : ReconnectConfig
no_reconnect = record { initial_backoff = pos 0; max_backoff = pos 0 }

outbound_waits-bounds_example :
    All (Between (default_reconnect_config no_reconnect)) (
      outbound_waits
        (default_reconnect_config no_reconnect)
        (pos nanos_per_second)
        (false ∷ false ∷ true ∷ []))
    × (outbound_waits (default_reconnect_config no_reconnect) (pos nanos_per_second) (failures 3)
        ≡ doubling nanos_per_second (120 * nanos_per_second) 0 3)
    × (outbound_waits (default_reconnect_config no_reconnect) (pos 7) (true ∷ failures 3)
        ≡ doubling nanos_per_second (120 * nanos_per_second) 0 4)
unfolding default_reconnect_config
outbound_waits-bounds_example =
    outbound_waits-bounds no_reconnect nanos_per_second (120 * nanos_per_second) 3 (pos 7)
      (false ∷ false ∷ true ∷ []) refl refl (omega arith)

abbrev dialing_config : NodeToNodeConfig
dialing_config = record {
  listen_address = "";
  peers = static_peer "a:1" ∷ [];
  request_interval = pos 0;
  request_count = 0;
  dial_timeout = pos 0;
  reconnect = no_reconnect;
  hooks = record { on_peer_connected = true; on_peer_disconnected = true; on_error = true };
}

abbrev busy_service : Service
busy_service = record (new_node_to_node_service 1 "news" dialing_config) {
  peers = 4 ∷ [];
  connections = (4, record { peer = static_peer "a:1"; closed = false }) ∷ [];
  outbound = "a:1" ∷ [];
}

abbrev late_calls : List ServiceCall
late_calls =
    connects 5 (static_peer "b:1")
    ∷ adds_peer (static_peer "c:1")
    ∷ disconnects 4 (static_peer "a:1") none
    ∷ accept_fails (plain "closed")
    ∷ opens_listener
    ∷ closes
    ∷ []

abbrev news_manager : Manager
news_manager =
    (register_topic (new_manager (record { signer = none; authenticator = none })) "news"
      sample_config).0

abbrev news_topic : TopicRuntime
news_topic = new_topic_runtime "news" (configured news_manager sample_config)

start_node_to_node-runs_example :
    runs 1 (start_node_to_node no_ip news_manager 1 "news" dialing_config none (ok tt)).0
    ≡ is_ok (start_node_to_node no_ip news_manager 1 "news" dialing_config none (ok tt)).1
unfolding register_topic new_manager has configured default_topic_config
start_node_to_node-runs_example =
    start_node_to_node-runs no_ip news_manager 1 "news" dialing_config none (ok tt) refl

abbrev no_file : String → Result TopologyConfig
no_file path = err (plain "no files")

abbrev open_config : TopicConfig
open_config = record sample_config {
  authentication = record { required = false; authenticator = none; allow_unauthenticated = true };
}

abbrev node_config : TopicNodeConfig
node_config = record {
  topic = "news";
  manager_config = record { signer = none; authenticator = none };
  topic_config = open_config;
  topology_file = "";
  static_peers = static_peer "s:1" ∷ [];
  node_to_node = dialing_config;
}

abbrev merged_config : TopicConfig
merged_config = record open_config {
  discovery = record (open_config.discovery) { static_peers = static_peer "s:1" ∷ [] };
}

-- A node without networking.
abbrev quiet_config : TopicNodeConfig
quiet_config = record node_config {
  static_peers = [];
  node_to_node = record dialing_config { peers = [] };
}

abbrev quiet_node : TopicNode
quiet_node = record {
  topic = "news";
  manager =
      (register_topic (new_manager (record { signer = none; authenticator = none })) "news"
        open_config).0;
  service = none;
}

merged : node_topic_config no_file node_config ≡ ok merged_config
unfolding node_topic_config new_discovery_config merge_discovery_config
merged = refl

quiet : new_topic_node no_ip no_file quiet_config 1 none (ok tt) ≡ ok quiet_node
unfolding node_topic_config new_topic_node register_topic configured new_manager has
    topic_node_network_configured default_topic_config new_discovery_config merge_discovery_config
quiet = refl

-- A connection of a client that agrees on the first version.
abbrev agreed_setup : Setup
agreed_setup = record {
  server = false;
  limited = none;
  ended = finished 1;
  reset = none;
  configured = none;
  initialised = none;
}

-- One whose handshake fails.
abbrev failed_setup : Setup
failed_setup = record agreed_setup { ended = protocol_failed (plain "no version") }

abbrev failed_making : PeerConnection × Option Error
failed_making = new_node_to_node_peer_connection 1 (static_peer "relay") failed_setup

abbrev agreed_making : PeerConnection × Option Error
agreed_making = new_node_to_node_peer_connection 1 (static_peer "relay") agreed_setup

open_life : Lives agreed_making false (close_peer (wait agreed_making.0 by_error))
open_life =
    then_happens (then_happens made_now (waits agreed_making.0 by_error))
      (closing (wait agreed_making.0 by_error))

new_node_to_node_peer_connection-IsMade_example :
    IsMade (protocol_failed (plain "no version")) failed_making
    × IsClosedBeside 1 (close_refused failed_making.0)
unfolding new_node_to_node_peer_connection handshake
new_node_to_node_peer_connection-IsMade_example =
    new_node_to_node_peer_connection-IsMade 1 (static_peer "relay") failed_setup true
      (close_refused failed_making.0) (refused (plain "no version") refl made_now)
