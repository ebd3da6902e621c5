-- ===== src/Node.antt =====
-- topic_node.go: a manager with one topic and, where networking is configured, one service. The
-- methods that pass a call on to the manager or the service take a node, or none for a nil one.
pub mod Assembly
use dmq_lib.Prelude.{
  ℕ, String, Bool, true, false, ◌||◌, not, Option, none, some, List, [], ◌∷◌, ◌++◌, ◌==◌, string_eq,
  length, ltb, if◌then◌else◌, Bytes, map,
}
use dmq_lib.Errors.{Error, Result, ok, err, plain, ◌>>=◌}
use dmq_lib.Time.{Time}
use dmq_lib.Peer.{
  Peer, DiscoveryConfig, TopologyConfig, LedgerPeerDiscoveryConfig, peer_source_static,
}
use dmq_lib.Prelude.Int.{pos}
use dmq_lib.Config.{TopicConfig, ManagerConfig}
use dmq_lib.Wire.{DmqMessage, Wire}
use dmq_lib.Topic.{Subscription}
use dmq_lib.Manager.{
  Manager, new_manager, register_topic, manager_publish, manager_submit_signed, manager_subscribe,
  begin_shutdown, finish_shutdown, unregister_service, is_set,
}
use dmq_lib.Network.{NodeToNodeConfig, Service, start_node_to_node, close_service}

pub record TopicNodeConfig : Type 0 where
  pub topic : String
  pub manager_config : ManagerConfig
  pub topic_config : TopicConfig
  pub topology_file : String
  pub static_peers : List Peer
  pub node_to_node : NodeToNodeConfig

pub record TopicNode : Type 0 where
  pub topic : String
  pub manager : Manager
  pub service : Option Service

abbrev pub has_any {ℓ} : {A : Type ℓ} → List A → Bool
has_any [] = false
has_any (x ∷ xs) = true

-- discovery.go, `DiscoveryConfig{StaticPeers: …}`.
abbrev pub discovery_of : List Peer → Option TopologyConfig → DiscoveryConfig
discovery_of peers topology = record {
  topology = topology;
  static_peers = peers;
  peer_sharing = false;
  peer_sharing_quota = pos 0;
  topology_quota = pos 0;
  ledger_peers = record {
    enabled = false;
    use_ledger_after_slot = pos 0;
    refresh_interval = pos 0;
    target = pos 0;
    big_ledger_target = pos 0;
    provider = none;
    allow_unsupported = false;
  };
}

abbrev pub as_static : Peer → Peer
as_static p = if p.source == "" then record p { source = peer_source_static } else p

-- discovery.go, `NewDiscoveryConfig`; `parse` is `ParseTopologyFile`.
unfoldable pub new_discovery_config :
    (String → Result TopologyConfig) → String → List Peer → Result DiscoveryConfig
new_discovery_config parse file peers =
    if file == "" then ok (discovery_of (map as_static peers) none) else elim (parse file) [
      | err e ↦ err e
      | ok topology ↦ ok (discovery_of (map as_static peers) (some topology))
    ]

unfoldable pub merge_discovery_config : DiscoveryConfig → DiscoveryConfig → DiscoveryConfig
merge_discovery_config base overlay = record base {
  topology = elim overlay.topology [ none ↦ base.topology | some t ↦ some t ];
  static_peers =
      if has_any overlay.static_peers
      then base.static_peers ++ overlay.static_peers
      else base.static_peers;
}

unfoldable pub topic_node_network_configured : TopicConfig → NodeToNodeConfig → Bool
topic_node_network_configured topic_cfg node_cfg =
    not (node_cfg.listen_address == "")
    || has_any node_cfg.peers
    || is_set topic_cfg.discovery.topology
    || has_any topic_cfg.discovery.static_peers
    || topic_cfg.discovery.ledger_peers.enabled

-- The topic's configuration with the file and the static peers merged in.
unfoldable pub node_topic_config :
    (String → Result TopologyConfig) → TopicNodeConfig → Result TopicConfig
node_topic_config parse cfg =
    if not (cfg.topology_file == "") || has_any cfg.static_peers
    then elim (new_discovery_config parse cfg.topology_file cfg.static_peers) [
      | err e ↦ err e
      | ok discovery ↦ ok (record (cfg.topic_config) {
        discovery = merge_discovery_config cfg.topic_config.discovery discovery;
      })
    ]
    else ok cfg.topic_config

-- `NewTopicNode` with a context; the number of the service, the context's end and the listener's
-- answer are arguments.
unfoldable pub new_topic_node :
    (Bytes → String)
    → (String → Result TopologyConfig)
    → TopicNodeConfig
    → ℕ
    → Option Error
    → Result (Unit {0})
    → Result TopicNode
new_topic_node ip_string parse cfg id cancelled listened = elim (node_topic_config parse cfg) [
  | err e ↦ err e
  | ok topic_cfg ↦
      let (m, refused) = register_topic (new_manager cfg.manager_config) cfg.topic topic_cfg in
      let (m', started) =
        start_node_to_node ip_string m id cfg.topic cfg.node_to_node cancelled listened in
      elim refused [
        | some e ↦ err e
        | none ↦
            if topic_node_network_configured topic_cfg cfg.node_to_node
            then elim started [
              | err e ↦ err e
              | ok s ↦ ok (record { topic = cfg.topic; manager = m'; service = some s })
            ]
            else ok (record { topic = cfg.topic; manager = m; service = none })
      ]
]

abbrev pub topic_node_nil : Error
topic_node_nil = plain "dmq topic node is nil"

-- if n == nil { return …, errTopicNodeNil }; return n.manager.Method(n.topic, …)
unfoldable pub on_node {ℓ} :
    {A : Type ℓ}
    → Option TopicNode
    → (Manager → String → Manager × Result A)
    → Option TopicNode × Result A
on_node none call = (none, err topic_node_nil)
on_node (some n) call =
    (some (record n { manager = (call n.manager n.topic).0 }), (call n.manager n.topic).1)

unfoldable pub node_publish :
    Wire
    → Option TopicNode
    → Bytes
    → Time
    → Time
    → Time
    → Option TopicNode × Result (Option DmqMessage)
node_publish w n body signed checked now =
    on_node n (λ m name. manager_publish w m name body signed checked now)

unfoldable pub node_submit_signed :
    Wire
    → Option TopicNode
    → Option DmqMessage
    → Time
    → Time
    → Option TopicNode × Result (Option DmqMessage)
node_submit_signed w n msg checked now =
    on_node n (λ m name. manager_submit_signed w m name msg checked now)

unfoldable pub node_subscribe : Option TopicNode → Option TopicNode × Result Subscription
node_subscribe n = on_node n manager_subscribe

unfoldable pub peer_count : Option TopicNode → ℕ
peer_count none = 0
peer_count (some n) = elim n.service [ none ↦ 0 | some s ↦ length s.peers ]

-- `Shutdown` of the node, run to its end: the service is closed, then the topic.
unfoldable pub node_shutdown : Option TopicNode → Option TopicNode
node_shutdown none = none
node_shutdown (some n) =
    let (m, first) = begin_shutdown n.manager in
    if first
    then some (record n {
      manager = finish_shutdown (elim n.service [ none ↦ m | some s ↦ unregister_service m s.id ]);
      service = elim n.service [ none ↦ none | some s ↦ some (close_service s) ];
    })
    else some n
