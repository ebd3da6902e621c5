-- ===== src/Node/Assembly.antt =====
-- What `NewTopicNode` of topic_node.go puts together.
use dmq_lib.Prelude.{
  ℕ, ◌≡◌, refl, String, true, false, Option, List, [], ◌∷◌, ◌++◌, ◌==◌, string_eq, map, arith,
  Bytes,
}
use dmq_lib.Errors.{Error, Result, ok}
use dmq_lib.Peer.{Peer, TopologyConfig}
use dmq_lib.Config.{TopicConfig}
use dmq_lib.Manager.{is_set}
use dmq_lib.Node.{
  TopicNodeConfig, TopicNode, has_any, as_static, new_discovery_config, merge_discovery_config,
  topic_node_network_configured, node_topic_config, new_topic_node,
}

append_nil : (ps : List Peer) → ps ++ [] ≡ ps
append_nil [] = refl
append_nil (p ∷ ps) = cc (append_nil ps)

has_any-map : (ps : List Peer) → has_any (map as_static ps) ≡ has_any ps
has_any-map [] = refl
has_any-map (p ∷ ps) = refl

none_static : (ps : List Peer) → has_any ps ≡ false → map as_static ps ≡ []
none_static [] h = refl
none_static (p ∷ ps) h = cc

-- The static peers of the node are those of the topic's configuration and then those of the node's,
-- whichever of the file and the peers is given; and a topology that is configured is kept unless the
-- file replaces it.
pub node_topic_config-peers :
    (parse : String → Result TopologyConfig) (cfg : TopicNodeConfig) (c : TopicConfig)
    → node_topic_config parse cfg ≡ ok c
    → (c.discovery.static_peers
        ≡ cfg.topic_config.discovery.static_peers ++ map as_static cfg.static_peers)
      × ((cfg.topology_file == "") ≡ true
          → c.discovery.topology ≡ cfg.topic_config.discovery.topology)
unfolding node_topic_config new_discovery_config merge_discovery_config
node_topic_config-peers parse cfg c h =
    let base = cfg.topic_config.discovery.static_peers in
    ground (arith, h, append_nil base, has_any-map cfg.static_peers, none_static cfg.static_peers)

-- A node that is made has a service exactly where networking is configured on the topic or the node.
pub new_topic_node-service :
    (ip_string : Bytes → String) (parse : String → Result TopologyConfig) (cfg : TopicNodeConfig)
    (id : ℕ) (cancelled : Option Error) (listened : Result (Unit {0})) (c : TopicConfig)
    (n : TopicNode)
    → node_topic_config parse cfg ≡ ok c
    → new_topic_node ip_string parse cfg id cancelled listened ≡ ok n
    → is_set n.service ≡ topic_node_network_configured c cfg.node_to_node
unfolding new_topic_node
new_topic_node-service ip_string parse cfg id cancelled listened c n h e = ground (arith, h, e)
