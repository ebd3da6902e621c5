-- ===== src/Config.antt =====
-- types.go: the configuration of managers, topics and node-to-node services, with the defaults of
-- types.go and discovery.go. A hook is modelled by whether it is set; what it is called with is in
-- the event log of the topic.
pub mod Defaults
use dmq_lib.Prelude.{ℕ, String, Bool, Option, List, if◌then◌else◌, Bytes, ◌==◌, nat_eq}
use dmq_lib.Prelude.Int.{ℤ, pos, negsuc, ltb_ℤ}
use dmq_lib.Errors.{Result}
use dmq_lib.Time.{Time, Duration, seconds, minutes, is_nonpositive}
use dmq_lib.Peer.{Peer, DiscoveryConfig, LedgerPeerDiscoveryConfig}
use dmq_lib.Wire.{DmqMessage, DmqMessagePayload, Authenticator}
use dmq_lib.Payload.{default_message_ttl, max_message_ttl}

-- The answer of `Sign(ctx, topic, payload)`; the message may be nil.
abbrev pub Signer : Type 0
Signer = String → DmqMessagePayload → Result (Option DmqMessage)

pub record QueueConfig : Type 0 where
  pub max_messages : ℤ
  pub subscriber_buffer : ℤ
  pub duplicate_ttl : Duration

pub record TtlPolicy : Type 0 where
  pub default_ttl : Duration
  pub max_ttl : Duration
  pub disable : Bool

pub record AuthenticationConfig : Type 0 where
  pub required : Bool
  pub authenticator : Option Authenticator
  pub allow_unauthenticated : Bool

pub record ReconnectConfig : Type 0 where
  pub initial_backoff : Duration
  pub max_backoff : Duration

pub record Hooks : Type 0 where
  pub on_message_accepted : Bool
  pub on_message_rejected : Bool
  pub on_peer_discovered : Bool
  pub on_error : Bool

pub record TopicConfig : Type 0 where
  pub network_magic : ℕ
  pub discovery : DiscoveryConfig
  pub queue : QueueConfig
  pub ttl : TtlPolicy
  pub reconnect : ReconnectConfig
  pub authentication : AuthenticationConfig
  pub hooks : Hooks
  pub signer : Option Signer

pub record ManagerConfig : Type 0 where
  pub signer : Option Signer
  pub authenticator : Option Authenticator

abbrev pub message_source_local : String
message_source_local = "local"

abbrev pub message_source_remote : String
message_source_remote = "remote"

-- The envelope that a subscriber receives.
pub record Message : Type 0 where
  pub topic : String
  pub message : DmqMessage
  pub id : Bytes
  pub body : Bytes
  pub source : String
  pub peer : Option Peer
  pub received_at : Time

-- if x <= 0 { x = d }
abbrev pub or_default : ℤ → ℤ → ℤ
or_default x d = if is_nonpositive x then d else x

-- if x < lo { x = lo }
abbrev pub at_least : ℤ → ℤ → ℤ
at_least lo x = if ltb_ℤ x lo then lo else x

-- if x == 0 { x = d }
abbrev pub zero_default : ℤ → ℤ → ℤ
zero_default (pos n) d = if n == 0 then d else pos n
zero_default (negsuc n) d = negsuc n

unfoldable pub default_reconnect_config : ReconnectConfig → ReconnectConfig
default_reconnect_config cfg =
    let initial = or_default cfg.initial_backoff (seconds 1) in
    record {
      initial_backoff = initial;
      max_backoff = at_least initial (or_default cfg.max_backoff (minutes 2));
    }

pub default_discovery_config : DiscoveryConfig → DiscoveryConfig
default_discovery_config cfg = record cfg {
  topology_quota = or_default cfg.topology_quota (pos 20);
  peer_sharing_quota = or_default cfg.peer_sharing_quota (pos 20);
  ledger_peers = record (cfg.ledger_peers) {
    refresh_interval = or_default cfg.ledger_peers.refresh_interval (minutes 60);
    target = zero_default cfg.ledger_peers.target (pos 20);
    big_ledger_target = zero_default cfg.ledger_peers.big_ledger_target (pos 5);
  };
}

unfoldable pub default_topic_config : TopicConfig → TopicConfig
unfolding default_reconnect_config default_discovery_config
default_topic_config cfg =
    let default_ttl = or_default cfg.ttl.default_ttl default_message_ttl in
    record cfg {
      queue = record {
        max_messages = or_default cfg.queue.max_messages (pos 100);
        subscriber_buffer = or_default cfg.queue.subscriber_buffer (pos 16);
        duplicate_ttl = or_default cfg.queue.duplicate_ttl (minutes 10);
      };
      ttl = record (cfg.ttl) {
        default_ttl = default_ttl;
        max_ttl = at_least default_ttl (or_default cfg.ttl.max_ttl max_message_ttl);
      };
      reconnect = default_reconnect_config cfg.reconnect;
      discovery = default_discovery_config cfg.discovery;
    }
