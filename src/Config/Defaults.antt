-- ===== src/Config/Defaults.antt =====
-- What the defaults of types.go and discovery.go establish.
use dmq_lib.Prelude.{◌≡◌, ◌≢◌, true, arith}
use dmq_lib.Prelude.Int.{ℤ, pos, ltb_ℤ, ◌≤ℤ◌}
use dmq_lib.Config.{TopicConfig, default_topic_config}

abbrev IsPositive : ℤ → Type 0
IsPositive x = ltb_ℤ (pos 0) x ≡ true

-- A configuration that needs no default: every size, duration and quota that must be positive is,
-- the ledger targets are not zero, and each pair of limits is in order.
pub record IsComplete (cfg : TopicConfig) : Type 0 where
  pub max_messages : IsPositive cfg.queue.max_messages
  pub subscriber_buffer : IsPositive cfg.queue.subscriber_buffer
  pub duplicate_ttl : IsPositive cfg.queue.duplicate_ttl
  pub default_ttl : IsPositive cfg.ttl.default_ttl
  pub max_ttl : cfg.ttl.default_ttl ≤ℤ cfg.ttl.max_ttl
  pub initial_backoff : IsPositive cfg.reconnect.initial_backoff
  pub max_backoff : cfg.reconnect.initial_backoff ≤ℤ cfg.reconnect.max_backoff
  pub topology_quota : IsPositive cfg.discovery.topology_quota
  pub peer_sharing_quota : IsPositive cfg.discovery.peer_sharing_quota
  pub refresh_interval : IsPositive cfg.discovery.ledger_peers.refresh_interval
  pub target : cfg.discovery.ledger_peers.target ≢ pos 0
  pub big_ledger_target : cfg.discovery.ledger_peers.big_ledger_target ≢ pos 0

-- Whatever is configured, zero and negative values and limits out of order included, the defaults
-- make it complete.
pub default_topic_config-IsComplete : (cfg : TopicConfig) → IsComplete (default_topic_config cfg)
unfolding default_topic_config
default_topic_config-IsComplete cfg = ground arith

-- A complete configuration is left as it is, in every field.
pub default_topic_config_keeps :
    (cfg : TopicConfig) → IsComplete cfg → default_topic_config cfg ≡ cfg
unfolding default_topic_config
default_topic_config_keeps cfg h = ground arith
