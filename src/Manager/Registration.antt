-- ===== src/Manager/Registration.antt =====
-- `RegisterTopic` of manager.go.
use dmq_lib.Prelude.{
  ◌≡◌, ◌≢◌, ◌↔◌, refl, String, true, false, none, ◌==◌, ==_iff, string_eq, if◌then◌else◌, arith,
}
use dmq_lib.Prelude.Dict.{has, lookup-insert}
use dmq_lib.Errors.{ok}
use dmq_lib.Config.{TopicConfig, default_topic_config}
use dmq_lib.Topic.{new_topic_runtime}
use dmq_lib.Manager.{Manager, configured, is_set, or_else, register_topic, topic}

-- A required authenticator is there, the topic's own or the manager's.
abbrev pub Authenticates : Manager → TopicConfig → Type 0
Authenticates m cfg =
    cfg.authentication.required ≡ true
    → is_set (or_else cfg.authentication.authenticator m.auth) ≡ true

pub configured-required :
    (m : Manager) (cfg : TopicConfig)
    → (configured m cfg).authentication.required ≡ cfg.authentication.required
unfolding configured default_topic_config
configured-required m cfg = refl

pub configured-authenticator :
    (m : Manager) (cfg : TopicConfig)
    → (configured m cfg).authentication.authenticator ≡ (
        if cfg.authentication.required
        then or_else cfg.authentication.authenticator m.auth
        else cfg.authentication.authenticator)
unfolding configured default_topic_config
configured-authenticator m cfg = refl

-- A registration succeeds exactly where the name is not empty, the manager is open, the name is free,
-- and, where the topic requires authentication, the topic or the manager has an authenticator.
pub register_topic_iff :
    (m : Manager) (name : String) (cfg : TopicConfig)
    → ((register_topic m name cfg).1 ≡ none)
      ↔ ((name ≢ "") × (m.closed ≡ false) × (has name m.topics ≡ false) × Authenticates m cfg)
unfolding register_topic
register_topic_iff m name cfg = (
  λ h. ground (arith, ==_iff name "", configured-required m cfg, configured-authenticator m cfg, h),
  λ h.
      ground (
        arith,
        ==_iff name "",
        configured-required m cfg,
        configured-authenticator m cfg,
        h.0,
        h.1,
      ),
)

-- Where the registration of a topic succeeds, the topic's runtime is the new one, with the
-- defaults and the manager's signer and authenticator filled in, and no other topic changes; where it
-- fails, the manager is as it was.
pub register_topic-topic :
    (m : Manager) (name other : String) (cfg : TopicConfig)
    → topic (register_topic m name cfg).0 other ≡ (
        if is_set (register_topic m name cfg).1
        then topic m other
        else if name == other
        then ok (new_topic_runtime name (configured m cfg))
        else topic m other)
unfolding register_topic topic
register_topic-topic m name other cfg =
    ground (arith, lookup-insert name other (new_topic_runtime name (configured m cfg)) m.topics)
