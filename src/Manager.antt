-- ===== src/Manager.antt =====
-- manager.go: the topics of a manager, by name, and the numbers of its running node-to-node services
-- (the service with a number is in `Network`). The manager's lock makes each lookup and each change
-- one step; a method of a topic runs after the lookup, on the topic that was found.
pub mod Registration
pub mod Calls
pub mod Isolation
pub mod Lifetime
pub mod Shutdown
use dmq_lib.Prelude.{
  ℕ, String, Bool, true, false, ◌&&◌, not, Option, none, some, List, [], ◌∷◌, ◌==◌, nat_eq,
  string_eq, filter, if◌then◌else◌, Bytes,
}
use dmq_lib.Prelude.Dict.{Dict, lookup, insert, has}
use dmq_lib.Errors.{
  Error, Result, ok, err, sentinel, plain, manager_closed, topic_exists, topic_not_found,
  authenticator_required,
}
use dmq_lib.Time.{Time}
use dmq_lib.Peer.{Peer}
use dmq_lib.Wire.{DmqMessage, Authenticator, Wire}
use dmq_lib.Config.{
  Signer, TopicConfig, ManagerConfig, AuthenticationConfig, default_topic_config,
  message_source_local, message_source_remote,
}
use dmq_lib.Topic.{
  TopicRuntime, Subscription, Outcome, new_topic_runtime, publish, submit_signed, subscribe, close,
}
use dmq_lib.Discovery.{discover_peers}

pub record Manager : Type 0 where
  pub signer : Option Signer
  pub auth : Option Authenticator
  pub topics : Dict String TopicRuntime
  pub services : List ℕ
  pub closed : Bool

unfoldable pub new_manager : ManagerConfig → Manager
new_manager cfg = record {
  signer = cfg.signer;
  auth = cfg.authenticator;
  topics = [];
  services = [];
  closed = false;
}

-- if a == nil { a = b }
abbrev pub or_else {ℓ} : {A : Type ℓ} → Option A → Option A → Option A
or_else none b = b
or_else (some a) b = some a

abbrev pub is_set {ℓ} : {A : Type ℓ} → Option A → Bool
is_set none = false
is_set (some a) = true

-- The defaults of a topic, its signer, and its authenticator where one is required.
unfoldable pub configured : Manager → TopicConfig → TopicConfig
configured m cfg =
    let c = default_topic_config cfg in
    let auth = c.authentication in
    record c {
      signer = or_else c.signer m.signer;
      authentication = record auth {
        authenticator =
            if auth.required then or_else auth.authenticator m.auth else auth.authenticator;
      };
    }

-- m.topics[name] = rt
abbrev pub put_topic : Manager → String → TopicRuntime → Manager
put_topic m name rt = record m { topics = insert name rt m.topics }

unfoldable pub register_topic : Manager → String → TopicConfig → Manager × Option Error
register_topic m name cfg =
    let c = configured m cfg in
    let auth = c.authentication in
    if name == ""
    then (m, some (plain "topic is required"))
    else if m.closed
    then (m, some (sentinel manager_closed))
    else if has name m.topics
    then (m, some (sentinel topic_exists))
    else if auth.required && not (is_set auth.authenticator)
    then (m, some (sentinel authenticator_required))
    else (put_topic m name (new_topic_runtime name c), none)

-- `(*Manager).topic`
pub topic : Manager → String → Result TopicRuntime
topic m name =
    if m.closed
    then err (sentinel manager_closed)
    else elim (lookup name m.topics) [ none ↦ err (sentinel topic_not_found) | some rt ↦ ok rt ]

-- rt, err := m.topic(topic); if err != nil { return …, err }; return rt.method(…)
unfoldable pub on_topic {ℓ} :
    {A : Type ℓ} → Manager → String → (TopicRuntime → TopicRuntime × Result A) → Manager × Result A
on_topic m name call = elim (topic m name) [
  | err e ↦ (m, err e)
  | ok rt ↦ (put_topic m name (call rt).0, (call rt).1)
]

-- The message and the error of a topic's method, as the manager returns them: the message is the
-- one the caller holds, whose ID may have been set.
abbrev pub result_of : Option DmqMessage → Option Error → Result (Option DmqMessage)
result_of msg none = ok msg
result_of msg (some e) = err e

abbrev pub passed : Outcome → TopicRuntime × Result (Option DmqMessage)
passed o = (o.topic, result_of o.msg o.error)

pub manager_subscribe : Manager → String → Manager × Result Subscription
manager_subscribe m name = on_topic m name (λ rt. let (rt', sub) = subscribe rt in (rt', ok sub))

module _ (w : Wire) where
  pub manager_publish :
      Manager → String → Bytes → Time → Time → Time → Manager × Result (Option DmqMessage)
  manager_publish m name body signed checked now =
      on_topic m name (λ rt. passed (publish w rt body signed checked now))

  -- `SubmitSigned`
  pub manager_submit_signed :
      Manager → String → Option DmqMessage → Time → Time → Manager × Result (Option DmqMessage)
  manager_submit_signed m name msg checked now =
      on_topic m name (λ rt. passed (submit_signed w rt msg message_source_local none checked now))

  -- `SubmitRemote`
  pub manager_submit_remote :
      Manager
      → String
      → Option DmqMessage
      → Option Peer
      → Time
      → Time
      → Manager × Result (Option DmqMessage)
  manager_submit_remote m name msg peer checked now =
      on_topic m name (λ rt. passed (submit_signed w rt msg message_source_remote peer checked now))

unfoldable pub topic_peers : (Bytes → String) → Manager → String → Manager × Result (List Peer)
topic_peers ip_string m name = on_topic m name (discover_peers ip_string)

unfoldable pub register_service : Manager → ℕ → Manager × Option Error
register_service m service =
    if m.closed
    then (m, some (sentinel manager_closed))
    else (record m { services = service ∷ filter (λ i. not (i == service)) m.services }, none)

unfoldable pub unregister_service : Manager → ℕ → Manager
unregister_service m service = record m { services = filter (λ i. not (i == service)) m.services }

-- `Shutdown` up to the release of the lock: the flag is set, and the services and topics that are
-- there are the ones to close. `false` where it was set already.
pub begin_shutdown : Manager → Manager × Bool
begin_shutdown m = if m.closed then (m, false) else (record m { closed = true }, true)

-- for _, rt := range topics { rt.close() }
pub close_topics : Dict String TopicRuntime → Dict String TopicRuntime
close_topics [] = []
close_topics ((name, rt) ∷ ts) = (name, close rt) ∷ close_topics ts

-- The end of `Shutdown`'s goroutine, once the services are closed.
pub finish_shutdown : Manager → Manager
finish_shutdown m = record m { topics = close_topics m.topics }
