-- ===== src/Local.antt =====
-- protocol.go: the node-to-client protocols, local message submission and local message notification.
-- A callback works on the topic that the configuration was made for.
pub mod Answers
use dmq_lib.Prelude.{String, Option, none, some, List}
use dmq_lib.Prelude.Int.{ℤ}
use dmq_lib.Errors.{Result, ok, err, RejectReason, reject_reason_from_error}
use dmq_lib.Time.{Time}
use dmq_lib.Wire.{DmqMessage, Wire}
use dmq_lib.Config.{message_source_local}
use dmq_lib.Topic.{TopicRuntime, submit_signed}
use dmq_lib.Manager.{Manager, topic}
use dmq_lib.Submission.{submit_all}

-- What the two configurations hold of the topic.
pub record LocalSubmissionConfig : Type 0 where
  pub topic_name : String

pub record LocalNotificationConfig : Type 0 where
  pub topic_name : String
  pub max_queue_size : ℤ

-- `LocalMessageSubmissionConfig`
unfoldable pub local_message_submission_config : Manager → String → Result LocalSubmissionConfig
local_message_submission_config m name = elim (topic m name) [
  | err e ↦ err e
  | ok rt ↦ ok (record { topic_name = rt.name })
]

-- `LocalMessageNotificationConfig`
unfoldable pub local_message_notification_config : Manager → String → Result LocalNotificationConfig
local_message_notification_config m name = elim (topic m name) [
  | err e ↦ err e
  | ok rt ↦ ok (record { topic_name = rt.name; max_queue_size = rt.cfg.queue.max_messages })
]

module _ (w : Wire) where
  -- The function for a message that a client submits; `none` tells the client that it is accepted.
  unfoldable pub on_submit_message :
      TopicRuntime → Option DmqMessage → Time → Time → TopicRuntime × Option RejectReason
  on_submit_message t msg checked now =
      let out = submit_signed w t msg message_source_local none checked now in
      (out.topic, reject_reason_from_error out.error)

  -- The function for messages that the node notifies of, with the two readings of the clock that each
  -- submission makes; the source is remote and there is no peer.
  unfoldable pub on_reply_notified : TopicRuntime → List (DmqMessage × Time × Time) → TopicRuntime
  on_reply_notified t messages = submit_all w t none messages
