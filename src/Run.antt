-- ===== src/Run.antt =====
-- A topic over its lifetime: any sequence of the calls of topic.go, discovery.go and of the
-- subscribers, one at a time, as the topic's lock makes them. A reading of the clock is an argument.
pub mod Safety
pub mod Once
pub mod Kept
use dmq_lib.Prelude.{ℕ, suc, String, Option, List, [], ◌∷◌, Bytes}
use dmq_lib.Prelude.Int.{ℤ}
use dmq_lib.Errors.{Error}
use dmq_lib.Time.{Time}
use dmq_lib.Peer.{Peer}
use dmq_lib.Wire.{DmqMessage, Wire}
use dmq_lib.Topic.{
  TopicRuntime, Subscription, submit_signed, publish, message_ids, messages_by_ids, subscribe,
  close, close_subscription, receive_message, call_error,
}
use dmq_lib.Discovery.{discover_peers}

pub data Call : Type 0 where
  submits : Option DmqMessage → String → Option Peer → Time → Time → Call
  publishes : Bytes → Time → Time → Time → Call
  lists_ids : ℤ → Time → Call
  serves : List Bytes → Time → Call
  subscribes : Call
  unsubscribes : Option Subscription → Call
  receives : ℕ → Call
  discovers : Call
  reports : Error → Call
  closes : Call

module _ (w : Wire) (ip_string : Bytes → String) where
  unfoldable pub step : TopicRuntime → Call → TopicRuntime
  step t (submits m source peer checked now) = (submit_signed w t m source peer checked now).topic
  step t (publishes body signed checked now) = (publish w t body signed checked now).topic
  step t (lists_ids max now) = (message_ids w t max now).0
  step t (serves wanted now) = (messages_by_ids w t wanted now).0
  step t subscribes = (subscribe t).0
  step t (unsubscribes sub) = (close_subscription t sub).0
  step t (receives id) = (receive_message t id).0
  step t discovers = (discover_peers ip_string t).0
  step t (reports e) = call_error t e
  step t closes = close t

  unfoldable pub run : TopicRuntime → List Call → TopicRuntime
  unfolding step
  run t [] = t
  run t (c ∷ cs) = run (step t c) cs
