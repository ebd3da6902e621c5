-- ===== src/Manager/Calls.antt =====
-- A manager over its lifetime: any sequence of the calls of manager.go, and of the calls that
-- subscriptions, services and protocol handlers make on a topic they hold, by the name it was
-- registered under. A shutdown is two calls, since others may come between its two halves.
use dmq_lib.Prelude.{ℕ, String, string_eq, Option, none, some, List, [], ◌∷◌, Bytes}
use dmq_lib.Prelude.Dict.{lookup}
use dmq_lib.Time.{Time}
use dmq_lib.Peer.{Peer}
use dmq_lib.Wire.{DmqMessage, Wire}
use dmq_lib.Config.{TopicConfig}
use dmq_lib.Run.{Call, step}
use dmq_lib.Manager.{
  Manager, put_topic, register_topic, manager_publish, manager_submit_signed, manager_submit_remote,
  manager_subscribe, topic_peers, register_service, unregister_service, begin_shutdown,
  finish_shutdown,
}

pub data ManagerCall : Type 0 where
  registers : String → TopicConfig → ManagerCall
  publishes_on : String → Bytes → Time → Time → Time → ManagerCall
  submits_signed : String → Option DmqMessage → Time → Time → ManagerCall
  submits_remote : String → Option DmqMessage → Option Peer → Time → Time → ManagerCall
  subscribes_to : String → ManagerCall
  asks_peers : String → ManagerCall
  on_runtime : String → Call → ManagerCall
  starts_service : ℕ → ManagerCall
  stops_service : ℕ → ManagerCall
  begins_shutdown : ManagerCall
  finishes_shutdown : ManagerCall

module _ (w : Wire) (ip_string : Bytes → String) where
  -- A call on a topic that the caller holds.
  unfoldable pub hold : Manager → String → Call → Manager
  hold m name call = elim (lookup name m.topics) [
    | none ↦ m
    | some rt ↦ put_topic m name (step w ip_string rt call)
  ]

  unfoldable pub manager_step : Manager → ManagerCall → Manager
  manager_step m (registers name cfg) = (register_topic m name cfg).0
  manager_step m (publishes_on name body signed checked now) =
      (manager_publish w m name body signed checked now).0
  manager_step m (submits_signed name msg checked now) =
      (manager_submit_signed w m name msg checked now).0
  manager_step m (submits_remote name msg peer checked now) =
      (manager_submit_remote w m name msg peer checked now).0
  manager_step m (subscribes_to name) = (manager_subscribe m name).0
  manager_step m (asks_peers name) = (topic_peers ip_string m name).0
  manager_step m (on_runtime name call) = hold m name call
  manager_step m (starts_service i) = (register_service m i).0
  manager_step m (stops_service i) = unregister_service m i
  manager_step m begins_shutdown = (begin_shutdown m).0
  manager_step m finishes_shutdown = finish_shutdown m

  unfoldable pub manager_run : Manager → List ManagerCall → Manager
  manager_run m [] = m
  manager_run m (c ∷ cs) = manager_run (manager_step m c) cs
