-- ===== src/Manager/Shutdown.antt =====
-- `Shutdown` of manager.go, with other calls before, between and after its two halves.
use dmq_lib.Prelude.{
  ◌≡◌, ◌≢◌, refl, sym, ◌∙◌, String, true, Option, none, some, List, [], ◌∷◌, Bytes, string_eq,
  arith, option_cases,
}
use dmq_lib.Prelude.Dict.{Dict, lookup}
use dmq_lib.Errors.{Result, err, sentinel, manager_closed, result_cases}
use dmq_lib.Time.{Time}
use dmq_lib.Peer.{Peer}
use dmq_lib.Wire.{DmqMessage, Wire}
use dmq_lib.Topic.{TopicRuntime, close, submit_signed, normalize_and_validate_message}
use dmq_lib.Topic.Cases.{submit_cases, admit_cases}
use dmq_lib.Run.Kept.{step-Kept}
use dmq_lib.Manager.{
  Manager, topic, on_topic, register_topic, register_service, begin_shutdown, close_topics,
  finish_shutdown, manager_publish, manager_submit_signed, manager_submit_remote, manager_subscribe,
  topic_peers, unregister_service,
}
use dmq_lib.Manager.Calls.{
  ManagerCall, registers, publishes_on, submits_signed, submits_remote, subscribes_to, asks_peers,
  on_runtime, starts_service, stops_service, begins_shutdown, finishes_shutdown, hold, manager_step,
  manager_run,
}
use dmq_lib.Manager.Isolation.{stays, moves, appears, manager_step-Change}

-- A manager that is shut down, and so is each topic.
record IsShutDown (m : Manager) : Type 0 where
  closed : m.closed ≡ true
  topics : (name : String) (rt : TopicRuntime) → lookup name m.topics ≡ some rt → rt.closed ≡ true

abbrev IsClosed : Manager → Type 0
IsClosed m = m.closed ≡ true

on_topic-IsClosed {ℓ} :
    {A : Type ℓ} (m : Manager) (name : String) (call : TopicRuntime → TopicRuntime × Result A)
    → IsClosed m
    → IsClosed (on_topic m name call).0
unfolding on_topic
on_topic-IsClosed {A = A} m name call h =
    result_cases {A = Manager × Result A} (λ r. IsClosed r.0) (topic m name) _ _ (λ _ _. h)
      (λ _ _. h)

module _ (w : Wire) (ip_string : Bytes → String) where
  -- No call opens a manager.
  manager_step-IsClosed :
      (m : Manager) (c : ManagerCall) → IsClosed m → IsClosed (manager_step w ip_string m c)
  unfolding manager_step register_topic hold begin_shutdown register_service unregister_service
      finish_shutdown
  manager_step-IsClosed m (registers name cfg) h = ground (arith, h)
  manager_step-IsClosed m (publishes_on name body signed checked now) h =
      unfold manager_publish in on_topic-IsClosed m name _ h
  manager_step-IsClosed m (submits_signed name msg checked now) h =
      unfold manager_submit_signed in on_topic-IsClosed m name _ h
  manager_step-IsClosed m (submits_remote name msg peer checked now) h =
      unfold manager_submit_remote in on_topic-IsClosed m name _ h
  manager_step-IsClosed m (subscribes_to name) h =
      unfold manager_subscribe in on_topic-IsClosed m name _ h
  manager_step-IsClosed m (asks_peers name) h = unfold topic_peers in on_topic-IsClosed m name _ h
  manager_step-IsClosed m (on_runtime name c) h =
      option_cases IsClosed (lookup name m.topics) _ _ (λ _. h) (λ _ _. h)
  manager_step-IsClosed m (starts_service i) h = ground (arith, h)
  manager_step-IsClosed m (stops_service i) h = h
  manager_step-IsClosed m begins_shutdown h = ground (arith, h)
  manager_step-IsClosed m finishes_shutdown h = h

  manager_run-IsClosed :
      (m : Manager) (cs : List ManagerCall) → IsClosed m → IsClosed (manager_run w ip_string m cs)
  unfolding manager_run
  manager_run-IsClosed m [] h = h
  manager_run-IsClosed m (c ∷ cs) h =
      manager_run-IsClosed (manager_step w ip_string m c) cs (manager_step-IsClosed m c h)

  manager_step-IsShutDown :
      (m : Manager) (c : ManagerCall) → IsShutDown m → IsShutDown (manager_step w ip_string m c)
  manager_step-IsShutDown m c s = record {
    closed = manager_step-IsClosed m c s.closed;
    topics = λ name rt e. elim (manager_step-Change w ip_string m name c) [
      | stays same ↦ s.topics name rt (sym same ∙ e)
      | moves before d found after ↦
          let k = (step-Kept w ip_string before d).closed (s.topics name before found) in
          cc (k, after, e)
      | appears cfg missing unclosed auth after ↦ cc (unclosed, s.closed)
    ];
  }

  manager_run-IsShutDown :
      (m : Manager) (cs : List ManagerCall)
      → IsShutDown m
      → IsShutDown (manager_run w ip_string m cs)
  unfolding manager_run
  manager_run-IsShutDown m [] s = s
  manager_run-IsShutDown m (c ∷ cs) s =
      manager_run-IsShutDown (manager_step w ip_string m c) cs (manager_step-IsShutDown m c s)

close-closed : (t : TopicRuntime) → (close t).closed ≡ true
unfolding close
close-closed t = ground arith

close_topics-closed :
    (ts : Dict String TopicRuntime) (name : String) (rt : TopicRuntime)
    → lookup name (close_topics ts) ≡ some rt
    → rt.closed ≡ true
unfolding lookup close_topics
close_topics-closed [] name rt e = cc
close_topics-closed ((k, t) ∷ ts) name rt e =
    ground (arith, e, close-closed t, close_topics-closed ts name rt)

begin_shutdown-IsClosed : (m : Manager) → IsClosed (begin_shutdown m).0
unfolding begin_shutdown
begin_shutdown-IsClosed m = ground arith

finish_shutdown-IsShutDown : (m : Manager) → IsClosed m → IsShutDown (finish_shutdown m)
unfolding finish_shutdown
finish_shutdown-IsShutDown m h = record { closed = h; topics = close_topics-closed m.topics }

submit_signed_closed :
    (w : Wire) (t : TopicRuntime) (msg : DmqMessage) (source : String) (peer : Option Peer)
    (checked now : Time)
    → t.closed ≡ true
    → (submit_signed w t (some msg) source peer checked now).error ≢ none
submit_signed_closed w t msg source peer checked now h =
    submit_cases w t source peer now (λ o. o.error ≢ none) checked msg (λ _ _ x. cc) (λ _ _ _ x. cc)
      (λ _ _ _ _ x. cc)
      (λ _ _ _.
        admit_cases w t source peer now (λ o. o.error ≢ none)
          (normalize_and_validate_message w msg).0 (λ _ x. cc) (λ c _ x. cc (c, h))
          (λ c _ _ x. cc (c, h)) (λ c _ _ x. cc (c, h)))

-- Once a shutdown of a manager has run to its end, whatever was called in its middle and whatever is
-- called afterwards, every lookup of a topic gives `ErrManagerClosed`, and no submission is
-- accepted, even by a topic that the caller has held from before.
pub shutdown_final :
    (w : Wire) (ip_string : Bytes → String) (m : Manager) (between after : List ManagerCall)
    (name : String)
    → let u =
        manager_run w ip_string
          (finish_shutdown (manager_run w ip_string (begin_shutdown m).0 between))
          after in
      (topic u name ≡ err (sentinel manager_closed))
      × ((rt : TopicRuntime) (msg : DmqMessage) (source : String) (peer : Option Peer)
            (checked now : Time)
          → lookup name u.topics ≡ some rt
          → (submit_signed w rt (some msg) source peer checked now).error ≢ none)
unfolding topic
shutdown_final w ip_string m between after name =
    let s = manager_run-IsShutDown w ip_string _ after (
      finish_shutdown-IsShutDown _ (
        manager_run-IsClosed w ip_string (begin_shutdown m).0 between
          (begin_shutdown-IsClosed m))) in
    (
      rw s.closed refl,
      λ rt msg source peer checked now e.
          submit_signed_closed w rt msg source peer checked now (s.topics name rt e),
    )
