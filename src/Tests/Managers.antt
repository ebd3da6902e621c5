-- ===== src/Tests/Managers.antt =====
-- Examples of what is shown of managers and of message-submission flows.
use dmq_lib.Prelude.{
  ℕ, ◌≡◌, ◌≢◌, ◌+◌, ◌↔◌, refl, String, string_eq, false, Option, none, some, List, [], ◌∷◌, length,
  All, arith,
}
use dmq_lib.Prelude.Dict.{lookup, has}
use dmq_lib.Errors.{err, sentinel, manager_closed}
use dmq_lib.Time.{Time, seconds}
use dmq_lib.Peer.{Peer}
use dmq_lib.Wire.{DmqMessage, MessageIdAndSize}
use dmq_lib.Config.{default_topic_config}
use dmq_lib.Topic.{
  TopicRuntime, new_topic_runtime, submit_signed, message_ids, collect_ids, prune_queue_locked,
  validate_message_ttl,
}
use dmq_lib.Run.{Call, submits, run}
use dmq_lib.Manager.{Manager, new_manager, register_topic, begin_shutdown, finish_shutdown, topic}
use dmq_lib.Manager.Registration.{Authenticates, register_topic_iff}
use dmq_lib.Manager.Calls.{
  ManagerCall, registers, submits_signed, subscribes_to, begins_shutdown, manager_step, manager_run,
}
use dmq_lib.Manager.Isolation.{Change, manager_step-Change}
use dmq_lib.Manager.Lifetime.{IsManaged, manager_run-IsManaged}
use dmq_lib.Manager.Shutdown.{shutdown_final}
use dmq_lib.Submission.{
  SubmissionFlow, new_flow, new_ids, mem, ids_of, unannounced, announce, Request, messages,
  request_ids, on_reply_message_ids,
}
use dmq_lib.Submission.Announcing.{batches, announced_once}
use dmq_lib.Submission.Holding.{Answers, reply_ids_answers}
use dmq_lib.Submission.Acknowledging.{
  Pull, starts, replies_ids, AsksIds, asked, acked_or_outstanding,
}
use dmq_lib.Tests.{sample_wire, no_ip, sample_message, sample_config}

abbrev sample_manager : Manager
sample_manager =
    (register_topic (new_manager (record { signer = none; authenticator = none })) "news"
      sample_config).0

abbrev manager_calls : List ManagerCall
manager_calls =
    registers "news" sample_config
    ∷ subscribes_to "news"
    ∷ submits_signed "news" (some sample_message) (seconds 1) (seconds 1)
    ∷ begins_shutdown
    ∷ []

abbrev news : String
news = "news"

abbrev chat : String
chat = "chat"

register_topic_iff_example : ((register_topic sample_manager chat sample_config).1 ≡ none) ↔ (
    (chat ≢ "")
    × (sample_manager.closed ≡ false)
    × (has chat sample_manager.topics ≡ false)
    × Authenticates sample_manager sample_config)
register_topic_iff_example = register_topic_iff sample_manager chat sample_config

manager_step-Change_example :
    Change sample_wire no_ip sample_manager "news"
      (lookup "news" sample_manager.topics)
      (lookup "news" (manager_step sample_wire no_ip sample_manager (subscribes_to "news")).topics)
manager_step-Change_example =
    manager_step-Change sample_wire no_ip sample_manager "news" (subscribes_to "news")

manager_run-IsManaged_example : IsManaged (length manager_calls) (
    manager_run sample_wire no_ip
      (new_manager (record { signer = none; authenticator = none }))
      manager_calls)
manager_run-IsManaged_example =
    manager_run-IsManaged sample_wire no_ip (record { signer = none; authenticator = none })
      manager_calls (omega arith)

abbrev shut_down : Manager
shut_down =
    manager_run sample_wire no_ip
      (finish_shutdown
        (manager_run sample_wire no_ip (begin_shutdown sample_manager).0 manager_calls))
      manager_calls

shutdown_final_example :
    (topic shut_down "news" ≡ err (sentinel manager_closed))
    × ((rt : TopicRuntime) (msg : DmqMessage) (source : String) (peer : Option Peer)
          (checked now : Time)
        → lookup "news" shut_down.topics ≡ some rt
        → (submit_signed sample_wire rt (some msg) source peer checked now).error ≢ none)
shutdown_final_example =
    shutdown_final sample_wire no_ip sample_manager manager_calls manager_calls "news"

-- A topic with one message.
abbrev busy_topic : TopicRuntime
busy_topic = record (new_topic_runtime "news" (default_topic_config sample_config)) {
  queue =
      record sample_message {
        payload = record (sample_message.payload) { message_id = 7 ∷ 8 ∷ [] };
      }
      ∷ [];
}

abbrev later_polls : List (List Call × ℕ × Time)
later_polls = ([], 5, seconds 3) ∷ ([], 5, seconds 4) ∷ []

announced_once_example :
    All
      (λ ids. mem (7 ∷ 8 ∷ []) (ids_of ids) ≡ false)
      (batches sample_wire no_ip
        (new_ids sample_wire busy_topic new_flow 5 (seconds 2)).0
        (new_ids sample_wire busy_topic new_flow 5 (seconds 2)).1
        later_polls)
unfolding new_ids unannounced message_ids collect_ids prune_queue_locked validate_message_ttl
    new_topic_runtime default_topic_config announce run
announced_once_example =
    announced_once sample_wire no_ip busy_topic new_flow 5 (seconds 2) (7 ∷ 8 ∷ []) later_polls refl
      (refl, (refl, tt))

-- The peer has announced two IDs that the topic does not know.
abbrev sample_pull : Pull
sample_pull =
    asked (record { flow = new_flow; pending = messages []; told = 0; acked = 0 })
      (request_ids 10 new_flow).0 (request_ids 10 new_flow).1 0

abbrev two_ids : List MessageIdAndSize
two_ids =
    record { message_id = 1 ∷ []; size_in_bytes = 1 }
    ∷ record { message_id = 2 ∷ []; size_in_bytes = 1 }
    ∷ []

abbrev told_two : TopicRuntime × SubmissionFlow × Request
told_two = on_reply_message_ids (λ r. none) 10 busy_topic sample_pull.flow two_ids

acked_or_outstanding_example :
    ((asked sample_pull told_two.1 told_two.2 2).acked
        + (asked sample_pull told_two.1 told_two.2 2).flow.outstanding
      ≡ (asked sample_pull told_two.1 told_two.2 2).told)
    × (AsksIds (asked sample_pull told_two.1 told_two.2 2).pending
        → (asked sample_pull told_two.1 told_two.2 2).acked
          ≡ (asked sample_pull told_two.1 told_two.2 2).told)
unfolding request_ids
acked_or_outstanding_example =
    acked_or_outstanding sample_wire 10 (asked sample_pull told_two.1 told_two.2 2)
      (replies_ids sample_pull (λ r. none) busy_topic two_ids starts tt (omega arith))

-- Nothing is queued at the first poll, and one message at the second.
abbrev two_polls : List (List Call × Time)
two_polls =
    ([], seconds 1)
    ∷ (submits (some sample_message) "local" none (seconds 2) (seconds 2) ∷ [], seconds 2)
    ∷ []

reply_ids_answers_example :
    Answers sample_wire no_ip
      (λ ids. none)
      1
      (new_topic_runtime "events" (default_topic_config sample_config))
      new_flow
      two_polls
reply_ids_answers_example =
    reply_ids_answers sample_wire no_ip (λ ids. none) 1
      (new_topic_runtime "events" (default_topic_config sample_config)) new_flow two_polls
      (omega arith)
