-- ===== src/Tests/Topics.antt =====
-- Examples of what is shown of topics, payloads and configurations.
use dmq_lib.Prelude.{
  Bytes, take, map, filter, any, ◌==◌, bytes_eq, ◌&&◌, ◌≡◌, ◌≢◌, ◌↔◌, refl, none, some, List, [],
  ◌∷◌, length, arith, ltb, ◌/◌, ◌*◌, ◌^◌, ◌+◌, if◌then◌else◌,
}
use dmq_lib.Prelude.Int.{pos}
use dmq_lib.Errors.{ok, err}
use dmq_lib.Time.{nanos_per_second, seconds, time_sub}
use dmq_lib.Payload.{expires_at}
use dmq_lib.Payload.Expiry.{expires_at_exact, out_of_range}
use dmq_lib.Config.{TopicConfig, default_topic_config}
use dmq_lib.Config.Defaults.{IsComplete, default_topic_config-IsComplete}
use dmq_lib.Topic.{
  message_ids, messages_by_ids, clone_message, TopicRuntime, new_topic_runtime, submit_signed,
  subscribe, normalize_and_validate_message, validate_message_ttl, authenticate, admit,
  prune_queue_locked, prune_seen_locked,
}
use dmq_lib.Prelude.Dict.{has, retain}
use dmq_lib.Topic.Invariant.{IsSound}
use dmq_lib.Topic.Delivery.{Effect, submit_signed-Effect}
use dmq_lib.Topic.Listing.{listed, valid_queue, is_valid, message_ids_exact, messages_by_ids_exact}
use dmq_lib.Topic.Admission.{IsWelcome, submit_signed_iff}
use dmq_lib.Topic.Reporting.{Reported, submit_signed-Reported}
use dmq_lib.Run.{Call, submits, subscribes, lists_ids, closes, run}
use dmq_lib.Run.Safety.{run-IsSound}
use dmq_lib.Run.Once.{accepted_once}
use dmq_lib.Tests.{
  sample_wire, sample_wire-IsWire, no_ip, sample_message, another_message, sample_config,
}

abbrev complete_config : TopicConfig
complete_config = default_topic_config sample_config

abbrev sample_topic : TopicRuntime
sample_topic = (subscribe (new_topic_runtime "news" complete_config)).0

abbrev some_calls : List Call
some_calls =
    subscribes
    ∷ submits (some sample_message) "local" none (seconds 1) (seconds 1)
    ∷ submits (some sample_message) "local" none (seconds 2) (seconds 2)
    ∷ closes
    ∷ []

run-IsSound_example : IsSound (length some_calls) (
    run sample_wire no_ip
      (new_topic_runtime "news" (default_topic_config sample_config))
      some_calls)
run-IsSound_example = run-IsSound sample_wire no_ip "news" sample_config some_calls (omega arith)

accepted_once_example :
    (submit_signed sample_wire
      (run sample_wire no_ip
        (submit_signed sample_wire sample_topic
          (some sample_message)
          "local"
          none
          (seconds 1)
          (seconds 1)).topic
        (lists_ids (pos 0) (seconds 2)
          ∷ submits (some another_message) "local" none (seconds 2) (seconds 2)
          ∷ []))
      (some sample_message)
      "remote"
      none
      (seconds 3)
      (seconds 3)).error
    ≢ none
unfolding new_topic_runtime default_topic_config submit_signed subscribe
    normalize_and_validate_message validate_message_ttl authenticate admit has prune_queue_locked
    prune_seen_locked retain time_sub
accepted_once_example =
    accepted_once sample_wire no_ip sample_topic sample_message sample_message "local" "remote" none
      none (seconds 1) (seconds 3) (seconds 1) (seconds 3)
      (lists_ids (pos 0) (seconds 2)
        ∷ submits (some another_message) "local" none (seconds 2) (seconds 2)
        ∷ [])
      refl (tt, (refl, tt)) refl refl

submit_signed-Effect_example :
    Effect sample_wire sample_topic sample_message "local" none (seconds 1) (
      submit_signed sample_wire sample_topic
        (some sample_message)
        "local"
        none
        (seconds 1)
        (seconds 1))
unfolding new_topic_runtime default_topic_config subscribe
submit_signed-Effect_example =
    submit_signed-Effect sample_wire sample_topic sample_message "local" none (seconds 1)
      (seconds 1) (tt, tt)

expires_at_exact_example : expires_at (pos 5) (seconds 60) ≡ (
    if ltb ((5 + 60 * nanos_per_second) / nanos_per_second) (2 ^ 32)
    then ok ((5 + 60 * nanos_per_second) / nanos_per_second)
    else err (out_of_range 5 (60 * nanos_per_second)))
expires_at_exact_example = expires_at_exact 5 (60 * nanos_per_second) (omega arith)

default_topic_config-IsComplete_example : IsComplete (default_topic_config sample_config)
default_topic_config-IsComplete_example = default_topic_config-IsComplete sample_config

submit_signed-Reported_example :
    Reported sample_wire sample_topic sample_message "local" none (seconds 1) (seconds 1) (
      submit_signed sample_wire sample_topic
        (some sample_message)
        "local"
        none
        (seconds 1)
        (seconds 1))
unfolding new_topic_runtime default_topic_config subscribe
submit_signed-Reported_example =
    submit_signed-Reported sample_wire sample_topic sample_message "local" none (seconds 1)
      (seconds 1) refl refl

-- The topic after one accepted message.
abbrev busy : TopicRuntime
busy =
    (submit_signed sample_wire sample_topic (some sample_message) "local" none (seconds 1)
      (seconds 1)).topic

message_ids_exact_example :
    ((message_ids sample_wire busy (pos 1) (seconds 2)).1
      ≡ take 1 (listed sample_wire (valid_queue sample_wire busy (seconds 2))))
    × ((message_ids sample_wire busy (pos 0) (seconds 2)).1
        ≡ listed sample_wire (valid_queue sample_wire busy (seconds 2)))
message_ids_exact_example =
    message_ids_exact sample_wire busy 1 (pos 0) (seconds 2) (omega arith) refl

messages_by_ids_exact_example :
    ((messages_by_ids sample_wire busy ((7 ∷ 8 ∷ []) ∷ []) (seconds 2)).1
      ≡ map (clone_message sample_wire) (
          filter
            (λ m.
              any (λ i. i == sample_wire.msg_id m) ((7 ∷ 8 ∷ []) ∷ [])
              && is_valid sample_wire busy.cfg.ttl (seconds 2) m)
            busy.queue))
    × ((messages_by_ids sample_wire busy ((7 ∷ 8 ∷ []) ∷ []) (seconds 2)).0.queue
        ≡ valid_queue sample_wire busy (seconds 2))
    × ((message_ids sample_wire busy (pos 1) (seconds 2)).0.queue
        ≡ valid_queue sample_wire busy (seconds 2))
messages_by_ids_exact_example =
    messages_by_ids_exact sample_wire busy ((7 ∷ 8 ∷ []) ∷ []) (pos 1) (seconds 2)

submit_signed_iff_example :
    ((submit_signed sample_wire sample_topic
        (some sample_message)
        "remote"
        none
        (seconds 1)
        (seconds 2)).error
      ≡ none)
    ↔ ((i : Bytes) × IsWelcome sample_wire sample_topic sample_message (seconds 1) (seconds 2) i)
submit_signed_iff_example =
    submit_signed_iff sample_wire sample_wire-IsWire sample_topic sample_message "remote" none
      (seconds 1) (seconds 2)
