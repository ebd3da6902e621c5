-- ===== src/Tests/Window.antt =====
-- Examples of what is shown of the window of duplicate suppression.
use dmq_lib.Prelude.{length, ◌≡◌, ◌↔◌, refl, none, some, [], ◌∷◌, true, inl, arith}
use dmq_lib.Prelude.Dict.{lookup, has, insert, retain}
use dmq_lib.Time.{seconds, time_sub}
use dmq_lib.Config.{default_topic_config}
use dmq_lib.Topic.{
  pruned, TopicRuntime, new_topic_runtime, submit_signed, normalize_and_validate_message,
  validate_message_ttl, authenticate, admit, prune_queue_locked, prune_seen_locked,
}
use dmq_lib.Topic.Forgetting.{passed, resubmission_iff}
use dmq_lib.Tests.{sample_wire, sample_wire-IsWire, sample_message, sample_config}

-- A topic that accepted the message at the first second; its window is ten minutes.
abbrev one_accepted : TopicRuntime
one_accepted = record (new_topic_runtime "news" (default_topic_config sample_config)) {
  queue = sample_message ∷ [];
  seen = (7 ∷ 8 ∷ [], seconds 1) ∷ [];
}

resubmission_iff_example :
    ((submit_signed sample_wire one_accepted
        (some sample_message)
        "remote"
        none
        (seconds 700)
        (seconds 700)).error
      ≡ none)
    ↔ (passed one_accepted (seconds 1) (seconds 700) ≡ true)
unfolding new_topic_runtime default_topic_config submit_signed normalize_and_validate_message
    validate_message_ttl authenticate admit prune_queue_locked prune_seen_locked retain time_sub has
    insert lookup
resubmission_iff_example =
    resubmission_iff sample_wire sample_wire-IsWire one_accepted sample_message "remote" none
      (seconds 700) (seconds 1) (seconds 700) (7 ∷ 8 ∷ []) (refl, tt) refl refl
      (omega arith, refl, inl refl) refl refl refl refl

-- The window has passed by then.
passed_by_then : passed one_accepted (seconds 1) (seconds 700) ≡ true
unfolding new_topic_runtime default_topic_config time_sub
passed_by_then = refl

still_queued : length (pruned sample_wire (seconds 700) one_accepted).queue ≡ 1
unfolding new_topic_runtime default_topic_config validate_message_ttl prune_queue_locked
    prune_seen_locked
still_queued = refl
