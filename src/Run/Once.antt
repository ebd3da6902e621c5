-- ===== src/Run/Once.antt =====
-- A message is taken once within the window of duplicate suppression, whatever happens between.
use dmq_lib.Prelude.{
  ℕ, ◌≡◌, ◌≢◌, String, Option, none, some, List, [], ◌∷◌, Bytes, All, any, ◌==◌, nat_eq, if_cases,
  option_cases,
}
use dmq_lib.Errors.{Error, Result, result_cases}
use dmq_lib.Time.{Time}
use dmq_lib.Peer.{Peer, ledger_peer_snapshot_all}
use dmq_lib.Wire.{DmqMessage, Wire}
use dmq_lib.Config.{TopicConfig}
use dmq_lib.Topic.{
  TopicRuntime, Subscription, submit_signed, normalize_and_validate_message, subscribe, unsubscribe,
  close, close_subscription, receive_message, message_ids, messages_by_ids, call_error,
}
use dmq_lib.Topic.Quiet.{call_error-Quiet}
use dmq_lib.Topic.Memory.{
  Remembers, InWindow, Quiet-Remembers, prune_queue-Remembers, submit_signed-Remembers,
  publish-Remembers, submit_signed_again, accepted-Remembers,
}
use dmq_lib.Discovery.{refresh, discover_peers}
use dmq_lib.Run.{
  Call, submits, publishes, lists_ids, serves, subscribes, unsubscribes, receives, discovers,
  reports, closes, step, run,
}

-- The call reads the clock within the window.
abbrev pub Within : TopicConfig → Time → Call → Type 0
Within cfg at (submits m source peer checked now) = InWindow cfg at now
Within cfg at (publishes body signed checked now) = InWindow cfg at now
Within cfg at _ = Unit

module _ (cfg : TopicConfig) (key : Bytes) (at : Time) where
  -- The calls of subscribers, and of peer discovery, touch neither configuration nor seen IDs.
  unsubscribe-Remembers :
      (t : TopicRuntime) (id : ℕ) → Remembers cfg key at t → Remembers cfg key at (unsubscribe t id)
  unfolding unsubscribe
  unsubscribe-Remembers t id r =
      if_cases (Remembers cfg key at) (any (λ i. i == id) t.subscribers) _ _
        (λ _. record { same = r.same; found = r.found }) (λ _. r)

  close_subscription-Remembers :
      (t : TopicRuntime) (sub : Option Subscription)
      → Remembers cfg key at t
      → Remembers cfg key at (close_subscription t sub).0
  unfolding close_subscription
  close_subscription-Remembers t none r = r
  close_subscription-Remembers t (some sub) r =
      if_cases (λ (x : TopicRuntime × Option Subscription × Option Error). Remembers cfg key at x.0)
        sub.closed _ _ (λ _. r) (λ _. unsubscribe-Remembers t sub.id r)

  subscribe-Remembers :
      (t : TopicRuntime) → Remembers cfg key at t → Remembers cfg key at (subscribe t).0
  unfolding subscribe
  subscribe-Remembers t r =
      if_cases (λ (x : TopicRuntime × Subscription). Remembers cfg key at x.0) t.closed _ _
        (λ _. record { same = r.same; found = r.found })
        (λ _. record { same = r.same; found = r.found })

  close-Remembers : (t : TopicRuntime) → Remembers cfg key at t → Remembers cfg key at (close t)
  unfolding close
  close-Remembers t r =
      if_cases (Remembers cfg key at) t.closed _ _ (λ _. r)
        (λ _. record { same = r.same; found = r.found })

  discover_peers-Remembers :
      (ip_string : Bytes → String) (t : TopicRuntime)
      → Remembers cfg key at t
      → Remembers cfg key at (discover_peers ip_string t).0
  unfolding discover_peers refresh
  discover_peers-Remembers ip_string t r =
      let P : TopicRuntime × Result (List Peer) → Type 0 = λ x. Remembers cfg key at x.0 in
      if_cases P t.cfg.discovery.ledger_peers.enabled _ _
        (λ _.
          option_cases P t.cfg.discovery.ledger_peers.provider _ _
            (λ _. if_cases P t.cfg.discovery.ledger_peers.allow_unsupported _ _ (λ _. r) (λ _. r))
            (λ provider _.
              result_cases P (provider ledger_peer_snapshot_all) _ _
                (λ e _. if_cases P _ _ _ (λ _. r) (λ _. r))
                (λ snapshot _. record { same = r.same; found = r.found })))
        (λ _. r)

  module _ (w : Wire) (ip_string : Bytes → String) where
    step-Remembers :
        (t : TopicRuntime) (c : Call)
        → Within cfg at c
        → Remembers cfg key at t
        → Remembers cfg key at (step w ip_string t c)
    unfolding step message_ids messages_by_ids receive_message
    step-Remembers t (submits m source peer checked now) h r =
        submit_signed-Remembers cfg key at w t m source peer checked now h r
    step-Remembers t (publishes body signed checked now) h r =
        publish-Remembers cfg key at w t body signed checked now h r
    step-Remembers t (lists_ids max now) h r = prune_queue-Remembers cfg key at w now t r
    step-Remembers t (serves wanted now) h r = prune_queue-Remembers cfg key at w now t r
    step-Remembers t subscribes h r = subscribe-Remembers t r
    step-Remembers t (unsubscribes sub) h r = close_subscription-Remembers t sub r
    step-Remembers t (receives id) h r = record { same = r.same; found = r.found }
    step-Remembers t discovers h r = discover_peers-Remembers ip_string t r
    step-Remembers t (reports e) h r =
        Quiet-Remembers cfg key at t (call_error t e) (call_error-Quiet t e) r
    step-Remembers t closes h r = close-Remembers t r

    run-Remembers :
        (t : TopicRuntime) (cs : List Call)
        → All (Within cfg at) cs
        → Remembers cfg key at t
        → Remembers cfg key at (run w ip_string t cs)
    unfolding run
    run-Remembers t [] h r = r
    run-Remembers t (c ∷ cs) h r =
        run-Remembers (step w ip_string t c) cs h.1 (step-Remembers t c h.0 r)

-- Once a submission at the time `at` is accepted, no message with the same ID is accepted at the
-- time `now` within the configured window, whatever calls are made between, as long as the clock
-- stays within the window at each.
pub accepted_once :
    (w : Wire) (ip_string : Bytes → String) (t : TopicRuntime) (msg again : DmqMessage)
    (source source' : String) (peer peer' : Option Peer) (checked checked' at now : Time)
    (cs : List Call)
    → (submit_signed w t (some msg) source peer checked at).error ≡ none
    → All (Within t.cfg at) cs
    → InWindow t.cfg at now
    → w.msg_id (normalize_and_validate_message w again).0
      ≡ w.msg_id (normalize_and_validate_message w msg).0
    → (submit_signed w
        (run w ip_string (submit_signed w t (some msg) source peer checked at).topic cs)
        (some again)
        source'
        peer'
        checked'
        now).error
      ≢ none
accepted_once w ip_string t msg again source source' peer peer' checked checked' at now cs ok h k
      e =
    let key = w.msg_id (normalize_and_validate_message w msg).0 in
    let u = (submit_signed w t (some msg) source peer checked at).topic in
    submit_signed_again t.cfg key at w (run w ip_string u cs) again source' peer' checked' now e k (
      run-Remembers t.cfg key at w ip_string u cs h
        (accepted-Remembers w t msg source peer checked at ok))
