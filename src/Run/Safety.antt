-- ===== src/Run/Safety.antt =====
-- Whatever is called on a topic, its invariant holds.
use mathlib.Core.Path.{subst}
use dmq_lib.Prelude.{
  ℕ, ◌+◌, ◌^◌, ◌<◌, ◌≡◌, refl, String, List, [], ◌∷◌, length, Bytes, arith, if_cases, option_cases,
}
use dmq_lib.Prelude.Int.{pos, ◌≤ℤ◌}
use dmq_lib.Errors.{Result, result_cases}
use dmq_lib.Peer.{Peer, LedgerPeerSnapshot, ledger_peer_snapshot_all}
use dmq_lib.Wire.{Wire}
use dmq_lib.Config.{TopicConfig, default_topic_config}
use dmq_lib.Config.Defaults.{default_topic_config-IsComplete}
use dmq_lib.Topic.{TopicRuntime, new_topic_runtime}
use dmq_lib.Topic.Invariant.{
  IsSound, retold-IsSound, call_error-IsSound, submit_signed-IsSound, publish-IsSound,
  message_ids-IsSound, messages_by_ids-IsSound,
}
use dmq_lib.Topic.Subscribers.{
  subscribe-IsSound, close-IsSound, close_subscription-IsSound, receive_message-IsSound,
}
use dmq_lib.Discovery.{refresh, discover_peers}
use dmq_lib.Run.{
  Call, submits, publishes, lists_ids, serves, subscribes, unsubscribes, receives, discovers,
  reports, closes, step, run,
}

-- More subscriptions may be counted.
pub IsSound-mono : (n : ℕ) (t : TopicRuntime) → IsSound n t → IsSound (n + 1) t
IsSound-mono n t s = record {
  sized = s.sized;
  bounded = s.bounded;
  counted = omega (arith, s.counted);
  below = s.below;
  distinct = s.distinct;
  opened = s.opened;
  fits = s.fits;
  calm = s.calm;
  emptied = s.emptied;
  keyed = s.keyed;
}

refresh-IsSound :
    (ip_string : Bytes → String) (n : ℕ) (t : TopicRuntime) (snapshot : LedgerPeerSnapshot)
    → IsSound n t
    → IsSound n (refresh ip_string t snapshot)
unfolding refresh
refresh-IsSound ip_string n t snapshot s = retold-IsSound n t _ t.seen _ s.keyed s

discover_peers-IsSound :
    (ip_string : Bytes → String) (n : ℕ) (t : TopicRuntime)
    → IsSound n t
    → IsSound n (discover_peers ip_string t).0
unfolding discover_peers
discover_peers-IsSound ip_string n t s =
    let P : TopicRuntime × Result (List Peer) → Type 0 = λ r. IsSound n r.0 in
    if_cases P t.cfg.discovery.ledger_peers.enabled _ _
      (λ _.
        option_cases P t.cfg.discovery.ledger_peers.provider _ _
          (λ _. if_cases P t.cfg.discovery.ledger_peers.allow_unsupported _ _ (λ _. s) (λ _. s))
          (λ provider _.
            result_cases P (provider ledger_peer_snapshot_all) _ _
              (λ e _. if_cases P _ _ _ (λ _. s) (λ _. s))
              (λ snapshot _. refresh-IsSound ip_string n t snapshot s)))
      (λ _. s)

module _ (w : Wire) (ip_string : Bytes → String) where
  pub step-IsSound :
      (n : ℕ) (t : TopicRuntime) (c : Call)
      → n + 1 < 2 ^ 64
      → IsSound n t
      → IsSound (n + 1) (step w ip_string t c)
  unfolding step
  step-IsSound n t (submits m source peer checked now) h s =
      IsSound-mono n _ (submit_signed-IsSound w n t m source peer checked now s)
  step-IsSound n t (publishes body signed checked now) h s =
      IsSound-mono n _ (publish-IsSound w n t body signed checked now s)
  step-IsSound n t (lists_ids max now) h s = IsSound-mono n _ (message_ids-IsSound w n t max now s)
  step-IsSound n t (serves wanted now) h s =
      IsSound-mono n _ (messages_by_ids-IsSound w n t wanted now s)
  step-IsSound n t subscribes h s = subscribe-IsSound n t h s
  step-IsSound n t (unsubscribes sub) h s = IsSound-mono n _ (close_subscription-IsSound n t sub s)
  step-IsSound n t (receives id) h s = IsSound-mono n _ (receive_message-IsSound n t id s)
  step-IsSound n t discovers h s = IsSound-mono n _ (discover_peers-IsSound ip_string n t s)
  step-IsSound n t (reports e) h s = IsSound-mono n _ (call_error-IsSound n t e s)
  step-IsSound n t closes h s = IsSound-mono n _ (close-IsSound n t s)

  run_from-IsSound :
      (n m : ℕ) (t : TopicRuntime) (cs : List Call)
      → n + length cs ≡ m
      → m < 2 ^ 64
      → IsSound n t
      → IsSound m (run w ip_string t cs)
  unfolding run
  run_from-IsSound n m t [] e h s = subst (λ k. IsSound k t) (omega (arith, e)) s
  run_from-IsSound n m t (c ∷ cs) e h s =
      run_from-IsSound (n + 1) m (step w ip_string t c) cs (omega (arith, e)) h
        (step-IsSound n t c (omega (arith, e)) s)

pub new_topic_runtime-IsSound :
    (n : ℕ) (name : String) (cfg : TopicConfig)
    → pos 0 ≤ℤ cfg.queue.subscriber_buffer
    → pos 0 ≤ℤ cfg.queue.max_messages
    → IsSound n (new_topic_runtime name cfg)
unfolding new_topic_runtime
new_topic_runtime-IsSound n name cfg b m = record {
  sized = b;
  bounded = m;
  counted = omega arith;
  below = tt;
  distinct = tt;
  opened = tt;
  fits = tt;
  calm = refl;
  emptied = λ _. refl;
  keyed = tt;
}

-- From the start of a topic, whatever its configuration, and after fewer than 2^64 calls of any
-- kind: the queue is within its limit, every subscriber is distinct and has an open channel, no
-- buffer passes its capacity, no send or close on a closed channel has panicked, a closed topic has
-- no subscriber, and no ID is remembered twice.
pub run-IsSound :
    (w : Wire) (ip_string : Bytes → String) (name : String) (cfg : TopicConfig) (cs : List Call)
    → length cs < 2 ^ 64
    → IsSound (length cs) (run w ip_string (new_topic_runtime name (default_topic_config cfg)) cs)
run-IsSound w ip_string name cfg cs h =
    let complete = default_topic_config-IsComplete cfg in
    run_from-IsSound w ip_string 0 (length cs) _ cs (omega arith) h (
      new_topic_runtime-IsSound 0 name (default_topic_config cfg)
        (ground (arith, complete.subscriber_buffer)) (ground (arith, complete.max_messages)))
